-- ===== src/Log/Rules.antt =====
-- logRule and logRuleApply of esp-idf/src/log.cpp.
use spangap_core.Base.{
  ◌>>=◌, ℕ, suc, ◌+◌, Bool, true, false, not, ◌&&◌, Option, none, some, List, [], ◌∷◌, ◌++◌, ltb,
  leb, ◌==◌, if◌then◌else◌, length, get_or, take, drop, eq_bytes,
}
use spangap_core.Log.Level.{level_of_char, to_upper}

-- strchr(s, c), as an index.
unfoldable pub index_of : ℕ → List ℕ → Option ℕ
index_of c [] = none
index_of c (x ∷ xs) =
    let later = (index_of c xs >>= (λ i. some (suc i))) in if x == c then some 0 else later

-- strncmp(s, prefix, strlen(prefix)) == 0, and the length test in front of it.
unfoldable pub starts_with : List ℕ → List ℕ → Bool
starts_with s [] = true
starts_with [] (p ∷ ps) = false
starts_with (c ∷ cs) (p ∷ ps) = c == p && starts_with cs ps

-- tag_len is 0 for a rule on the body alone. The source's len is the length of the prefix.
pub record LogRule : Type 0 where
  pub prefix : List ℕ
  pub tag_len : ℕ
  pub level : ℕ

abbrev pub max_rules : ℕ
max_rules = 12

abbrev pub rule_tag_len : Option ℕ → ℕ
rule_tag_len none = 0
rule_tag_len (some i) = i

unfoldable pub log_rule : List LogRule → List ℕ → ℕ → List LogRule
log_rule rules prefix letter =
    let level = to_upper letter in
    if length prefix == 0
    then rules
    else if not (level == 78) && level_of_char level == 0
    then rules
    else if leb max_rules (length rules)
    then rules
    else rules
      ++ record { prefix = prefix; tag_len = rule_tag_len (index_of 58 prefix); level = level } ∷ []

-- The body prefix of a rule with a tag: what follows the colon and one space.
unfoldable pub rule_body : LogRule → List ℕ
rule_body r =
    let rem = drop (r.tag_len + 1) r.prefix in if get_or rem 0 0 == 32 then drop 1 rem else rem

unfoldable pub tag_matches : LogRule → Option (List ℕ) → Bool
tag_matches r none = false
tag_matches r (some tag) = eq_bytes tag (take r.tag_len r.prefix)

unfoldable pub rule_matches : LogRule → List ℕ → Option (List ℕ) → Bool
rule_matches r msg tag =
    if r.tag_len == 0
    then starts_with msg r.prefix
    else tag_matches r tag && starts_with msg (rule_body r)

-- The level to emit at, none to drop the line. `level_get` is esp_log_level_get.
unfoldable pub log_rule_apply :
    (Option (List ℕ) → ℕ) → List LogRule → List ℕ → Option (List ℕ) → ℕ → Option ℕ
log_rule_apply level_get [] msg tag cur = some cur
log_rule_apply level_get (r ∷ rules) msg tag cur =
    let later = log_rule_apply level_get rules msg tag cur in
    if not (rule_matches r msg tag)
    then later
    else if r.level == 78
    then none
    else if ltb (level_get tag) (level_of_char r.level)
    then none
    else some r.level
