-- ===== src/Log/Reformat/Strip.antt =====
-- The coloured line and the plain one say the same.
use spangap_core.Base.{
  ℕ, ◌-◌, ◌≤◌, ◌≡◌, refl, sym, ap, ◌∙◌, inl, inr, Bool, true, false, not, ◌&&◌, Option, none, some,
  List, [], ◌∷◌, ◌++◌, arith, ltb, ◌==◌, if◌then◌else◌, Bool-cases, length, get_or, take, All,
  codes, eq_bytes, length-append, All-append, take-all, length-take, if-P,
}
use spangap_core.Log.Ansi.{strip_from, strip_ansi}
use spangap_core.Log.Level.{log_color, level_of_char}
use spangap_core.Log.Rules.{LogRule, rule_matches, log_rule_apply}
use spangap_core.Log.Reformat.{
  LineEnv, escape, reset_seq, task_name, color_part, reset_part, stamp, ts_part, tagged, assemble,
  emit, continuation, leveled, log_reformat, own_tag, shown_tag, tag_arg, has_level, skip_leading,
  skip_while, trim_newlines, is_white, after_stamp, split_tag, message_body, drop_names, all_white,
}
use spangap_core.Log.Reformat.Plain.{
  All-take, All-drop_names, All-skip_leading, All-after_stamp, All-split_tag, All-message_body,
  log_color-P,
}
use spangap_core.Log.Reformat.Escapes.{
  IsText, IsColor, Strips, Strips-text, Strips-append, Strips-escape, strip_ansi-Strips,
}

-- The colours have no m and fit their 16 bytes, and no name, rule or time stamp has an ESC.
pub record IsSane (e : LineEnv) : Type 0 where
  pub error_color : IsColor e.colors.error
  pub warn_color : IsColor e.colors.warn
  pub info_color : IsColor e.colors.info
  pub debug_color : IsColor e.colors.debug
  pub verbose_color : IsColor e.colors.verbose
  pub timestamp_color : IsColor e.colors.timestamp
  pub task_text : All IsText (task_name e.task)
  pub wall_text : All IsText e.wall
  pub rules_text : All (λ r. IsText r.level) e.rules

level-IsColor : (e : LineEnv) (level : ℕ) → IsSane e → IsColor (log_color e.colors level)
level-IsColor e level sane =
    log_color-P IsColor e.colors level sane.error_color sane.warn_color sane.info_color
      sane.debug_color sane.verbose_color

Strips-color_part :
    (e : LineEnv) (level : ℕ)
    → IsSane e
    → Strips (color_part e true level) (color_part e false level)
unfolding color_part
Strips-color_part e level sane ys =
    let color = log_color e.colors level in
    let is_color = level-IsColor e level sane in
    let short : length (escape color) ≤ 23 =
      omega (arith, length-append color (109 ∷ []), is_color.1) in
    ap (λ w. strip_from false (w ++ ys)) (take-all 23 (escape color) short)
    ∙ Strips-escape color is_color.0 ys

Strips-reset : Strips (reset_part true) (reset_part false)
unfolding strip_from
Strips-reset ys = refl

Strips-stamp :
    (shown : Bool) (color wall : List ℕ)
    → IsColor color
    → All IsText wall
    → Strips (stamp shown color wall true) (stamp shown color wall false)
unfolding stamp
Strips-stamp false color wall c w ys = refl
Strips-stamp true color wall c w ys =
    let ts = take 23 wall in
    let long : length ts ≤ 23 = omega (arith, length-take 23 wall) in
    let tail = ts ++ (reset_seq ++ 32 ∷ []) in
    let tail_long : length tail ≤ 28 =
      omega (arith, length-append ts (reset_seq ++ 32 ∷ []), long) in
    let escape_long : length (escape color) ≤ 18 =
      omega (arith, length-append color (109 ∷ []), c.1) in
    let whole : length (escape color ++ tail) ≤ 47 =
      omega (arith, length-append (escape color) tail, tail_long, escape_long) in
    let plain_whole : length (ts ++ 32 ∷ []) ≤ 47 =
      omega (arith, length-append ts (32 ∷ []), long) in
    ap (λ w. strip_from false (w ++ ys)) (take-all 47 (escape color ++ tail) whole)
    ∙ Strips-append (escape color) [] tail (ts ++ 32 ∷ []) (Strips-escape color c.0)
        (Strips-append ts ts (reset_seq ++ 32 ∷ []) (32 ∷ [])
          (Strips-text ts (All-take IsText 23 wall w))
          (Strips-append reset_seq [] (32 ∷ []) (32 ∷ []) Strips-reset
            (Strips-text (32 ∷ []) ((λ h. omega (arith, h)), _))))
        ys
    ∙ ap (λ w. w ++ strip_from false ys) (sym (take-all 47 (ts ++ 32 ∷ []) plain_whole))

Strips-ts_part : (e : LineEnv) → IsSane e → Strips (ts_part e true) (ts_part e false)
unfolding ts_part
Strips-ts_part e sane =
    Strips-stamp e.show_ts e.colors.timestamp e.wall sane.timestamp_color sane.wall_text

abbrev pub TagIsText : Option (List ℕ) → Type 0
TagIsText none = Unit
TagIsText (some tag) = All IsText tag

tagged-IsText : (tag : Option (List ℕ)) → TagIsText tag → All IsText (tagged tag)
tagged-IsText none h = _
tagged-IsText (some t) h =
    All-append IsText t (58 ∷ 32 ∷ []) h ((λ k. omega (arith, k)), ((λ k. omega (arith, k)), _))

first-IsText : (p : List ℕ) → All IsText p → IsText (get_or p 0 0)
first-IsText [] h = λ k. omega (arith, k)
first-IsText (c ∷ cs) h = h.0

Strips-assemble :
    (e : LineEnv) (level : ℕ) (tag : Option (List ℕ)) (body : List ℕ)
    → IsSane e
    → IsText level
    → TagIsText tag
    → All IsText body
    → Strips (assemble e true level tag body) (assemble e false level tag body)
unfolding assemble
Strips-assemble e level tag body sane l t b =
    let task = level ∷ 32 ∷ 91 ∷ task_name e.task in
    let task_text : All IsText task =
      (l, ((λ h. omega (arith, h)), ((λ h. omega (arith, h)), sane.task_text))) in
    let head = 93 ∷ 32 ∷ tagged tag in
    let head_text : All IsText head =
      ((λ h. omega (arith, h)), ((λ h. omega (arith, h)), tagged-IsText tag t)) in
    let last : Strips (reset_part true ++ 10 ∷ []) (reset_part false ++ 10 ∷ []) =
      Strips-append reset_seq [] (10 ∷ []) (10 ∷ []) Strips-reset
        (Strips-text (10 ∷ []) ((λ h. omega (arith, h)), _)) in
    Strips-append (ts_part e true) (ts_part e false) _ _ (Strips-ts_part e sane) (
      Strips-append (color_part e true level) (color_part e false level) _ _
        (Strips-color_part e level sane)
        (Strips-append task task _ _ (Strips-text task task_text) (
          Strips-append head head _ _ (Strips-text head head_text)
            (Strips-append body body _ _ (Strips-text body b) last))))

abbrev LevelIsText : Option ℕ → Type 0
LevelIsText none = Unit
LevelIsText (some level) = IsText level

log_rule_apply-IsText :
    (level_get : Option (List ℕ) → ℕ) (rules : List LogRule) (msg : List ℕ) (tag : Option (List ℕ))
    (cur : ℕ)
    → All (λ r. IsText r.level) rules
    → IsText cur
    → LevelIsText (log_rule_apply level_get rules msg tag cur)
unfolding log_rule_apply
log_rule_apply-IsText level_get [] msg tag cur rs c = c
log_rule_apply-IsText level_get (r ∷ rules) msg tag cur (h, hs) c =
    if-P LevelIsText (not (rule_matches r msg tag)) _ _
      (log_rule_apply-IsText level_get rules msg tag cur hs c)
      (if-P LevelIsText (r.level == 78) none _ _
        (if-P LevelIsText (ltb (level_get tag) (level_of_char r.level)) none (some r.level) _ h))

strip_ansi-emit :
    (e : LineEnv) (last : ℕ) (level : Option ℕ) (tag : Option (List ℕ)) (body : List ℕ)
    → IsSane e
    → LevelIsText level
    → TagIsText tag
    → All IsText body
    → strip_ansi (emit e true last level tag body).0 ≡ (emit e false last level tag body).0
unfolding emit strip_ansi strip_from
strip_ansi-emit e last none tag body sane l t b = refl
strip_ansi-emit e last (some level) tag body sane l t b =
    strip_ansi-Strips (assemble e true level tag body) (assemble e false level tag body)
      (Strips-assemble e level tag body sane l t b)

strip_ansi-continuation :
    (e : LineEnv) (last : ℕ) (p : List ℕ)
    → IsSane e
    → IsText last
    → All IsText p
    → strip_ansi (continuation e last p true).0 ≡ (continuation e last p false).0
unfolding continuation strip_ansi strip_from
strip_ansi-continuation e last p sane l t =
    let n = trim_newlines p (length p) in
    let n' =
      if ltb 4 n && get_or p (n - 1) 0 == 109 && get_or p (n - 4) 0 == 27 then n - 4 else n in
    let ck = skip_while is_white (take n' p) in
    elim (Bool-cases (length ck == 0)) [
      | inl e1 ↦ rw e1 refl
      | inr e1 ↦ rw e1 (
          strip_ansi-emit e last (log_rule_apply e.level_get e.rules ck none last) none (take n' p)
            sane (log_rule_apply-IsText e.level_get e.rules ck none last sane.rules_text l) _
            (All-take IsText n' p t))
    ]

strip_ansi-leveled :
    (e : LineEnv) (p : List ℕ)
    → IsSane e
    → IsText (get_or p 0 0)
    → All IsText p
    → strip_ansi (leveled e p true).0 ≡ (leveled e p false).0
unfolding leveled strip_ansi strip_from
strip_ansi-leveled e p sane l t =
    let level = get_or p 0 0 in
    let tag = (split_tag (after_stamp p)).0 in
    let body = message_body (split_tag (after_stamp p)).1 in
    let name = task_name e.task in
    let own = own_tag e tag && not (eq_bytes name (codes "?")) in
    let body' = if own then drop_names name (length body) body else body in
    let parts = All-split_tag IsText (after_stamp p) (All-after_stamp IsText p t) in
    let body_text : All IsText body =
      All-message_body IsText (split_tag (after_stamp p)).1 parts.1 in
    let body'_text : All IsText body' =
      if-P (All IsText) own (drop_names name (length body) body) body
        (All-drop_names IsText name (length body) body body_text) body_text in
    let tag_text : TagIsText (shown_tag e tag) =
      if-P TagIsText (own_tag e tag) none (tag_arg tag) _
        (if-P TagIsText (length tag == 0) none (some tag) _ parts.0) in
    elim (Bool-cases (all_white body)) [
      | inl e1 ↦ rw e1 refl
      | inr e1 ↦ elim (Bool-cases (own && length body' == 0)) [
        | inl e2 ↦ rw e1 (rw e2 refl)
        | inr e2 ↦ rw e1 (
            rw e2 (
              strip_ansi-emit e level (log_rule_apply e.level_get e.rules body' (tag_arg tag) level)
                (shown_tag e tag) body' sane
                (log_rule_apply-IsText e.level_get e.rules body' (tag_arg tag) level sane.rules_text
                  l)
                tag_text body'_text))
      ]
    ]

-- For a text with no escape sequences of its own, and colours, names and rules with none, stripping
-- the coloured line leaves exactly the plain line, whichever way the line takes: dropped, kept as a
-- continuation, or formatted with or without its tag and its time stamp.
pub strip_ansi-log_reformat :
    (e : LineEnv) (last : ℕ) (src : List ℕ)
    → IsSane e
    → IsText last
    → All IsText src
    → strip_ansi (log_reformat e last src true).0 ≡ (log_reformat e last src false).0
unfolding log_reformat
strip_ansi-log_reformat e last src sane l t =
    let p = skip_leading (length src) src in
    let p_text : All IsText p = All-skip_leading IsText (length src) src t in
    elim (Bool-cases (has_level p)) [
      | inl h ↦ rw h (strip_ansi-leveled e p sane (first-IsText p p_text) p_text)
      | inr h ↦ rw h (strip_ansi-continuation e last p sane l p_text)
    ]
