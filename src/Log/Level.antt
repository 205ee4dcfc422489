-- ===== src/Log/Level.antt =====
-- The level letters of esp-idf/src/log.cpp: levelCharToNum, parseLevelNum, isLevelArg, lineLevel, findLevelCharPos,
-- levelOfChar, and the colours of the levels.
use spangap_core.Base.{
  ◌>>=◌, ℕ, suc, ◌-◌, Bool, true, false, ◌&&◌, ◌||◌, Option, none, some, List, [], ◌∷◌, map, leb,
  ◌==◌, if◌then◌else◌, length, get_or, take, codes, eq_bytes,
}

-- E, W, I, D and V.
unfoldable pub is_level : ℕ → Bool
is_level c = c == 69 || c == 87 || c == 73 || c == 68 || c == 86

unfoldable pub level_char_to_num : ℕ → ℕ
level_char_to_num c =
    if c == 69
    then 0
    else if c == 87
    then 1
    else if c == 73
    then 2
    else if c == 68
    then 3
    else if c == 86
    then 4
    else 2

unfoldable pub to_upper : ℕ → ℕ
to_upper c = if leb 97 c && leb c 122 then c - 32 else c

-- The first byte of a C string, 0 if it is empty.
unfoldable pub parse_level_num : List ℕ → ℕ
parse_level_num s =
    let c = to_upper (get_or s 0 0) in
    if c == 69 || c == 78
    then 0
    else if c == 87
    then 1
    else if c == 73
    then 2
    else if c == 68
    then 3
    else 4

-- strcasecmp(a, b) == 0
unfoldable pub same_word : List ℕ → List ℕ → Bool
same_word a b = eq_bytes (map to_upper a) (map to_upper b)

unfoldable pub is_level_arg : List ℕ → Bool
is_level_arg [] = false
is_level_arg (c ∷ cs) =
    let u = to_upper c in
    let s = c ∷ cs in
    if length cs == 0 && (u == 78 || is_level u)
    then true
    else same_word s (codes "none")
      || same_word s (codes "error")
      || same_word s (codes "warn")
      || same_word s (codes "info")
      || same_word s (codes "debug")
      || same_word s (codes "verbose")

-- Whether a level letter stands between a byte before it, a space at the start, and a space after it.
unfoldable pub stands_alone : ℕ → ℕ → List ℕ → Bool
stands_alone before c cs = is_level c && before == 32 && get_or cs 0 0 == 32

-- lineLevel from a position on, `before` the byte in front of it.
unfoldable pub line_level_from : ℕ → List ℕ → ℕ
line_level_from before [] = 73
line_level_from before (c ∷ cs) =
    let later = line_level_from c cs in
    if length cs == 0 || c == 10 then 73 else if stands_alone before c cs then c else later

unfoldable pub line_level : List ℕ → ℕ
line_level line = line_level_from 32 line

unfoldable pub level_pos_from : ℕ → List ℕ → Option ℕ
level_pos_from before [] = none
level_pos_from before (c ∷ cs) =
    let later = (level_pos_from c cs >>= (λ i. some (suc i))) in
    if stands_alone before c cs then some 0 else later

-- none stands for (size_t)-1.
unfoldable pub find_level_char_pos : List ℕ → Option ℕ
find_level_char_pos line = level_pos_from 32 line

-- esp_log_level_t: none 0, error 1, warn 2, info 3, debug 4, verbose 5.
unfoldable pub level_of_char : ℕ → ℕ
level_of_char c =
    if c == 69
    then 1
    else if c == 87
    then 2
    else if c == 73
    then 3
    else if c == 68
    then 4
    else if c == 86
    then 5
    else 0

pub record Colors : Type 0 where
  pub error : List ℕ
  pub warn : List ℕ
  pub info : List ℕ
  pub debug : List ℕ
  pub verbose : List ℕ
  pub timestamp : List ℕ

-- storageGetStr into 16 bytes, with its default.
unfoldable pub log_load_colors : (List ℕ → List ℕ → List ℕ) → Colors
log_load_colors storage_get_str =
    let load = λ (key : List ℕ) (def : List ℕ). take 15 (storage_get_str key def) in
    record {
      error = load (codes "s.log.colors.error") (codes "0;31");
      warn = load (codes "s.log.colors.warn") (codes "0;33");
      info = load (codes "s.log.colors.info") (codes "0;32");
      debug = load (codes "s.log.colors.debug") (codes "0;37");
      verbose = load (codes "s.log.colors.verbose") (codes "0;90");
      timestamp = load (codes "s.log.colors.timestamp") (codes "0;90");
    }

unfoldable pub log_color : Colors → ℕ → List ℕ
log_color k level =
    if level == 69
    then k.error
    else if level == 87
    then k.warn
    else if level == 73
    then k.info
    else if level == 68
    then k.debug
    else if level == 86
    then k.verbose
    else k.info
