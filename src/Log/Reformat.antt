-- ===== src/Log/Reformat.antt =====
-- logReformat of esp-idf/src/log.cpp. A C string is the list of the bytes before its NUL.
pub mod Plain
pub mod Escapes
pub mod Strip
pub mod Shorter
pub mod Bounds
use spangap_core.Base.{
  ℕ, zero, suc, ◌+◌, ◌-◌, Bool, true, false, not, ◌&&◌, ◌||◌, Option, none, some, List, [], ◌∷◌,
  ◌++◌, ltb, ◌==◌, if◌then◌else◌, length, get_or, take, drop, codes, eq_bytes, is_digit,
}
use spangap_core.Log.Level.{is_level, Colors, log_color}
use spangap_core.Log.Ansi.{opens_seq}
use spangap_core.Log.Rules.{index_of, LogRule, log_rule_apply}

-- What a line is formatted with. `task` is pcTaskGetName, none for a null pointer; `show_ts` is
-- s.log.timestamp, `wall` what fmtWallClock writes and `level_get` esp_log_level_get.
pub record LineEnv : Type 0 where
  pub colors : Colors
  pub rules : List LogRule
  pub task : Option (List ℕ)
  pub show_ts : Bool
  pub wall : List ℕ
  pub level_get : Option (List ℕ) → ℕ

abbrev pub is_space_char : ℕ → Bool
is_space_char c = c == 32

abbrev pub is_white : ℕ → Bool
is_white c = c == 32 || c == 9

abbrev pub is_newline : ℕ → Bool
is_newline c = c == 10 || c == 13

-- The parameters of an escape sequence.
abbrev pub is_param : ℕ → Bool
is_param c = is_digit c || c == 59

unfoldable pub skip_while : (ℕ → Bool) → List ℕ → List ℕ
skip_while test [] = []
skip_while test (c ∷ cs) = if test c then skip_while test cs else c ∷ cs

-- A sequence behind its bracket: the parameters, and the m.
unfoldable pub skip_seq : List ℕ → List ℕ
skip_seq p =
    let rest = skip_while is_param p in if get_or rest 0 0 == 109 then drop 1 rest else rest

-- The leading escape sequences. The fuel is the length.
unfoldable pub skip_leading : ℕ → List ℕ → List ℕ
skip_leading zero p = p
skip_leading (suc fuel) p =
    let rest = skip_leading fuel (skip_seq (drop 2 p)) in
    if opens_seq (get_or p 0 0) (drop 1 p) then rest else p

-- The length without the newlines at the end.
unfoldable pub trim_newlines : List ℕ → ℕ → ℕ
trim_newlines msg zero = zero
trim_newlines msg (suc n) =
    let shorter = trim_newlines msg n in if is_newline (get_or msg n 0) then shorter else suc n

-- The scan backwards for the ESC of a sequence that ends the text.
unfoldable pub scan_back : List ℕ → ℕ → ℕ
scan_back msg zero = zero
scan_back msg (suc i) =
    let c = get_or msg (suc i) 0 in
    let further = scan_back msg i in if is_digit c || c == 59 || c == 91 then further else suc i

-- The length without the sequences at the end. A text that is a single m is left alone: what is in
-- front of it is a colon, a parenthesis, a space or the level's letter. The fuel is the length.
unfoldable pub trim_resets : List ℕ → ℕ → ℕ → ℕ
trim_resets msg zero n = n
trim_resets msg (suc fuel) n =
    let i = scan_back msg (n - 2) in
    let shorter = trim_resets msg fuel i in
    if ltb n 2
    then n
    else if not (get_or msg (n - 1) 0 == 109)
    then n
    else if get_or msg i 0 == 27
    then shorter
    else n

unfoldable pub all_white : List ℕ → Bool
all_white [] = true
all_white (c ∷ cs) = is_white c && all_white cs

-- The loop that drops "name:" from the front of the body. The fuel is the length.
unfoldable pub drop_names : List ℕ → ℕ → List ℕ → List ℕ
drop_names name zero body = body
drop_names name (suc fuel) body =
    let tn = length name in
    let rest = drop_names name fuel (skip_while is_white (drop (tn + 1) body)) in
    if ltb (tn + 1) (length body) && eq_bytes (take tn body) name && get_or body tn 0 == 58
    then rest
    else body

abbrev pub task_name : Option (List ℕ) → List ℕ
task_name none = codes "?"
task_name (some name) = name

-- "\033[%sm"
abbrev pub escape : List ℕ → List ℕ
escape color = 27 ∷ 91 ∷ color ++ 109 ∷ []

abbrev pub reset_seq : List ℕ
reset_seq = 27 ∷ 91 ∷ 48 ∷ 109 ∷ []

-- color[24], reset and tsBuf[48].
unfoldable pub color_part : LineEnv → Bool → ℕ → List ℕ
color_part e ansi level = if ansi then take 23 (escape (log_color e.colors level)) else []

abbrev pub reset_part : Bool → List ℕ
reset_part ansi = if ansi then reset_seq else []

unfoldable pub stamp : Bool → List ℕ → List ℕ → Bool → List ℕ
stamp false color wall ansi = []
stamp true color wall true = take 47 (escape color ++ (take 23 wall ++ (reset_seq ++ 32 ∷ [])))
stamp true color wall false = take 47 (take 23 wall ++ 32 ∷ [])

unfoldable pub ts_part : LineEnv → Bool → List ℕ
ts_part e ansi = stamp e.show_ts e.colors.timestamp e.wall ansi

abbrev pub tagged : Option (List ℕ) → List ℕ
tagged none = []
tagged (some t) = t ++ 58 ∷ 32 ∷ []

-- "%s%s%c [%s] %.*s%s\n", and the tag with a colon when there is one to print.
unfoldable pub assemble : LineEnv → Bool → ℕ → Option (List ℕ) → List ℕ → List ℕ
assemble e ansi level tag body =
    ts_part e ansi
    ++ (color_part e ansi level
        ++ ((level ∷ 32 ∷ 91 ∷ task_name e.task)
            ++ ((93 ∷ 32 ∷ tagged tag) ++ (body ++ (reset_part ansi ++ 10 ∷ [])))))

-- What both returns of a line end in: the text, [] for a return of 0, and the new lastLevel.
unfoldable pub emit : LineEnv → Bool → ℕ → Option ℕ → Option (List ℕ) → List ℕ → List ℕ × ℕ
emit e ansi last none tag body = ([], last)
emit e ansi last (some level) tag body = (assemble e ansi level tag body, level)

-- The continuation lines: those that do not begin with a level.
unfoldable pub continuation : LineEnv → ℕ → List ℕ → Bool → List ℕ × ℕ
continuation e last p ansi =
    let n = trim_newlines p (length p) in
    let n' =
      if ltb 4 n && get_or p (n - 1) 0 == 109 && get_or p (n - 4) 0 == 27 then n - 4 else n in
    let ck = skip_while is_white (take n' p) in
    if length ck == 0
    then ([], last)
    else emit e ansi last (log_rule_apply e.level_get e.rules ck none last) none (take n' p)

abbrev pub skip_stamp : List ℕ → Option ℕ → List ℕ
skip_stamp rest none = rest
skip_stamp rest (some i) = skip_while is_space_char (drop (i + 1) rest)

-- What follows the level and its time stamp.
unfoldable pub after_stamp : List ℕ → List ℕ
after_stamp p = let rest = skip_while is_space_char (drop 1 p) in skip_stamp rest (index_of 41 rest)

abbrev pub drop_space : List ℕ → List ℕ
drop_space msg = if is_space_char (get_or msg 0 0) then drop 1 msg else msg

abbrev pub split_colon : List ℕ → Option ℕ → List ℕ × List ℕ
split_colon s none = ([], s)
split_colon s (some i) =
    if ltb i 32 && ltb 0 i then (take i s, drop_space (drop (i + 1) s)) else ([], s)

-- The tag, [] for none, and the message.
unfoldable pub split_tag : List ℕ → List ℕ × List ℕ
split_tag s = split_colon s (index_of 58 s)

-- The body of a message: newlines and sequences at the end cut off.
unfoldable pub message_body : List ℕ → List ℕ
message_body msg = let n = trim_newlines msg (length msg) in take (trim_resets msg n n) msg

-- Whether the tag is the task's own name.
abbrev pub own_tag : LineEnv → List ℕ → Bool
own_tag e tag = ltb 0 (length tag) && eq_bytes tag (task_name e.task)

abbrev pub tag_arg : List ℕ → Option (List ℕ)
tag_arg tag = if length tag == 0 then none else some tag

abbrev pub shown_tag : LineEnv → List ℕ → Option (List ℕ)
shown_tag e tag = if own_tag e tag then none else tag_arg tag

-- A line that begins with a level: lastLevel is the line's own from the start.
unfoldable pub leveled : LineEnv → List ℕ → Bool → List ℕ × ℕ
leveled e p ansi =
    let level = get_or p 0 0 in
    let tag = (split_tag (after_stamp p)).0 in
    let body = message_body (split_tag (after_stamp p)).1 in
    let name = task_name e.task in
    let own = own_tag e tag && not (eq_bytes name (codes "?")) in
    let body' = if own then drop_names name (length body) body else body in
    if all_white body
    then ([], level)
    else if own && length body' == 0
    then ([], level)
    else emit e ansi level (log_rule_apply e.level_get e.rules body' (tag_arg tag) level)
        (shown_tag e tag) body'

unfoldable pub has_level : List ℕ → Bool
has_level p = is_level (get_or p 0 0) && get_or (skip_while is_space_char (drop 1 p)) 0 0 == 40

-- The line as snprintf would write it in full, [] for a return of 0, and the new lastLevel.
unfoldable pub log_reformat : LineEnv → ℕ → List ℕ → Bool → List ℕ × ℕ
log_reformat e last src ansi =
    let p = skip_leading (length src) src in
    if has_level p then leveled e p ansi else continuation e last p ansi
