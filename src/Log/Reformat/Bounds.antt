-- ===== src/Log/Reformat/Bounds.antt =====
-- How long a formatted line can get.
use spangap_core.Base.{
  ℕ, ◌+◌, ◌-◌, ◌≤◌, ◌≡◌, ap, inl, inr, Bool, true, false, not, ◌&&◌, Option, none, some, List, [],
  ◌∷◌, ◌++◌, arith, ltb, ◌==◌, if◌then◌else◌, length, get_or, take, codes, eq_bytes, length-append,
  if-P,
}
use spangap_core.Log.Level.{log_color}
use spangap_core.Log.Rules.{log_rule_apply}
use spangap_core.Log.Reformat.{
  LineEnv, escape, task_name, color_part, reset_part, stamp, ts_part, tagged, assemble, emit,
  continuation, leveled, log_reformat, own_tag, shown_tag, tag_arg, has_level, skip_leading,
  skip_while, trim_newlines, is_white, after_stamp, split_tag, message_body, drop_names, all_white,
}
use spangap_core.Log.Reformat.Plain.{log_color-P}
use spangap_core.Log.Reformat.Shorter.{
  IsShort, take-IsShort, skip_leading-IsShort, drop_names-IsShort, after_stamp-IsShort,
  message_body-IsShort, split_tag-IsShort, tagged-IsShort, tagged-none,
}

-- No time stamps, colours of at most four bytes and a task name of at most fifteen.
pub record IsDefault (e : LineEnv) : Type 0 where
  pub no_stamp : e.show_ts ≡ false
  pub short_error : IsShort 4 e.colors.error
  pub short_warn : IsShort 4 e.colors.warn
  pub short_info : IsShort 4 e.colors.info
  pub short_debug : IsShort 4 e.colors.debug
  pub short_verbose : IsShort 4 e.colors.verbose
  pub short_task : IsShort 15 (task_name e.task)

color_part-IsShort :
    (e : LineEnv) (ansi : Bool) (level : ℕ) → IsDefault e → IsShort 7 (color_part e ansi level)
unfolding color_part
color_part-IsShort e ansi level d =
    let color = log_color e.colors level in
    let short : IsShort 4 color =
      log_color-P (IsShort 4) e.colors level d.short_error d.short_warn d.short_info d.short_debug
        d.short_verbose in
    if-P (IsShort 7) ansi (take 23 (escape color)) []
      (omega (arith, take-IsShort 23 (escape color), length-append color (109 ∷ []), short))
      (omega arith)

no_stamp-length : (e : LineEnv) (ansi : Bool) → e.show_ts ≡ false → length (ts_part e ansi) ≡ 0
unfolding ts_part stamp
no_stamp-length e ansi h = ap (λ b. length (stamp b e.colors.timestamp e.wall ansi)) h

reset_part-IsShort : (ansi : Bool) → IsShort 4 (reset_part ansi)
reset_part-IsShort true = omega arith
reset_part-IsShort false = omega arith

length-assemble :
    (e : LineEnv) (ansi : Bool) (level : ℕ) (tag : Option (List ℕ)) (body : List ℕ)
    → IsDefault e
    → length (assemble e ansi level tag body) ≤ length (tagged tag) + length body + 32
unfolding assemble
length-assemble e ansi level tag body d =
    let end = reset_part ansi ++ 10 ∷ [] in
    let named = level ∷ 32 ∷ 91 ∷ task_name e.task in
    let head = 93 ∷ 32 ∷ tagged tag in
    omega (
      arith,
      length-append (ts_part e ansi)
          (color_part e ansi level ++ (named ++ (head ++ (body ++ end)))),
      length-append (color_part e ansi level) (named ++ (head ++ (body ++ end))),
      length-append named (head ++ (body ++ end)),
      length-append head (body ++ end),
      length-append body end,
      length-append (reset_part ansi) (10 ∷ []),
      no_stamp-length e ansi d.no_stamp,
      color_part-IsShort e ansi level d,
      reset_part-IsShort ansi,
      d.short_task,
    )

length-emit :
    (e : LineEnv) (ansi : Bool) (last : ℕ) (level : Option ℕ) (tag : Option (List ℕ))
    (body : List ℕ)
    → IsDefault e
    → length (emit e ansi last level tag body).0 ≤ length (tagged tag) + length body + 32
unfolding emit
length-emit e ansi last none tag body d = omega arith
length-emit e ansi last (some level) tag body d = length-assemble e ansi level tag body d

length-continuation :
    (e : LineEnv) (last : ℕ) (p : List ℕ) (ansi : Bool)
    → IsDefault e
    → length (continuation e last p ansi).0 ≤ length p + 32
unfolding continuation
length-continuation e last p ansi d =
    let n = trim_newlines p (length p) in
    let n' =
      if ltb 4 n && get_or p (n - 1) 0 == 109 && get_or p (n - 4) 0 == 27 then n - 4 else n in
    let ck = skip_while is_white (take n' p) in
    let level = log_rule_apply e.level_get e.rules ck none last in
    if-P (λ (r : List ℕ × ℕ). length r.0 ≤ length p + 32) (length ck == 0) ([], last)
      (emit e ansi last level none (take n' p)) (omega arith)
      (omega (arith, length-emit e ansi last level none (take n' p) d, take-IsShort n' p))

length-leveled :
    (e : LineEnv) (p : List ℕ) (ansi : Bool)
    → IsDefault e
    → length (leveled e p ansi).0 ≤ length p + 32
unfolding leveled
length-leveled e p ansi d =
    let level = get_or p 0 0 in
    let s = after_stamp p in
    let tag = (split_tag s).0 in
    let msg = (split_tag s).1 in
    let body = message_body msg in
    let name = task_name e.task in
    let own = own_tag e tag && not (eq_bytes name (codes "?")) in
    let body' = if own then drop_names name (length body) body else body in
    let body_short : IsShort (length msg) body' =
      if-P (IsShort (length msg)) own (drop_names name (length body) body) body
        (omega (arith, drop_names-IsShort name (length body) body, message_body-IsShort msg))
        (message_body-IsShort msg) in
    let tags : length (tagged (shown_tag e tag)) + length msg ≤ length p =
      elim (split_tag-IsShort s).1 [
        | inl no_tag ↦
            omega (arith, tagged-none e tag no_tag, (split_tag-IsShort s).0, after_stamp-IsShort p)
        | inr both ↦ omega (arith, tagged-IsShort e tag, both, after_stamp-IsShort p)
      ] in
    let level' = log_rule_apply e.level_get e.rules body' (tag_arg tag) level in
    let line = emit e ansi level level' (shown_tag e tag) body' in
    if-P (λ (r : List ℕ × ℕ). length r.0 ≤ length p + 32) (all_white body) ([], level) _
      (omega arith)
      (if-P (λ (r : List ℕ × ℕ). length r.0 ≤ length p + 32) (own && length body' == 0) ([], level)
        line (omega arith)
        (omega
          (arith, length-emit e ansi level level' (shown_tag e tag) body' d, body_short, tags)))

-- With no time stamps, colours of at most four bytes and a task name of at most fifteen, a line of
-- at most 1023 bytes formats into at most 1055: it fits the buffer of 1056 with its NUL.
pub log_reformat-fits :
    (e : LineEnv) (last : ℕ) (src : List ℕ) (ansi : Bool)
    → IsDefault e
    → length src ≤ 1023
    → length (log_reformat e last src ansi).0 ≤ 1055
unfolding log_reformat
log_reformat-fits e last src ansi d short =
    let p = skip_leading (length src) src in
    let less = skip_leading-IsShort (length src) src in
    if-P (λ (r : List ℕ × ℕ). length r.0 ≤ 1055) (has_level p) (leveled e p ansi)
      (continuation e last p ansi) (omega (arith, length-leveled e p ansi d, less, short))
      (omega (arith, length-continuation e last p ansi d, less, short))
