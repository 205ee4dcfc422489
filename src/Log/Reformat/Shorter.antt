-- ===== src/Log/Reformat/Shorter.antt =====
-- The parts that logReformat takes from a line are no longer than it.
use spangap_core.Base.{
  ◌>>=◌, ℕ, zero, suc, ◌+◌, ◌-◌, ◌≤◌, ◌<◌, ◌≡◌, refl, ◌⊎◌, inl, inr, Bool, ◌&&◌, Option, none, some,
  List, [], ◌∷◌, arith, ltb, ◌==◌, length, get_or, take, drop, eq_bytes, length-append, length-take,
  length-drop, if-P,
}
use spangap_core.Log.Rules.{index_of}
use spangap_core.Log.Reformat.{
  LineEnv, tagged, own_tag, shown_tag, tag_arg, skip_leading, skip_seq, skip_while, skip_stamp,
  trim_newlines, trim_resets, is_white, is_space_char, is_param, after_stamp, split_tag,
  split_colon, drop_space, message_body, drop_names,
}

-- A text of at most so many bytes.
abbrev pub IsShort : ℕ → List ℕ → Type 0
IsShort n s = length s ≤ n

skip_while-IsShort : (test : ℕ → Bool) (s : List ℕ) → IsShort (length s) (skip_while test s)
unfolding skip_while
skip_while-IsShort test [] = omega arith
skip_while-IsShort test (c ∷ cs) =
    if-P (IsShort (suc (length cs))) (test c) (skip_while test cs) (c ∷ cs)
      (omega (arith, skip_while-IsShort test cs)) (omega arith)

drop-IsShort : (n : ℕ) (s : List ℕ) → IsShort (length s - n) (drop n s)
drop-IsShort n s = omega (arith, length-drop n s)

pub take-IsShort : (n : ℕ) (s : List ℕ) → IsShort (length s) (take n s)
take-IsShort n s = omega (arith, length-take n s)

skip_seq-IsShort : (s : List ℕ) → IsShort (length s) (skip_seq s)
unfolding skip_seq
skip_seq-IsShort s =
    let rest = skip_while is_param s in
    let short = skip_while-IsShort is_param s in
    if-P (IsShort (length s)) (get_or rest 0 0 == 109) (drop 1 rest) rest
      (omega (arith, drop-IsShort 1 rest, short)) short

pub skip_leading-IsShort : (fuel : ℕ) (p : List ℕ) → IsShort (length p) (skip_leading fuel p)
unfolding skip_leading
skip_leading-IsShort zero p = omega arith
skip_leading-IsShort (suc fuel) p =
    let rest = skip_seq (drop 2 p) in
    if-P (IsShort (length p)) (get_or p 0 0 == 27 && get_or (drop 1 p) 0 0 == 91)
      (skip_leading fuel rest) p
      (omega (arith, skip_leading-IsShort fuel rest, skip_seq-IsShort (drop 2 p), drop-IsShort 2 p))
      (omega arith)

pub drop_names-IsShort :
    (name : List ℕ) (fuel : ℕ) (body : List ℕ) → IsShort (length body) (drop_names name fuel body)
unfolding drop_names
drop_names-IsShort name zero body = omega arith
drop_names-IsShort name (suc fuel) body =
    let tn = length name in
    let cut = skip_while is_white (drop (tn + 1) body) in
    if-P (IsShort (length body))
      (ltb (tn + 1) (length body) && eq_bytes (take tn body) name && get_or body tn 0 == 58)
      (drop_names name fuel cut) body
      (omega (
        arith,
        drop_names-IsShort name fuel cut,
        skip_while-IsShort is_white (drop (tn + 1) body),
        drop-IsShort (tn + 1) body,
      ))
      (omega arith)

skip_stamp-IsShort : (rest : List ℕ) (at : Option ℕ) → IsShort (length rest) (skip_stamp rest at)
skip_stamp-IsShort rest none = omega arith
skip_stamp-IsShort rest (some i) =
    omega (arith, skip_while-IsShort is_space_char (drop (i + 1) rest), drop-IsShort (i + 1) rest)

pub after_stamp-IsShort : (p : List ℕ) → IsShort (length p - 1) (after_stamp p)
unfolding after_stamp
after_stamp-IsShort p =
    let rest = skip_while is_space_char (drop 1 p) in
    omega (
      arith,
      skip_stamp-IsShort rest (index_of 41 rest),
      skip_while-IsShort is_space_char (drop 1 p),
      drop-IsShort 1 p,
    )

pub message_body-IsShort : (msg : List ℕ) → IsShort (length msg) (message_body msg)
unfolding message_body
message_body-IsShort msg =
    let n = trim_newlines msg (length msg) in take-IsShort (trim_resets msg n n) msg

-- An index that was found is one of the text.
abbrev IsIndex : ℕ → Option ℕ → Type 0
IsIndex n none = Unit
IsIndex n (some i) = i < n

next-IsIndex : (n : ℕ) (o : Option ℕ) → IsIndex n o → IsIndex (suc n) (o >>= (λ i. some (suc i)))
next-IsIndex n none h = _
next-IsIndex n (some i) h = omega (arith, h)

index_of-IsIndex : (c : ℕ) (s : List ℕ) → IsIndex (length s) (index_of c s)
unfolding index_of
index_of-IsIndex c [] = _
index_of-IsIndex c (x ∷ xs) =
    if-P (IsIndex (suc (length xs))) (x == c) (some 0) (index_of c xs >>= (λ i. some (suc i)))
      (omega arith) (next-IsIndex (length xs) (index_of c xs) (index_of-IsIndex c xs))

-- A tag and its message are shorter than what they stand in.
abbrev SplitIsShort : List ℕ → List ℕ × List ℕ → Type 0
SplitIsShort s r =
    (length r.1 ≤ length s) × ((length r.0 ≡ 0) ⊎ (length r.0 + 1 + length r.1 ≤ length s))

split_colon-IsShort :
    (s : List ℕ) (at : Option ℕ) → IsIndex (length s) at → SplitIsShort s (split_colon s at)
split_colon-IsShort s none h = (omega arith, inl refl)
split_colon-IsShort s (some i) h =
    let msg = drop (i + 1) s in
    let msg_long = drop-IsShort (i + 1) s in
    let body_long : IsShort (length msg) (drop_space msg) =
      if-P (IsShort (length msg)) (is_space_char (get_or msg 0 0)) (drop 1 msg) msg
        (omega (arith, drop-IsShort 1 msg)) (omega arith) in
    if-P (SplitIsShort s) (ltb i 32 && ltb 0 i) (take i s, drop_space msg) ([], s)
      (
        omega (arith, body_long, msg_long),
        inr (omega (arith, body_long, msg_long, length-take i s, h)),
      )
      (omega arith, inl refl)

pub split_tag-IsShort : (s : List ℕ) → SplitIsShort s (split_tag s)
unfolding split_tag
split_tag-IsShort s = split_colon-IsShort s (index_of 58 s) (index_of-IsIndex 58 s)

pub tagged-IsShort :
    (e : LineEnv) (tag : List ℕ) → IsShort (length tag + 2) (tagged (shown_tag e tag))
tagged-IsShort e tag =
    if-P (λ o. IsShort (length tag + 2) (tagged o)) (own_tag e tag) none (tag_arg tag) (omega arith)
      (if-P (λ o. IsShort (length tag + 2) (tagged o)) (length tag == 0) none (some tag)
        (omega arith) (omega (arith, length-append tag (58 ∷ 32 ∷ []))))

pub tagged-none :
    (e : LineEnv) (tag : List ℕ) → length tag ≡ 0 → length (tagged (shown_tag e tag)) ≡ 0
tagged-none e [] h = refl
tagged-none e (c ∷ cs) h = ground (arith, h)
