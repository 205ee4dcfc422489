-- ===== src/Log/Reformat/Plain.antt =====
-- What holds of every byte of a line holds of the parts that logReformat takes from it.
use spangap_core.Base.{
  ℕ, zero, suc, ◌+◌, Bool, ◌&&◌, Option, none, some, List, [], ◌∷◌, ltb, ◌==◌, if◌then◌else◌,
  length, get_or, take, drop, All, eq_bytes, if-P,
}
use spangap_core.Log.Level.{Colors, log_color}
use spangap_core.Log.Rules.{index_of}
use spangap_core.Log.Reformat.{
  is_space_char, skip_while, skip_seq, skip_leading, is_param, is_white, drop_names, after_stamp,
  skip_stamp, split_tag, split_colon, drop_space, message_body, trim_newlines, trim_resets,
}

module _ {ℓ} (P : ℕ → Type ℓ) where
  pub All-take : (n : ℕ) (s : List ℕ) → All P s → All P (take n s)
  All-take zero s h = _
  All-take (suc n) [] h = _
  All-take (suc n) (c ∷ cs) h = (h.0, All-take n cs h.1)

  pub All-drop : (n : ℕ) (s : List ℕ) → All P s → All P (drop n s)
  All-drop zero s h = h
  All-drop (suc n) [] h = _
  All-drop (suc n) (c ∷ cs) h = All-drop n cs h.1

  pub All-skip_while : (test : ℕ → Bool) (s : List ℕ) → All P s → All P (skip_while test s)
  unfolding skip_while
  All-skip_while test [] h = _
  All-skip_while test (c ∷ cs) h =
      if-P (All P) (test c) (skip_while test cs) (c ∷ cs) (All-skip_while test cs h.1) h

  pub All-skip_leading : (fuel : ℕ) (p : List ℕ) → All P p → All P (skip_leading fuel p)
  unfolding skip_leading skip_seq
  All-skip_leading zero p h = h
  All-skip_leading (suc fuel) p h =
      let rest = skip_while is_param (drop 2 p) in
      let rest-P = All-skip_while is_param (drop 2 p) (All-drop 2 p h) in
      let seq = if get_or rest 0 0 == 109 then drop 1 rest else rest in
      if-P (All P) (get_or p 0 0 == 27 && get_or (drop 1 p) 0 0 == 91) (skip_leading fuel seq) p
        (All-skip_leading fuel seq (
          if-P (All P) (get_or rest 0 0 == 109) (drop 1 rest) rest (All-drop 1 rest rest-P) rest-P))
        h

  pub All-drop_names :
      (name : List ℕ) (fuel : ℕ) (body : List ℕ) → All P body → All P (drop_names name fuel body)
  unfolding drop_names
  All-drop_names name zero body h = h
  All-drop_names name (suc fuel) body h =
      let cut = skip_while is_white (drop (length name + 1) body) in
      if-P (All P)
        (ltb (length name + 1) (length body)
          && eq_bytes (take (length name) body) name
          && get_or body (length name) 0 == 58)
        (drop_names name fuel cut) body
        (All-drop_names name fuel cut (
          All-skip_while is_white (drop (length name + 1) body)
            (All-drop (length name + 1) body h)))
        h

  All-skip_stamp : (rest : List ℕ) (at : Option ℕ) → All P rest → All P (skip_stamp rest at)
  All-skip_stamp rest none h = h
  All-skip_stamp rest (some i) h =
      All-skip_while is_space_char (drop (i + 1) rest) (All-drop (i + 1) rest h)

  pub All-after_stamp : (p : List ℕ) → All P p → All P (after_stamp p)
  unfolding after_stamp
  All-after_stamp p h =
      let rest = skip_while is_space_char (drop 1 p) in
      All-skip_stamp rest (index_of 41 rest)
        (All-skip_while is_space_char (drop 1 p) (All-drop 1 p h))

  All-split_colon :
      (s : List ℕ) (at : Option ℕ)
      → All P s
      → All P (split_colon s at).0 × All P (split_colon s at).1
  All-split_colon s none h = (_, h)
  All-split_colon s (some i) h =
      let msg = drop (i + 1) s in
      let msg-P = All-drop (i + 1) s h in
      if-P (λ (r : List ℕ × List ℕ). All P r.0 × All P r.1) (ltb i 32 && ltb 0 i)
        (take i s, drop_space msg) ([], s)
        (
          All-take i s h,
          if-P (All P) (is_space_char (get_or msg 0 0)) (drop 1 msg) msg (All-drop 1 msg msg-P)
              msg-P,
        )
        (_, h)

  pub All-split_tag : (s : List ℕ) → All P s → All P (split_tag s).0 × All P (split_tag s).1
  unfolding split_tag
  All-split_tag s h = All-split_colon s (index_of 58 s) h

  pub All-message_body : (msg : List ℕ) → All P msg → All P (message_body msg)
  unfolding message_body
  All-message_body msg h =
      let n = trim_newlines msg (length msg) in All-take (trim_resets msg n n) msg h

-- A property of each colour holds of the one that a level has.
pub log_color-P {ℓ} :
    (P : List ℕ → Type ℓ) (k : Colors) (level : ℕ)
    → P k.error
    → P k.warn
    → P k.info
    → P k.debug
    → P k.verbose
    → P (log_color k level)
unfolding log_color
log_color-P P k level e w i d v = if-P P (level == 69) k.error _ e (
    if-P P (level == 87) k.warn _ w (
      if-P P (level == 73) k.info _ i
        (if-P P (level == 68) k.debug _ d (if-P P (level == 86) k.verbose k.info v i))))
