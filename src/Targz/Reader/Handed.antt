-- ===== src/Targz/Reader/Handed.antt =====
-- The decompression does not look at the bytes kept back: what a reader is handed acts on the rest of it.
use spangap_core.Base.{
  ℕ, zero, suc, ◌%◌, ◌+◌, ◌-◌, ◌≡◌, refl, ap, ◌∙◌, inl, inr, Bool, true, false, ◌&&◌, Option, none,
  some, List, [], ◌∷◌, ◌++◌, ◌==◌, Bool-cases, length, drop,
}
use spangap_core.Targz.Tar.{
  Err, ok, err_magic, err_deflate, err_tar, err_unsafe, err_crc, err_truncated, err_sink, err_mem,
  Tar, Callbacks, tar_consume,
}
use spangap_core.Targz.Reader.{
  dict_size, Tinfl, Inflated, InflateStatus, all_done, wants_more, has_failed, is_ok, in_deflate,
  stage_of, consumed, take_output, inflate_on, inflate_turn, inflate_loop, inflate_some, judge,
  feed_run,
}
use spangap_core.Targz.Reader.Hold.{State}

module _ (tn : Tinfl) (cb : Callbacks) where
  abbrev R : Type 0
  R = State tn cb

  -- The reader with other bytes kept back.
  abbrev pub with_hold : List ℕ → R → R
  with_hold h r = record r { hold = h }

  abbrev RunAndRest : Type 0
  RunAndRest = R × List ℕ

  abbrev both : List ℕ → RunAndRest → RunAndRest
  both h (r, left) = (with_hold h r, left)

  consumed-with_hold :
      (h : List ℕ) (r : R) (n : ℕ) (o : Option (Err × Tar cb.Ctx))
      → consumed tn cb (with_hold h r) n o ≡ with_hold h (consumed tn cb r n o)
  unfolding consumed
  consumed-with_hold h r n none = refl
  consumed-with_hold h r n (some (ok, t)) = refl
  consumed-with_hold h r n (some (err_magic, t)) = refl
  consumed-with_hold h r n (some (err_deflate, t)) = refl
  consumed-with_hold h r n (some (err_tar, t)) = refl
  consumed-with_hold h r n (some (err_unsafe, t)) = refl
  consumed-with_hold h r n (some (err_crc, t)) = refl
  consumed-with_hold h r n (some (err_truncated, t)) = refl
  consumed-with_hold h r n (some (err_sink, t)) = refl
  consumed-with_hold h r n (some (err_mem, t)) = refl

  take_output-with_hold :
      (h : List ℕ) (r : R) (out : List ℕ)
      → take_output tn cb (with_hold h r) out ≡ with_hold h (take_output tn cb r out)
  unfolding take_output
  take_output-with_hold h r [] = refl
  take_output-with_hold h r (c ∷ out) =
      consumed-with_hold h
        record r {
          crc = tn.crc32 r.crc (c ∷ out);
          raw_len = (r.raw_len + length (c ∷ out)) % 18446744073709551616;
        }
        (length (c ∷ out)) (tar_consume cb r.tar (c ∷ out))

  module _ (h : List ℕ) (rest : R → List ℕ → RunAndRest)
      (later : (r : R) (p : List ℕ) → rest (with_hold h r) p ≡ both h (rest r p)) where
    inflate_on-with_hold :
        (status : InflateStatus) (stuck : Bool) (r : R) (p : List ℕ)
        → inflate_on tn cb rest status stuck (with_hold h r) p
          ≡ both h (inflate_on tn cb rest status stuck r p)
    unfolding inflate_on
    inflate_on-with_hold all_done stuck r p = refl
    inflate_on-with_hold has_failed stuck r p = refl
    inflate_on-with_hold wants_more true r p = refl
    inflate_on-with_hold wants_more false r p = later r p

    inflate_turn-with_hold :
        (r : R) (p : List ℕ) (d : Inflated tn.D)
        → inflate_turn tn cb rest (with_hold h r) p d ≡ both h (inflate_turn tn cb rest r p d)
    unfolding inflate_turn
    inflate_turn-with_hold r p d =
        let r1 = take_output tn cb record r { inf = d.inf } d.output in
        let stuck = d.taken == 0 && length d.output == 0 in
        rw (take_output-with_hold h record r { inf = d.inf } d.output)
          (elim (Bool-cases (is_ok r1.err)) [
            | inl a ↦ rw a (inflate_on-with_hold d.status stuck r1 (drop d.taken p))
            | inr a ↦ rw a refl
          ])

  inflate_loop-with_hold :
      (h : List ℕ) (fuel : ℕ) (final : Bool) (r : R) (p : List ℕ)
      → inflate_loop tn cb fuel final (with_hold h r) p ≡ both h (inflate_loop tn cb fuel final r p)
  unfolding inflate_loop
  inflate_loop-with_hold h zero final r p = refl
  inflate_loop-with_hold h (suc fuel) final r p = elim (Bool-cases (in_deflate (stage_of r))) [
    | inl a ↦ rw a (
        inflate_turn-with_hold h (inflate_loop tn cb fuel final)
          (inflate_loop-with_hold h fuel final) r p
          (tn.decompress r.inf p (dict_size - r.dict_ofs) final))
    | inr a ↦ rw a refl
  ]

  judge-with_hold :
      (h : List ℕ) (r : R) (left : List ℕ)
      → judge tn cb (with_hold h r, left) ≡ with_hold h (judge tn cb (r, left))
  unfolding judge
  judge-with_hold h r [] = refl
  judge-with_hold h r (c ∷ left) = elim (Bool-cases (is_ok r.err && in_deflate (stage_of r))) [
    | inl a ↦ rw a refl
    | inr a ↦ rw a refl
  ]

  feed_run-with_hold :
      (h : List ℕ) (r : R) (p : List ℕ)
      → feed_run tn cb (with_hold h r) p ≡ with_hold h (feed_run tn cb r p)
  unfolding feed_run inflate_some
  feed_run-with_hold h r [] = refl
  feed_run-with_hold h r (c ∷ p) =
      let fuel = tn.rounds r.inf (c ∷ p) in
      let d = inflate_loop tn cb fuel false r (c ∷ p) in
      elim (Bool-cases (is_ok r.err)) [
        | inl a ↦ rw a (
            ap (judge tn cb) (inflate_loop-with_hold h fuel false r (c ∷ p))
            ∙ judge-with_hold h d.0 d.1)
        | inr a ↦ rw a refl
      ]

  -- Runs handed to the decompressor one after the other.
  unfoldable pub handed : R → List (List ℕ) → R
  handed r [] = r
  handed r (w ∷ ws) = handed (feed_run tn cb r w) ws

  pub handed-with_hold :
      (h : List ℕ) (r : R) (ws : List (List ℕ))
      → handed (with_hold h r) ws ≡ with_hold h (handed r ws)
  unfolding handed
  handed-with_hold h r [] = refl
  handed-with_hold h r (w ∷ ws) =
      ap (λ t. handed t ws) (feed_run-with_hold h r w) ∙ handed-with_hold h (feed_run tn cb r w) ws

  pub handed-append :
      (r : R) (ws xs : List (List ℕ)) → handed r (ws ++ xs) ≡ handed (handed r ws) xs
  unfolding handed
  handed-append r [] xs = refl
  handed-append r (w ∷ ws) xs = handed-append (feed_run tn cb r w) ws xs
