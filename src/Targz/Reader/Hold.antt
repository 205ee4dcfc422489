-- ===== src/Targz/Reader/Hold.antt =====
-- The bytes that a reader keeps back: the last eight are the footer.
use spangap_core.Base.{
  ℕ, zero, suc, ◌+◌, ◌-◌, ◌%◌, ◌≡◌, refl, ◌∙◌, inl, inr, Bool, true, false, ◌&&◌, Option, none,
  some, List, [], ◌∷◌, ◌==◌, Bool-cases, length, drop,
}
use spangap_core.Targz.Tar.{
  Err, ok, err_magic, err_deflate, err_tar, err_unsafe, err_crc, err_truncated, err_sink, err_mem,
  Tar, Callbacks, tar_consume,
}
use spangap_core.Targz.Reader.{
  dict_size, Tinfl, Reader, Inflated, InflateStatus, all_done, wants_more, has_failed, is_ok,
  in_deflate, stage_of, past_header, consumed, take_output, inflate_on, inflate_turn, inflate_loop,
  inflate_some, judge, feed_run,
}

module _ (tn : Tinfl) (cb : Callbacks) where
  abbrev pub State : Type 0
  State = Reader tn.D cb.Ctx

  -- The decompression leaves the bytes kept back, and does not go back to the header.
  abbrev pub Kept : State → State → Type 0
  Kept r t = (t.hold ≡ r.hold) × (past_header (stage_of r) ≡ true → past_header (stage_of t) ≡ true)

  pub Kept-trans : (r s t : State) → Kept r s → Kept s t → Kept r t
  Kept-trans r s t a b = (b.0 ∙ a.0, λ p. b.1 (a.1 p))

  consumed-Kept :
      (r : State) (n : ℕ) (o : Option (Err × Tar cb.Ctx)) → Kept r (consumed tn cb r n o)
  unfolding consumed
  consumed-Kept r n none = (refl, λ p. p)
  consumed-Kept r n (some (ok, t)) = (refl, λ p. p)
  consumed-Kept r n (some (err_magic, t)) = (refl, λ p. p)
  consumed-Kept r n (some (err_deflate, t)) = (refl, λ p. p)
  consumed-Kept r n (some (err_tar, t)) = (refl, λ p. p)
  consumed-Kept r n (some (err_unsafe, t)) = (refl, λ p. p)
  consumed-Kept r n (some (err_crc, t)) = (refl, λ p. p)
  consumed-Kept r n (some (err_truncated, t)) = (refl, λ p. p)
  consumed-Kept r n (some (err_sink, t)) = (refl, λ p. p)
  consumed-Kept r n (some (err_mem, t)) = (refl, λ p. p)

  take_output-Kept : (r : State) (out : List ℕ) → Kept r (take_output tn cb r out)
  unfolding take_output
  take_output-Kept r [] = (refl, λ p. p)
  take_output-Kept r (c ∷ out) =
      consumed-Kept
        record r {
          crc = tn.crc32 r.crc (c ∷ out);
          raw_len = (r.raw_len + length (c ∷ out)) % 18446744073709551616;
        }
        (length (c ∷ out)) (tar_consume cb r.tar (c ∷ out))

  inflate_on-Kept :
      (rest : State → List ℕ → State × List ℕ) (status : InflateStatus) (stuck : Bool) (r : State)
      (p : List ℕ)
      → Kept r (rest r p).0
      → Kept r (inflate_on tn cb rest status stuck r p).0
  unfolding inflate_on
  inflate_on-Kept rest all_done stuck r p e = (refl, λ x. refl)
  inflate_on-Kept rest has_failed stuck r p e = (refl, λ x. x)
  inflate_on-Kept rest wants_more true r p e = (refl, λ x. x)
  inflate_on-Kept rest wants_more false r p e = e

  inflate_turn-Kept :
      (rest : State → List ℕ → State × List ℕ) (r : State) (p : List ℕ) (d : Inflated tn.D)
      → ((r1 : State) (p1 : List ℕ) → Kept r1 (rest r1 p1).0)
      → Kept r (inflate_turn tn cb rest r p d).0
  unfolding inflate_turn
  inflate_turn-Kept rest r p d later =
      let r1 = take_output tn cb record r { inf = d.inf } d.output in
      let same = take_output-Kept record r { inf = d.inf } d.output in
      let stuck = d.taken == 0 && length d.output == 0 in
      elim (Bool-cases (is_ok r1.err)) [
        | inl a ↦ rw a (
            Kept-trans r r1 (inflate_on tn cb rest d.status stuck r1 (drop d.taken p)).0 same
              (inflate_on-Kept rest d.status stuck r1 (drop d.taken p) (later r1 (drop d.taken p))))
        | inr a ↦ rw a same
      ]

  inflate_loop-Kept :
      (fuel : ℕ) (final : Bool) (r : State) (p : List ℕ)
      → Kept r (inflate_loop tn cb fuel final r p).0
  unfolding inflate_loop
  inflate_loop-Kept zero final r p = (refl, λ x. x)
  inflate_loop-Kept (suc fuel) final r p =
      let later = inflate_loop-Kept fuel final in
      elim (Bool-cases (in_deflate (stage_of r))) [
        | inl a ↦ rw a (
            inflate_turn-Kept (inflate_loop tn cb fuel final) r p
              (tn.decompress r.inf p (dict_size - r.dict_ofs) final) later)
        | inr a ↦ rw a (refl, λ x. x)
      ]

  judge-Kept : (r : State) (left : List ℕ) → Kept r (judge tn cb (r, left))
  unfolding judge
  judge-Kept r [] = (refl, λ x. x)
  judge-Kept r (c ∷ left) = elim (Bool-cases (is_ok r.err && in_deflate (stage_of r))) [
    | inl a ↦ rw a (refl, λ x. x)
    | inr a ↦ rw a (refl, λ x. x)
  ]

  pub feed_run-Kept : (r : State) (p : List ℕ) → Kept r (feed_run tn cb r p)
  unfolding feed_run inflate_some
  feed_run-Kept r [] = (refl, λ x. x)
  feed_run-Kept r (c ∷ p) =
      let d = inflate_loop tn cb (tn.rounds r.inf (c ∷ p)) false r (c ∷ p) in
      elim (Bool-cases (is_ok r.err)) [
        | inl a ↦ rw a (
            Kept-trans r d.0 (judge tn cb d)
              (inflate_loop-Kept (tn.rounds r.inf (c ∷ p)) false r (c ∷ p)) (judge-Kept d.0 d.1))
        | inr a ↦ rw a (refl, λ x. x)
      ]
