-- ===== src/Targz/Writer/Archive.antt =====
-- What the writer puts into the archive: every byte goes to the compressor, to the CRC and to the length.
use spangap_core.Base.{
  ℕ, zero, suc, ◌+◌, ◌-◌, ◌%◌, ◌^◌, ◌≤◌, ◌≡◌, ◌∙◌, refl, ap, sym, subst, inl, inr, List, [], ◌∷◌,
  ◌++◌, Bool, Bool-cases, arith, ltb, ◌==◌, if◌then◌else◌, length, replicate, length-append,
  append_assoc, append-nil, ==_iff,
}
use spangap_core.Targz.Writer.Stream.{
  Documented, Succeeds, and_then-inv, ok_guard, deflate_run-Took,
}
use spangap_core.Targz.Writer.{Miniz, W, write_raw, zeros_loop, write_zeros}

nil_of_length : (s : List ℕ) → length s ≡ 0 → s ≡ []
nil_of_length [] h = refl
nil_of_length (c ∷ s) h = absurd (omega arith)

replicate-split :
    (n len : ℕ) → n ≤ len → ◌++◌ {A = ℕ} (replicate n 0) (replicate (len - n) 0) ≡ replicate len 0
replicate-split zero len h = ap (λ (k : ℕ). replicate k 0) (omega arith)
replicate-split (suc n) zero h = absurd (omega arith)
replicate-split (suc n) (suc len) h =
    ap (λ t. 0 ∷ t)
      (ap (λ (k : ℕ). replicate n 0 ++ replicate k 0) (omega arith)
        ∙ replicate-split n len (omega arith))

module _ (m : Miniz) (d : Documented m) where
  open m use {crc32}
  open d use {fed}

  -- From `w` to `w'` the bytes have gone into the archive: to the compressor, the CRC and the length.
  pub record Wrote (w w' : W m) (bytes : List ℕ) : Type 0 where
    pub taken : fed w'.comp ≡ fed w.comp ++ bytes
    pub crc : w'.crc ≡ crc32 w.crc bytes
    pub raw_len : w'.raw_len % 2 ^ 64 ≡ (w.raw_len + length bytes) % 2 ^ 64
    pub pending : w'.pending ≡ w.pending
    pub pad : w'.pad ≡ w.pad
    pub is_ok : w'.is_ok ≡ w.is_ok

  pub Wrote-nil : (w : W m) → Wrote w w []
  Wrote-nil w = record {
    taken = sym (append-nil _);
    crc = sym (d.crc_nil w.crc);
    raw_len = ap (λ (n : ℕ). n % 2 ^ 64) (omega arith);
    pending = refl;
    pad = refl;
    is_ok = refl;
  }

  pub Wrote-trans :
      (w1 w2 w3 : W m) (a b : List ℕ) → Wrote w1 w2 a → Wrote w2 w3 b → Wrote w1 w3 (a ++ b)
  Wrote-trans w1 w2 w3 a b s t = record {
    taken = t.taken ∙ rw s.taken (append_assoc (fed w1.comp) a b);
    crc = t.crc ∙ rw s.crc (d.crc_append w1.crc a b);
    raw_len = omega (arith, t.raw_len, s.raw_len, length-append a b);
    pending = t.pending ∙ s.pending;
    pad = t.pad ∙ s.pad;
    is_ok = t.is_ok ∙ s.is_ok;
  }

  pub write_raw-Wrote :
      (w w' : W m) (bytes : List ℕ) → Succeeds (write_raw m w bytes) w' → Wrote w w' bytes
  unfolding write_raw
  write_raw-Wrote w w' bytes h =
      let h1 = (ok_guard w.is_ok w _ h).1 in
      elim (Bool-cases (length bytes == 0)) [
        | inl none ↦
            subst (λ x. Wrote w x bytes) (ap (λ (x : Bool × W m). x.1) (rw none at h1))
              (subst (λ b. Wrote w w b) (sym (nil_of_length bytes ((==_iff _ _).0 none)))
                (Wrote-nil w))
        | inr more ↦
            let w1 = record w {
              crc = crc32 w.crc bytes;
              raw_len = (w.raw_len + length bytes) % 2 ^ 64;
            } in
            let t =
              deflate_run-Took m d (suc (m.rounds w.comp bytes)) w1 w' bytes (rw more at h1) in
            record {
              taken = t.taken;
              crc = t.crc;
              raw_len = omega (arith, t.raw_len);
              pending = t.pending;
              pad = t.pad;
              is_ok = t.is_ok;
            }
      ]

  zeros_loop-Wrote :
      (fuel len : ℕ) (w w' : W m)
      → Succeeds (zeros_loop m fuel w len) w'
      → Wrote w w' (replicate len 0)
  unfolding zeros_loop
  zeros_loop-Wrote zero len w w' h =
      subst (λ x. Wrote w x (replicate len 0)) (ap (λ (x : Bool × W m). x.1) h)
        (subst (λ (n : ℕ). Wrote w w (replicate n 0))
          (sym ((==_iff len 0).0 (ap (λ (x : Bool × W m). x.0) h))) (Wrote-nil w))
  zeros_loop-Wrote (suc fuel) len w w' h = elim (Bool-cases (len == 0)) [
    | inl none ↦
        subst (λ x. Wrote w x (replicate len 0)) (ap (λ (x : Bool × W m). x.1) (rw none at h))
          (subst (λ (n : ℕ). Wrote w w (replicate n 0)) (sym ((==_iff len 0).0 none)) (Wrote-nil w))
    | inr more ↦
        let n = if ltb len 64 then len else 64 in
        let (w1, first, rest) =
          and_then-inv (write_raw m w (replicate n 0)) (λ x. zeros_loop m fuel x (len - n))
            (rw more at h) in
        subst (λ b. Wrote w w' b) (replicate-split n len (at_most len))
          (Wrote-trans w w1 w' (replicate n 0) (replicate (len - n) 0)
            (write_raw-Wrote w w1 (replicate n 0) first)
            (zeros_loop-Wrote fuel (len - n) w1 w' rest))
  ]
    where
      at_most : (k : ℕ) → (if ltb k 64 then k else 64) ≤ k
      at_most k = ground arith

  -- `writeZeros` writes as many zeros as it was asked for.
  pub write_zeros-Wrote :
      (w w' : W m) (len : ℕ) → Succeeds (write_zeros m w len) w' → Wrote w w' (replicate len 0)
  unfolding write_zeros
  write_zeros-Wrote w w' len h = zeros_loop-Wrote len len w w' h
