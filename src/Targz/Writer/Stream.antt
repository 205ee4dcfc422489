-- ===== src/Targz/Writer/Stream.antt =====
-- What the writer feeds the compressor, and the running length and CRC of the gzip footer.
use spangap_core.Base.{
  ℕ, zero, suc, ◌≡◌, ◌∙◌, refl, ap, sym, subst, inl, inr, ◌⊎◌, List, [], ◌++◌, Bool, true, false,
  not, Bool-cases, arith, ◌==◌, if◌then◌else◌, ◌&&◌, length, take, drop, length-drop, append_assoc,
  take-append-drop, take-all, ==_iff,
}
use spangap_core.Targz.Writer.{
  Miniz, Compressed, W, and_then, is_failed, is_done, offer, deflate_turn, deflate_run,
}

-- What the code relies on: tdefl takes a front of its input, in order, and the CRC of a text in two
-- pieces is computed piece by piece. `fed` is all that a compressor has taken so far.
pub record Documented (m : Miniz) : Type 0 where
  pub fed : m.Comp → List ℕ
  pub fed_init : fed m.comp_init ≡ []
  pub fed_compress :
      (c : m.Comp) (input : List ℕ) (finish : Bool)
      → fed (m.compress c input finish).comp
        ≡ fed c ++ take (m.compress c input finish).consumed input
  pub crc_append : (c : ℕ) (a b : List ℕ) → m.crc32 (m.crc32 c a) b ≡ m.crc32 c (a ++ b)
  pub crc_nil : (c : ℕ) → m.crc32 c [] ≡ c

abbrev pub Succeeds {ℓ} : {S : Type ℓ} → Bool × S → S → Type ℓ
Succeeds r s = r ≡ (true, s)

pub and_then-inv :
    {S : Type 0} (r : Bool × S) (rest : S → Bool × S) {s : S}
    → and_then r rest ≡ (true, s)
    → (mid : S) × (r ≡ (true, mid)) × (rest mid ≡ (true, s))
and_then-inv (true, w) rest h = (w, refl, h)
and_then-inv (false, w) rest h = cc

-- Past the guard `if (!w->ok) return false;`.
pub ok_guard :
    {S : Type 0} (b : Bool) (w : S) (rest : Bool × S) {s : S}
    → (if not b then (false, w) else rest) ≡ (true, s)
    → (b ≡ true) × (rest ≡ (true, s))
ok_guard true w rest h = (refl, h)
ok_guard false w rest h = cc

stop_test :
    (finish over : Bool) (n : ℕ) → (if finish then over else n == 0) ≡ true → finish ≡ false → n ≡ 0
stop_test true over n h e = cc
stop_test false over n h e = (==_iff n 0).0 h

module _ (m : Miniz) (d : Documented m) where
  open m use {Comp, Ctx, compress, crc32}
  open d use {fed}

  -- From `w` to `w'` the compressor has taken `bytes`, and nothing but it and the sink has changed.
  pub record Took (w w' : W m) (bytes : List ℕ) : Type 0 where
    pub taken : fed w'.comp ≡ fed w.comp ++ bytes
    pub crc : w'.crc ≡ w.crc
    pub raw_len : w'.raw_len ≡ w.raw_len
    pub pending : w'.pending ≡ w.pending
    pub pad : w'.pad ≡ w.pad
    pub is_ok : w'.is_ok ≡ w.is_ok

  Took-trans :
      (w1 w2 w3 : W m) (a b c : List ℕ) → a ++ b ≡ c → Took w1 w2 a → Took w2 w3 b → Took w1 w3 c
  Took-trans w1 w2 w3 a b c e s t = record {
    taken = t.taken ∙ rw s.taken (append_assoc (fed w1.comp) a b ∙ ap (λ x. fed w1.comp ++ x) e);
    crc = t.crc ∙ s.crc;
    raw_len = t.raw_len ∙ s.raw_len;
    pending = t.pending ∙ s.pending;
    pad = t.pad ∙ s.pad;
    is_ok = t.is_ok ∙ s.is_ok;
  }

  -- The state after one call of the compressor.
  abbrev called : W m → List ℕ → Bool → W m
  called w input finish =
      let c = compress w.comp input finish in
      record w { comp = c.comp; ctx = (offer m w.ctx c.produced).1 }

  deflate_turn-inv :
      (again : W m → List ℕ → Bool × W m) (w w' : W m) (input : List ℕ) (finish : Bool)
      → deflate_turn m again w input finish ≡ (true, w')
      → let left = drop (compress w.comp input finish).consumed input in
        ((w' ≡ called w input finish) × (finish ≡ false → length left ≡ 0))
        ⊎ (again (called w input finish) left ≡ (true, w'))
  unfolding deflate_turn
  deflate_turn-inv again w w' input finish h = elim (Bool-cases (is_failed c.status)) [
    | inl bad ↦ cc (rw bad at h)
    | inr fine ↦ elim (Bool-cases (offer m w.ctx c.produced).0) [
      | inr refused ↦ cc (rw (fine, refused) at h)
      | inl sent ↦
          elim (Bool-cases
            (if finish then is_done c.status else length (drop c.consumed input) == 0)) [
              | inl over ↦ inl (
                ap (λ (x : Bool × W m). x.1) (sym (rw (fine, sent, over) at h)),
                stop_test finish (is_done c.status) _ over,
              )
              | inr more ↦ elim (Bool-cases (c.consumed == 0 && length c.produced == 0)) [
                | inl idle ↦ cc (rw (fine, sent, more, idle) at h)
                | inr busy ↦ inr (rw (fine, sent, more, busy) at h)
              ]
            ]
    ]
  ]
    where
      c : Compressed Comp
      c = compress w.comp input finish

  Took-called :
      (w : W m) (input : List ℕ) (finish : Bool)
      → Took w (called w input finish) (take (compress w.comp input finish).consumed input)
  Took-called w input finish = record {
    taken = d.fed_compress w.comp input finish;
    crc = refl;
    raw_len = refl;
    pending = refl;
    pad = refl;
    is_ok = refl;
  }

  Took-all :
      (w : W m) (input : List ℕ) (n : ℕ) (w' : W m)
      → length (drop n input) ≡ 0
      → Took w w' (take n input)
      → Took w w' input
  Took-all w input n w' e t =
      subst (λ b. Took w w' b) (take-all n input (omega (arith, length-drop n input))) t

  -- A run of deflate that succeeds has fed the whole input.
  pub deflate_run-Took :
      (fuel : ℕ) (w w' : W m) (input : List ℕ)
      → Succeeds (deflate_run m fuel w input false) w'
      → Took w w' input
  unfolding deflate_run
  deflate_run-Took zero w w' input h = cc
  deflate_run-Took (suc fuel) w w' input h =
      elim (deflate_turn-inv (λ w1 left. deflate_run m fuel w1 left false) w w' input false h) [
        | inl (e, over) ↦
            subst (λ x. Took w x input) (sym e)
              (Took-all w input (compress w.comp input false).consumed _ (over refl)
                (Took-called w input false))
        | inr more ↦
            Took-trans w (called w input false) w' _ _ input
              (take-append-drop (compress w.comp input false).consumed input)
              (Took-called w input false) (deflate_run-Took fuel (called w input false) w' _ more)
      ]

  take-nil : {A : Type 0} (n : ℕ) → take {A = A} n [] ≡ []
  take-nil zero = refl
  take-nil (suc n) = refl

  drop-nil : {A : Type 0} (n : ℕ) → drop {A = A} n [] ≡ []
  drop-nil zero = refl
  drop-nil (suc n) = refl

  -- Draining feeds nothing.
  pub deflate_drain-Took :
      (fuel : ℕ) (w w' : W m) → Succeeds (deflate_run m fuel w [] true) w' → Took w w' []
  unfolding deflate_run
  deflate_drain-Took zero w w' h = cc
  deflate_drain-Took (suc fuel) w w' h =
      elim (deflate_turn-inv (λ w1 left. deflate_run m fuel w1 left true) w w' [] true h) [
        | inl (e, over) ↦
            subst (λ x. Took w x []) (sym e)
              (subst (λ b. Took w (called w [] true) b) (take-nil _) (Took-called w [] true))
        | inr more ↦
            Took-trans w (called w [] true) w' [] [] [] refl
              (subst (λ b. Took w (called w [] true) b) (take-nil _) (Took-called w [] true))
              (deflate_drain-Took fuel (called w [] true) w' (
                subst (λ b. Succeeds (deflate_run m fuel (called w [] true) b true) w') (drop-nil _)
                  more))
      ]
