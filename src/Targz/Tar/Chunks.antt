-- ===== src/Targz/Tar/Chunks.antt =====
-- The tar parser does not see how its input was cut: "any amount, any alignment".
use spangap_core.Base.{
  ℕ, ◌+◌, ◌-◌, ◌<◌, ◌≡◌, ◌≢◌, ◌∙◌, refl, ap, sym, inl, inr, ◌⊎◌, List, [], ◌++◌, Bool, true, false,
  Bool-cases, arith, ltb, length, take, length-take, length-append, min, ltb→lt, ltb→le,
  take-append_le, drop-append_le, take-append_ge, drop-append_ge, append_assoc, subst, take-all,
}
use spangap_core.Targz.Tar.{
  Err, ok, TarStage, tar_hdr, tar_data, tar_pad, Callbacks, Tar, hdr_step, data_step, pad_step,
}
use spangap_core.Targz.Tar.Rounds.{
  hdr_step-short, hdr_step-full, pad_step-short, pad_step-full, data_step-short, data_step-full,
  data_step-fails, body,
}

-- A receiver that takes a body in two pieces as it takes it in one: once it has accepted the first
-- piece, it treats the second as it would have treated the rest.
pub record TakesPieces (cb : Callbacks) : Type 0 where
  pub pieces :
      (c : cb.Ctx) (a b : List ℕ)
      → 0 < length a
      → 0 < length b
      → (cb.on_data c a).0 ≡ true
      → cb.on_data c (a ++ b) ≡ cb.on_data (cb.on_data c a).1 b

module _ {Ctx : Type 0} where
  -- Two failures with the same error that leave the receiver and the counts alike.
  pub record Fails (a b : Err × Tar Ctx) : Type 0 where
    pub error : a.0 ≡ b.0
    pub failed : a.0 ≢ ok
    pub ctx : a.1.ctx ≡ b.1.ctx
    pub entries : a.1.entries ≡ b.1.entries
    pub bytes : a.1.bytes ≡ b.1.bytes

  -- The same outcome: the same error and state, or the same failure.
  abbrev pub Agree : Err × Tar Ctx → Err × Tar Ctx → Type 0
  Agree a b = (a ≡ b) ⊎ Fails a b

  pub Agree-refl : (a : Err × Tar Ctx) → Agree a a
  Agree-refl a = inl refl

  abbrev pub outcome : Err × Tar Ctx × List ℕ → Err × Tar Ctx
  outcome (e, r, rest) = (e, r)

  -- What a round on a longer run does, given the round on its front: it stops at the same place, or it
  -- goes on as a round on the back would.
  pub data Split (whole : Err × Tar Ctx × List ℕ) (r' : Tar Ctx) (rest q : List ℕ)
      (back : Err × Tar Ctx × List ℕ) (stage : TarStage) : Type 0 where
    stops : whole ≡ (ok, r', rest ++ q) → Split whole r' rest q back stage
    goes_on :
        rest ≡ []
        → r'.stage ≡ stage
        → (whole ≡ back) ⊎ Fails (outcome whole) (outcome back)
        → Split whole r' rest q back stage

module _ (cb : Callbacks) (law : TakesPieces cb) where
  open cb use {Ctx, on_data}

  module _ (r : Tar Ctx) (p q : List ℕ) (qs : 0 < length q) where
    -- A block that the front leaves open is filled by the back as if nothing had been cut.
    hdr_step-join :
        length r.hdr + length p < 512
        → hdr_step cb r (p ++ q) ≡ hdr_step cb (record r { hdr = r.hdr ++ p }) q
    hdr_step-join short = elim (Bool-cases (ltb (length r.hdr + length p + length q) 512)) [
      | inl open_still ↦
          hdr_step-short cb r (p ++ q) (omega (arith, length-append p q, ltb→lt _ _ open_still))
          ∙ rw (← append_assoc r.hdr p q) (
              sym (
                hdr_step-short cb (record r { hdr = r.hdr ++ p }) q
                  (omega (arith, length-append r.hdr p, ltb→lt _ _ open_still))))
      | inr filled ↦
          hdr_step-full cb r (p ++ q) n (omega arith)
            (omega (arith, length-append p q, ltb→le _ _ filled))
          ∙ rw
              (
                take-append_ge n p q (omega arith),
                drop-append_ge n p q (omega arith),
                ← append_assoc r.hdr p (take (n - length p) q),
              )
              (sym (
                hdr_step-full cb (record r { hdr = r.hdr ++ p }) q (n - length p)
                  (omega (arith, length-append r.hdr p)) (omega (arith, ltb→le _ _ filled))))
    ]
      where
        n : ℕ
        n = 512 - length r.hdr

    pub hdr_step-Split :
        (r' : Tar Ctx) (rest : List ℕ)
        → length r.hdr < 512
        → r.stage ≡ tar_hdr
        → hdr_step cb r p ≡ (ok, r', rest)
        → Split (hdr_step cb r (p ++ q)) r' rest q (hdr_step cb r' q) tar_hdr
    hdr_step-Split r' rest room st e = elim (Bool-cases (ltb (length r.hdr + length p) 512)) [
      | inl short ↦
          let w : (ok, record r { hdr = r.hdr ++ p }, []) ≡ (ok, r', rest) =
            sym (hdr_step-short cb r p (ltb→lt _ _ short)) ∙ e in
          goes_on (sym (ap (λ (t : Err × Tar Ctx × List ℕ). t.2) w))
            (ap (λ (t : Err × Tar Ctx × List ℕ). t.1.stage) (sym w) ∙ st)
            (inl (
              hdr_step-join (ltb→lt _ _ short)
              ∙ ap (λ (t : Err × Tar Ctx × List ℕ). hdr_step cb t.1 q) w))
      | inr full ↦
          let n = 512 - length r.hdr in
          let w = sym (hdr_step-full cb r p n (omega arith) (omega (arith, ltb→le _ _ full))) ∙ e in
          stops (
            hdr_step-full cb r (p ++ q) n (omega arith)
              (omega (arith, ltb→le _ _ full, length-append p q))
            ∙ rw
                (
                  take-append_le n p q (omega (arith, ltb→le _ _ full)),
                  drop-append_le n p q (omega (arith, ltb→le _ _ full)),
                )
                (ap (λ (t : Err × Tar Ctx × List ℕ). (t.0, t.1, t.2 ++ q)) w))
    ]

    pad_step-join :
        length p < r.pad
        → pad_step cb r (p ++ q) ≡ pad_step cb (record r { pad = r.pad - length p }) q
    pad_step-join short = elim (Bool-cases (ltb (length p + length q) r.pad)) [
      | inl open_still ↦
          pad_step-short cb r (p ++ q) (omega (arith, length-append p q, ltb→lt _ _ open_still))
          ∙ rw (length-append p q, sub_sum)
              (sym (
                pad_step-short cb (record r { pad = r.pad - length p }) q
                  (omega (arith, ltb→lt _ _ open_still))))
      | inr filled ↦
          pad_step-full cb r (p ++ q) (omega (arith, length-append p q, ltb→le _ _ filled))
          ∙ rw (drop-append_ge r.pad p q (omega arith)) (
              sym (
                pad_step-full cb (record r { pad = r.pad - length p }) q
                  (omega (arith, ltb→le _ _ filled))))
    ]
      where
        sub_sum : r.pad - (length p + length q) ≡ r.pad - length p - length q
        sub_sum = omega arith

    pub pad_step-Split :
        (r' : Tar Ctx) (rest : List ℕ)
        → r.stage ≡ tar_pad
        → pad_step cb r p ≡ (ok, r', rest)
        → Split (pad_step cb r (p ++ q)) r' rest q (pad_step cb r' q) tar_pad
    pad_step-Split r' rest st e = elim (Bool-cases (ltb (length p) r.pad)) [
      | inl short ↦
          let w : (ok, record r { pad = r.pad - length p }, []) ≡ (ok, r', rest) =
            sym (pad_step-short cb r p (ltb→lt _ _ short)) ∙ e in
          goes_on (sym (ap (λ (t : Err × Tar Ctx × List ℕ). t.2) w))
            (ap (λ (t : Err × Tar Ctx × List ℕ). t.1.stage) (sym w) ∙ st)
            (inl (
              pad_step-join (ltb→lt _ _ short)
              ∙ ap (λ (t : Err × Tar Ctx × List ℕ). pad_step cb t.1 q) w))
      | inr full ↦
          let w = sym (pad_step-full cb r p (ltb→le _ _ full)) ∙ e in
          stops (
            pad_step-full cb r (p ++ q) (omega (arith, ltb→le _ _ full, length-append p q))
            ∙ rw (drop-append_le r.pad p q (ltb→le _ _ full))
                (ap (λ (t : Err × Tar Ctx × List ℕ). (t.0, t.1, t.2 ++ q)) w))
    ]

    module _ (ps : 0 < length p) (short : length p < r.pending)
        (fine : (body cb r p).0 ≡ true) where
      abbrev half : Tar Ctx
      half = record r { ctx = (body cb r p).1; pending = r.pending - length p }

      -- The receiver answers to the rest of the body as to its second piece.
      body-join : (b : List ℕ) → 0 < length b → body cb r (p ++ b) ≡ body cb half b
      body-join b bs = elim (Bool-cases r.in_file) [
        | inl file ↦ rw file (law.pieces r.ctx p b ps bs (rw file at fine))
        | inr dir ↦ rw dir
      ]

      -- Both refuse the same bytes of the body.
      both_refuse :
          (b : List ℕ)
          → 0 < length b
          → take (min r.pending (length (p ++ q))) (p ++ q) ≡ p ++ b
          → take (min half.pending (length q)) q ≡ b
          → (body cb half b).0 ≡ false
          → Fails (outcome (data_step cb r (p ++ q))) (outcome (data_step cb half q))
      both_refuse b bs front back bad =
          rw
            (
              data_step-fails cb r (p ++ q) (p ++ b) front (rw (body-join b bs) bad),
              data_step-fails cb half q b back bad,
            )
            (record {
              error = refl;
              failed = λ e. cc;
              ctx = ap (λ (t : Bool × Ctx). t.1) (body-join b bs);
              entries = refl;
              bytes = refl;
            })

      data_step-join :
          (data_step cb r (p ++ q) ≡ data_step cb half q)
          ⊎ Fails (outcome (data_step cb r (p ++ q))) (outcome (data_step cb half q))
      data_step-join = elim (Bool-cases (ltb (length p + length q) r.pending)) [
        | inl open_still ↦
            let lt = ltb→lt _ _ open_still in
            elim (Bool-cases (body cb half q).0) [
              | inr bad ↦ inr (
                  both_refuse q qs (take-all _ (p ++ q) (omega (arith, length-append p q)))
                    (take-all _ q (omega arith)) bad)
              | inl good ↦ inl (
                  data_step-short cb r (p ++ q) (omega (arith, length-append p q))
                    (rw (body-join q qs) good)
                  ∙ rw (length-append p q, body-join q qs, sub_sum)
                      (sym (data_step-short cb half q (omega arith) good)))
            ]
        | inr filled ↦
            let le = ltb→le _ _ filled in
            elim (Bool-cases (body cb half piece).0) [
              | inr bad ↦ inr (
                  both_refuse piece some_piece
                    (ap (λ (n : ℕ). take n (p ++ q)) (omega (arith, length-append p q)) ∙ front)
                    (ap (λ (n : ℕ). take n q) (omega arith)) bad)
              | inl good ↦ inl (
                  data_step-full cb r (p ++ q) (omega (arith, length-append p q))
                    (rw (front, body-join piece some_piece) good)
                  ∙ rw
                      (
                        front,
                        body-join piece some_piece,
                        drop-append_ge r.pending p q (omega arith),
                      )
                      (sym (data_step-full cb half q (omega arith) good)))
            ]
      ]
        where
          sub_sum : r.pending - (length p + length q) ≡ r.pending - length p - length q
          sub_sum = omega arith

          piece : List ℕ
          piece = take (r.pending - length p) q

          some_piece : 0 < length piece
          some_piece = omega (arith, length-take (r.pending - length p) q)

          front : take r.pending (p ++ q) ≡ p ++ piece
          front = take-append_ge r.pending p q (omega arith)

    pub data_step-Split :
        (r' : Tar Ctx) (rest : List ℕ)
        → 0 < length p
        → r.stage ≡ tar_data
        → data_step cb r p ≡ (ok, r', rest)
        → Split (data_step cb r (p ++ q)) r' rest q (data_step cb r' q) tar_data
    data_step-Split r' rest ps st e = elim (Bool-cases (ltb (length p) r.pending)) [
      | inl short ↦
          let lt = ltb→lt _ _ short in
          elim (Bool-cases (body cb r p).0) [
            | inr bad ↦ cc (sym e ∙ data_step-fails cb r p p (take-all _ p (omega arith)) bad)
            | inl fine ↦
                let w : (ok, half ps lt fine, []) ≡ (ok, r', rest) =
                  sym (data_step-short cb r p lt fine) ∙ e in
                goes_on (sym (ap (λ (t : Err × Tar Ctx × List ℕ). t.2) w))
                  (ap (λ (t : Err × Tar Ctx × List ℕ). t.1.stage) (sym w) ∙ st)
                  (subst
                    (λ x.
                      (data_step cb r (p ++ q) ≡ data_step cb x q)
                      ⊎ Fails (outcome (data_step cb r (p ++ q))) (outcome (data_step cb x q)))
                    (ap (λ (t : Err × Tar Ctx × List ℕ). t.1) w) (data_step-join ps lt fine))
          ]
      | inr full ↦
          let le = ltb→le _ _ full in
          elim (Bool-cases (body cb r (take r.pending p)).0) [
            | inr bad ↦ cc (
                sym e
                ∙ data_step-fails cb r p (take r.pending p) (ap (λ (n : ℕ). take n p) (omega arith))
                    bad)
            | inl fine ↦
                let w = sym (data_step-full cb r p le fine) ∙ e in
                stops (
                  data_step-full cb r (p ++ q) (omega (arith, length-append p q))
                    (rw (take-append_le r.pending p q le) fine)
                  ∙ rw (take-append_le r.pending p q le, drop-append_le r.pending p q le)
                      (ap (λ (t : Err × Tar Ctx × List ℕ). (t.0, t.1, t.2 ++ q)) w))
          ]
    ]
