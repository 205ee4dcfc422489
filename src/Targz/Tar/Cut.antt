-- ===== src/Targz/Tar/Cut.antt =====
-- `tarConsume` does not see how its input was cut.
use spangap_core.Base.{
  ℕ, zero, suc, ◌+◌, ◌≤◌, ◌<◌, ◌≡◌, ◌≢◌, ◌∙◌, refl, ap, sym, inl, inr, ◌⊎◌, Option, some, some-inj,
  List, [], ◌∷◌, ◌++◌, true, false, Bool-cases, arith, length, length-append, subst,
}
use spangap_core.Targz.Tar.{
  Err, ok, TarStage, tar_hdr, tar_data, tar_pad, tar_end, is_end, Callbacks, Tar, tar_step,
  after_round, tar_loop, tar_consume,
}
use spangap_core.Targz.Tar.Progress.{Round, IsReady, tar_step-Round}
use spangap_core.Targz.Tar.Chunks.{
  TakesPieces, Fails, Agree, outcome, Split, stops, goes_on, hdr_step-Split, pad_step-Split,
  data_step-Split,
}

module _ (cb : Callbacks) where
  open cb use {Ctx}

  after_round_mono :
      (f g : Tar Ctx → List ℕ → Option (Err × Tar Ctx))
      → ((r : Tar Ctx) (p : List ℕ) (x : Err × Tar Ctx) → f r p ≡ some x → g r p ≡ some x)
      → (s : Err × Tar Ctx × List ℕ) (x : Err × Tar Ctx) → after_round cb f s ≡ some x
      → after_round cb g s ≡ some x
  after_round_mono f g h (ok, r, rest) x e = h r rest x e
  after_round_mono f g h (_, r, rest) x e = e

  -- More fuel gives the same result.
  pub tar_loop_mono :
      (f g : ℕ) (r : Tar Ctx) (p : List ℕ) (x : Err × Tar Ctx)
      → f ≤ g
      → tar_loop cb f r p ≡ some x
      → tar_loop cb g r p ≡ some x
  unfolding tar_loop
  tar_loop_mono f g r [] x le e = e
  tar_loop_mono zero zero r (c ∷ p) x le e = e
  tar_loop_mono zero (suc g) r (c ∷ p) x le e = elim (Bool-cases (is_end r.stage)) [
    | inl done ↦ rw done (rw done at e)
    | inr go_on ↦ cc (rw go_on at e)
  ]
  tar_loop_mono (suc f) zero r (c ∷ p) x le e = absurd (omega arith)
  tar_loop_mono (suc f) (suc g) r (c ∷ p) x le e = elim (Bool-cases (is_end r.stage)) [
    | inl done ↦ rw done (rw done at e)
    | inr go_on ↦ rw go_on (
        after_round_mono (tar_loop cb f) (tar_loop cb g)
          (λ r' p' x' e'. tar_loop_mono f g r' p' x' (omega arith) e')
          (tar_step cb r.stage r (c ∷ p)) x (rw go_on at e))
  ]

  tar_loop-end :
      (f : ℕ) (r : Tar Ctx) (p : List ℕ) → is_end r.stage ≡ true → tar_loop cb f r p ≡ some (ok, r)
  unfolding tar_loop
  tar_loop-end f r [] h = refl
  tar_loop-end zero r (c ∷ p) h = rw h
  tar_loop-end (suc f) r (c ∷ p) h = rw h

  pub tar_loop-nil : (f : ℕ) (r : Tar Ctx) → tar_loop cb f r [] ≡ some (ok, r)
  unfolding tar_loop
  tar_loop-nil f r = refl

  -- One more round of fuel on a run that is not empty.
  tar_loop-suc :
      (f : ℕ) (r : Tar Ctx) (p : List ℕ)
      → is_end r.stage ≡ false
      → 0 < length p
      → tar_loop cb (suc f) r p ≡ after_round cb (tar_loop cb f) (tar_step cb r.stage r p)
  unfolding tar_loop
  tar_loop-suc f r [] h ps = absurd (omega arith)
  tar_loop-suc f r (c ∷ p) h ps = rw h

  pub tar_loop-step :
      (f : ℕ) (r : Tar Ctx) (p : List ℕ) (stage : TarStage)
      → r.stage ≡ stage
      → is_end stage ≡ false
      → 0 < length p
      → tar_loop cb (suc f) r p ≡ after_round cb (tar_loop cb f) (tar_step cb stage r p)
  tar_loop-step f r p stage st h ps =
      subst (λ x. tar_loop cb (suc f) r p ≡ after_round cb (tar_loop cb f) (tar_step cb x r p)) st
        (tar_loop-suc f r p (subst (λ x. is_end x ≡ false) (sym st) h) ps)

  tar_loop-empty :
      (r : Tar Ctx) (p : List ℕ) (x : Err × Tar Ctx)
      → is_end r.stage ≡ false
      → 0 < length p
      → tar_loop cb zero r p ≢ some x
  unfolding tar_loop
  tar_loop-empty r [] x h ps e = absurd (omega arith)
  tar_loop-empty r (c ∷ p) x h ps e = cc (rw h at e)

  module _ (law : TakesPieces cb) where
    tar_step-Split :
        (stage : TarStage) (r r' : Tar Ctx) (p q rest : List ℕ)
        → IsReady r
        → 0 < length p
        → 0 < length q
        → r.stage ≡ stage
        → is_end stage ≡ false
        → tar_step cb stage r p ≡ (ok, r', rest)
        → Split (tar_step cb stage r (p ++ q)) r' rest q (tar_step cb stage r' q) stage
    unfolding tar_step
    tar_step-Split tar_hdr r r' p q rest v ps qs st h e =
        hdr_step-Split cb law r p q qs r' rest v.room st e
    tar_step-Split tar_data r r' p q rest v ps qs st h e =
        data_step-Split cb law r p q qs r' rest ps st e
    tar_step-Split tar_pad r r' p q rest v ps qs st h e =
        pad_step-Split cb law r p q qs r' rest st e
    tar_step-Split tar_end r r' p q rest v ps qs st h e = cc

    -- The whole run ends as its back does.
    record Joined (o : Option (Err × Tar Ctx)) (res : Err × Tar Ctx) : Type 0 where
      result : Err × Tar Ctx
      returned : o ≡ some result
      agrees : Agree result res

    same : (o : Option (Err × Tar Ctx)) (res : Err × Tar Ctx) → o ≡ some res → Joined o res
    same o res e = record { result = res; returned = e; agrees = inl refl }

    -- Two rounds that agree, the second one followed by a loop of less fuel.
    after_round-Joined :
        (f g : ℕ) (s t : Err × Tar Ctx × List ℕ) (res : Err × Tar Ctx)
        → g ≤ f
        → (s ≡ t) ⊎ Fails (outcome s) (outcome t)
        → after_round cb (tar_loop cb g) t ≡ some res
        → Joined (after_round cb (tar_loop cb f) s) res
    after_round-Joined f g s t res le (inl e) h =
        subst (λ x. Joined (after_round cb (tar_loop cb f) x) res) (sym e)
          (same _ res (
            after_round_mono (tar_loop cb g) (tar_loop cb f) (λ r p x. tar_loop_mono g f r p x le) t
              res h))
    after_round-Joined f g (ok, r, rest) t res le (inr bad) h = absurd (bad.failed refl)
    after_round-Joined f g (e, r, rest) (ok, r', rest') res le (inr bad) h =
        absurd (bad.failed bad.error)
    after_round-Joined f g (e, r, rest) (e', r', rest') res le (inr bad) h = record {
      result = (e, r);
      returned = refl;
      agrees = inr (subst (λ x. Fails (e, r) x) (some-inj h) bad);
    }

    -- `s` is the round on the front, whose loop succeeds; `w` is the round on the whole run.
    round-join :
        (f g h : ℕ) (stage : TarStage) (s w : Err × Tar Ctx × List ℕ) (r1 : Tar Ctx) (q : List ℕ)
        (res : Err × Tar Ctx)
        → 0 < length q
        → f + g ≤ h
        → is_end stage ≡ false
        → ((r' : Tar Ctx) (rest : List ℕ)
            → s ≡ (ok, r', rest)
            → (Split w r' rest q (tar_step cb stage r' q) stage) × IsReady r')
        → ((r' : Tar Ctx) (rest : List ℕ)
            → IsReady r'
            → tar_loop cb f r' rest ≡ some (ok, r1)
            → Joined (tar_loop cb h r' (rest ++ q)) res)
        → after_round cb (tar_loop cb f) s ≡ some (ok, r1)
        → tar_loop cb g r1 q ≡ some res
        → Joined (after_round cb (tar_loop cb h) w) res
    round-join f g h stage (ok, r', rest) w r1 q res qs le open_stage split ih e back =
        go (split r' rest refl)
      where
        resume :
            (g : ℕ)
            → g ≤ h
            → rest ≡ []
            → r'.stage ≡ stage
            → (w ≡ tar_step cb stage r' q) ⊎ Fails (outcome w) (outcome (tar_step cb stage r' q))
            → tar_loop cb g r' q ≡ some res
            → Joined (after_round cb (tar_loop cb h) w) res
        resume zero le er es agree b =
            absurd
              (tar_loop-empty r' q res (subst (λ x. is_end x ≡ false) (sym es) open_stage) qs b)
        resume (suc g) le er es agree b =
            after_round-Joined h g w (tar_step cb stage r' q) res (omega arith) agree
              (sym (tar_loop-step g r' q stage es open_stage qs) ∙ b)

        still : rest ≡ [] → r' ≡ r1
        still er =
            ap (λ (x : Err × Tar Ctx). x.1)
              (some-inj
                (sym (tar_loop-nil f r') ∙ subst (λ x. tar_loop cb f r' x ≡ some (ok, r1)) er e))

        go :
            (Split w r' rest q (tar_step cb stage r' q) stage) × IsReady r'
            → Joined (after_round cb (tar_loop cb h) w) res
        go (stops ew, v) =
            subst (λ x. Joined (after_round cb (tar_loop cb h) x) res) (sym ew) (ih r' rest v e)
        go (goes_on er es agree, v) =
            resume g (omega arith) er es agree
              (subst (λ x. tar_loop cb g x q ≡ some res) (sym (still er)) back)
    round-join f g h stage (_, r', rest) w r1 q res qs le open_stage split ih e back = cc

    Joined-end :
        (f g h : ℕ) (r r1 : Tar Ctx) (p q : List ℕ) (res : Err × Tar Ctx)
        → is_end r.stage ≡ true
        → tar_loop cb f r p ≡ some (ok, r1)
        → tar_loop cb g r1 q ≡ some res
        → Joined (tar_loop cb h r (p ++ q)) res
    Joined-end f g h r r1 p q res done e back = same _ res (
        tar_loop-end h r (p ++ q) done
        ∙ sym (tar_loop-end g r q done)
        ∙ subst (λ x. tar_loop cb g x q ≡ some res)
            (ap (λ (x : Err × Tar Ctx). x.1) (some-inj (sym e ∙ tar_loop-end f r p done))) back)

    tar_loop-join :
        (f g h : ℕ) (r r1 : Tar Ctx) (p q : List ℕ) (res : Err × Tar Ctx)
        → IsReady r
        → 0 < length q
        → f + g ≤ h
        → tar_loop cb f r p ≡ some (ok, r1)
        → tar_loop cb g r1 q ≡ some res
        → Joined (tar_loop cb h r (p ++ q)) res
    tar_loop-join f g h r r1 [] q res v qs le e back = same _ res (
        tar_loop_mono g h r q res (omega arith) (
          subst (λ x. tar_loop cb g x q ≡ some res)
            (ap (λ (x : Err × Tar Ctx). x.1) (some-inj (sym e ∙ tar_loop-nil f r))) back))
    tar_loop-join zero g h r r1 (c ∷ p) q res v qs le e back = elim (Bool-cases (is_end r.stage)) [
      | inl done ↦ Joined-end zero g h r r1 (c ∷ p) q res done e back
      | inr go_on ↦ absurd (tar_loop-empty r (c ∷ p) (ok, r1) go_on (omega arith) e)
    ]
    tar_loop-join (suc f) g zero r r1 (c ∷ p) q res v qs le e back = absurd (omega arith)
    tar_loop-join (suc f) g (suc h) r r1 (c ∷ p) q res v qs le e back =
        elim (Bool-cases (is_end r.stage)) [
          | inl done ↦ Joined-end (suc f) g (suc h) r r1 (c ∷ p) q res done e back
          | inr go_on ↦
              subst (λ x. Joined x res)
                (sym (tar_loop-step h r ((c ∷ p) ++ q) r.stage refl go_on (omega arith)))
                (round-join f g h r.stage (tar_step cb r.stage r (c ∷ p))
                  (tar_step cb r.stage r ((c ∷ p) ++ q)) r1 q res qs (omega arith) go_on
                  (λ r' rest es. (
                    tar_step-Split r.stage r r' (c ∷ p) q rest v (omega arith) qs refl go_on es,
                    (subst (Round cb (c ∷ p)) es
                        (tar_step-Round cb r v (c ∷ p) (omega arith) r.stage refl go_on) refl).0,
                  ))
                  (λ r' rest v' e'.
                    tar_loop-join f g h r' r1 rest q res v' qs (omega arith) e' back)
                  (sym (tar_loop-step f r (c ∷ p) r.stage refl go_on (omega arith)) ∙ e) back)
        ]

    -- Cutting does not matter. If `tarConsume` takes a run `p` without an error, and from there ends
    -- with `res` on a run `q` that is not empty, then on both in one run it ends with `res` too: with
    -- the same state after a success, and after a failure with the same error, the same state of the
    -- receiver and the same counts.
    pub tar_consume-append :
        (r r1 : Tar Ctx) (p q : List ℕ) (res : Err × Tar Ctx)
        → IsReady r
        → 0 < length q
        → tar_consume cb r p ≡ some (ok, r1)
        → tar_consume cb r1 q ≡ some res
        → (whole : Err × Tar Ctx) × (tar_consume cb r (p ++ q) ≡ some whole) × Agree whole res
    unfolding tar_consume
    tar_consume-append r r1 p q res v qs e back =
        let j =
          tar_loop-join (length p) (length q) (length (p ++ q)) r r1 p q res v qs
            (omega (arith, length-append p q)) e back in
        (j.result, j.returned, j.agrees)
