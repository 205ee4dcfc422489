-- ===== src/Cron/NextRun/Least.antt =====
-- The minutes that cronComputeNextLocked stores are the least next runs of the entries.
use spangap_core.Base.{
  ℕ, suc, ◌≤◌, ◌≡◌, refl, sym, ◌∙◌, subst, ◌⊎◌, inl, inr, Bool, true, false, Option, none, some,
  List, [], ◌∷◌, arith, ltb, if◌then◌else◌, Bool-cases, All,
}
use spangap_core.Cron.Entry.{CronParsed, cron_parse}
use spangap_core.Cron.NextRun.{
  Calendar, cron_next_run, lower, is_awake_only, compute_step, compute_loop, cron_compute_next,
  u32_max,
}

module _ (cal : Calendar) (from_minute : ℕ) where
  -- The next run of an entry that may wake the device; one with the A flag never does.
  abbrev pub waking_run : CronParsed → ℕ
  waking_run e = if is_awake_only e then u32_max else cron_next_run cal e from_minute

  -- `next` is at most the next run of a parsed entry, and `wake` at most its waking run.
  abbrev pub Below : ℕ → ℕ → Option CronParsed → Type 0
  Below next wake none = 0 ≤ next
  Below next wake (some e) = (next ≤ cron_next_run cal e from_minute) × (wake ≤ waking_run e)

  -- `n` is the next run of some entry of the lines.
  abbrev pub Runs : ℕ → Option CronParsed → Type 0
  Runs n none = suc n ≤ 0
  Runs n (some e) = n ≡ cron_next_run cal e from_minute

  abbrev pub SomeRuns : ℕ → List (List ℕ) → Type 0
  SomeRuns n [] = suc n ≤ 0
  SomeRuns n (line ∷ lines) = Runs n (cron_parse line) ⊎ SomeRuns n lines

  Below-trans :
      (o : Option CronParsed) (next wake next' wake' : ℕ)
      → Below next wake o
      → next' ≤ next
      → wake' ≤ wake
      → Below next' wake' o
  Below-trans none next wake next' wake' h l m = omega arith
  Below-trans (some e) next wake next' wake' h l m = (omega (arith, h.0), omega (arith, h.1))

  wake_le :
      (b : Bool) (n wake : ℕ)
      → wake ≤ u32_max
      → ((if b then wake else lower n wake) ≤ wake)
        × ((if b then wake else lower n wake) ≤ (if b then u32_max else n))
  wake_le true n wake h = (omega arith, omega (arith, h))
  wake_le false n wake h = (ground arith, ground arith)

  compute_step-le :
      (o : Option CronParsed) (next wake : ℕ)
      → wake ≤ u32_max
      → ((compute_step cal from_minute o (next, wake)).0 ≤ next)
        × ((compute_step cal from_minute o (next, wake)).1 ≤ wake)
        × Below
            (compute_step cal from_minute o (next, wake)).0
            (compute_step cal from_minute o (next, wake)).1
            o
  unfolding compute_step
  compute_step-le none next wake k = (omega arith, omega arith, omega arith)
  compute_step-le (some e) next wake k =
      let w = wake_le (is_awake_only e) (cron_next_run cal e from_minute) wake k in
      (ground arith, w.0, (ground arith, w.1))

  compute_step-attained :
      (o : Option CronParsed) (next wake : ℕ)
      → ((compute_step cal from_minute o (next, wake)).0 ≡ next)
        ⊎ Runs (compute_step cal from_minute o (next, wake)).0 o
  unfolding compute_step
  compute_step-attained none next wake = inl refl
  compute_step-attained (some e) next wake =
      elim (Bool-cases (ltb (cron_next_run cal e from_minute) next)) [
        | inl h ↦ inr (rw h)
        | inr h ↦ inl (rw h)
      ]

  compute_loop-le :
      (lines : List (List ℕ)) (next wake : ℕ)
      → wake ≤ u32_max
      → ((compute_loop cal from_minute lines (next, wake)).0 ≤ next)
        × ((compute_loop cal from_minute lines (next, wake)).1 ≤ wake)
        × All
            (λ line.
              Below
                (compute_loop cal from_minute lines (next, wake)).0
                (compute_loop cal from_minute lines (next, wake)).1
                (cron_parse line))
            lines
  unfolding compute_loop
  compute_loop-le [] next wake k = (omega arith, omega arith, record {})
  compute_loop-le (line ∷ lines) next wake k =
      let s = compute_step cal from_minute (cron_parse line) (next, wake) in
      let h = compute_step-le (cron_parse line) next wake k in
      let r = compute_loop-le lines s.0 s.1 (omega (arith, h.1, k)) in
      (
        omega (arith, h.0, r.0),
        omega (arith, h.1, r.1),
        (Below-trans (cron_parse line) s.0 s.1 _ _ h.2 r.0 r.1, r.2),
      )

  compute_loop-attained :
      (lines : List (List ℕ)) (next wake : ℕ)
      → ((compute_loop cal from_minute lines (next, wake)).0 ≡ next)
        ⊎ SomeRuns (compute_loop cal from_minute lines (next, wake)).0 lines
  unfolding compute_loop
  compute_loop-attained [] next wake = inl refl
  compute_loop-attained (line ∷ lines) next wake =
      let s = compute_step cal from_minute (cron_parse line) (next, wake) in
      elim (compute_loop-attained lines s.0 s.1) [
        | inr r ↦ inr (inr r)
        | inl e ↦ elim (compute_step-attained (cron_parse line) next wake) [
          | inl k ↦ inl (e ∙ k)
          | inr k ↦ inr (inl (subst (λ n. Runs n (cron_parse line)) (sym e) k))
        ]
      ]

  -- Of the lines, `m` holds the least next run and a bound of the waking runs.
  abbrev pub IsLeast : List (List ℕ) → ℕ × ℕ → Type 0
  IsLeast lines m =
      All (λ line. Below m.0 m.1 (cron_parse line)) lines × ((m.0 ≡ u32_max) ⊎ SomeRuns m.0 lines)

  -- The stored next minute is at most the next run of every entry that parses and the stored wake
  -- minute at most that of every such entry without the A flag, and the next minute is the next run of
  -- an entry unless it is UINT32_MAX.
  pub cron_compute_next-IsLeast :
      (lines : List (List ℕ)) → IsLeast lines (cron_compute_next cal from_minute lines)
  unfolding cron_compute_next
  cron_compute_next-IsLeast lines = (
    (compute_loop-le lines u32_max u32_max (omega arith)).2,
    compute_loop-attained lines u32_max u32_max,
  )
