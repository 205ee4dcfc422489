-- ===== src/Cron/NextRun/Due.antt =====
-- What cronNextRun finds is a minute at which the entry is due.
use spangap_core.Base.{
  ℕ, zero, suc, ◌+◌, ◌≤◌, ◌≡◌, refl, sym, ◌∙◌, ◌≢◌, ◌⊎◌, inl, inr, true, Option, none, some, arith,
  ltb, Bool-cases, Option-cases, ltb→le, u32,
}
use spangap_core.Cron.Entry.{CronParsed}
use spangap_core.Cron.NextRun.{
  Calendar, Tm, cron_next_run, next_loop, next_turn, next_after, u32_max, minute_of, advance,
  day_ok, hour_ok, min_ok, dow_ok,
}

-- All five fields match a local time.
abbrev pub Due : CronParsed → Tm → Type 0
Due e tm = (day_ok e tm ≡ true) × (hour_ok e tm ≡ true) × (min_ok e tm ≡ true)

-- The fields that the entry's time fields are matched with.
abbrev pub SameMinute : Tm → Tm → Type 0
SameMinute a b =
    (a.tm_min ≡ b.tm_min)
    × (a.tm_hour ≡ b.tm_hour)
    × (a.tm_mday ≡ b.tm_mday)
    × (a.tm_mon ≡ b.tm_mon)
    × (a.tm_wday ≡ b.tm_wday)

-- mktime normalizes its argument: it becomes the local time of the result.
abbrev pub Normalizes : Calendar → Type 0
Normalizes cal =
    (tm tm' : Tm) (t : ℕ) → cal.mktime tm ≡ some (tm', t) → SameMinute tm' (cal.localtime t)

wrong : {tm : Tm} → some tm ≢ none
wrong e = ground arith

advance-Due : (e : CronParsed) (tm : Tm) → advance e tm ≡ none → Due e tm
unfolding advance
advance-Due e tm h = elim (Bool-cases (day_ok e tm)) [
  | inr a ↦ absurd (wrong (rw a at h))
  | inl a ↦ elim (Bool-cases (hour_ok e tm)) [
    | inr b ↦ absurd (wrong (rw (a, b) at h))
    | inl b ↦ elim (Bool-cases (min_ok e tm)) [
      | inr c ↦ absurd (wrong (rw (a, b, c) at h))
      | inl c ↦ (a, b, c)
    ]
  ]
]

day_same : (e : CronParsed) (a b : Tm) → SameMinute a b → day_ok e a ≡ day_ok e b
unfolding day_ok dow_ok
day_same e a b h = cc

hour_same : (e : CronParsed) (a b : Tm) → SameMinute a b → hour_ok e a ≡ hour_ok e b
unfolding hour_ok
hour_same e a b h = cc

min_same : (e : CronParsed) (a b : Tm) → SameMinute a b → min_ok e a ≡ min_ok e b
unfolding min_ok
min_same e a b h = cc

SameMinute-Due : (e : CronParsed) (a b : Tm) → SameMinute a b → Due e a → Due e b
SameMinute-Due e a b h d =
    (sym (day_same e a b h) ∙ d.0, sym (hour_same e a b h) ∙ d.1, sym (min_same e a b h) ∙ d.2)

module _ (cal : Calendar) (norm : Normalizes cal) where
  -- A time with the local time `tm` at which the entry is due, not past the horizon.
  abbrev pub Hits : CronParsed → ℕ → ℕ → Type 0
  Hits e horizon n = (t : ℕ) × (n ≡ minute_of t) × (minute_of t ≤ horizon) × Due e (cal.localtime t)

  next_after-Hits :
      (rest : ℕ → Tm → ℕ) (e : CronParsed) (horizon : ℕ)
      → ((t : ℕ) (tm : Tm)
          → SameMinute tm (cal.localtime t)
          → (rest t tm ≡ u32_max) ⊎ Hits e horizon (rest t tm))
      → (tm : Tm) (o : Option (Tm × ℕ)) → cal.mktime tm ≡ o
      → (next_after cal rest o ≡ u32_max) ⊎ Hits e horizon (next_after cal rest o)
  unfolding next_after
  next_after-Hits rest e horizon h tm none k = inl refl
  next_after-Hits rest e horizon h tm (some (tm', t)) k = h t tm' (norm tm tm' t k)

  next_loop-Hits :
      (guard : ℕ) (e : CronParsed) (horizon t : ℕ) (tm : Tm)
      → SameMinute tm (cal.localtime t)
      → (next_loop cal guard e horizon t tm ≡ u32_max)
        ⊎ Hits e horizon (next_loop cal guard e horizon t tm)
  unfolding next_loop next_turn
  next_loop-Hits zero e horizon t tm h = inl refl
  next_loop-Hits (suc guard) e horizon t tm h = elim (Bool-cases (ltb horizon (minute_of t))) [
    | inl late ↦ inl (rw late)
    | inr soon ↦ rw soon (elim (Option-cases (advance e tm)) [
      | inl stop ↦
          rw stop (inr (t, refl, ltb→le _ _ soon, SameMinute-Due e tm _ h (advance-Due e tm stop)))
      | inr (next, go) ↦ rw go (
          next_after-Hits (next_loop cal guard e horizon) e horizon (next_loop-Hits guard e horizon)
            next (cal.mktime next) refl)
    ])
  ]

  -- When mktime normalizes its argument to the local time of its result, cronNextRun gives UINT32_MAX
  -- or the minute of a time, at most 400 days ahead, whose local time all five fields match.
  pub cron_next_run-Hits :
      (e : CronParsed) (from_minute : ℕ)
      → (cron_next_run cal e from_minute ≡ u32_max)
        ⊎ Hits e (u32 (from_minute + 576000)) (cron_next_run cal e from_minute)
  unfolding cron_next_run
  cron_next_run-Hits e from_minute = next_loop-Hits 1000 e _ _ _ (refl, refl, refl, refl, refl)
