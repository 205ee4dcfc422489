-- ===== src/Auth/Backoff/Bounds.antt =====
-- How long failed logins are held off.
use spangap_core.Base.{
  ℕ, zero, suc, ◌+◌, ◌-◌, ◌*◌, ◌%◌, ◌≤◌, ◌<◌, min, ◌≡◌, refl, sym, ap, ◌∙◌, ◌↔◌, inl, inr, true,
  false, arith, ltb, ◌==◌, if◌then◌else◌, Bool-cases, ltb→lt, ltb→le, lt→ltb, ne→==,
}
use spangap_core.Auth.Backoff.{Backoff, max_backoff, delay_loop, delay_sec, is_rate_limited}

-- Doubling so many times.
abbrev pub doubled : ℕ → ℕ → ℕ
doubled zero d = d
doubled (suc n) d = doubled n (d * 2)

doubled-ge : (n d : ℕ) → d ≤ doubled n d
doubled-ge zero d = omega arith
doubled-ge (suc n) d = omega (arith, doubled-ge n (d * 2))

-- Stopping the doubling at the cap or beyond changes nothing below it.
delay_loop-doubled : (n d : ℕ) → min (delay_loop n d) 300 ≡ min (doubled n d) 300
unfolding delay_loop
delay_loop-doubled zero d = refl
delay_loop-doubled (suc n) d = elim (Bool-cases (ltb d max_backoff)) [
  | inl a ↦ rw a (delay_loop-doubled n (d * 2))
  | inr a ↦ rw a (omega (arith, ltb→le d 300 a, doubled-ge n (d * 2)))
]

-- The delay doubles with every failure and stops at five minutes.
delay_sec-doubled : (n : ℕ) → delay_sec (suc n) ≡ min (doubled n 1) 300
unfolding delay_sec
delay_sec-doubled n =
    let turns : suc n - 1 ≡ n = omega arith in
    ap (λ (k : ℕ). if ltb 300 (delay_loop k 1) then 300 else delay_loop k 1) turns
    ∙ capped (delay_loop n 1)
    ∙ delay_loop-doubled n 1
  where
    capped : (d : ℕ) → (if ltb 300 d then 300 else d) ≡ min d 300
    capped d = ground arith

-- The milliseconds since the last failure, on a clock of 32 bits.
abbrev pub elapsed : Backoff → ℕ → ℕ
elapsed b now = (now + 4294967296 - b.last_fail_ms) % 4294967296

limited :
    (b : Backoff) (now n : ℕ)
    → b.fail_count ≡ suc n
    → is_rate_limited b now ≡ ltb (elapsed b now) (min (doubled n 1) 300 * 1000)
unfolding is_rate_limited
limited b now n h =
    ap (λ (k : ℕ). if k == 0 then false else ltb (elapsed b now) (delay_sec k * 1000)) h
    ∙ ap (λ c. if c then false else ltb (elapsed b now) (delay_sec (suc n) * 1000))
        (ne→== (suc n) 0 (omega arith))
    ∙ ap (λ (d : ℕ). ltb (elapsed b now) (d * 1000)) (delay_sec-doubled n)

-- After failures in a row logins are refused just as long as the time since the last of them is less than
-- a second, doubled for each failure but the first and at most five minutes.
pub is_rate_limited_iff :
    (b : Backoff) (now n : ℕ)
    → b.fail_count ≡ suc n
    → (is_rate_limited b now ≡ true) ↔ (elapsed b now < min (doubled n 1) 300 * 1000)
is_rate_limited_iff b now n h =
    let wait = min (doubled n 1) 300 * 1000 in
    (
      λ (r : is_rate_limited b now ≡ true).
          ltb→lt (elapsed b now) wait (sym (limited b now n h) ∙ r),
      λ (l : elapsed b now < wait). limited b now n h ∙ lt→ltb (elapsed b now) wait l,
    )
