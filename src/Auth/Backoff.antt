-- ===== src/Auth/Backoff.antt =====
-- isRateLimited of esp-idf/src/auth.cpp. The time is in milliseconds, 32 bits wide.
pub mod Bounds
use spangap_core.Base.{ℕ, zero, suc, ◌+◌, ◌-◌, ◌*◌, ◌%◌, Bool, false, ltb, ◌==◌, if◌then◌else◌}

abbrev pub max_backoff : ℕ
max_backoff = 300

-- lastFailMs and failCount.
pub record Backoff : Type 0 where
  pub last_fail_ms : ℕ
  pub fail_count : ℕ

-- The doubling, with so many turns left.
unfoldable pub delay_loop : ℕ → ℕ → ℕ
delay_loop zero d = d
delay_loop (suc left) d =
    let more = delay_loop left (d * 2) in if ltb d max_backoff then more else d

unfoldable pub delay_sec : ℕ → ℕ
delay_sec fails = let d = delay_loop (fails - 1) 1 in if ltb max_backoff d then max_backoff else d

unfoldable pub is_rate_limited : Backoff → ℕ → Bool
is_rate_limited b now =
    if b.fail_count == 0
    then false
    else ltb ((now + 4294967296 - b.last_fail_ms) % 4294967296) (delay_sec b.fail_count * 1000)
