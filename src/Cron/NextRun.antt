-- ===== src/Cron/NextRun.antt =====
-- cronNextRun and cronComputeNextLocked of esp-idf/src/cron.cpp. The C library's calendar is the record
-- Calendar, a parameter. time_t is a natural number, uint32_t keeps its wrap-around.
pub mod Least
pub mod Due
use spangap_core.Base.{
  ℕ, zero, suc, ◌+◌, ◌*◌, ◌/◌, ◌%◌, bit_and, Bool, true, false, not, ◌&&◌, ◌||◌, Option, none, some,
  List, [], ◌∷◌, ltb, ◌==◌, if◌then◌else◌, u32,
}
use spangap_core.Cron.Field.{cron_match_field}
use spangap_core.Cron.Entry.{CronParsed, cron_parse, flag_awake}

-- struct tm, less tm_isdst: the source sets that to -1 before each mktime.
pub record Tm : Type 0 where
  pub tm_sec : ℕ
  pub tm_min : ℕ
  pub tm_hour : ℕ
  pub tm_mday : ℕ
  pub tm_mon : ℕ
  pub tm_year : ℕ
  pub tm_wday : ℕ

-- localtime_r, and mktime with its normalized argument; none stands for -1.
pub record Calendar : Type 0 where
  pub localtime : ℕ → Tm
  pub mktime : Tm → Option (Tm × ℕ)

abbrev pub u32_max : ℕ
u32_max = 4294967295

-- The epoch minute of a time.
abbrev pub minute_of : ℕ → ℕ
minute_of t = u32 (t / 60)

-- A Sunday also matches a 7.
unfoldable pub dow_ok : CronParsed → Tm → Bool
dow_ok e tm =
    cron_match_field e.weekday tm.tm_wday 0 7
    || (tm.tm_wday == 0 && cron_match_field e.weekday 7 0 7)

unfoldable pub day_ok : CronParsed → Tm → Bool
day_ok e tm =
    cron_match_field e.month (tm.tm_mon + 1) 1 12
    && cron_match_field e.day tm.tm_mday 1 31
    && dow_ok e tm

unfoldable pub hour_ok : CronParsed → Tm → Bool
hour_ok e tm = cron_match_field e.hour tm.tm_hour 0 23

unfoldable pub min_ok : CronParsed → Tm → Bool
min_ok e tm = cron_match_field e.minute tm.tm_min 0 59

-- The next candidate before mktime normalizes it; none when all five fields match.
unfoldable pub advance : CronParsed → Tm → Option Tm
advance e tm =
    if not (day_ok e tm)
    then some record tm { tm_mday = tm.tm_mday + 1; tm_hour = 0; tm_min = 0 }
    else if not (hour_ok e tm)
    then some record tm { tm_hour = tm.tm_hour + 1; tm_min = 0 }
    else if not (min_ok e tm)
    then some record tm { tm_min = tm.tm_min + 1 }
    else none

abbrev pub lower : ℕ → ℕ → ℕ
lower n m = if ltb n m then n else m

-- An entry is skipped on a deep-sleep wake.
abbrev pub is_awake_only : CronParsed → Bool
is_awake_only e = not (bit_and e.flags flag_awake == 0)

module _ (cal : Calendar) where
  -- What follows mktime; `rest` is the loop with one turn less.
  unfoldable pub next_after : (ℕ → Tm → ℕ) → Option (Tm × ℕ) → ℕ
  next_after rest none = u32_max
  next_after rest (some (tm, t)) = rest t tm

  -- One turn, on whether the time is past the horizon and on the next candidate.
  unfoldable pub next_turn : (ℕ → Tm → ℕ) → ℕ → Bool → Option Tm → ℕ
  next_turn rest t true tm = u32_max
  next_turn rest t false none = minute_of t
  next_turn rest t false (some tm) = next_after rest (cal.mktime tm)

  -- The loop, `guard` turns of it being left, at time `t` and its broken-down form.
  unfoldable pub next_loop : ℕ → CronParsed → ℕ → ℕ → Tm → ℕ
  next_loop zero e horizon t tm = u32_max
  next_loop (suc guard) e horizon t tm =
      next_turn (next_loop guard e horizon) t (ltb horizon (minute_of t)) (advance e tm)

  unfoldable pub cron_next_run : CronParsed → ℕ → ℕ
  cron_next_run e from_minute =
      next_loop 1000 e (u32 (from_minute + 400 * 24 * 60)) (from_minute * 60)
        record (cal.localtime (from_minute * 60)) { tm_sec = 0 }

  -- One turn of the loop of cronComputeNextLocked, on (next, wake).
  unfoldable pub compute_step : ℕ → Option CronParsed → ℕ × ℕ → ℕ × ℕ
  compute_step from_minute none (next, wake) = (next, wake)
  compute_step from_minute (some e) (next, wake) =
      let n = cron_next_run e from_minute in
      (lower n next, (if is_awake_only e then wake else lower n wake))

  unfoldable pub compute_loop : ℕ → List (List ℕ) → ℕ × ℕ → ℕ × ℕ
  compute_loop from_minute [] acc = acc
  compute_loop from_minute (line ∷ lines) acc =
      compute_loop from_minute lines (compute_step from_minute (cron_parse line) acc)

  -- The minutes that cronComputeNextLocked stores.
  unfoldable pub cron_compute_next : ℕ → List (List ℕ) → ℕ × ℕ
  cron_compute_next from_minute lines = compute_loop from_minute lines (u32_max, u32_max)
