-- ===== src/Cron/Tests.antt =====
-- Concrete runs of the scheduler, with a calendar whose one month never ends.
use spangap_core.Base.{
  ℕ, ◌+◌, ◌-◌, ◌*◌, ◌/◌, ◌%◌, ◌≡◌, refl, subst, ◌⊎◌, true, false, Option, some, List, [], ◌∷◌, ◌++◌,
  map, arith, some-inj, take, All, codes, eq_bytes, u32,
}
use spangap_core.Base.Int.{◌-ℤ◌}
use spangap_core.Base.Decimal.{atoi, signed_value, skip_space, digits_value, negate}
use spangap_core.Cron.Field.{
  cron_match_field, match_after_comma, match_parts, parts, match_single, match_part, match_stepped,
  match_base, match_dashed, match_number, match_range, match_step, before, after,
}
use spangap_core.Cron.Entry.{CronParsed}
use spangap_core.Cron.NextRun.{Calendar, Tm, cron_next_run, cron_compute_next, u32_max}
use spangap_core.Cron.NextRun.Least.{IsLeast, cron_compute_next-IsLeast}
use spangap_core.Cron.NextRun.Due.{Hits, Normalizes, cron_next_run-Hits}
use spangap_core.Cron.Poll.{
  Cron, World, cron_collect, lines_of, anchor_sane, cron_reschedule, poll_due, poll_locked,
  cron_poll, cron_drain_commands,
}
use spangap_core.Cron.Poll.Schedule.{
  Scheduled, cron_reschedule-Scheduled, cron_poll-Scheduled, poll_locked-stream,
}
use spangap_core.Cron.Poll.Lines.{IsCommand, sent, cron_drain_commands-sent}

abbrev local : ℕ → Tm
local t = record {
  tm_sec = t % 60;
  tm_min = t / 60 % 60;
  tm_hour = t / 3600 % 24;
  tm_mday = t / 86400 + 1;
  tm_mon = 0;
  tm_year = 70;
  tm_wday = (t / 86400 + 4) % 7;
}

abbrev epoch : Tm → ℕ
epoch tm = (((tm.tm_mday - 1) * 24 + tm.tm_hour) * 60 + tm.tm_min) * 60 + tm.tm_sec

abbrev endless : Calendar
endless = record { localtime = local; mktime = λ tm. some (local (epoch tm), epoch tm) }

endless-Normalizes : Normalizes endless
endless-Normalizes tm tm' t h =
    subst
      (λ (q : Tm × ℕ).
        (q.0.tm_min ≡ (local q.1).tm_min)
        × (q.0.tm_hour ≡ (local q.1).tm_hour)
        × (q.0.tm_mday ≡ (local q.1).tm_mday)
        × (q.0.tm_mon ≡ (local q.1).tm_mon)
        × (q.0.tm_wday ≡ (local q.1).tm_wday))
      (some-inj h) (refl, refl, refl, refl, refl)

-- A stream buffer without bound.
abbrev append : List ℕ → List ℕ → List ℕ
append s w = s ++ w

abbrev hourly : List ℕ
hourly = codes "5 * * * * A sync now"

abbrev daily : List ℕ
daily = codes "30 4 * * 1-5 - backup"

abbrev the_table : List (List ℕ × Option (List ℕ))
the_table = (codes "s.cron.tab.sync", some hourly) ∷ (codes "s.cron.tab.backup", some daily) ∷ []

abbrev quiet : World
quiet = record {
  enabled = true;
  now = 6000;
  table = the_table;
  net_state = [];
  deep_sleep_wake = false;
}

abbrev started : Cron (List ℕ)
started = record {
  last_minute = 0;
  next_minute = 0;
  wake_minute = 0;
  entries = [];
  mutex = true;
  released = false;
  held = 1;
  stream = some [];
}

abbrev scheduled : Cron (List ℕ)
scheduled = cron_reschedule endless append quiet started

cron_compute_next-IsLeast_example :
    IsLeast endless 101 (hourly ∷ daily ∷ []) (cron_compute_next endless 101 (hourly ∷ daily ∷ []))
cron_compute_next-IsLeast_example = cron_compute_next-IsLeast endless 101 (hourly ∷ daily ∷ [])

abbrev sync : CronParsed
sync = record {
  minute = codes "5";
  hour = codes "*";
  day = codes "*";
  month = codes "*";
  weekday = codes "*";
  flags = 1;
  cmd = codes "sync now";
}

cron_next_run-Hits_example :
    (cron_next_run endless sync 101 ≡ u32_max)
    ⊎ Hits endless endless-Normalizes sync (u32 (101 + 576000)) (cron_next_run endless sync 101)
cron_next_run-Hits_example = cron_next_run-Hits endless endless-Normalizes sync 101

cron_poll-Scheduled_example : Scheduled endless append (cron_poll endless append quiet scheduled)
cron_poll-Scheduled_example =
    cron_poll-Scheduled endless append quiet scheduled
      (cron_reschedule-Scheduled endless append quiet started refl)

abbrev commands : List (List ℕ)
commands = codes "ls" ∷ codes "up" ∷ []

are_commands : All IsCommand commands
are_commands = (
  (omega arith, ((λ e. omega (arith, e)), ((λ e. omega (arith, e)), record {}))),
  ((omega arith, ((λ e. omega (arith, e)), ((λ e. omega (arith, e)), record {}))), record {}),
)

cron_drain_commands-sent_example : cron_drain_commands (sent commands) ≡ map (take 127) commands
cron_drain_commands-sent_example = cron_drain_commands-sent commands are_commands

abbrev waiting : Cron (List ℕ)
waiting = record {
  last_minute = 100;
  next_minute = (cron_compute_next endless (u32 101) (lines_of (cron_collect the_table))).0;
  wake_minute = (cron_compute_next endless (u32 101) (lines_of (cron_collect the_table))).1;
  entries = cron_collect the_table;
  mutex = true;
  released = true;
  held = 0;
  stream = some [];
}

is_sane : anchor_sane 100 101 ≡ true
unfolding anchor_sane
is_sane = refl

poll_locked-stream_example :
    (poll_locked endless append quiet 101 waiting).stream
    ≡ (poll_due endless append quiet 101 waiting).stream
poll_locked-stream_example = poll_locked-stream endless append quiet 101 waiting is_sane refl refl

steps_in_range : cron_match_field (codes "1,10-20/5") 15 0 59 ≡ true
unfolding cron_match_field match_after_comma match_parts parts match_single match_part match_stepped
    match_base match_dashed match_number match_range match_step atoi signed_value skip_space
    digits_value negate before after eq_bytes ◌-ℤ◌
steps_in_range = refl
