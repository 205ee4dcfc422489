-- ===== src/Cron/Poll.antt =====
-- cronCollect, cronUpdateLock, cronReschedule, cronPoll, cronWakeupHandler and cronDrainCommands of
-- esp-idf/src/cron.cpp. The stream buffer to the CLI task and the calendar are parameters; what the
-- code reads of the storage, the clock and the sleep state stands in the record World.
pub mod Schedule
pub mod Lines
use spangap_core.Base.{
  ℕ, ◌+◌, ◌-◌, ◌*◌, bit_and, Bool, true, false, not, ◌&&◌, Option, none, some, List, [], ◌∷◌, ◌++◌,
  ltb, leb, ◌==◌, if◌then◌else◌, length, take, drop, codes, eq_bytes, u32,
}
use spangap_core.Cron.Entry.{CronParsed, cron_parse, flag_network}
use spangap_core.Cron.NextRun.{
  Calendar, cron_next_run, cron_compute_next, is_awake_only, minute_of, u32_max,
}

pub record CronTab : Type 0 where
  pub name : List ℕ
  pub line : List ℕ

abbrev pub tab_prefix : List ℕ
tab_prefix = codes "s.cron.tab."

unfoldable pub strip_prefix : List ℕ → List ℕ
strip_prefix key =
    if eq_bytes (take (length tab_prefix) key) tab_prefix then drop (length tab_prefix) key else key

unfoldable pub text_or_empty : Option (List ℕ) → List ℕ
text_or_empty none = []
text_or_empty (some v) = v

unfoldable pub cron_collect_cb : List ℕ × Option (List ℕ) → CronTab
cron_collect_cb (key, val) = record { name = strip_prefix key; line = text_or_empty val }

-- s_entries after cronCollect, of what storageForEach("s.cron.tab") hands to the callback.
unfoldable pub cron_collect : List (List ℕ × Option (List ℕ)) → List CronTab
cron_collect [] = []
cron_collect (kv ∷ kvs) = cron_collect_cb kv ∷ cron_collect kvs

unfoldable pub lines_of : List CronTab → List (List ℕ)
lines_of [] = []
lines_of (e ∷ es) = e.line ∷ lines_of es

-- s.cron.enable, time(), s.cron.tab.*, wifi.sta.state and isDeepSleepWake.
pub record World : Type 0 where
  pub enabled : Bool
  pub now : ℕ
  pub table : List (List ℕ × Option (List ℕ))
  pub net_state : List ℕ
  pub deep_sleep_wake : Bool

-- The static variables: `mutex` whether cronMutex exists, `held` how often the deep-sleep lock is held,
-- `released` the static of cronUpdateLock, `stream` the stream buffer once there is one.
pub record Cron (S : Type 0) : Type 0 where
  pub last_minute : ℕ
  pub next_minute : ℕ
  pub wake_minute : ℕ
  pub entries : List CronTab
  pub mutex : Bool
  pub released : Bool
  pub held : ℕ
  pub stream : Option S

abbrev pub is_empty {ℓ} : {A : Type ℓ} → List A → Bool
is_empty [] = true
is_empty (x ∷ xs) = false

-- 32-bit difference: it is only taken where it does not wrap.
unfoldable pub anchor_sane : ℕ → ℕ → Bool
anchor_sane last_minute now_min =
    not (last_minute == 0) && leb last_minute now_min && leb (now_min - last_minute) (24 * 60)

unfoldable pub net_up : World → Bool
net_up v = eq_bytes (take 15 v.net_state) (codes "connected")

module _ {S : Type 0} where
  unfoldable pub cron_update_lock : World → Cron S → Cron S
  cron_update_lock v c =
      let allow = v.enabled && not (is_empty c.entries) in
      if allow && not c.released
      then record c { held = c.held - 1; released = true }
      else if not allow && c.released
      then record c { held = c.held + 1; released = false }
      else c

module _ {S : Type 0} (cal : Calendar) (send : S → List ℕ → S) where
  unfoldable pub compute_next_locked : ℕ → Cron S → Cron S
  compute_next_locked from_minute c =
      let m = cron_compute_next cal from_minute (lines_of c.entries) in
      record c { next_minute = m.0; wake_minute = m.1 }

  unfoldable pub collect : World → Cron S → Cron S
  collect v c = record c { entries = cron_collect v.table }

  unfoldable pub anchor : ℕ → Cron S → Cron S
  anchor now_min c =
      if anchor_sane c.last_minute now_min then c else record c { last_minute = now_min }

  unfoldable pub reschedule_locked : World → Cron S → Cron S
  reschedule_locked v c =
      let c1 = cron_update_lock v (collect v (anchor (minute_of v.now) c)) in
      compute_next_locked (u32 (c1.last_minute + 1)) c1

  unfoldable pub cron_reschedule : World → Cron S → Cron S
  cron_reschedule v c = if c.mutex then reschedule_locked v c else c

  -- Whether an entry would have fired in (last_minute, now_min], and its flags allow it.
  unfoldable pub is_due : World → ℕ → ℕ → CronParsed → Bool
  is_due v last_minute now_min p =
      leb (cron_next_run cal p (u32 (last_minute + 1))) now_min
      && not (is_awake_only p && v.deep_sleep_wake)
      && not (not (bit_and p.flags flag_network == 0) && not (net_up v))

  abbrev pub newline : List ℕ
  newline = 10 ∷ []

  unfoldable pub send_command : CronParsed → Option S → Option S
  send_command p none = none
  send_command p (some s) = some (send (send s p.cmd) newline)

  unfoldable pub poll_entry : World → ℕ → ℕ → Option CronParsed → Option S → Option S
  poll_entry v last_minute now_min none s = s
  poll_entry v last_minute now_min (some p) s =
      if is_due v last_minute now_min p then send_command p s else s

  unfoldable pub poll_entries : World → ℕ → ℕ → List (List ℕ) → Option S → Option S
  poll_entries v last_minute now_min [] s = s
  poll_entries v last_minute now_min (line ∷ lines) s =
      poll_entries v last_minute now_min lines
        (poll_entry v last_minute now_min (cron_parse line) s)

  -- The poll of a minute that the stored next minute has reached.
  unfoldable pub poll_due : World → ℕ → Cron S → Cron S
  poll_due v now_min c =
      let c1 = collect v c in
      compute_next_locked (u32 (now_min + 1)) record c1 {
        last_minute = now_min;
        stream = poll_entries v c.last_minute now_min (lines_of c1.entries) c.stream;
      }

  unfoldable pub poll_anew : World → ℕ → Cron S → Cron S
  poll_anew v now_min c =
      compute_next_locked (u32 (now_min + 1)) (collect v record c { last_minute = now_min })

  unfoldable pub poll_locked : World → ℕ → Cron S → Cron S
  poll_locked v now_min c =
      if not (anchor_sane c.last_minute now_min)
      then poll_anew v now_min c
      else if ltb now_min c.next_minute
      then c
      else poll_due v now_min c

  unfoldable pub cron_poll : World → Cron S → Cron S
  cron_poll v c = if c.mutex && v.enabled then poll_locked v (minute_of v.now) c else c

-- The line buffer of cronDrainCommands takes 127 bytes and drops the rest of a line.
unfoldable pub append_byte : List ℕ → ℕ → List ℕ
append_byte line c = if ltb (length line) 127 then line ++ c ∷ [] else line

-- A line is handed to cliProcess unless it is empty.
unfoldable pub process_line : List ℕ → List (List ℕ) → List (List ℕ)
process_line [] later = later
process_line (c ∷ cs) later = (c ∷ cs) ∷ later

-- One byte, on whether it is a newline; `rest` is the loop over the bytes that follow.
unfoldable pub drain_byte : (List ℕ → List (List ℕ)) → List ℕ → ℕ → Bool → List (List ℕ)
drain_byte rest line c true = process_line line (rest [])
drain_byte rest line c false = rest (append_byte line c)

-- `line` is what the buffer holds; the result is the commands handed to cliProcess. Bytes of a line not
-- ended are gone with the buffer when the stream runs empty.
unfoldable pub drain_loop : List ℕ → List ℕ → List (List ℕ)
drain_loop line [] = []
drain_loop line (c ∷ cs) = drain_byte (λ next. drain_loop next cs) line c (c == 10)

-- The commands that a drain of the stream's bytes runs.
unfoldable pub cron_drain_commands : List ℕ → List (List ℕ)
cron_drain_commands bytes = drain_loop [] bytes
