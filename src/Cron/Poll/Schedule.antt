-- ===== src/Cron/Poll/Schedule.antt =====
-- The stored minutes stay the schedule of the entries, and the early return of cronPoll skips nothing.
use spangap_core.Base.{
  ℕ, ◌+◌, ◌<◌, ◌≡◌, refl, sym, ap, ◌∙◌, subst, inl, inr, true, not, ◌&&◌, Option, none, some, List,
  [], ◌∷◌, arith, ltb, if◌then◌else◌, Bool-cases, ltb→lt, lt→leb, All, u32,
}
use spangap_core.Cron.Entry.{CronParsed, cron_parse}
use spangap_core.Cron.NextRun.{Calendar, cron_next_run, cron_compute_next, minute_of}
use spangap_core.Cron.NextRun.Least.{Below, cron_compute_next-IsLeast}
use spangap_core.Cron.Poll.{
  Cron, CronTab, World, cron_collect, lines_of, anchor_sane, cron_update_lock, compute_next_locked,
  collect, anchor, reschedule_locked, cron_reschedule, is_due, poll_entry, poll_entries, poll_due,
  poll_anew, poll_locked, cron_poll,
}

module _ {S : Type 0} (cal : Calendar) (send : S → List ℕ → S) where
  -- The stored minutes are what cronComputeNextLocked computes from the collected entries for the minute
  -- after the last serviced one.
  abbrev pub Scheduled : Cron S → Type 0
  Scheduled c =
      (c.next_minute, c.wake_minute)
      ≡ cron_compute_next cal (u32 (c.last_minute + 1)) (lines_of c.entries)

  compute_next_locked-Scheduled :
      (c : Cron S) → Scheduled (compute_next_locked cal send (u32 (c.last_minute + 1)) c)
  unfolding compute_next_locked
  compute_next_locked-Scheduled c = refl

  -- Once cron has started, cronReschedule establishes the schedule from any state.
  pub cron_reschedule-Scheduled :
      (v : World) (c : Cron S) → c.mutex ≡ true → Scheduled (cron_reschedule cal send v c)
  unfolding cron_reschedule reschedule_locked
  cron_reschedule-Scheduled v c h =
      subst (λ b. Scheduled (if b then reschedule_locked cal send v c else c)) (sym h)
        (compute_next_locked-Scheduled
          (cron_update_lock v (collect cal send v (anchor cal send (minute_of v.now) c))))

  poll_locked-Scheduled :
      (v : World) (now_min : ℕ) (c : Cron S)
      → Scheduled c
      → Scheduled (poll_locked cal send v now_min c)
  unfolding poll_locked poll_anew poll_due collect
  poll_locked-Scheduled v now_min c h =
      elim (Bool-cases (not (anchor_sane c.last_minute now_min))) [
        | inl a ↦ rw a (compute_next_locked-Scheduled _)
        | inr a ↦ rw a (elim (Bool-cases (ltb now_min c.next_minute)) [
          | inl b ↦ rw b h
          | inr b ↦ rw b (compute_next_locked-Scheduled _)
        ])
      ]

  -- cronPoll keeps the schedule, on each of its paths.
  pub cron_poll-Scheduled :
      (v : World) (c : Cron S) → Scheduled c → Scheduled (cron_poll cal send v c)
  unfolding cron_poll
  cron_poll-Scheduled v c h = elim (Bool-cases (c.mutex && v.enabled)) [
    | inl a ↦
        subst (λ b. Scheduled (if b then poll_locked cal send v (minute_of v.now) c else c)) (sym a)
          (poll_locked-Scheduled v (minute_of v.now) c h)
    | inr a ↦
        subst (λ b. Scheduled (if b then poll_locked cal send v (minute_of v.now) c else c)) (sym a)
          h
  ]

  poll_entry-idle :
      (v : World) (last now_min next wake : ℕ) (o : Option CronParsed) (s : Option S)
      → Below cal (u32 (last + 1)) next wake o
      → now_min < next
      → poll_entry cal send v last now_min o s ≡ s
  unfolding poll_entry is_due
  poll_entry-idle v last now_min next wake none s h l = refl
  poll_entry-idle v last now_min next wake (some p) s h l =
      let k = h.0 in rw (lt→leb (cron_next_run cal p (u32 (last + 1))) now_min (omega arith))

  poll_entries-idle :
      (v : World) (last now_min next wake : ℕ) (lines : List (List ℕ)) (s : Option S)
      → All (λ line. Below cal (u32 (last + 1)) next wake (cron_parse line)) lines
      → now_min < next
      → poll_entries cal send v last now_min lines s ≡ s
  unfolding poll_entries
  poll_entries-idle v last now_min next wake [] s h l = refl
  poll_entries-idle v last now_min next wake (line ∷ lines) s h l =
      poll_entries-idle v last now_min next wake lines _ h.1 l
      ∙ poll_entry-idle v last now_min next wake (cron_parse line) s h.0 l

  idle :
      (v : World) (now_min : ℕ) (c : Cron S)
      → Scheduled c
      → c.entries ≡ cron_collect v.table
      → now_min < c.next_minute
      → poll_entries cal send v c.last_minute now_min (lines_of (cron_collect v.table)) c.stream
        ≡ c.stream
  idle v now_min c h e l =
      let lines = lines_of (cron_collect v.table) in
      let m = cron_compute_next cal (u32 (c.last_minute + 1)) lines in
      let same =
        ap
          (λ (es : List CronTab). (cron_compute_next cal (u32 (c.last_minute + 1)) (lines_of es)).0)
          e in
      poll_entries-idle v c.last_minute now_min m.0 m.1 lines c.stream
        (cron_compute_next-IsLeast cal (u32 (c.last_minute + 1)) lines).0
        (subst (λ n. now_min < n) (ap (λ (p : ℕ × ℕ). p.0) h ∙ same) l)

  -- When the anchor is sane, the minutes are the schedule and the entries have not changed since, a
  -- poll hands the CLI task the same bytes as one that always goes through the entries.
  pub poll_locked-stream :
      (v : World) (now_min : ℕ) (c : Cron S)
      → anchor_sane c.last_minute now_min ≡ true
      → Scheduled c
      → c.entries ≡ cron_collect v.table
      → (poll_locked cal send v now_min c).stream ≡ (poll_due cal send v now_min c).stream
  unfolding poll_locked poll_due compute_next_locked collect
  poll_locked-stream v now_min c a h e = elim (Bool-cases (ltb now_min c.next_minute)) [
    | inl b ↦ rw (a, b) (sym (idle v now_min c h e (ltb→lt _ _ b)))
    | inr b ↦ rw (a, b)
  ]
