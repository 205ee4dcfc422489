-- ===== src/Log/Vprintf/Clean.antt =====
-- The bytes that a printed line can put into the ring and on the console.
use spangap_core.Base.{
  ℕ, ◌+◌, ◌-◌, ◌≤◌, ◌≡◌, refl, sym, ◌∙◌, subst, ◌≢◌, ◌⊎◌, Bool, true, false, not, ◌&&◌, List, [],
  ◌∷◌, map, arith, leb, ◌==◌, if◌then◌else◌, leb→le, length, take, All, All-append, sub_u32, u32,
  if-P,
}
use spangap_core.Log.Ring.{Ring, log_ring_size, log_ring_write}
use spangap_core.Log.Ring.Refine.{
  Fifo, fifo_write, IsValid, Agrees, contents, avail, log_ring_write-Agrees,
}
use spangap_core.Log.Ring.Window.{length-get_loop}
use spangap_core.Log.Reformat.{LineEnv, log_reformat}
use spangap_core.Log.Reformat.Plain.{All-take}
use spangap_core.Log.Vprintf.{
  Log, PrintCall, PrintOutcome, log_wire_live, log_nowhere_to_go, fold_control, formatted, silent,
  send_line, log_vprintf,
}

-- A byte that the folding leaves: 32 and above but for DEL, or tab, newline, return or ESC.
abbrev pub IsFolded : ℕ → Type 0
IsFolded c = (32 ≤ c × (c ≢ 127)) ⊎ ((c ≡ 9) ⊎ ((c ≡ 10) ⊎ ((c ≡ 13) ⊎ (c ≡ 27))))

unfoldable pub IsClean : Ring → Type 0
IsClean r = IsValid r × All IsFolded (contents r)

fold_control-IsFolded : (c : ℕ) → IsFolded (fold_control c)
unfolding fold_control
fold_control-IsFolded c = ground arith

fold_controls-IsFolded : (bytes : List ℕ) → All IsFolded (map fold_control bytes)
fold_controls-IsFolded [] = _
fold_controls-IsFolded (c ∷ cs) = (fold_control-IsFolded c, fold_controls-IsFolded cs)

-- The queue that the ring stands for.
abbrev as_fifo : Ring → Fifo
as_fifo r = record { waiting = contents r; lost = r.dropped }

log_ring_write-IsClean :
    (r : Ring) (bytes : List ℕ)
    → IsClean r
    → All IsFolded bytes
    → IsClean (log_ring_write r bytes).1
unfolding IsClean Agrees fifo_write
log_ring_write-IsClean r bytes (valid, clean) h =
    let step = log_ring_write-Agrees r (as_fifo r) bytes (valid, refl, refl) in
    let room = 8192 - length (contents r) in
    (
      step.1.0,
      subst (All IsFolded) (sym step.1.1) (
          All-append IsFolded (contents r) (take room bytes) clean
            (All-take IsFolded room bytes h)),
    )

abbrev pub OutcomeIsClean : PrintOutcome → Type 0
OutcomeIsClean o = IsClean o.log.ring × All IsFolded o.echo

send_line-IsClean :
    (l : Log) (c : PrintCall) (text : List ℕ) → IsClean l.ring → OutcomeIsClean (send_line l c text)
unfolding send_line
send_line-IsClean l c text clean =
    let bytes = map fold_control (formatted text c.beyond) in
    let folded = fold_controls-IsFolded (formatted text c.beyond) in
    (
      log_ring_write-IsClean l.ring bytes clean folded,
      if-P (All IsFolded)
          (log_wire_live c
            && not c.serial_in_cli
            && not c.serial_in_handler
            && not c.console_write_dead)
          bytes [] folded _,
    )

full-cases :
    (live full : Bool) → (if live then false else full) ≡ true → (live ≡ false) × (full ≡ true)
full-cases true full e = ground (arith, e)
full-cases false full e = (refl, e)

-- Whatever a task prints, and whatever the call meets: if the ring keeps its invariant and none of the
-- bytes that wait in it is DEL or a control below 32 other than tab, newline, return and ESC, then the
-- same holds after the call, and what the call echoes to the console has no such byte either.
pub log_vprintf-IsClean :
    (e : LineEnv) (l : Log) (c : PrintCall) → IsClean l.ring → OutcomeIsClean (log_vprintf e l c)
unfolding log_vprintf
log_vprintf-IsClean e l c clean =
    let line = log_reformat e l.last_level (take 1023 c.rendered) true in
    let l' = record l { last_level = line.1 } in
    let step : OutcomeIsClean (send_line l' c line.0) = send_line-IsClean l' c line.0 clean in
    if-P OutcomeIsClean (not l.inited) (silent l 0) _ (clean, _)
      (if-P OutcomeIsClean (log_nowhere_to_go l)
        (silent record l { suppressed = u32 (l.suppressed + 1) } 0) _ (clean, _)
        (if-P OutcomeIsClean (not c.has_memory) (silent l 0) _ (clean, _)
          (if-P OutcomeIsClean (length c.rendered == 0) (silent l 0) _ (clean, _)
            (if-P OutcomeIsClean (length line.0 == 0) (silent l' (length c.rendered))
              (send_line l' c line.0) (clean, _) step))))

-- When a line is not even formatted because nothing can receive it, the ring would not have taken a
-- single byte of it.
pub log_nowhere_to_go-full :
    (l : Log) (bytes : List ℕ)
    → IsValid l.ring
    → log_nowhere_to_go l ≡ true
    → (l.sink_live ≡ false) × ((log_ring_write l.ring bytes).0 ≡ 0)
unfolding log_nowhere_to_go fifo_write Agrees IsValid
log_nowhere_to_go-full l bytes valid e =
    let r = l.ring in
    let step = log_ring_write-Agrees r (as_fifo r) bytes (valid, refl, refl) in
    let cases = full-cases l.sink_live (leb log_ring_size (sub_u32 r.head r.tail)) e in
    let full : 8192 ≤ avail r = leb→le log_ring_size (avail r) cases.1 in
    (cases.0, step.0 ∙ omega (arith, full, length-get_loop r.cells r.tail (avail r)))
