-- ===== src/Log/Vprintf.antt =====
-- logVprintf of esp-idf/src/log.cpp, with logNowhereToGo and logWireLive: a line from any task, on its way
-- to the ring and to the console.
pub mod Clean
use spangap_core.Base.{
  ℕ, ◌+◌, Bool, true, false, not, ◌&&◌, ◌||◌, List, [], ◌∷◌, ◌++◌, map, ltb, leb, ◌==◌,
  if◌then◌else◌, length, take, sub_u32, u32,
}
use spangap_core.Log.Ring.{Ring, log_ring_size, log_ring_write}
use spangap_core.Log.Reformat.{LineEnv, log_reformat}

pub record Log : Type 0 where
  pub inited : Bool
  pub drain_wanted : Bool
  pub sink_live : Bool
  pub suppressed : ℕ
  pub last_level : ℕ
  pub ring : Ring

-- What a call meets: whether there is memory, what vsnprintf renders in full, what stands in memory
-- behind the 1056 bytes of the second buffer, whether the log task exists, and the console.
pub record PrintCall : Type 0 where
  pub has_memory : Bool
  pub rendered : List ℕ
  pub beyond : List ℕ
  pub has_task : Bool
  pub console_on_cdc : Bool
  pub usb_attached : Bool
  pub serial_in_cli : Bool
  pub serial_in_handler : Bool
  pub console_write_dead : Bool

-- What a call gives: its value, whether the log task is woken, and what the console shows.
pub record PrintOutcome : Type 0 where
  pub value : ℕ
  pub woken : Bool
  pub echo : List ℕ
  pub log : Log

abbrev pub log_wire_live : PrintCall → Bool
log_wire_live c = c.console_on_cdc || c.usb_attached

unfoldable pub log_nowhere_to_go : Log → Bool
log_nowhere_to_go l =
    if l.sink_live then false else leb log_ring_size (sub_u32 l.ring.head l.ring.tail)

-- The controls that carry the state of a terminal, but for tab, newline, return and ESC.
unfoldable pub fold_control : ℕ → ℕ
fold_control c =
    if c == 9 || c == 10 || c == 13 || c == 27 then c else if ltb c 32 || c == 127 then 46 else c

-- The bytes that the loop over fmtLen covers: those of the buffer, and those behind it when the line
-- was longer than the buffer.
unfoldable pub formatted : List ℕ → List ℕ → List ℕ
formatted text beyond = take (length text) (take 1055 text ++ 0 ∷ beyond)

abbrev pub silent : Log → ℕ → PrintOutcome
silent l value = record { value = value; woken = false; echo = []; log = l }

-- A formatted line to its sinks.
unfoldable pub send_line : Log → PrintCall → List ℕ → PrintOutcome
send_line l c text =
    let bytes = map fold_control (formatted text c.beyond) in
    record {
      value = length c.rendered;
      woken = c.has_task && l.drain_wanted;
      echo =
          if log_wire_live c
            && not c.serial_in_cli
            && not c.serial_in_handler
            && not c.console_write_dead
          then bytes
          else [];
      log = record l { ring = (log_ring_write l.ring bytes).1 };
    }

unfoldable pub log_vprintf : LineEnv → Log → PrintCall → PrintOutcome
log_vprintf e l c =
    let line = log_reformat e l.last_level (take 1023 c.rendered) true in
    let l' = record l { last_level = line.1 } in
    if not l.inited
    then silent l 0
    else if log_nowhere_to_go l
    then silent record l { suppressed = u32 (l.suppressed + 1) } 0
    else if not c.has_memory
    then silent l 0
    else if length c.rendered == 0
    then silent l 0
    else if length line.0 == 0
    then silent l' (length c.rendered)
    else send_line l' c line.0
