-- ===== src/Log/Inbound.antt =====
-- The consumers of the log of esp-idf/src/log.cpp: logAllocSlot, the lines that they send in
-- (logSlotDrainInbound, logInboundLineOut, colorizePreformatted) and the filter of the log file.
pub mod Drain
use spangap_core.Base.{
  ◌>>=◌, ℕ, zero, suc, ◌+◌, ◌-◌, Bool, true, false, not, ◌||◌, Option, none, some, List, [], ◌∷◌,
  ◌++◌, map, ltb, leb, ◌==◌, if◌then◌else◌, length, get_or, take, drop, codes,
}
use spangap_core.Log.Level.{level_char_to_num, line_level, find_level_char_pos, Colors, log_color}
use spangap_core.Log.Ansi.{contains_ansi, strip_ansi}
use spangap_core.Log.Reformat.{escape, reset_seq, is_newline, trim_newlines, is_space_char}

-- The line under way: its bytes, and whether it was cut.
pub record Slot : Type 0 where
  pub handle : Option ℕ
  pub ansi : Bool
  pub line_buf : List ℕ
  pub truncated : Bool

-- The first slot with no connection takes it. none stands for -1.
unfoldable pub log_alloc_slot : List Slot → ℕ → Option ℕ × List Slot
log_alloc_slot [] h = (none, [])
log_alloc_slot (s ∷ slots) h =
    let (found, rest) = log_alloc_slot slots h in
    elim s.handle [
      | none ↦ (some 0, record s { handle = some h; line_buf = []; truncated = false } ∷ slots)
      | some other ↦ (found >>= (λ i. some (suc i)), s ∷ rest)
    ]

abbrev pub cut_mark : List ℕ
cut_mark = codes " ...[cut]"

-- The mark over the end of a line that is cut.
unfoldable pub stamp_cut : List ℕ → List ℕ
stamp_cut line = if leb 9 (length line) then take (length line - 9) line ++ cut_mark else line

-- One byte of logSlotDrainInbound: the slot, and the line that it completes.
unfoldable pub take_byte : Slot → ℕ → Slot × List (List ℕ)
take_byte s c =
    if c == 13
    then (s, [])
    else if c == 10
    then (record s { line_buf = []; truncated = false }, s.line_buf ∷ [])
    else if ltb (length s.line_buf + 1) 512
    then (record s { line_buf = s.line_buf ++ c ∷ [] }, [])
    else if s.truncated
    then (s, [])
    else (record s { line_buf = stamp_cut s.line_buf; truncated = true }, [])

-- A packet: the slot, and the lines that logInboundLineOut is given, in order.
unfoldable pub log_slot_drain_inbound : Slot → List ℕ → Slot × List (List ℕ)
log_slot_drain_inbound s [] = (s, [])
log_slot_drain_inbound s (c ∷ cs) =
    let (s', lines) = take_byte s c in
    let (s'', more) = log_slot_drain_inbound s' cs in (s'', lines ++ more)

-- The length without the spaces at the end.
unfoldable pub trim_spaces : List ℕ → ℕ → ℕ
trim_spaces text zero = zero
trim_spaces text (suc n) =
    let shorter = trim_spaces text n in if is_space_char (get_or text n 0) then shorter else suc n

-- A line with a level at `lp`, coloured.
unfoldable pub colorize_at : Colors → List ℕ → ℕ → List ℕ
colorize_at k line lp =
    let color = log_color k (get_or line lp 0) in
    let prefix = take (trim_spaces line lp) line in
    let text = escape color ++ (drop lp line ++ (reset_seq ++ 10 ∷ [])) in
    if length prefix == 0 then text else escape k.timestamp ++ (prefix ++ (reset_seq ++ 32 ∷ text))

abbrev pub colorize_found : Colors → List ℕ → Option ℕ → List ℕ
colorize_found k line none = line ++ 10 ∷ []
colorize_found k line (some lp) = colorize_at k line lp

-- The whole text that snprintf has to write.
unfoldable pub colorize_preformatted : Colors → List ℕ → List ℕ
colorize_preformatted k text =
    let line = take (trim_newlines text (length text)) text in
    colorize_found k line (find_level_char_pos line)

-- The two versions of a line: plain, and for consumers that take colours. The lines have at most 511
-- bytes, so that no buffer cuts them.
unfoldable pub plain_version : List ℕ → List ℕ
plain_version line = strip_ansi line ++ 10 ∷ []

unfoldable pub ansi_version : Colors → List ℕ → List ℕ
ansi_version k line = if contains_ansi line then line ++ 10 ∷ [] else colorize_preformatted k line

-- Where a line goes.
pub data Sink : Type 0 where
  file console : Sink
  consumer : ℕ → Sink

-- What the consumers but the source are sent. `connected` is itsConnected.
unfoldable pub fan_out : (ℕ → Bool) → Colors → ℕ → List ℕ → ℕ → List Slot → List (Sink × List ℕ)
fan_out connected k src line i [] = []
fan_out connected k src line i (s ∷ slots) =
    let rest = fan_out connected k src line (i + 1) slots in
    let text = if s.ansi then ansi_version k line else plain_version line in
    elim s.handle [
      | none ↦ rest
      | some h ↦ if i == src || not (connected h) then rest else (consumer h, text) ∷ rest
    ]

-- How much of a text its first line takes, the newline included.
unfoldable pub line_end : List ℕ → ℕ
line_end [] = 0
line_end (c ∷ cs) = let later = line_end cs in if c == 10 then 1 else suc later

-- logFileWrite: the lines of a text, newlines included, that the level lets through. The fuel is the
-- length.
unfoldable pub log_file_write : ℕ → ℕ → List ℕ → List (List ℕ)
log_file_write level_max zero text = []
log_file_write level_max (suc fuel) [] = []
log_file_write level_max (suc fuel) (c ∷ cs) =
    let n = line_end (c ∷ cs) in
    let line = take n (c ∷ cs) in
    let rest = log_file_write level_max fuel (drop n (c ∷ cs)) in
    if leb (level_char_to_num (line_level line)) level_max then line ∷ rest else rest

abbrev pub filed_lines : Option ℕ → List ℕ → List (Sink × List ℕ)
filed_lines none plain = []
filed_lines (some level_max) plain =
    map (λ (l : List ℕ). (file, l)) (log_file_write level_max (length plain) plain)

-- logInboundLineOut with a log file open or not and the console free or not.
unfoldable pub log_inbound_line_out :
    (ℕ → Bool) → Colors → Option ℕ → Bool → List Slot → ℕ → List ℕ → List (Sink × List ℕ)
log_inbound_line_out connected k file_level console_free slots src line =
    let plain = plain_version line in
    if length line == 0
    then []
    else filed_lines file_level plain
      ++ (fan_out connected k src line 0 slots
          ++ (if console_free then (console, ansi_version k line) ∷ [] else []))
