-- ===== src/Log/Tests.antt =====
-- Runs of the definitions about esp-idf/src/log.cpp.
use spangap_core.Base.{
  ℕ, ◌≤◌, ◌≡◌, refl, sym, ap, ◌∙◌, ◌≢◌, inl, inr, Bool, true, false, not, ◌&&◌, some, List, [], ◌∷◌,
  ◌++◌, map, arith, ◌==◌, Bool-cases, ==→ne, length, replicate, All, codes, eq_bytes,
}
use spangap_core.Log.Ansi.{contains_ansi, strip_ansi, strip_from}
use spangap_core.Log.Level.{log_color, level_of_char, to_upper, is_level}
use spangap_core.Log.Rules.{
  index_of, log_rule, log_rule_apply, rule_matches, tag_matches, rule_body, starts_with,
}
use spangap_core.Log.Reformat.{
  LineEnv, log_reformat, has_level, skip_leading, skip_seq, continuation, skip_while, trim_newlines,
  trim_resets, scan_back, emit, assemble, color_part, ts_part, stamp, leveled, all_white,
  message_body, after_stamp, split_tag, drop_names,
}
use spangap_core.Log.Reformat.Escapes.{IsColor}
use spangap_core.Log.Reformat.Strip.{IsSane, strip_ansi-log_reformat}
use spangap_core.Log.Reformat.Bounds.{IsDefault, log_reformat-fits}
use spangap_core.Log.Inbound.{Slot}
use spangap_core.Log.Inbound.Drain.{
  without_cr, shown, stream, drain_packets, joined, idle, drain_packets-stream,
}
use spangap_core.Log.Vprintf.{Log, PrintCall, log_vprintf, log_nowhere_to_go}
use spangap_core.Log.Vprintf.Clean.{
  IsClean, OutcomeIsClean, log_vprintf-IsClean, log_nowhere_to_go-full,
}
use spangap_core.Log.Ring.{Ring, log_ring_write, log_ring_read, get_loop, put_loop, put_run}
use spangap_core.Log.Ring.Refine.{
  Fifo, Op, write, read, taken, given, IsValid, Agrees, run_ring, run_fifo, run_ring-run_fifo,
}

-- An empty ring whose next position is the last before the turn.
abbrev late_ring : Ring
late_ring = record { cells = replicate 8192 0; head = 4294967295; tail = 4294967295; dropped = 0 }

abbrev empty_fifo : Fifo
empty_fifo = record { waiting = []; lost = 0 }

late_ring-Agrees : Agrees late_ring empty_fifo
unfolding Agrees IsValid get_loop
late_ring-Agrees = ((refl, omega arith, omega arith, omega arith, omega arith), refl, refl)

abbrev some_ops : List Op
some_ops = write (1 ∷ 2 ∷ 3 ∷ []) ∷ read 2 ∷ read 5 ∷ []

-- The ring that is about to wrap.
run_ring-run_fifo_example : run_ring late_ring some_ops ≡ run_fifo empty_fifo some_ops
run_ring-run_fifo_example = run_ring-run_fifo late_ring empty_fifo some_ops late_ring-Agrees

wraps : run_ring late_ring some_ops ≡ taken 3 ∷ given (1 ∷ 2 ∷ []) ∷ given (3 ∷ []) ∷ []
unfolding run_ring log_ring_write log_ring_read put_loop put_run get_loop
wraps = refl

-- No byte of the text is `c`.
lacks : ℕ → List ℕ → Bool
lacks c [] = true
lacks c (x ∷ xs) = not (x == c) && lacks c xs

lacks-All : (c : ℕ) (xs : List ℕ) → lacks c xs ≡ true → All (λ x. x ≢ c) xs
unfolding lacks
lacks-All c [] h = _
lacks-All c (x ∷ xs) h = elim (Bool-cases (x == c)) [
  | inl e ↦
      let bad : false ≡ true = ap (λ b. not b && lacks c xs) (sym e) ∙ h in ground (arith, bad)
  | inr e ↦ (==→ne x c e, lacks-All c xs (ap (λ b. not b && lacks c xs) (sym e) ∙ h))
]

abbrev usual_env : LineEnv
usual_env = record {
  colors = record {
    error = codes "0;31";
    warn = codes "0;33";
    info = codes "0;32";
    debug = codes "0;37";
    verbose = codes "0;90";
    timestamp = codes "0;90";
  };
  rules = record { prefix = codes "NimBLE: "; tag_len = 6; level = 68 } ∷ [];
  task = some (codes "lora");
  show_ts = false;
  wall = codes "Mar 27 16:23:15.342";
  level_get = λ tag. 3;
}

is_color : (color : List ℕ) → lacks 109 color ≡ true → length color ≤ 15 → IsColor color
is_color color h k = (lacks-All 109 color h, k)

usual_env-IsSane : IsSane usual_env
unfolding lacks
usual_env-IsSane = record {
  error_color = is_color (codes "0;31") refl (omega arith);
  warn_color = is_color (codes "0;33") refl (omega arith);
  info_color = is_color (codes "0;32") refl (omega arith);
  debug_color = is_color (codes "0;37") refl (omega arith);
  verbose_color = is_color (codes "0;90") refl (omega arith);
  timestamp_color = is_color (codes "0;90") refl (omega arith);
  task_text = lacks-All 27 (codes "lora") refl;
  wall_text = lacks-All 27 (codes "Mar 27 16:23:15.342") refl;
  rules_text = ((λ h. omega (arith, h)), _);
}

usual_env-IsDefault : IsDefault usual_env
usual_env-IsDefault = record {
  no_stamp = refl;
  short_error = omega arith;
  short_warn = omega arith;
  short_info = omega arith;
  short_debug = omega arith;
  short_verbose = omega arith;
  short_task = omega arith;
}

abbrev esp_line : List ℕ
esp_line = codes "W (12345) lora: lora: channel busy"

strip_ansi-log_reformat_example :
    strip_ansi (log_reformat usual_env 73 esp_line true).0
    ≡ (log_reformat usual_env 73 esp_line false).0
unfolding lacks
strip_ansi-log_reformat_example =
    strip_ansi-log_reformat usual_env 73 esp_line usual_env-IsSane (λ h. omega (arith, h))
      (lacks-All 27 esp_line refl)

log_reformat-fits_example : length (log_reformat usual_env 73 esp_line true).0 ≤ 1055
log_reformat-fits_example =
    log_reformat-fits usual_env 73 esp_line true usual_env-IsDefault (omega arith)

abbrev new_slot : Slot
new_slot = record { handle = some 4; ansi = true; line_buf = []; truncated = false }

abbrev two_packets : List (List ℕ)
two_packets = codes "fir" ∷ (115 ∷ 116 ∷ 13 ∷ 10 ∷ 120 ∷ 10 ∷ []) ∷ []

abbrev two_lines : List (List ℕ)
two_lines = (102 ∷ 105 ∷ 114 ∷ 115 ∷ 116 ∷ 13 ∷ []) ∷ (120 ∷ []) ∷ []

drain_packets-stream_example :
    drain_packets (idle new_slot) two_packets
    ≡ (idle new_slot, map (λ line. shown (without_cr line)) two_lines)
unfolding lacks joined stream
drain_packets-stream_example =
    drain_packets-stream new_slot two_packets two_lines
      (lacks-All 10 (102 ∷ 105 ∷ 114 ∷ 115 ∷ 116 ∷ 13 ∷ []) refl, (lacks-All 10 (120 ∷ []) refl, _))
      refl

abbrev new_log : Bool → Ring → Log
new_log live ring = record {
  inited = true;
  drain_wanted = true;
  sink_live = live;
  suppressed = 0;
  last_level = 73;
  ring = ring;
}

abbrev usual_call : PrintCall
usual_call = record {
  has_memory = true;
  rendered = esp_line;
  beyond = [];
  has_task = true;
  console_on_cdc = false;
  usb_attached = true;
  serial_in_cli = false;
  serial_in_handler = false;
  console_write_dead = false;
}

late_ring-IsClean : IsClean late_ring
unfolding IsClean IsValid get_loop
late_ring-IsClean = ((refl, omega arith, omega arith, omega arith, omega arith), _)

log_vprintf-IsClean_example :
    OutcomeIsClean (log_vprintf usual_env (new_log true late_ring) usual_call)
log_vprintf-IsClean_example =
    log_vprintf-IsClean usual_env (new_log true late_ring) usual_call late_ring-IsClean

abbrev full_ring : Ring
full_ring = record { cells = replicate 8192 0; head = 8192; tail = 0; dropped = 0 }

full_ring-IsValid : IsValid full_ring
unfolding IsValid
full_ring-IsValid = (refl, omega arith, omega arith, omega arith, omega arith)

log_nowhere_to_go-full_example :
    ((new_log false full_ring).sink_live ≡ false)
    × ((log_ring_write (new_log false full_ring).ring esp_line).0 ≡ 0)
unfolding log_nowhere_to_go
log_nowhere_to_go-full_example =
    log_nowhere_to_go-full (new_log false full_ring) esp_line full_ring-IsValid refl

-- With time stamps, a line of 1023 bytes formats into more than the buffer of 1056 holds.
long_line_overruns :
    length (log_reformat record usual_env { show_ts = true } 73 (replicate 1023 120) true).0 ≡ 1075
unfolding log_reformat has_level is_level skip_leading skip_seq continuation skip_while
    trim_newlines trim_resets scan_back emit log_rule_apply rule_matches tag_matches rule_body
    starts_with assemble color_part log_color ts_part stamp leveled all_white message_body index_of
    after_stamp split_tag eq_bytes drop_names level_of_char
long_line_overruns = refl

-- What is left of a text with a sequence inside another's ESC is a sequence again.
strip_leaves_sequence : contains_ansi (strip_ansi (27 ∷ 27 ∷ 91 ∷ 109 ∷ 91 ∷ 51 ∷ 109 ∷ [])) ≡ true
unfolding contains_ansi strip_ansi strip_from
strip_leaves_sequence = refl

own_name_dropped :
    (log_reformat usual_env 73 esp_line false).0 ≡ codes "W [lora] channel busy" ++ 10 ∷ []
unfolding log_reformat has_level is_level skip_leading skip_seq continuation skip_while
    trim_newlines trim_resets scan_back emit log_rule_apply rule_matches tag_matches rule_body
    starts_with assemble color_part log_color ts_part stamp leveled all_white message_body index_of
    after_stamp split_tag eq_bytes drop_names level_of_char
own_name_dropped = refl

noisy_library : (log_reformat usual_env 73 (codes "I (5) NimBLE: GAP procedure") false).0 ≡ []
unfolding log_reformat has_level is_level skip_leading skip_seq continuation skip_while
    trim_newlines trim_resets scan_back emit log_rule_apply rule_matches tag_matches rule_body
    starts_with assemble color_part log_color ts_part stamp leveled all_white message_body index_of
    after_stamp split_tag eq_bytes drop_names level_of_char
noisy_library = refl

wifi_prefix : log_rule [] (codes "NimBLE: ") 100 ≡ usual_env.rules
unfolding log_rule level_of_char to_upper index_of
wifi_prefix = refl
