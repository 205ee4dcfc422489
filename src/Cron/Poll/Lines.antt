-- ===== src/Cron/Poll/Lines.antt =====
-- The commands that cronPoll sends are those that cronDrainCommands runs.
use spangap_core.Base.{
  ℕ, suc, ◌-◌, ◌≤◌, ◌<◌, ◌≡◌, refl, sym, ap, ◌∙◌, ◌≢◌, inl, inr, List, [], ◌∷◌, ◌++◌, map,
  append-nil, append_assoc, arith, ltb, Bool-cases, ltb→lt, ltb→le, ne→==, length, take, All,
  length-append, take-all,
}
use spangap_core.Cron.Poll.{drain_loop, cron_drain_commands, append_byte, process_line, drain_byte}

-- The bytes that cronPoll sends for some commands.
abbrev pub sent : List (List ℕ) → List ℕ
sent [] = []
sent (w ∷ ws) = w ++ 10 ∷ sent ws

-- A command of at least one byte and with no newline.
abbrev pub IsCommand : List ℕ → Type 0
IsCommand w = (1 ≤ length w) × All (λ c. c ≢ 10) w

-- What the buffer holds after more bytes of a line.
abbrev kept : List ℕ → List ℕ → List ℕ
kept line [] = line
kept line (c ∷ w) = kept (append_byte line c) w

kept-take : (line w : List ℕ) → kept line w ≡ line ++ take (127 - length line) w
unfolding append_byte
kept-take line [] = sym (
    ap (λ (s : List ℕ). line ++ s) (take-all (127 - length line) [] (omega arith))
    ∙ append-nil line)
kept-take line (c ∷ w) = elim (Bool-cases (ltb (length line) 127)) [
  | inl h ↦ rw h (kept-take (line ++ c ∷ []) w ∙ room (ltb→lt _ _ h))
  | inr h ↦ rw h (kept-take line w ∙ rw (full (ltb→le _ _ h)))
]
  where
    full : 127 ≤ length line → 127 - length line ≡ 0
    full h = omega arith

    split : length line < 127 → 127 - length line ≡ suc (127 - length (line ++ c ∷ []))
    split h = rw (length-append line (c ∷ [])) (omega (arith, h))

    room :
        length line < 127
        → (line ++ c ∷ []) ++ take (127 - length (line ++ c ∷ [])) w
          ≡ line ++ take (127 - length line) (c ∷ w)
    room h = rw (split h) (append_assoc line (c ∷ []) _)

drain_loop-line :
    (w line rest : List ℕ)
    → All (λ c. c ≢ 10) w
    → drain_loop line (w ++ 10 ∷ rest) ≡ process_line (kept line w) (drain_loop [] rest)
unfolding drain_loop drain_byte
drain_loop-line [] line rest h = refl
drain_loop-line (c ∷ w) line rest h =
    rw (ne→== c 10 h.0) (drain_loop-line w (append_byte line c) rest h.1)

process_line-take :
    (w : List ℕ) (later : List (List ℕ))
    → 1 ≤ length w
    → process_line (take 127 w) later ≡ take 127 w ∷ later
unfolding process_line
process_line-take [] later h = absurd (omega arith)
process_line-take (c ∷ w) later h = refl

-- Of the bytes that are sent for some commands, each of at least one byte and none with a newline,
-- cronDrainCommands runs these commands in order, each cut to 127 bytes.
pub cron_drain_commands-sent :
    (ws : List (List ℕ)) → All IsCommand ws → cron_drain_commands (sent ws) ≡ map (take 127) ws
unfolding cron_drain_commands drain_loop
cron_drain_commands-sent [] h = refl
cron_drain_commands-sent (w ∷ ws) h =
    drain_loop-line w [] (sent ws) h.0.1
    ∙ ap (λ (l : List ℕ). process_line l (drain_loop [] (sent ws))) (kept-take [] w)
    ∙ process_line-take w (drain_loop [] (sent ws)) h.0.0
    ∙ ap (take 127 w ∷◌) (cron_drain_commands-sent ws h.1)
