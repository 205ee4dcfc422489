-- ===== src/Log/Inbound/Drain.antt =====
-- What a slot makes of the bytes that it receives.
use spangap_core.Base.{
  ℕ, suc, ◌+◌, ◌-◌, ◌≤◌, ◌<◌, ◌≡◌, refl, sym, ap, ◌∙◌, ◌≢◌, inl, inr, Bool, true, false, List, [],
  ◌∷◌, ◌++◌, map, append-nil, append_assoc, arith, ltb, ◌==◌, if◌then◌else◌, Bool-cases, ltb→lt,
  ltb→le, lt→ltb, le→ltb, le→leb, ne→==, eq→==, ==→ne, ==_iff, length, take, All, length-append,
  take-append_le, length-take,
}
use spangap_core.Log.Inbound.{Slot, take_byte, stamp_cut, cut_mark, log_slot_drain_inbound}

-- A line without its carriage returns.
unfoldable pub without_cr : List ℕ → List ℕ
without_cr [] = []
without_cr (c ∷ cs) = if c == 13 then without_cr cs else c ∷ without_cr cs

-- A line as it is shown: whole, or cut at 502 bytes with a mark.
unfoldable pub shown : List ℕ → List ℕ
shown line = if ltb 511 (length line) then take 502 line ++ cut_mark else line

-- The stream of bytes of some lines.
unfoldable pub stream : List (List ℕ) → List ℕ
stream [] = []
stream (line ∷ lines) = line ++ 10 ∷ stream lines

-- The packets in order.
unfoldable pub drain_packets : Slot → List (List ℕ) → Slot × List (List ℕ)
drain_packets s [] = (s, [])
drain_packets s (p ∷ ps) =
    let (s', lines) = log_slot_drain_inbound s p in
    let (s'', more) = drain_packets s' ps in (s'', lines ++ more)

unfoldable pub joined : List (List ℕ) → List ℕ
joined [] = []
joined (p ∷ ps) = p ++ joined ps

-- The slot that has read some bytes of a line.
abbrev reading : Slot → List ℕ → Slot
reading s acc = record s { line_buf = shown acc; truncated = ltb 511 (length acc) }

shown-short : (acc : List ℕ) → length acc ≤ 511 → shown acc ≡ acc
unfolding shown
shown-short acc h = rw (le→ltb 511 (length acc) h) refl

shown-long : (acc : List ℕ) → 511 < length acc → shown acc ≡ take 502 acc ++ cut_mark
unfolding shown
shown-long acc h = rw (lt→ltb 511 (length acc) h) refl

length-shown : (acc : List ℕ) → 511 ≤ length acc → length (shown acc) ≡ 511
length-shown acc h = elim (Bool-cases (ltb 511 (length acc))) [
  | inl e ↦
      ap length (shown-long acc (ltb→lt 511 (length acc) e))
      ∙ length-append (take 502 acc) cut_mark
      ∙ omega (arith, length-take 502 acc, h)
  | inr e ↦
      let under = ltb→le 511 (length acc) e in
      ap length (shown-short acc under) ∙ omega (arith, h, under)
]

stamp_cut-full : (acc : List ℕ) → length acc ≡ 511 → stamp_cut acc ≡ take 502 acc ++ cut_mark
unfolding stamp_cut
stamp_cut-full acc h =
    rw (le→leb 9 (length acc) (omega (arith, h))) (ap (λ (n : ℕ). take (n - 9) acc ++ cut_mark) h)

-- A slot with other contents, and no line completed.
abbrev quiet : Slot → List ℕ → Bool → Slot × List (List ℕ)
quiet s line cut = (record s { line_buf = line; truncated = cut }, [])

quiet-same :
    (s : Slot) (line line' : List ℕ) (cut cut' : Bool)
    → line ≡ line'
    → cut ≡ cut'
    → quiet s line cut ≡ quiet s line' cut'
quiet-same s line line' cut cut' e f = ap (λ l. quiet s l cut) e ∙ ap (quiet s line') f

reading-next :
    (s : Slot) (acc : List ℕ) (c : ℕ)
    → c ≢ 10
    → c ≢ 13
    → take_byte (reading s acc) c ≡ (reading s (acc ++ c ∷ []), [])
unfolding take_byte
reading-next s acc c h k =
    let acc' = acc ++ c ∷ [] in
    let longer : length acc' ≡ suc (length acc) = omega (arith, length-append acc (c ∷ [])) in
    rw (ne→== c 13 k) (
      rw (ne→== c 10 h) (elim (Bool-cases (ltb (length acc) 511)) [
        | inl e ↦
            let few : length acc < 511 = ltb→lt (length acc) 511 e in
            let same = shown-short acc (omega (arith, few)) in
            let room : ltb (length (shown acc) + 1) 512 ≡ true =
              lt→ltb (length (shown acc) + 1) 512 (omega (arith, ap length same, few)) in
            rw room (
              quiet-same s (shown acc ++ c ∷ []) (shown acc') _ _
                (ap (λ l. l ++ c ∷ []) same ∙ sym (shown-short acc' (omega (arith, longer, few))))
                (le→ltb 511 (length acc) (omega (arith, few))
                  ∙ sym (le→ltb 511 (length acc') (omega (arith, longer, few)))))
        | inr e ↦
            let many : 511 ≤ length acc = ltb→le (length acc) 511 e in
            let cut = shown-long acc' (omega (arith, longer, many)) in
            let kept : take 502 acc' ≡ take 502 acc =
              take-append_le 502 acc (c ∷ []) (omega (arith, many)) in
            let cut' : ltb 511 (length acc') ≡ true =
              lt→ltb 511 (length acc') (omega (arith, longer, many)) in
            let full : length (shown acc) ≡ 511 = length-shown acc many in
            let room : ltb (length (shown acc) + 1) 512 ≡ false =
              le→ltb (length (shown acc) + 1) 512 (omega (arith, full)) in
            rw room (elim (Bool-cases (ltb 511 (length acc))) [
              | inl over ↦ rw over (
                  quiet-same s (shown acc) (shown acc') _ _
                    (shown-long acc (ltb→lt 511 (length acc) over)
                      ∙ ap (λ l. l ++ cut_mark) (sym kept)
                      ∙ sym cut)
                    (sym cut'))
              | inr over ↦
                  let exact : length acc ≡ 511 =
                    omega (arith, many, ltb→le 511 (length acc) over) in
                  rw over (
                    quiet-same s (stamp_cut (shown acc)) (shown acc') _ _
                      (ap stamp_cut (shown-short acc (omega (arith, exact)))
                        ∙ stamp_cut-full acc exact
                        ∙ ap (λ l. l ++ cut_mark) (sym kept)
                        ∙ sym cut)
                      (sym cut'))
            ])
      ]))

reading-cr : (s : Slot) (c : ℕ) → c ≡ 13 → take_byte s c ≡ (s, [])
unfolding take_byte
reading-cr s c h = rw (eq→== c 13 h) refl

-- One byte more in front.
drain-next :
    (s s' : Slot) (c : ℕ) (cs : List ℕ)
    → take_byte s c ≡ (s', [])
    → log_slot_drain_inbound s (c ∷ cs) ≡ log_slot_drain_inbound s' cs
unfolding log_slot_drain_inbound
drain-next s s' c cs h =
    ap
      (λ (r : Slot × List (List ℕ)).
        ((log_slot_drain_inbound r.0 cs).0, r.1 ++ (log_slot_drain_inbound r.0 cs).1))
      h

reading-text :
    (s : Slot) (acc text : List ℕ)
    → All (λ c. c ≢ 10) text
    → log_slot_drain_inbound (reading s acc) text ≡ (reading s (acc ++ without_cr text), [])
unfolding log_slot_drain_inbound without_cr
reading-text s acc [] h = ap (λ a. (reading s a, [])) (sym (append-nil acc))
reading-text s acc (c ∷ cs) (h, hs) = elim (Bool-cases (c == 13)) [
  | inl e ↦
      drain-next (reading s acc) (reading s acc) c cs
        (reading-cr (reading s acc) c ((==_iff c 13).0 e))
      ∙ reading-text s acc cs hs
      ∙ ap (λ b. (reading s (acc ++ (if b then without_cr cs else c ∷ without_cr cs)), [])) (sym e)
  | inr e ↦
      drain-next (reading s acc) (reading s (acc ++ c ∷ [])) c cs
        (reading-next s acc c h (==→ne c 13 e))
      ∙ reading-text s (acc ++ c ∷ []) cs hs
      ∙ ap (λ a. (reading s a, [])) (append_assoc acc (c ∷ []) (without_cr cs))
      ∙ ap (λ b. (reading s (acc ++ (if b then without_cr cs else c ∷ without_cr cs)), [])) (sym e)
]

log_slot_drain_inbound-append :
    (s : Slot) (a b : List ℕ)
    → log_slot_drain_inbound s (a ++ b) ≡ (
      (log_slot_drain_inbound (log_slot_drain_inbound s a).0 b).0,
      (log_slot_drain_inbound s a).1 ++ (log_slot_drain_inbound (log_slot_drain_inbound s a).0 b).1,
    )
unfolding log_slot_drain_inbound
log_slot_drain_inbound-append s [] b = refl
log_slot_drain_inbound-append s (c ∷ cs) b =
    let s' = (take_byte s c).0 in
    let lines = (take_byte s c).1 in
    let rest = log_slot_drain_inbound s' cs in
    ap (λ (r : Slot × List (List ℕ)). (r.0, lines ++ r.1)) (log_slot_drain_inbound-append s' cs b)
    ∙ ap (λ w. ((log_slot_drain_inbound rest.0 b).0, w))
        (sym (append_assoc lines rest.1 (log_slot_drain_inbound rest.0 b).1))

-- The packets together.
drain_packets-joined :
    (s : Slot) (packets : List (List ℕ))
    → drain_packets s packets ≡ log_slot_drain_inbound s (joined packets)
unfolding drain_packets joined log_slot_drain_inbound
drain_packets-joined s [] = refl
drain_packets-joined s (p ∷ ps) =
    let first = log_slot_drain_inbound s p in
    ap (λ (r : Slot × List (List ℕ)). (r.0, first.1 ++ r.1)) (drain_packets-joined first.0 ps)
    ∙ sym (log_slot_drain_inbound-append s p (joined ps))

-- A slot between two lines, as logAllocSlot leaves it.
abbrev pub idle : Slot → Slot
idle s = record s { line_buf = []; truncated = false }

drain-stream :
    (s : Slot) (lines : List (List ℕ))
    → All (All (λ c. c ≢ 10)) lines
    → log_slot_drain_inbound (idle s) (stream lines)
      ≡ (idle s, map (λ line. shown (without_cr line)) lines)
unfolding stream log_slot_drain_inbound shown take_byte
drain-stream s [] h = refl
drain-stream s (line ∷ lines) (h, hs) =
    let text = without_cr line in
    let after : log_slot_drain_inbound (idle s) line ≡ (reading s text, []) =
      reading-text s [] line h in
    log_slot_drain_inbound-append (idle s) line (10 ∷ stream lines)
    ∙ ap
        (λ (r : Slot × List (List ℕ)). (
          (log_slot_drain_inbound r.0 (10 ∷ stream lines)).0,
          r.1 ++ (log_slot_drain_inbound r.0 (10 ∷ stream lines)).1,
        ))
        after
    ∙ ap (λ (r : Slot × List (List ℕ)). (r.0, shown text ∷ r.1)) (drain-stream s lines hs)

-- Whatever the packets that some lines arrive in, the slot gives exactly those lines, in order, and
-- ends between two lines: each without its carriage returns, whole up to 511 bytes, and beyond that
-- its first 502 bytes with the mark that it was cut.
pub drain_packets-stream :
    (s : Slot) (packets lines : List (List ℕ))
    → All (All (λ c. c ≢ 10)) lines
    → joined packets ≡ stream lines
    → drain_packets (idle s) packets ≡ (idle s, map (λ line. shown (without_cr line)) lines)
drain_packets-stream s packets lines h e =
    drain_packets-joined (idle s) packets
    ∙ ap (log_slot_drain_inbound (idle s)) e
    ∙ drain-stream s lines h
