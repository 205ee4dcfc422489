-- ===== src/Log/Ring/Refine.antt =====
-- The ring refines a bounded queue of bytes.
use spangap_core.Base.{
  ℕ, ◌+◌, ◌-◌, ◌%◌, ◌≤◌, ◌<◌, min, ◌≡◌, refl, sym, ap, ◌∙◌, inl, inr, List, [], ◌∷◌, ◌++◌, arith,
  ltb, ◌==◌, Bool-cases, ltb→lt, ltb→le, ==_iff, length, take, drop, take-append, drop-append,
  take-all, drop-all, length-take, u32, sub_u32,
}
use spangap_core.Log.Ring.{
  Ring, log_ring_size, put_loop, put_run, log_ring_write, get_loop, log_ring_read,
}
use spangap_core.Log.Ring.Window.{
  put_loop-slot, get_loop-slot, length-put_loop, length-get_loop, get_loop-split, get_loop-put_loop,
}

-- The bytes waiting, the oldest first, and how many were refused.
pub record Fifo : Type 0 where
  pub waiting : List ℕ
  pub lost : ℕ

unfoldable pub fifo_write : Fifo → List ℕ → ℕ × Fifo
fifo_write f bytes =
    let room = 8192 - length f.waiting in
    (
      min room (length bytes),
      record f {
        waiting = f.waiting ++ take room bytes;
        lost = (f.lost + (length bytes - room)) % 4294967296;
      },
    )

unfoldable pub fifo_read : Fifo → ℕ → List ℕ × Fifo
fifo_read f max_len = (take max_len f.waiting, record f { waiting = drop max_len f.waiting })

-- How many bytes the ring holds, and which.
abbrev pub avail : Ring → ℕ
avail r = sub_u32 r.head r.tail

abbrev pub contents : Ring → List ℕ
contents r = get_loop r.cells r.tail (avail r)

unfoldable pub IsValid : Ring → Type 0
IsValid r =
    (length r.cells ≡ 8192)
    × (r.head < 4294967296)
    × (r.tail < 4294967296)
    × (r.dropped < 4294967296)
    × (avail r ≤ 8192)

-- The ring stands for the queue.
unfoldable pub Agrees : Ring → Fifo → Type 0
Agrees r f = IsValid r × (contents r ≡ f.waiting) × (r.dropped ≡ f.lost)

-- What a run that fits does to the bytes waiting.
put_run-contents :
    (r : Ring) (bytes : List ℕ)
    → IsValid r
    → avail r + length bytes ≤ 8192
    → IsValid (put_run r bytes) × (contents (put_run r bytes) ≡ contents r ++ bytes)
unfolding put_run IsValid
put_run-contents r bytes (full, h, t, d, fits) room =
    let n = avail r in
    let more : sub_u32 (u32 (r.head + length bytes)) r.tail ≡ n + length bytes =
      omega (arith, h, t, fits, room) in
    let there : r.head % 8192 ≡ (r.tail + n) % 8192 = omega (arith, h, t) in
    let small : u32 (r.head + length bytes) < 4294967296 = omega arith in
    (
      (length-put_loop r.cells r.head bytes ∙ full, small, t, d, omega (arith, more, room)),
      ap (get_loop (put_loop r.cells r.head bytes) r.tail) more
          ∙ ap (λ c. get_loop c r.tail (n + length bytes))
              (put_loop-slot r.cells r.head (r.tail + n) bytes there)
          ∙ get_loop-put_loop r.cells r.tail n bytes full room,
    )

avail-Agrees : (r : Ring) (f : Fifo) → contents r ≡ f.waiting → avail r ≡ length f.waiting
avail-Agrees r f c = sym (length-get_loop r.cells r.tail (avail r)) ∙ ap length c

pub log_ring_write-Agrees :
    (r : Ring) (f : Fifo) (bytes : List ℕ)
    → Agrees r f
    → ((log_ring_write r bytes).0 ≡ (fifo_write f bytes).0)
      × Agrees (log_ring_write r bytes).1 (fifo_write f bytes).1
unfolding log_ring_write fifo_write Agrees IsValid put_run
log_ring_write-Agrees r f bytes ((full, h, t, d, fits), same, lost) =
    let held : avail r ≡ length f.waiting = avail-Agrees r f same in
    let room = sub_u32 log_ring_size (avail r) in
    let room' : room ≡ 8192 - length f.waiting = omega (arith, held, fits) in
    elim (Bool-cases (ltb room (length bytes))) [
      | inl e ↦
          let over : room < length bytes = ltb→lt room (length bytes) e in
          let cut = take room bytes in
          let short : length cut ≡ room = length-take room bytes ∙ omega (arith, over) in
          let r' = record r { dropped = u32 (r.dropped + (length bytes - room)) } in
          let small : u32 (r.dropped + (length bytes - room)) < 4294967296 = omega arith in
          let put =
            put_run-contents r' cut (full, h, t, small, fits) (omega (arith, short, fits)) in
          rw e (
            omega (arith, over, room'),
            (
              put.0,
              put.1 ∙ ap (λ w. w ++ cut) same ∙ ap (λ (k : ℕ). f.waiting ++ take k bytes) room',
              ap (λ (k : ℕ). u32 (k + (length bytes - room))) lost
                  ∙ ap (λ (k : ℕ). u32 (f.lost + (length bytes - k))) room',
            ),
          )
      | inr e ↦
          let under : length bytes ≤ room = ltb→le room (length bytes) e in
          let put = put_run-contents r bytes (full, h, t, d, fits) (omega (arith, under, fits)) in
          let all : take (8192 - length f.waiting) bytes ≡ bytes =
            take-all (8192 - length f.waiting) bytes (omega (arith, under, room')) in
          rw e (
            omega (arith, under, room'),
            (
              put.0,
              put.1 ∙ ap (λ w. w ++ bytes) same ∙ ap (λ w. f.waiting ++ w) (sym all),
              omega (arith, under, room', d, lost),
            ),
          )
    ]

-- What taking `n` of the bytes that wait does.
get_run-contents :
    (r : Ring) (n : ℕ)
    → IsValid r
    → n ≤ avail r
    → IsValid (record r { tail = u32 (r.tail + n) })
      × (get_loop r.cells r.tail n ≡ take n (contents r))
      × (contents (record r { tail = u32 (r.tail + n) }) ≡ drop n (contents r))
unfolding IsValid
get_run-contents r n (full, h, t, d, fits) enough =
    let rest = avail r - n in
    let less : sub_u32 r.head (u32 (r.tail + n)) ≡ rest = omega (arith, h, t, fits, enough) in
    let both : avail r ≡ n + rest = omega (arith, enough) in
    let first = get_loop r.cells r.tail n in
    let second = get_loop r.cells (r.tail + n) rest in
    let split : contents r ≡ first ++ second =
      ap (get_loop r.cells r.tail) both ∙ get_loop-split r.cells r.tail n rest in
    let long : n ≡ length first = sym (length-get_loop r.cells r.tail n) in
    let small : u32 (r.tail + n) < 4294967296 = omega arith in
    let turn : u32 (r.tail + n) % 8192 ≡ (r.tail + n) % 8192 = omega arith in
    (
      (full, h, small, d, omega (arith, less, fits)),
      sym (ap (take n) split ∙ take-append n first second long),
      ap (get_loop r.cells (u32 (r.tail + n))) less
          ∙ get_loop-slot r.cells (u32 (r.tail + n)) (r.tail + n) rest turn
          ∙ sym (ap (drop n) split ∙ drop-append n first second long),
    )

pub log_ring_read-Agrees :
    (r : Ring) (f : Fifo) (max_len : ℕ)
    → Agrees r f
    → ((log_ring_read r max_len).0 ≡ (fifo_read f max_len).0)
      × Agrees (log_ring_read r max_len).1 (fifo_read f max_len).1
unfolding log_ring_read fifo_read Agrees get_loop
log_ring_read-Agrees r f max_len (valid, same, lost) =
    let held : avail r ≡ length f.waiting = avail-Agrees r f same in
    elim (Bool-cases (avail r == 0)) [
      | inl e ↦
          let empty : avail r ≡ 0 = (==_iff (avail r) 0).0 e in
          let nothing : f.waiting ≡ [] = sym same ∙ ap (get_loop r.cells r.tail) empty in
          let short : length f.waiting ≤ max_len = omega (arith, held, empty) in
          rw e (
            sym (take-all max_len f.waiting short ∙ nothing),
            (valid, same ∙ nothing ∙ sym (drop-all max_len f.waiting short), lost),
          )
      | inr e ↦ elim (Bool-cases (ltb max_len (avail r))) [
        | inl l ↦
            let under : max_len < avail r = ltb→lt max_len (avail r) l in
            let run = get_run-contents r max_len valid (omega (arith, under)) in
            rw e
              (rw l (run.1 ∙ ap (take max_len) same, (run.0, run.2 ∙ ap (drop max_len) same, lost)))
        | inr l ↦
            let over : avail r ≤ max_len = ltb→le max_len (avail r) l in
            let run = get_run-contents r (avail r) valid (omega arith) in
            let short : length f.waiting ≤ max_len = omega (arith, held, over) in
            let whole : length f.waiting ≤ avail r = omega (arith, held) in
            rw e (
              rw l (
                run.1
                    ∙ ap (take (avail r)) same
                    ∙ take-all (avail r) f.waiting whole
                    ∙ sym (take-all max_len f.waiting short),
                (
                  run.0,
                  run.2
                      ∙ ap (drop (avail r)) same
                      ∙ drop-all (avail r) f.waiting whole
                      ∙ sym (drop-all max_len f.waiting short),
                  lost,
                ),
              ))
      ]
    ]

-- A write of some bytes, or a read of at most so many.
pub data Op : Type 0 where
  write : List ℕ → Op
  read : ℕ → Op

-- What an operation answers: how many bytes were taken, or the bytes.
pub data Reply : Type 0 where
  taken : ℕ → Reply
  given : List ℕ → Reply

unfoldable pub run_ring : Ring → List Op → List Reply
run_ring r [] = []
run_ring r (write bytes ∷ ops) = let (n, r') = log_ring_write r bytes in taken n ∷ run_ring r' ops
run_ring r (read n ∷ ops) = let (bytes, r') = log_ring_read r n in given bytes ∷ run_ring r' ops

unfoldable pub run_fifo : Fifo → List Op → List Reply
run_fifo f [] = []
run_fifo f (write bytes ∷ ops) = let (n, f') = fifo_write f bytes in taken n ∷ run_fifo f' ops
run_fifo f (read n ∷ ops) = let (bytes, f') = fifo_read f n in given bytes ∷ run_fifo f' ops

-- From a ring that stands for a queue, no sequence of writes and reads, whatever their sizes, tells
-- the ring, whose positions wrap at 32 bits, from the queue of at most 8192 bytes: each write is
-- answered with the number of bytes that fit and each read with the oldest bytes.
pub run_ring-run_fifo :
    (r : Ring) (f : Fifo) (ops : List Op) → Agrees r f → run_ring r ops ≡ run_fifo f ops
unfolding run_ring run_fifo
run_ring-run_fifo r f [] agrees = refl
run_ring-run_fifo r f (write bytes ∷ ops) agrees =
    let step = log_ring_write-Agrees r f bytes agrees in
    let r' = (log_ring_write r bytes).1 in
    ap (λ n. taken n ∷ run_ring r' ops) step.0
    ∙ ap (λ w. taken (fifo_write f bytes).0 ∷ w)
        (run_ring-run_fifo r' (fifo_write f bytes).1 ops step.1)
run_ring-run_fifo r f (read n ∷ ops) agrees =
    let step = log_ring_read-Agrees r f n agrees in
    let r' = (log_ring_read r n).1 in
    ap (λ b. given b ∷ run_ring r' ops) step.0
    ∙ ap (λ w. given (fifo_read f n).0 ∷ w) (run_ring-run_fifo r' (fifo_read f n).1 ops step.1)
