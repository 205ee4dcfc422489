-- ===== src/Its/Link/Refine.antt =====
-- A packet link as a queue of messages with a window.
use spangap_core.Base.{ℕ, ◌≡◌, refl, ap, ◌∙◌, List, [], ◌∷◌}
use spangap_core.Its.Link.{StreamBuffer, Side}
use spangap_core.Its.Link.Queue.{
  Laws, Limits, Call, send, recv, recv_ref, reset, space, Answer, room, queue_step, side_step,
  Stands, Follows,
}
use spangap_core.Its.Link.Send.{space-step, send-step}
use spangap_core.Its.Link.Receive.{recv-step, recv_ref-step, reset-step}

module _ (b : StreamBuffer) (laws : Laws b) (k : Limits) (base : ℕ) where
  call-step :
      (s : Side b) (q : List (List ℕ)) (call : Call)
      → Stands b laws k base s q
      → Follows b laws k base (side_step b call s) (queue_step k call q)
  unfolding side_step queue_step
  call-step s q (send source m) st = send-step b laws k base s q source m st
  call-step s q (recv max_len) st = recv-step b laws k base s q max_len st
  call-step s q recv_ref st = recv_ref-step b laws k base s q st
  call-step s q reset st = reset-step b laws k base s q st
  call-step s q space st = (ap room (space-step b laws k base s q st), st)

unfoldable pub run_side : (b : StreamBuffer) → Side b → List Call → List Answer × Side b
run_side b s [] = ([], s)
run_side b s (call ∷ calls) =
    let (a, s') = side_step b call s in let (rest, s'') = run_side b s' calls in (a ∷ rest, s'')

unfoldable pub run_queue : Limits → List (List ℕ) → List Call → List Answer × List (List ℕ)
run_queue k q [] = ([], q)
run_queue k q (call ∷ calls) =
    let (a, q') = queue_step k call q in let (rest, q'') = run_queue k q' calls in (a ∷ rest, q'')

-- Over a stream buffer that does what FreeRTOS says, and with limits that no sum of lengths wraps
-- at, every sequence of calls on a packet link that stands for a queue is answered as the queue
-- answers it, and leaves a link that stands for what the queue holds: a message is taken exactly
-- when it is not empty and not over the longest, there is a slot, the window is open for it or the
-- link is empty, and there is a block for it; messages come out whole and in order, and the bytes of
-- payload that the counter says are live are those that are queued and those elsewhere, after every
-- send, receive, drop, hand-off and reset.
pub run_side-run_queue :
    (b : StreamBuffer) (laws : Laws b) (k : Limits) (base : ℕ) (s : Side b) (q : List (List ℕ))
    (calls : List Call)
    → Stands b laws k base s q
    → ((run_side b s calls).0 ≡ (run_queue k q calls).0)
      × Stands b laws k base (run_side b s calls).1 (run_queue k q calls).1
unfolding run_side run_queue
run_side-run_queue b laws k base s q [] st = (refl, st)
run_side-run_queue b laws k base s q (call ∷ calls) st =
    let step = call-step b laws k base s q call st in
    let s' = (side_step b call s).1 in
    let q' = (queue_step k call q).1 in
    let rest = run_side-run_queue b laws k base s' q' calls step.1 in
    (
      ap (λ a. a ∷ (run_side b s' calls).0) step.0 ∙ ap (λ w. (queue_step k call q).0 ∷ w) rest.0,
      rest.1,
    )
