-- ===== src/Its/Tests.antt =====
-- Runs of the definitions about esp-idf/src/its.cpp.
use spangap_core.Base.{
  ℕ, ◌+◌, ◌-◌, ◌*◌, ◌≡◌, refl, ap, true, false, Option, none, some, List, [], ◌∷◌, ◌++◌, arith,
  length, replicate,
}
use spangap_core.Its.Counter.{Ctr}
use spangap_core.Its.Link.{Desc, StreamBuffer, owned, copied, Side}
use spangap_core.Its.Link.Queue.{Laws, Limits, Call, send, recv, reset, space, Stands}
use spangap_core.Its.Link.Refine.{run_side, run_queue, run_side-run_queue}
use spangap_core.Its.Conn.{
  Conn, Table, cleared, fresh_conn, conn_alloc, conn_free, pool_entry, held_by,
}
use spangap_core.Its.Conn.Alloc.{Found, conn_alloc-Found}
use spangap_core.Its.Conn.Free.{times, owned_times, free_all, free_all-times}
use spangap_core.Its.Pool.{Entry, Memory, pool_get, reuse_or_fill, fill_slot, fill, find_entry}
use spangap_core.Its.Pool.Fresh.{GivesFresh, pool_get-GivesFresh}

-- A stream buffer as a capacity and a list of descriptors.
abbrev pop : ℕ → List Desc → Option (Desc × (ℕ × List Desc))
pop capacity [] = none
pop capacity (d ∷ ds) = some (d, (capacity, ds))

abbrev list_buffer : StreamBuffer
list_buffer = record {
  R = ℕ × List Desc;
  spaces = λ r. r.0 - 8 * length r.1;
  available = λ r. 8 * length r.1;
  send = λ r d. (r.0, r.1 ++ d ∷ []);
  receive = λ r. pop r.0 r.1;
  reset = λ r. (r.0, []);
}

abbrev list_laws : Laws list_buffer
list_laws = record {
  items = λ r. r.1;
  capacity = λ r. r.0;
  spaces-items = λ r. refl;
  available-items = λ r. refl;
  send-items = λ r d h. refl;
  capacity-send = λ r d. refl;
  receive-items = λ r d ds e. ((r.0, ds), ap (pop r.0) e, refl, refl);
  reset-items = λ r. refl;
  capacity-reset = λ r. refl;
}

abbrev two_deep : Limits
two_deep = record { depth = 2; window = 10; longest = 20; small = omega arith }

abbrev no_payload : Ctr
no_payload = record { live_blocks = 0; live_bytes = 0; hw_blocks = 0; hw_bytes = 0 }

abbrev idle_side : Side list_buffer
idle_side = record {
  link = record { ring = (23, []); byte_cap = 10; max_msg = 20; outstanding = 0 };
  pay = no_payload;
}

idle_side-Stands : Stands list_buffer list_laws two_deep 0 idle_side []
idle_side-Stands = record {
  held = refl;
  charged = refl;
  counted = refl;
  no_empty = _;
  within = omega arith;
  fits = refl;
  cap = refl;
  max = refl;
}

abbrev some_calls : List Call
some_calls =
    send owned (1 ∷ 2 ∷ 3 ∷ []) ∷ send (copied true) (replicate 8 7) ∷ recv 64 ∷ reset ∷ space ∷ []

run_side-run_queue_example :
    ((run_side list_buffer idle_side some_calls).0 ≡ (run_queue two_deep [] some_calls).0)
    × Stands list_buffer list_laws two_deep 0
        (run_side list_buffer idle_side some_calls).1
        (run_queue two_deep [] some_calls).1
run_side-run_queue_example =
    run_side-run_queue list_buffer list_laws two_deep 0 idle_side [] some_calls idle_side-Stands

abbrev open_conn : Conn
open_conn = record fresh_conn { to_pool_idx = some 5; from_pool_idx = some 6 }

abbrev one_open : Table
one_open = record { conns = open_conn ∷ replicate 127 cleared; counter = 0 }

conn_alloc-Found_example : Found one_open 128 0 (conn_alloc one_open)
conn_alloc-Found_example = conn_alloc-Found one_open

-- Both ends of a connection close it.
free_all-times_example :
    times (pool_entry 5) (free_all one_open (0 ∷ 0 ∷ [])).0
      + owned_times (pool_entry 5) (free_all one_open (0 ∷ 0 ∷ [])).1.conns
    ≡ owned_times (pool_entry 5) one_open.conns
free_all-times_example = free_all-times (pool_entry 5) one_open (0 ∷ 0 ∷ [])

freed_once : times (pool_entry 5) (free_all one_open (0 ∷ 0 ∷ [])).0 ≡ 1
unfolding times free_all conn_free held_by
freed_once = refl

abbrev no_memory : Memory
no_memory = record { buffer = none; sem = true }

abbrev retained : List Entry
retained =
    record {
      handle = some 9;
      size = 512;
      pooled = true;
      trigger_level = 1;
      in_use = false;
      free_notify = 0;
      has_sem = true;
    }
    ∷ []

pool_get-GivesFresh_example : GivesFresh retained 512 (pool_get no_memory retained 512 false)
pool_get-GivesFresh_example = pool_get-GivesFresh no_memory retained 512 false

-- A no_entry allocation leaves its slot taken, with no buffer, where no search finds it.
slot_lost : (pool_get no_memory (pool_get no_memory [] 512 false).pool 512 false).pool ≡ (
    let lost : Entry = record {
      handle = none;
      size = 512;
      pooled = true;
      trigger_level = 1;
      in_use = true;
      free_notify = 0;
      has_sem = true;
    } in
    lost ∷ lost ∷ [])
unfolding pool_get reuse_or_fill fill_slot fill find_entry
slot_lost = refl
