-- ===== src/Log/Ring.antt =====
-- logRingWrite and logRingRead of esp-idf/src/log.cpp. The two positions are 32 bits wide and wrap.
pub mod Window
pub mod Refine
use spangap_core.Base.{
  ℕ, zero, suc, ◌+◌, ◌-◌, ◌%◌, List, [], ◌∷◌, ltb, ◌==◌, if◌then◌else◌, length, get_or, set, take,
  u32, sub_u32,
}

abbrev pub log_ring_size : ℕ
log_ring_size = 8192

pub record Ring : Type 0 where
  pub cells : List ℕ
  pub head : ℕ
  pub tail : ℕ
  pub dropped : ℕ

-- The cell at a position.
abbrev pub slot : ℕ → ℕ
slot p = u32 p % log_ring_size

unfoldable pub put_loop : List ℕ → ℕ → List ℕ → List ℕ
put_loop cells p [] = cells
put_loop cells p (b ∷ bs) = put_loop (set cells (slot p) b) (p + 1) bs

-- What is written once the run is cut to what fits.
unfoldable pub put_run : Ring → List ℕ → Ring
put_run r bytes = record r {
  cells = put_loop r.cells r.head bytes;
  head = u32 (r.head + length bytes);
}

-- The bytes taken, and the ring.
unfoldable pub log_ring_write : Ring → List ℕ → ℕ × Ring
log_ring_write r bytes =
    let room = sub_u32 log_ring_size (sub_u32 r.head r.tail) in
    if ltb room (length bytes)
    then (
      room,
      put_run record r { dropped = u32 (r.dropped + (length bytes - room)) } (take room bytes),
    )
    else (length bytes, put_run r bytes)

unfoldable pub get_loop : List ℕ → ℕ → ℕ → List ℕ
get_loop cells p zero = []
get_loop cells p (suc n) = get_or cells (slot p) 0 ∷ get_loop cells (p + 1) n

-- The bytes read, and the ring.
unfoldable pub log_ring_read : Ring → ℕ → List ℕ × Ring
log_ring_read r max_len =
    let avail = sub_u32 r.head r.tail in
    let n = if ltb max_len avail then max_len else avail in
    if avail == 0
    then ([], r)
    else (get_loop r.cells r.tail n, record r { tail = u32 (r.tail + n) })
