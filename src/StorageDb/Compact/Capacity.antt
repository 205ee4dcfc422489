-- ===== src/StorageDb/Compact/Capacity.antt =====
-- The block of a store stays within what is allocated for it.
use spangap_core.Base.{
  ℕ, zero, suc, ◌+◌, ◌*◌, ◌≤◌, ◌≡◌, refl, ap, ◌⊎◌, inl, inr, Bool, true, false, List, arith, ltb,
  leb, ◌==◌, if◌then◌else◌, Bool-cases, ltb→le, leb→le, ==→ne, length, length-append,
}
use spangap_core.StorageDb.Index.{sdb_file_hdr}
use spangap_core.StorageDb.Store.{
  SdbStore, used, double_until, grown, first_grant, later_grants, grow, ensure_cap,
}
use spangap_core.StorageDb.Compact.{
  reclaim_in_place, reclaim_for_append, with_room, append_to, append_record, sdb_compact_in_place,
  relocate, relocated_cap, live_bytes,
}

-- Doubling reaches what is needed: every turn adds at least one.
double_until-ge : (fuel need n : ℕ) → 1 ≤ n → need ≤ n + fuel → need ≤ double_until fuel need n
unfolding double_until
double_until-ge zero need n p h = omega arith
double_until-ge (suc fuel) need n p h = elim (Bool-cases (ltb n need)) [
  | inl small ↦ rw small (double_until-ge fuel need (n * 2) (omega arith) (omega arith))
  | inr big ↦ rw big (ltb→le n need big)
]

grown-ge : (cap need : ℕ) → need ≤ grown cap need
grown-ge cap need = elim (Bool-cases (cap == 0)) [
  | inl e ↦ rw e (double_until-ge need need 256 (omega arith) (omega arith))
  | inr e ↦ rw e (double_until-ge need need cap (ground (arith, ==→ne cap 0 e)) (omega arith))
]

-- Growing keeps the block, and when it succeeds there is room for what was needed.
abbrev Grants : SdbStore → ℕ → Bool × SdbStore → Type 0
Grants s need r = (r.1.block ≡ s.block) × ((r.0 ≡ false) ⊎ (need ≤ r.1.cap))

grow-Grants : (s : SdbStore) (need : ℕ) → Grants s need (grow s need)
unfolding grow
grow-Grants s need = elim (Bool-cases (first_grant s.grants)) [
  | inl a ↦ rw a (refl, inr (grown-ge s.cap need))
  | inr a ↦ rw a (elim (Bool-cases (first_grant (later_grants s.grants))) [
    | inl b ↦ rw b (refl, inr (omega arith))
    | inr b ↦ rw b (refl, inl refl)
  ])
]

ensure_cap-Grants : (s : SdbStore) (need : ℕ) → Grants s need (ensure_cap s need)
unfolding ensure_cap
ensure_cap-Grants s need = elim (Bool-cases (leb need s.cap)) [
  | inl a ↦ rw a (refl, inr (leb→le need s.cap a))
  | inr a ↦ rw a (grow-Grants s need)
]

-- A success leaves room for `size` bytes more.
abbrev Leaves : ℕ → Bool × SdbStore → Type 0
Leaves size r = (r.0 ≡ false) ⊎ (used r.1 + size ≤ r.1.cap)

reclaim_in_place-Leaves : (s : SdbStore) (size : ℕ) → Leaves size (reclaim_in_place s size)
unfolding reclaim_in_place
reclaim_in_place-Leaves s size =
    let t = sdb_compact_in_place s in
    elim (Bool-cases (leb (used t + size) t.cap)) [
      | inl a ↦ rw a (inr (leb→le (used t + size) t.cap a))
      | inr a ↦ rw a (inl refl)
    ]

leb-Leaves : (t : SdbStore) (size : ℕ) → Leaves size (leb (used t + size) t.cap, t)
leb-Leaves t size = elim (Bool-cases (leb (used t + size) t.cap)) [
  | inl a ↦ inr (leb→le (used t + size) t.cap a)
  | inr a ↦ inl a
]

chosen-Leaves :
    (few granted : Bool) (r moved asked : Bool × SdbStore) (size : ℕ)
    → Leaves size r
    → Leaves size moved
    → Leaves size asked
    → Leaves size (if few then r else if granted then moved else asked)
chosen-Leaves true granted r moved asked size a b c = a
chosen-Leaves false true r moved asked size a b c = b
chosen-Leaves false false r moved asked size a b c = c

reclaim_for_append-Leaves : (s : SdbStore) (size : ℕ) → Leaves size (reclaim_for_append s size)
unfolding reclaim_for_append
reclaim_for_append-Leaves s size =
    let live = live_bytes (length s.block) s.schema.hdr_size s.block sdb_file_hdr sdb_file_hdr in
    let asked = record s { grants = later_grants s.grants } in
    let moved = relocate asked (relocated_cap live size) in
    chosen-Leaves (ltb (live * 10) (s.cap * 9)) (first_grant s.grants) (reclaim_in_place s size)
      (leb (used moved + size) moved.cap, moved) (reclaim_in_place asked size) size
      (reclaim_in_place-Leaves s size) (leb-Leaves moved size) (reclaim_in_place-Leaves asked size)

with_room-Leaves : (r : Bool × SdbStore) (size : ℕ) → Leaves size r → Leaves size (with_room r size)
unfolding with_room
with_room-Leaves (true, s) size h = h
with_room-Leaves (false, s) size h = reclaim_for_append-Leaves s size

ensure_cap-Leaves : (s : SdbStore) (size : ℕ) → Leaves size (ensure_cap s (used s + size))
ensure_cap-Leaves s size = elim (ensure_cap-Grants s (used s + size)).1 [
  | inl failed ↦ inl failed
  | inr fits ↦ inr (omega (arith, fits, ap length (ensure_cap-Grants s (used s + size)).0))
]

append_to-fits :
    (r : Bool × SdbStore) (key bytes : List ℕ)
    → Leaves (length bytes) r
    → (append_to key bytes r).0 ≡ true
    → used (append_to key bytes r).1 ≤ (append_to key bytes r).1.cap
unfolding append_to
append_to-fits (false, s) key bytes h done = ground (arith, done)
append_to-fits (true, s) key bytes (inl failed) done = ground (arith, failed, done)
append_to-fits (true, s) key bytes (inr fits) done =
    omega (arith, fits, length-append s.block bytes)

-- When a record is appended, the block stays within what is allocated for it, however the room was
-- found: by growing, by a relocation or by a compaction in place.
pub append_record-fits :
    (s : SdbStore) (key bytes : List ℕ)
    → (append_record s key bytes).0 ≡ true
    → used (append_record s key bytes).1 ≤ (append_record s key bytes).1.cap
unfolding append_record
append_record-fits s key bytes =
    append_to-fits (with_room (ensure_cap s (used s + length bytes)) (length bytes)) key bytes (
      with_room-Leaves (ensure_cap s (used s + length bytes)) (length bytes)
        (ensure_cap-Leaves s (length bytes)))
