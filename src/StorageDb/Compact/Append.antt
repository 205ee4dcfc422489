-- ===== src/StorageDb/Compact/Append.antt =====
-- What an append with the allocator's consent does.
use spangap_core.Base.{
  ℕ, ◌+◌, ◌≡◌, refl, ap, ◌∙◌, inl, inr, Bool, true, false, some, List, [], ◌∷◌, ◌++◌, arith, leb,
  if◌then◌else◌, Bool-cases, length, eq_bytes,
}
use spangap_core.StorageDb.Schema.Layout.{eq_bytes-eq, eq_bytes-differ}
use spangap_core.StorageDb.Index.{Index, find_rec, put}
use spangap_core.StorageDb.Store.{SdbStore, used, first_grant, grow, ensure_cap}
use spangap_core.StorageDb.Compact.{with_room, append_to, append_record}

pub find_rec-put :
    (index : Index) (key other : List ℕ) (off : ℕ)
    → find_rec (put key off index) other
      ≡ (if eq_bytes key other then some off else find_rec index other)
unfolding find_rec put
find_rec-put [] key other off = refl
find_rec-put ((k, o) ∷ rest) key other off = elim (Bool-cases (eq_bytes k key)) [
  | inl a ↦
      rw (a, ap (λ z. eq_bytes z other) (eq_bytes-eq k key a))
        (elim (Bool-cases (eq_bytes key other)) [ inl b ↦ rw b | inr b ↦ rw b ])
  | inr a ↦ rw a (elim (Bool-cases (eq_bytes k other)) [
    | inl b ↦ rw (b, eq_bytes-differ k key other a b)
    | inr b ↦ rw b (find_rec-put rest key other off)
  ])
]

-- A granted request for room: it succeeds and changes neither the block nor the index.
abbrev Obtains : SdbStore → Bool × SdbStore → Type 0
Obtains s r = (r.0 ≡ true) × (r.1.block ≡ s.block) × (r.1.index ≡ s.index)

grow-granted : (s : SdbStore) (need : ℕ) → first_grant s.grants ≡ true → Obtains s (grow s need)
unfolding grow
grow-granted s need g = rw g (refl, refl, refl)

ensure_cap-granted :
    (s : SdbStore) (need : ℕ) → first_grant s.grants ≡ true → Obtains s (ensure_cap s need)
unfolding ensure_cap
ensure_cap-granted s need g = elim (Bool-cases (leb need s.cap)) [
  | inl e ↦ rw e (refl, refl, refl)
  | inr e ↦ rw e (grow-granted s need g)
]

-- What an append of `bytes` to `s` makes.
abbrev Appends : SdbStore → List ℕ → List ℕ → Bool × SdbStore → Type 0
Appends s key bytes r =
    (r.0 ≡ true)
    × (r.1.block ≡ s.block ++ bytes)
    × ((other : List ℕ)
        → find_rec r.1.index other
          ≡ (if eq_bytes key other then some (used s) else find_rec s.index other))

append_to-room :
    (s : SdbStore) (key bytes : List ℕ) (r : Bool × SdbStore)
    → Obtains s r
    → Appends s key bytes (append_to key bytes (with_room r (length bytes)))
unfolding append_to with_room
append_to-room s key bytes (false, t) h = ground (arith, h.0)
append_to-room s key bytes (true, t) h = (
  refl,
  ap (λ (b : List ℕ). b ++ bytes) h.1,
  λ other.
      find_rec-put t.index key other (used t)
      ∙ ap (λ (n : ℕ). if eq_bytes key other then some n else find_rec t.index other)
          (ap length h.1)
      ∙ ap (λ i. if eq_bytes key other then some (used s) else find_rec i other) h.2,
)

-- When the allocator grants the room, an append succeeds: the record stands at the end of the block, the
-- index finds it there by its key and every other record where it was.
pub append_record-granted :
    (s : SdbStore) (key bytes : List ℕ)
    → first_grant s.grants ≡ true
    → Appends s key bytes (append_record s key bytes)
unfolding append_record
append_record-granted s key bytes g =
    append_to-room s key bytes (ensure_cap s (used s + length bytes))
      (ensure_cap-granted s (used s + length bytes) g)
