-- ===== src/StorageDb/Fields/Delete.antt =====
-- A deleted record is gone, and the others stay.
use spangap_core.Base.{
  ℕ, ◌≡◌, refl, sym, ap, ◌∙◌, inl, inr, Bool, true, false, Option, none, some, List, [], ◌∷◌,
  if◌then◌else◌, Bool-cases, Option-cases, eq_bytes,
}
use spangap_core.StorageDb.Schema.Layout.{eq_bytes-eq, eq_bytes-differ}
use spangap_core.StorageDb.Index.{Index, find_rec}
use spangap_core.StorageDb.Store.{SdbStore}
use spangap_core.StorageDb.Compact.{erase}
use spangap_core.StorageDb.Fields.{sdb_has_record, sdb_delete_record, delete_at}

erase-same :
    (k key other : List ℕ) (x : Option ℕ) (o : ℕ)
    → eq_bytes k key ≡ true
    → (if eq_bytes key other then none else x)
      ≡ (if eq_bytes key other then none else (if eq_bytes k other then some o else x))
erase-same k key other x o e = elim (Bool-cases (eq_bytes key other)) [
  | inl a ↦ rw a
  | inr a ↦ rw (a, ap (λ z. eq_bytes z other) (eq_bytes-eq k key e) ∙ a)
]

find_rec-erase :
    (index : Index) (key other : List ℕ)
    → find_rec (erase key index) other ≡ (if eq_bytes key other then none else find_rec index other)
unfolding find_rec erase
find_rec-erase [] key other = elim (Bool-cases (eq_bytes key other)) [ inl e ↦ rw e | inr e ↦ rw e ]
find_rec-erase ((k, o) ∷ rest) key other = elim (Bool-cases (eq_bytes k key)) [
  | inl a ↦ rw a (find_rec-erase rest key other ∙ erase-same k key other (find_rec rest other) o a)
  | inr a ↦ rw a (elim (Bool-cases (eq_bytes k other)) [
    | inl b ↦ rw (b, eq_bytes-differ k key other a b)
    | inr b ↦ rw b (find_rec-erase rest key other)
  ])
]

-- What the index finds after a deletion, on every branch.
delete_at-find_rec :
    (s : SdbStore) (key other : List ℕ) (found : Option ℕ)
    → find_rec s.index key ≡ found
    → find_rec (delete_at s key found).index other
      ≡ (if eq_bytes key other then none else find_rec s.index other)
unfolding delete_at
delete_at-find_rec s key other none e = elim (Bool-cases (eq_bytes key other)) [
  | inl a ↦ rw (a, sym (ap (find_rec s.index) (eq_bytes-eq key other a)) ∙ e)
  | inr a ↦ rw a
]
delete_at-find_rec s key other (some off) e = find_rec-erase s.index key other

delete_at-loaded :
    (s : SdbStore) (key : List ℕ) (found : Option ℕ) → (delete_at s key found).loaded ≡ s.loaded
unfolding delete_at
delete_at-loaded s key none = refl
delete_at-loaded s key (some off) = refl

loaded-delete :
    (s : SdbStore) (key : List ℕ)
    → s.loaded ≡ true
    → sdb_delete_record s key ≡ delete_at s key (find_rec s.index key)
unfolding sdb_delete_record
loaded-delete s key l = rw l

abbrev is_found : Option ℕ → Bool
is_found none = false
is_found (some off) = true

loaded-has :
    (s : SdbStore) (key : List ℕ)
    → s.loaded ≡ true
    → sdb_has_record s key ≡ is_found (find_rec s.index key)
unfolding sdb_has_record
loaded-has s key l = elim (Option-cases (find_rec s.index key)) [
  | inl e ↦ rw (l, e)
  | inr (off, e) ↦ rw (l, e)
]

found_unless :
    (b : Bool) (x : Option ℕ) → is_found (if b then none else x) ≡ (if b then false else is_found x)
found_unless true x = refl
found_unless false x = refl

-- After a deletion a loaded store has no record of that key and every other record it had, whether the
-- key had a record or not.
pub sdb_delete_record-sdb_has_record :
    (s : SdbStore) (key other : List ℕ)
    → s.loaded ≡ true
    → sdb_has_record (sdb_delete_record s key) other
      ≡ (if eq_bytes key other then false else sdb_has_record s other)
sdb_delete_record-sdb_has_record s key other l =
    let after = delete_at s key (find_rec s.index key) in
    ap (λ t. sdb_has_record t other) (loaded-delete s key l)
    ∙ loaded-has after other (delete_at-loaded s key (find_rec s.index key) ∙ l)
    ∙ ap is_found (delete_at-find_rec s key other (find_rec s.index key) refl)
    ∙ found_unless (eq_bytes key other) (find_rec s.index other)
    ∙ ap (λ x. if eq_bytes key other then false else x) (sym (loaded-has s other l))
