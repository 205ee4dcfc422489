-- ===== src/StorageDb/Fields/Numbers.antt =====
-- A number that was set is read back.
use spangap_core.Base.{
  ◌>>=◌, ℕ, ◌+◌, ◌≤◌, ◌<◌, ◌≡◌, refl, ap, ◌∙◌, inl, inr, true, not, none, some, List, [], ◌∷◌, ◌++◌,
  arith, ltb, ◌==◌, if◌then◌else◌, Bool-cases, length, take, drop, drop-append, length-take,
}
use spangap_core.Base.Decimal.{
  saturate, negate_u32, unsigned_value, strtoul, decimal, skip_space, digits_value,
}
use spangap_core.StorageDb.Words.{rd_u32, wr_u32, rd_u32-wr_u32}
use spangap_core.StorageDb.Schema.{SdbField, sdb_u32, find}
use spangap_core.StorageDb.Index.{find_rec}
use spangap_core.StorageDb.Store.{SdbStore, used, write_at}
use spangap_core.StorageDb.Fields.{
  field_text, sdb_get_field, put_bytes, store_field, set_in, set_known, sdb_set_field,
}

saturate-u32 : (n : ℕ) → saturate n < 4294967296
unfolding saturate
saturate-u32 n = ground arith

negate_u32-u32 : (n : ℕ) → negate_u32 n < 4294967296
unfolding negate_u32
negate_u32-u32 n = elim (Bool-cases (ltb n 4294967296)) [
  | inl a ↦ rw a (omega arith)
  | inr a ↦ rw a (omega arith)
]

unsigned_value-u32 : (s : List ℕ) → unsigned_value s < 4294967296
unfolding unsigned_value
unsigned_value-u32 [] = omega arith
unsigned_value-u32 (x ∷ xs) = elim (Bool-cases (x == 45)) [
  | inl a ↦ rw a (negate_u32-u32 (digits_value 0 xs))
  | inr a ↦ rw a (elim (Bool-cases (x == 43)) [
    | inl b ↦ rw b (saturate-u32 (digits_value 0 xs))
    | inr b ↦ rw b (saturate-u32 (digits_value 0 (x ∷ xs)))
  ])
]

strtoul-u32 : (s : List ℕ) → strtoul s < 4294967296
unfolding strtoul
strtoul-u32 s = unsigned_value-u32 (skip_space s)

-- Four bytes written into a block are read there again.
rd_u32-write_at :
    (block : List ℕ) (at v : ℕ)
    → v < 4294967296
    → at + 4 ≤ length block
    → rd_u32 (drop at (write_at at (wr_u32 v) block)) ≡ v
unfolding write_at
rd_u32-write_at block at v h fits =
    ap rd_u32 (
      drop-append at (take at block) (wr_u32 v ++ drop (at + length (wr_u32 v)) block)
        (omega (arith, length-take at block, fits)))
    ∙ rd_u32-wr_u32 v (drop (at + length (wr_u32 v)) block) h

module _ (s : SdbStore) (off : ℕ) (fd : SdbField) (number : fd.kind ≡ sdb_u32) where
  store_field-number :
      (val : List ℕ) → store_field s off fd val ≡ put_bytes s (off + fd.off) (wr_u32 (strtoul val))
  unfolding store_field
  store_field-number val = rw number refl

  field_text-number :
      (t : SdbStore) → field_text t off fd ≡ some (decimal (rd_u32 (drop (off + fd.off) t.block)))
  unfolding field_text
  field_text-number t = rw number refl

module _ (s : SdbStore) (key field : List ℕ) (off : ℕ) (fd : SdbField) (l : s.loaded ≡ true)
    (r : find_rec s.index key ≡ some off) (f : find s.schema field ≡ some fd) where
  set-found : (val : List ℕ) → sdb_set_field s key field val ≡ store_field s off fd val
  unfolding sdb_set_field set_known set_in
  set-found val =
      ap (λ b. if not b then s else set_known s key val (find s.schema field)) l
      ∙ ap (set_known s key val) f
      ∙ ap (set_in s key fd val) r

  get-found : sdb_get_field s key field ≡ field_text s off fd
  unfolding sdb_get_field
  get-found =
      ap
        (λ b.
          if not b
          then none
          else (find_rec s.index key >>= (λ o. find s.schema field >>= (λ d. field_text s o d))))
        l
      ∙ ap (λ x. x >>= (λ o. find s.schema field >>= (λ d. field_text s o d))) r
      ∙ ap (λ x. x >>= (λ d. field_text s off d)) f

-- sdbSetField of a 32-bit field of a record that there is, and then sdbGetField: the decimal of what
-- strtoul makes of the value, when the field lies within the block.
pub sdb_get_field-sdb_set_field :
    (s : SdbStore) (key field val : List ℕ) (off : ℕ) (fd : SdbField)
    → s.loaded ≡ true
    → find_rec s.index key ≡ some off
    → find s.schema field ≡ some fd
    → fd.kind ≡ sdb_u32
    → off + fd.off + 4 ≤ used s
    → sdb_get_field (sdb_set_field s key field val) key field ≡ some (decimal (strtoul val))
unfolding put_bytes
sdb_get_field-sdb_set_field s key field val off fd l r f number fits =
    let t = put_bytes s (off + fd.off) (wr_u32 (strtoul val)) in
    ap (λ u. sdb_get_field u key field)
      (set-found s key field off fd l r f val ∙ store_field-number s off fd number val)
    ∙ get-found t key field off fd l r f
    ∙ field_text-number s off fd number t
    ∙ ap (λ (v : ℕ). some (decimal v))
        (rd_u32-write_at s.block (off + fd.off) (strtoul val) (strtoul-u32 val) fits)
