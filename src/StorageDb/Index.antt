-- ===== src/StorageDb/Index.antt =====
-- rebuildIndex and findRec of esp-idf/src/storage_db.cpp. The index is an association list, the resident
-- block the bytes below `used`. Reading past them, which rebuildIndex does at a record with no room for
-- its key length, gives 0.
pub mod Rebuild
pub mod Built
use spangap_core.Base.{
  ℕ, zero, suc, ◌+◌, bit_and, Bool, not, ◌||◌, Option, none, some, List, [], ◌∷◌, ltb, ◌==◌,
  if◌then◌else◌, length, get_or, take, drop, eq_bytes,
}
use spangap_core.StorageDb.Words.{rd_u16, rd_u32}
use spangap_core.StorageDb.Record.{sdb_flags_off}

abbrev pub sdb_file_hdr : ℕ
sdb_file_hdr = 16

abbrev pub sdb_flag_deleted : ℕ
sdb_flag_deleted = 1

abbrev pub Index : Type 0
Index = List (List ℕ × ℕ)

-- index[key] = off.
unfoldable pub put : List ℕ → ℕ → Index → Index
put key off [] = (key, off) ∷ []
put key off ((k, o) ∷ rest) = if eq_bytes k key then (k, off) ∷ rest else (k, o) ∷ put key off rest

-- none stands for SIZE_MAX.
unfoldable pub find_rec : Index → List ℕ → Option ℕ
find_rec [] key = none
find_rec ((k, o) ∷ rest) key = if eq_bytes k key then some o else find_rec rest key

-- The key of the record whose bytes start `p`, after the key's length.
abbrev pub key_at : ℕ → List ℕ → List ℕ
key_at hs p = take (rd_u16 (drop hs p)) (drop 2 (drop hs p))

abbrev pub is_deleted : List ℕ → Bool
is_deleted p = not (bit_and (get_or p sdb_flags_off 0) sdb_flag_deleted == 0)

-- A record of the length that it states; `rest` is the walk over what follows.
unfoldable pub note_record : (ℕ → Index → Option Index) → ℕ → List ℕ → ℕ → Index → Option Index
note_record rest hs p off index =
    if is_deleted p
    then rest (off + rd_u32 p) index
    else if ltb (rd_u32 p) (hs + 2 + rd_u16 (drop hs p))
    then none
    else rest (off + rd_u32 p) (put (key_at hs p) off index)

unfoldable pub walk_record : (ℕ → Index → Option Index) → ℕ → ℕ → List ℕ → ℕ → Index → Option Index
walk_record rest hs used p off index =
    if ltb used (off + hs)
    then none
    else if ltb (rd_u32 p) hs || ltb used (off + rd_u32 p)
    then none
    else note_record rest hs p off index

-- The walk from `off` on; each record takes at least one turn's worth of bytes.
unfoldable pub walk : ℕ → ℕ → List ℕ → ℕ → Index → Option Index
walk zero hs block off index = none
walk (suc fuel) hs block off index =
    if ltb off (length block)
    then walk_record (walk fuel hs block) hs (length block) (drop off block) off index
    else some index

-- none stands for false, a corrupt record.
unfoldable pub rebuild_index : ℕ → List ℕ → Option Index
rebuild_index hs block = walk (suc (length block)) hs block sdb_file_hdr []
