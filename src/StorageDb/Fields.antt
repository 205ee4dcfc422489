-- ===== src/StorageDb/Fields.antt =====
-- Field access in esp-idf/src/storage_db.cpp: sdbHasRecord, sdbRecordCount, sdbGetField, sdbGetFieldBin,
-- sdbSetField, sdbDeleteRecord and sdbForEach. C strings have no NUL; the walk of sdbForEach runs on fuel,
-- the length of the block.
pub mod Delete
pub mod Numbers
use spangap_core.Base.{
  ◌>>=◌, ℕ, zero, suc, ◌+◌, ◌-◌, ◌*◌, ◌/◌, ◌%◌, Bool, true, false, not, ◌&&◌, ◌||◌, Option, none,
  some, List, [], ◌∷◌, ◌++◌, ltb, leb, ◌==◌, if◌then◌else◌, length, get_elem?, get_or, set, take,
  drop, replicate, eq_bytes,
}
use spangap_core.Base.Int.{ℤ, pos, negsuc}
use spangap_core.Base.Decimal.{atoi, strtoul, decimal}
use spangap_core.StorageDb.Words.{rd_u32, wr_u32}
use spangap_core.StorageDb.Schema.{
  SdbSchema, SdbField, sdb_u8, sdb_u32, sdb_fixstr, sdb_text, sdb_data, text_count, find,
}
use spangap_core.StorageDb.Hex.{hex_encode_bytes, hex_decode_into, is_all_zero}
use spangap_core.StorageDb.Record.{build_record, read_record_text}
use spangap_core.StorageDb.Index.{Index, sdb_file_hdr, find_rec, is_deleted}
use spangap_core.StorageDb.Store.{SdbStore, write_at, used}
use spangap_core.StorageDb.Compact.{is_broken, append_record, erase, tombstone, compact}

unfoldable pub sdb_has_record : SdbStore → List ℕ → Bool
sdb_has_record s key = s.loaded && elim (find_rec s.index key) [ none ↦ false | some off ↦ true ]

unfoldable pub sdb_record_count : SdbStore → ℕ
sdb_record_count s = length s.index

-- strnlen and the bytes before the end.
unfoldable pub fixed_text : ℕ → List ℕ → List ℕ
fixed_text zero p = []
fixed_text (suc n) [] = []
fixed_text (suc n) (c ∷ p) = if c == 0 then [] else c ∷ fixed_text n p

unfoldable pub data_text : List ℕ → List ℕ
data_text p = if is_all_zero p then [] else hex_encode_bytes p

-- The texts of the record at `off`, and its key.
unfoldable pub texts_at : SdbStore → ℕ → List ℕ × List (List ℕ)
texts_at s off = read_record_text s.schema.hdr_size (text_count s.schema) s.block off

-- The value of a field of the record at `off` in text form.
unfoldable pub field_text : SdbStore → ℕ → SdbField → Option (List ℕ)
field_text s off fd =
    if fd.kind == sdb_u8
    then some (decimal (get_or s.block (off + fd.off) 0))
    else if fd.kind == sdb_u32
    then some (decimal (rd_u32 (drop (off + fd.off) s.block)))
    else if fd.kind == sdb_fixstr
    then some (fixed_text fd.width (drop (off + fd.off) s.block))
    else if fd.kind == sdb_data
    then some (data_text (take fd.width (drop (off + fd.off) s.block)))
    else if fd.kind == sdb_text
    then get_elem? ((texts_at s off).1) fd.off
    else none

-- false is none.
unfoldable pub sdb_get_field : SdbStore → List ℕ → List ℕ → Option (List ℕ)
sdb_get_field s key field =
    if not s.loaded
    then none
    else do off ← find_rec s.index key; fd ← find s.schema field; field_text s off fd

-- The result and what stands in *len; the bytes are those copied to `out`.
unfoldable pub bin_of : List ℕ → ℕ → ℕ → Option (List ℕ) × ℕ
bin_of p width cap =
    if is_all_zero p then (none, 0) else if ltb cap width then (none, width) else (some p, width)

unfoldable pub bin_field : SdbStore → ℕ → Option SdbField → ℕ → Option (List ℕ) × ℕ
bin_field s off none cap = (none, 0)
bin_field s off (some fd) cap =
    if fd.kind == sdb_data
    then bin_of (take fd.width (drop (off + fd.off) s.block)) fd.width cap
    else (none, 0)

unfoldable pub bin_record : SdbStore → Option ℕ → List ℕ → ℕ → Option (List ℕ) × ℕ
bin_record s none field cap = (none, 0)
bin_record s (some off) field cap = bin_field s off (find s.schema field) cap

unfoldable pub sdb_get_field_bin : SdbStore → List ℕ → List ℕ → ℕ → Option (List ℕ) × ℕ
sdb_get_field_bin s key field cap =
    if not s.loaded then (none, 0) else bin_record s (find_rec s.index key) field cap

-- (uint8_t) of an int.
unfoldable pub to_u8 : ℤ → ℕ
to_u8 (pos n) = n % 256
to_u8 (negsuc n) = 255 - n % 256

-- A fixed slot of `width` bytes: the text cut to leave a NUL, padded with NULs.
unfoldable pub fixed_slot : ℕ → List ℕ → List ℕ
fixed_slot width val =
    let l = if leb width (length val) then width - 1 else length val in
    take l val ++ replicate (width - l) 0

unfoldable pub data_slot : ℕ → List ℕ → List ℕ
data_slot width val =
    let bytes = hex_decode_into val width in
    if length val == width * 2
    then bytes ++ replicate (width - length bytes) 0
    else replicate width 0

abbrev pub dirtied : SdbStore → SdbStore
dirtied s = record s { dirty = true }

unfoldable pub put_bytes : SdbStore → ℕ → List ℕ → SdbStore
put_bytes s at bytes = dirtied record s { block = write_at at bytes s.block }

-- The record after a text has changed: overwritten when its size stays, else tombstoned and appended.
-- When the append fails the old record is gone too.
unfoldable pub replace_record : SdbStore → ℕ → List ℕ → List ℕ → SdbStore
replace_record s off key image =
    if length image == rd_u32 (drop off s.block)
    then put_bytes s off image
    else dirtied
        (append_record record s { block = tombstone off s.block; index = erase key s.index } key
          image).1

unfoldable pub change_text : SdbStore → ℕ → ℕ → List ℕ → List ℕ → List (List ℕ) → SdbStore
change_text s off i val key texts = replace_record s off key (
    build_record s.schema.hdr_size (take s.schema.hdr_size (drop off s.block)) key
      (set texts i val))

-- An unchanged text leaves the store as it is, clean if it was.
unfoldable pub set_text : SdbStore → ℕ → ℕ → List ℕ → Option (List ℕ) → SdbStore
set_text s off i val none = change_text s off i val ((texts_at s off).0) ((texts_at s off).1)
set_text s off i val (some old) =
    if eq_bytes old val
    then s
    else change_text s off i val ((texts_at s off).0) ((texts_at s off).1)

-- The switch of sdbSetField on the record at `off`; a kind out of range only dirties the store.
unfoldable pub store_field : SdbStore → ℕ → SdbField → List ℕ → SdbStore
store_field s off fd val =
    if fd.kind == sdb_u8
    then put_bytes s (off + fd.off) (to_u8 (atoi val) ∷ [])
    else if fd.kind == sdb_u32
    then put_bytes s (off + fd.off) (wr_u32 (strtoul val))
    else if fd.kind == sdb_fixstr
    then put_bytes s (off + fd.off) (fixed_slot fd.width val)
    else if fd.kind == sdb_data
    then put_bytes s (off + fd.off) (data_slot fd.width val)
    else if fd.kind == sdb_text
    then set_text s off fd.off val (get_elem? ((texts_at s off).1) fd.off)
    else dirtied s

abbrev pub sub_le : ℕ → ℕ → ℕ
sub_le n m = if leb m n then m - 1 else n

-- How many records go when the cap is passed: never the new one.
unfoldable pub drop_count : ℕ → ℕ → ℕ
drop_count count cap = sub_le (count - cap + cap / 8) count

unfoldable pub enforce_cap : SdbStore → SdbStore
enforce_cap s =
    if not (s.cap_records == 0) && ltb s.cap_records (length s.index)
    then compact s (drop_count (length s.index) s.cap_records)
    else s

-- The empty record of a key: a zeroed header, the key and empty texts.
unfoldable pub new_record : SdbSchema → List ℕ → List ℕ
new_record sc key =
    build_record sc.hdr_size (replicate sc.hdr_size 0) key (replicate (text_count sc) [])

unfoldable pub set_found : SdbStore → SdbField → List ℕ → Option ℕ → SdbStore
set_found s fd val none = dirtied s
set_found s fd val (some off) = store_field s off fd val

unfoldable pub set_new : SdbField → List ℕ → List ℕ → (Bool × SdbStore) → SdbStore
set_new fd key val (false, s) = s
set_new fd key val (true, s) = set_found (enforce_cap s) fd val (find_rec (enforce_cap s).index key)

unfoldable pub set_in : SdbStore → List ℕ → SdbField → List ℕ → Option ℕ → SdbStore
set_in s key fd val none = set_new fd key val (append_record s key (new_record s.schema key))
set_in s key fd val (some off) = store_field s off fd val

unfoldable pub set_known : SdbStore → List ℕ → List ℕ → Option SdbField → SdbStore
set_known s key val none = s
set_known s key val (some fd) = set_in s key fd val (find_rec s.index key)

unfoldable pub sdb_set_field : SdbStore → List ℕ → List ℕ → List ℕ → SdbStore
sdb_set_field s key field val =
    if not s.loaded then s else set_known s key val (find s.schema field)

unfoldable pub delete_at : SdbStore → List ℕ → Option ℕ → SdbStore
delete_at s key none = s
delete_at s key (some off) =
    dirtied record s { block = tombstone off s.block; index = erase key s.index }

unfoldable pub sdb_delete_record : SdbStore → List ℕ → SdbStore
sdb_delete_record s key = if not s.loaded then s else delete_at s key (find_rec s.index key)

-- One call of sdbForEach's callback.
pub record Visit : Type 0 where
  pub visit_key : List ℕ
  pub visit_field : List ℕ
  pub visit_val : List ℕ

abbrev pub is_number : SdbField → Bool
is_number fd = fd.kind == sdb_u8 || fd.kind == sdb_u32

-- A text, fixed string or binary field that is empty is passed over.
unfoldable pub visit_of : List ℕ → SdbField → Option (List ℕ) → List Visit → List Visit
visit_of key fd none rest = rest
visit_of key fd (some []) rest =
    if is_number fd
    then record { visit_key = key; visit_field = fd.name; visit_val = [] } ∷ rest
    else rest
visit_of key fd (some (c ∷ val)) rest =
    record { visit_key = key; visit_field = fd.name; visit_val = c ∷ val } ∷ rest

unfoldable pub visit_fields : SdbStore → ℕ → List SdbField → List Visit
visit_fields s off [] = []
visit_fields s off (fd ∷ fds) =
    visit_of ((texts_at s off).0) fd (field_text s off fd) (visit_fields s off fds)

unfoldable pub for_each_loop : SdbStore → ℕ → ℕ → List Visit
for_each_loop s zero off = []
for_each_loop s (suc fuel) off =
    let p = drop off s.block in
    let more =
      (if is_deleted p then [] else visit_fields s off s.schema.fields)
      ++ for_each_loop s fuel (off + rd_u32 p) in
    if ltb off (used s)
    then (if is_broken s.schema.hdr_size (used s) off (rd_u32 p) then [] else more)
    else []

-- The callbacks that sdbForEach makes, in order.
unfoldable pub sdb_for_each : SdbStore → List Visit
sdb_for_each s = if s.loaded then for_each_loop s (used s) sdb_file_hdr else []
