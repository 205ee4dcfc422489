-- ===== src/StorageDb/Store.antt =====
-- sdb_store of esp-idf/include/storage_db.h and its block: capacity, file header, disk image, the empty
-- store. The block is the list of the bytes below `used`; memory past them is not part of the model.
use spangap_core.Base.{
  ℕ, zero, suc, ◌+◌, ◌*◌, ◌/◌, Bool, true, false, List, [], ◌∷◌, ◌++◌, ltb, leb, ◌==◌,
  if◌then◌else◌, length, take, drop, codes,
}
use spangap_core.StorageDb.Words.{wr_u16, wr_u32}
use spangap_core.StorageDb.Schema.{SdbSchema, u16}
use spangap_core.StorageDb.Descriptor.{serialize_descriptor}
use spangap_core.StorageDb.Index.{Index, sdb_file_hdr}

-- sdb_store. `grants` are the allocator's answers to the requests to come: whether each succeeds; past
-- its end they all do.
pub record SdbStore : Type 0 where
  pub schema : SdbSchema
  pub path : List ℕ
  pub cap_records : ℕ
  pub block : List ℕ
  pub cap : ℕ
  pub loaded : Bool
  pub dirty : Bool
  pub grow_failed : Bool
  pub index : Index
  pub grants : List Bool

abbrev pub used : SdbStore → ℕ
used s = length s.block

-- memcpy of bytes to an offset of a block.
unfoldable pub write_at : ℕ → List ℕ → List ℕ → List ℕ
write_at off bytes block = take off block ++ (bytes ++ drop (off + length bytes) block)

abbrev pub first_grant : List Bool → Bool
first_grant [] = true
first_grant (g ∷ gs) = g

abbrev pub later_grants : List Bool → List Bool
later_grants [] = []
later_grants (g ∷ gs) = gs

-- Doubling from `ncap` until `need` fits; every turn at least adds one.
unfoldable pub double_until : ℕ → ℕ → ℕ → ℕ
double_until zero need ncap = ncap
double_until (suc fuel) need ncap =
    let more = double_until fuel need (ncap * 2) in if ltb ncap need then more else ncap

abbrev pub page_up : ℕ → ℕ
page_up n = (n + 4095) / 4096 * 4096

abbrev pub grown : ℕ → ℕ → ℕ
grown cap need = double_until need need (if cap == 0 then 256 else cap)

-- Growing: a second request, for the pages needed, follows a first one that fails.
unfoldable pub grow : SdbStore → ℕ → Bool × SdbStore
grow s need =
    if first_grant s.grants
    then (
      true,
      record s { cap = grown s.cap need; grow_failed = false; grants = later_grants s.grants },
    )
    else if first_grant (later_grants s.grants)
    then (
      true,
      record s {
        cap = page_up need;
        grow_failed = false;
        grants = later_grants (later_grants s.grants);
      },
    )
    else (false, record s { grow_failed = true; grants = later_grants (later_grants s.grants) })

unfoldable pub ensure_cap : SdbStore → ℕ → Bool × SdbStore
ensure_cap s need = if leb need s.cap then (true, record s { grow_failed = false }) else grow s need

abbrev pub sdb_magic : List ℕ
sdb_magic = codes "SGDB"

abbrev pub sdb_format_ver : ℕ
sdb_format_ver = 2

-- The sixteen bytes that writeFileHeader writes.
unfoldable pub file_header : SdbSchema → ℕ → List ℕ
file_header sc count =
    sdb_magic
    ++ (wr_u16 sdb_format_ver
        ++ (wr_u16 sc.schema_id ++ (wr_u16 sc.schema_ver ++ (wr_u16 sc.hdr_size ++ wr_u32 count))))

unfoldable pub write_file_header : SdbSchema → ℕ → List ℕ → List ℕ
write_file_header sc count block = write_at 0 (file_header sc count) block

-- The image on disk: the header with the current format, the descriptor with its length, the records.
unfoldable pub build_disk_image : SdbStore → List ℕ
build_disk_image s =
    let desc = serialize_descriptor s.schema in
    write_at 4 (wr_u16 sdb_format_ver) (take sdb_file_hdr s.block)
    ++ (wr_u16 (u16 (length desc)) ++ (desc ++ drop sdb_file_hdr s.block))

-- With room for the header, the store starts with it and no record.
unfoldable pub start_empty : Bool × SdbStore → SdbStore
start_empty (false, s) = s
start_empty (true, s) = record s { block = file_header s.schema 0; loaded = true; dirty = false }

unfoldable pub sdb_init_empty : SdbStore → SdbStore
sdb_init_empty s =
    if s.loaded then s else start_empty (ensure_cap (record s { index = [] }) sdb_file_hdr)

unfoldable pub sdb_evict : SdbStore → SdbStore
sdb_evict s = record s { block = []; cap = 0; loaded = false; dirty = false; index = [] }
