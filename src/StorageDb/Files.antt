-- ===== src/StorageDb/Files.antt =====
-- Files of stores in esp-idf/src/storage_db.cpp: the legacy layouts, sdbPeekHeader, sdbFileMatchesSchema,
-- sdbMigrateRecords, sdbLoad, sdbUpgradeFileIfStale, sdbFlush and sdbSerializeGz. The file system is what
-- a file holds, and whether writing one succeeds; the compressor is a parameter. Memory for whole files is
-- taken to be there; delays and warnings are left out.
pub mod Image
pub mod Reload
use spangap_core.Base.{
  ◌>>=◌, ℕ, zero, suc, ◌+◌, Bool, true, false, not, ◌&&◌, ◌||◌, Option, none, some, List, [], ◌∷◌,
  ◌++◌, ltb, leb, ◌==◌, if◌then◌else◌, length, take, drop, eq_bytes,
}
use spangap_core.StorageDb.Words.{rd_u16, rd_u32}
use spangap_core.StorageDb.Schema.{SdbSchema, SdbField, schema_layout_equal, find}
use spangap_core.StorageDb.Descriptor.{serialize_descriptor, parse_descriptor}
use spangap_core.StorageDb.Index.{Index, sdb_file_hdr, is_deleted, rebuild_index}
use spangap_core.StorageDb.Store.{
  SdbStore, used, sdb_magic, file_header, write_file_header, build_disk_image, sdb_init_empty,
  sdb_evict,
}
use spangap_core.StorageDb.Compact.{is_broken, compact}
use spangap_core.StorageDb.Fields.{sdb_get_field, sdb_set_field, texts_at}
use spangap_core.StorageDb.Gzip.{
  Inflater, Deflater, gz_inflate_bin, gz_inflate_prefix, gz_deflate_bin,
}

-- g_legacyLayouts, one schema for an id and a header size.
abbrev pub Legacy : Type 0
Legacy = List SdbSchema

abbrev pub same_legacy : ℕ → ℕ → SdbSchema → Bool
same_legacy id hdr l = l.schema_id == id && l.hdr_size == hdr

unfoldable pub sdb_register_legacy_layout : SdbSchema → Legacy → Legacy
sdb_register_legacy_layout sc [] = sc ∷ []
sdb_register_legacy_layout sc (l ∷ ls) =
    if same_legacy sc.schema_id sc.hdr_size l then sc ∷ ls else l ∷ sdb_register_legacy_layout sc ls

unfoldable pub sdb_find_legacy : ℕ → ℕ → Legacy → Option SdbSchema
sdb_find_legacy id hdr [] = none
sdb_find_legacy id hdr (l ∷ ls) = if same_legacy id hdr l then some l else sdb_find_legacy id hdr ls

-- What peekPrefix gives of a file: none is a file that is not there or is empty.
unfoldable pub peek_prefix : Inflater → Option (List ℕ) → ℕ → List ℕ
peek_prefix inf none cap = []
peek_prefix inf (some raw) cap = gz_inflate_prefix inf raw cap

abbrev pub has_magic : List ℕ → Bool
has_magic blk = eq_bytes (take 4 blk) sdb_magic

-- schema_id, schema_ver and hdr_size of a header.
unfoldable pub header_of : List ℕ → Option (ℕ × ℕ × ℕ)
header_of pre =
    if ltb (length pre) sdb_file_hdr || not (has_magic pre)
    then none
    else some (rd_u16 (drop 6 pre), rd_u16 (drop 8 pre), rd_u16 (drop 10 pre))

unfoldable pub sdb_peek_header : Inflater → Option (List ℕ) → Option (ℕ × ℕ × ℕ)
sdb_peek_header inf file = header_of (peek_prefix inf file sdb_file_hdr)

unfoldable pub prefix_matches : List ℕ → List ℕ → Bool
prefix_matches pre want =
    let desc_len = rd_u16 (drop sdb_file_hdr pre) in
    leb (sdb_file_hdr + 2) (length pre)
    && has_magic pre
    && leb 2 (rd_u16 (drop 4 pre))
    && leb (sdb_file_hdr + 2 + desc_len) (length pre)
    && length want == desc_len
    && eq_bytes (take desc_len (drop (sdb_file_hdr + 2) pre)) want

unfoldable pub sdb_file_matches_schema : Inflater → Option (List ℕ) → SdbSchema → Bool
sdb_file_matches_schema inf file cur =
    prefix_matches (peek_prefix inf file 512) (serialize_descriptor cur)

-- One field of one record carried over; the flag says whether any was so far.
unfoldable pub carry_value : List ℕ → SdbField → Option (List ℕ) → Bool × SdbStore → Bool × SdbStore
carry_value key fd none (carried, dst) = (carried, dst)
carry_value key fd (some val) (carried, dst) = (true, sdb_set_field dst key fd.name val)

unfoldable pub carry_field :
    SdbStore → List ℕ → SdbField → Option SdbField → Bool × SdbStore → Bool × SdbStore
carry_field src key fd none d = d
carry_field src key fd (some target) d = carry_value key fd (sdb_get_field src key fd.name) d

unfoldable pub carry_fields : SdbStore → List ℕ → List SdbField → Bool × SdbStore → Bool × SdbStore
carry_fields src key [] d = d
carry_fields src key (fd ∷ fds) d =
    carry_fields src key fds (carry_field src key fd (find d.1.schema fd.name) d)

-- A record of which no field survived is created all the same, its first field empty.
unfoldable pub materialize : List ℕ → List SdbField → Bool × SdbStore → SdbStore
materialize key fields (true, dst) = dst
materialize key [] (false, dst) = dst
materialize key (fd ∷ fds) (false, dst) = sdb_set_field dst key fd.name []

unfoldable pub carry_record : SdbStore → ℕ → SdbStore → SdbStore
carry_record src off dst =
    let key = (texts_at src off).0 in
    materialize key dst.schema.fields (carry_fields src key src.schema.fields (false, dst))

unfoldable pub migrate_loop : SdbStore → ℕ → ℕ → SdbStore → SdbStore
migrate_loop src zero off dst = dst
migrate_loop src (suc fuel) off dst =
    let p = drop off src.block in
    let more =
      migrate_loop src fuel (off + rd_u32 p)
        (if is_deleted p then dst else carry_record src off dst) in
    if ltb off (used src)
    then (if is_broken src.schema.hdr_size (used src) off (rd_u32 p) then dst else more)
    else dst

unfoldable pub sdb_migrate_records : SdbStore → SdbStore → SdbStore
sdb_migrate_records dst src = migrate_loop src (used src) sdb_file_hdr dst

-- Every failed load ends so.
unfoldable pub sdb_load_fail_empty : SdbStore → Bool × SdbStore
sdb_load_fail_empty s = (false, sdb_init_empty record s { block = []; cap = 0; loaded = false })

-- The schema that the records of a file were written with and where they begin.
unfoldable pub embedded : SdbStore → List ℕ → Option (SdbSchema × ℕ)
embedded s blk =
    let desc_len = rd_u16 (drop sdb_file_hdr blk) in
    let start = sdb_file_hdr + 2 + desc_len in
    if ltb (length blk) (sdb_file_hdr + 2) || ltb (length blk) start then none else do
      reader ←
          parse_descriptor (take desc_len (drop (sdb_file_hdr + 2) blk)) (rd_u16 (drop 6 blk))
            (rd_u16 (drop 8 blk)) (rd_u16 (drop 10 blk))
      some (reader, start)

unfoldable pub unembedded : SdbStore → Legacy → List ℕ → Option (SdbSchema × ℕ)
unembedded s legacy blk =
    if rd_u16 (drop 10 blk) == s.schema.hdr_size then some (s.schema, sdb_file_hdr) else do
      reader ← sdb_find_legacy (rd_u16 (drop 6 blk)) (rd_u16 (drop 10 blk)) legacy
      some (reader, sdb_file_hdr)

unfoldable pub reader_of : SdbStore → Legacy → List ℕ → Option (SdbSchema × ℕ)
reader_of s legacy blk =
    if ltb (length blk) sdb_file_hdr || not (has_magic blk)
    then none
    else if not (rd_u16 (drop 6 blk) == s.schema.schema_id)
    then none
    else if leb 2 (rd_u16 (drop 4 blk))
    then embedded s blk
    else unembedded s legacy blk

-- The current layout is taken over as it is.
unfoldable pub adopt : SdbStore → List ℕ → Option Index → Bool × SdbStore
adopt s blk none = sdb_load_fail_empty s
adopt s blk (some index) = (
  true,
  record s {
    block = write_file_header s.schema (length index) blk;
    cap = length blk;
    loaded = true;
    dirty = false;
    index = index;
  },
)

-- A store in memory with a schema: sdb_store{} with two fields set.
abbrev pub fresh_store : SdbSchema → List ℕ → List Bool → SdbStore
fresh_store sc path grants = record {
  schema = sc;
  path = path;
  cap_records = 0;
  block = [];
  cap = 0;
  loaded = false;
  dirty = false;
  grow_failed = false;
  index = [];
  grants = grants;
}

unfoldable pub migrated : SdbStore → SdbStore → SdbStore
migrated s dst = record s {
  block = write_file_header s.schema (length dst.index) dst.block;
  cap = dst.cap;
  index = dst.index;
  loaded = true;
  dirty = true;
  grants = dst.grants;
}

-- Another layout is read with its schema and packed under the current one.
unfoldable pub convert : SdbStore → SdbSchema → List ℕ → Option Index → Bool × SdbStore
convert s reader blk none = sdb_load_fail_empty s
convert s reader blk (some index) =
    let src = record (fresh_store reader [] []) {
      block = blk;
      cap = length blk;
      loaded = true;
      index = index;
    } in
    let dst = sdb_init_empty (fresh_store s.schema s.path s.grants) in
    if not dst.loaded
    then (false, sdb_init_empty record s { grants = dst.grants })
    else (true, migrated s (sdb_migrate_records dst src))

unfoldable pub load_records : SdbStore → List ℕ → Option (SdbSchema × ℕ) → Bool × SdbStore
load_records s blk none = sdb_load_fail_empty s
load_records s blk (some (reader, start)) =
    let resident = take sdb_file_hdr blk ++ drop start blk in
    if schema_layout_equal reader s.schema
    then adopt s resident (rebuild_index s.schema.hdr_size resident)
    else convert s reader resident (rebuild_index reader.hdr_size resident)

unfoldable pub load_block : SdbStore → Legacy → Option (List ℕ) → Bool × SdbStore
load_block s legacy none = (false, sdb_init_empty s)
load_block s legacy (some blk) = load_records s blk (reader_of s legacy blk)

unfoldable pub load_file : Inflater → SdbStore → Legacy → Option (List ℕ) → Bool × SdbStore
load_file inf s legacy none = (true, sdb_init_empty s)
load_file inf s legacy (some raw) = load_block s legacy (gz_inflate_bin inf raw)

-- `file` is what the file at the store's path holds.
unfoldable pub sdb_load : Inflater → Legacy → Option (List ℕ) → SdbStore → Bool × SdbStore
sdb_load inf legacy file s =
    if s.loaded
    then (true, s)
    else if length s.path == 0
    then (true, sdb_init_empty s)
    else load_file inf s legacy file

-- The compressor, and whether the new file is written in full.
pub record Disk : Type 0 where
  pub defl : Deflater
  pub writes : List ℕ → Bool

-- The result, the store, and what the file holds if it is replaced.
unfoldable pub write_out : Disk → SdbStore → Option (List ℕ) → Bool × SdbStore × Option (List ℕ)
write_out disk s none = (false, s, none)
write_out disk s (some gz) =
    if disk.writes gz then (true, record s { dirty = false }, some gz) else (false, s, none)

unfoldable pub sdb_flush : Disk → SdbStore → Bool × SdbStore × Option (List ℕ)
sdb_flush disk s =
    let c = compact s 0 in
    if not s.loaded || length s.path == 0
    then (true, record s { dirty = false }, none)
    else write_out disk c (gz_deflate_bin disk.defl (build_disk_image c))

unfoldable pub sdb_serialize_gz : Disk → SdbStore → Option (List ℕ) × SdbStore
sdb_serialize_gz disk s =
    let c = compact s 0 in
    if s.loaded then (gz_deflate_bin disk.defl (build_disk_image c), c) else (none, s)

unfoldable pub flush_upgrade : Disk → Bool × SdbStore → Bool × Option (List ℕ)
flush_upgrade disk (false, s) = (false, none)
flush_upgrade disk (true, s) = let r = sdb_flush disk s in (r.0, r.2)

-- The result and what the file holds if it is replaced.
unfoldable pub sdb_upgrade_file_if_stale :
    Inflater
    → Disk
    → Legacy
    → List ℕ
    → Option (List ℕ)
    → SdbSchema
    → List Bool
    → Bool × Option (List ℕ)
sdb_upgrade_file_if_stale inf disk legacy path none cur grants = (false, none)
sdb_upgrade_file_if_stale inf disk legacy path (some raw) cur grants =
    if sdb_file_matches_schema inf (some raw) cur
    then (false, none)
    else flush_upgrade disk (sdb_load inf legacy (some raw) (fresh_store cur path grants))

-- sdbSnapshotRaw.
unfoldable pub sdb_snapshot_raw : SdbStore → Option (List ℕ) × SdbStore
sdb_snapshot_raw s =
    let c = compact s 0 in if s.loaded then (some (build_disk_image c), c) else (none, s)
