-- ===== src/StorageDb/Files/Reload.antt =====
-- A store that is flushed and loaded again.
use spangap_core.Base.{
  ◌>>=◌, ℕ, zero, suc, ◌+◌, ◌≤◌, ◌≡◌, refl, ap, ◌∙◌, Bool, true, false, some, List, [], ◌∷◌, ◌++◌,
  arith, if◌then◌else◌, ne→==, length, All, length-append,
}
use spangap_core.StorageDb.Schema.{SdbSchema, schema_layout_equal}
use spangap_core.StorageDb.Schema.Layout.{schema_layout_equal_iff}
use spangap_core.StorageDb.Index.{Index, sdb_file_hdr, is_deleted, rebuild_index}
use spangap_core.StorageDb.Index.Rebuild.{IsRecord, flat, entries, rebuild_index-entries}
use spangap_core.StorageDb.Store.{SdbStore, file_header, build_disk_image}
use spangap_core.StorageDb.Compact.{sdb_compact_in_place, compact, drop_loop}
use spangap_core.StorageDb.Compact.Wholes.{IsWhole, size_back, key_len-append}
use spangap_core.StorageDb.Compact.Live.{live}
use spangap_core.StorageDb.Compact.InPlace.{
  length-file_header, write_file_header-front, sdb_compact_in_place-live,
}
use spangap_core.StorageDb.Gzip.{Inflater, gz_inflate_bin, gz_deflate_bin, deflate_room}
use spangap_core.StorageDb.Gzip.RoundTrip.{IsInverse, framed, gz_deflate_bin-framed}
use spangap_core.StorageDb.Files.{
  Legacy, Disk, fresh_store, adopt, load_records, load_block, load_file, sdb_load, write_out,
  sdb_flush,
}
use spangap_core.StorageDb.Files.Image.{
  IsSchema, described, build_disk_image-described, reader_of-image, resident-image,
}

-- The store that a file with a header and the records `rs` is loaded into.
abbrev pub loaded_with : SdbStore → List (List ℕ) → SdbStore
loaded_with s rs =
    let index = entries s.schema.hdr_size sdb_file_hdr rs [] in
    record s {
      block = file_header s.schema (length index) ++ flat rs;
      cap = 16 + length (flat rs);
      loaded = true;
      dirty = false;
      index = index;
    }

whole-IsRecord : (hs : ℕ) (r : List ℕ) → IsWhole hs r → IsRecord hs r
whole-IsRecord hs r h post = (
  omega (arith, h.flags_fit, h.key_fits),
  omega (arith, h.key_fits),
  size_back hs r post h,
  omega (arith, h.key_fits, key_len-append hs r post h),
)

kept :
    (hs : ℕ) (r : List ℕ) (rs : List (List ℕ)) (b : Bool)
    → IsWhole hs r
    → All (IsRecord hs) rs
    → All (IsRecord hs) (if b then rs else r ∷ rs)
kept hs r rs true w h = h
kept hs r rs false w h = (whole-IsRecord hs r w, h)

live-IsRecord : (hs : ℕ) (rs : List (List ℕ)) → All (IsWhole hs) rs → All (IsRecord hs) (live rs)
live-IsRecord hs [] h = record {}
live-IsRecord hs (r ∷ rs) h = kept hs r (live rs) (is_deleted r) h.0 (live-IsRecord hs rs h.1)

drop_loop-none : (fuel hs off : ℕ) (d : List ℕ × Index) → drop_loop fuel hs 0 off d ≡ d
unfolding drop_loop
drop_loop-none zero hs off (block, index) = refl
drop_loop-none (suc fuel) hs off (block, index) = refl

-- A compaction that drops no record.
compact-none : (s : SdbStore) → compact s 0 ≡ sdb_compact_in_place s
unfolding compact
compact-none s =
    ap (λ (d : List ℕ × Index). sdb_compact_in_place record s { block = d.0; index = d.1 })
      (drop_loop-none (length s.block) s.schema.hdr_size sdb_file_hdr (s.block, s.index))

-- The image of a store that has the live ones of some records.
abbrev pub image_of : SdbStore → List (List ℕ) → List ℕ
image_of s rs = file_header s.schema (length (live rs)) ++ described s.schema (flat (live rs))

layout_same : (sc : SdbSchema) → schema_layout_equal sc sc ≡ true
layout_same sc = (schema_layout_equal_iff sc sc).1 (refl, refl)

module _ (s : SdbStore) (n : ℕ) (rs : List (List ℕ)) (h : All (IsRecord s.schema.hdr_size) rs) where
  adopt-records :
      adopt s
        (file_header s.schema n ++ flat rs)
        (rebuild_index s.schema.hdr_size (file_header s.schema n ++ flat rs))
      ≡ (true, loaded_with s rs)
  unfolding adopt
  adopt-records =
      let front = file_header s.schema n in
      rw
        (
          rebuild_index-entries s.schema.hdr_size front rs (length-file_header s.schema n) h,
          write_file_header-front s.schema (length (entries s.schema.hdr_size sdb_file_hdr rs []))
              front (flat rs) (length-file_header s.schema n),
          length-append front (flat rs),
          length-file_header s.schema n,
        )
        refl

  -- The image of records under the schema of a store is loaded into it.
  load_block-image :
      (legacy : Legacy)
      → IsSchema s.schema
      → load_block s legacy (some (file_header s.schema n ++ described s.schema (flat rs)))
        ≡ (true, loaded_with s rs)
  unfolding load_block load_records
  load_block-image legacy k =
      rw
        (
          reader_of-image s.schema n (flat rs) k s legacy refl,
          layout_same s.schema,
          resident-image s.schema n (flat rs) k,
        )
        adopt-records

module _ (s : SdbStore) (front : List ℕ) (rs : List (List ℕ)) (e : s.block ≡ front ++ flat rs)
    (n : length front ≡ sdb_file_hdr) (h : All (IsWhole s.schema.hdr_size) rs)
    (k : IsSchema s.schema) where
  image-compact : build_disk_image (compact s 0) ≡ image_of s rs
  unfolding sdb_compact_in_place
  image-compact =
      ap build_disk_image (compact-none s)
      ∙ build_disk_image-described (sdb_compact_in_place s) (length (live rs)) (flat (live rs))
          ((sdb_compact_in_place-live s front rs e n h).0) k.desc_fits

  -- What a flush writes.
  flush-gz :
      (disk : Disk) (gz : List ℕ)
      → s.loaded ≡ true
      → 1 ≤ length s.path
      → gz_deflate_bin disk.defl (image_of s rs) ≡ some gz
      → disk.writes gz ≡ true
      → (sdb_flush disk s).2 ≡ some gz
  unfolding sdb_flush write_out
  flush-gz disk gz l p packed written =
      rw (image-compact, packed, written, ne→== (length s.path) 0 (omega arith), l) refl

  -- What a load makes of a frame of the image, in a store of that schema which is not in memory.
  load-gz :
      (inf : Inflater) (legacy : Legacy) (grants : List Bool) (gz : List ℕ)
      → 1 ≤ length s.path
      → gz_inflate_bin inf gz ≡ some (image_of s rs)
      → sdb_load inf legacy (some gz) (fresh_store s.schema s.path grants)
        ≡ (true, loaded_with (fresh_store s.schema s.path grants) (live rs))
  unfolding sdb_load load_file
  load-gz inf legacy grants gz p plain =
      rw (ne→== (length s.path) 0 (omega arith), plain)
        (load_block-image (fresh_store s.schema s.path grants) (length (live rs)) (live rs)
          (live-IsRecord s.schema.hdr_size rs h) legacy k)

-- A flush of a store in memory whose block is a header and whole records writes a file from which a
-- load makes a store with the records that are not deleted and with their index, when the compressor
-- gives a body, the file is written in full, the decompressor undoes the compressor, the schema is
-- within the file's widths and the image has at most the 8 MB that a load accepts.
pub sdb_load-sdb_flush :
    (inf : Inflater) (disk : Disk) (legacy : Legacy) (grants : List Bool) (s : SdbStore)
    (front : List ℕ) (rs : List (List ℕ)) (body : List ℕ)
    → s.block ≡ front ++ flat rs
    → length front ≡ sdb_file_hdr
    → All (IsWhole s.schema.hdr_size) rs
    → IsSchema s.schema
    → s.loaded ≡ true
    → 1 ≤ length s.path
    → IsInverse inf disk.defl
    → length (image_of s rs) ≤ 8388608
    → disk.defl.compress (image_of s rs) (deflate_room (length (image_of s rs))) ≡ some body
    → ((gz : List ℕ) → disk.writes gz ≡ true)
    → ((sdb_flush disk s).2
        >>= (λ gz. some (sdb_load inf legacy (some gz) (fresh_store s.schema s.path grants))))
      ≡ some (true, loaded_with (fresh_store s.schema s.path grants) (live rs))
sdb_load-sdb_flush inf disk legacy grants s front rs body e n h k l p inverse bound packed written =
    let (writes, reads) =
      gz_deflate_bin-framed inf disk.defl (image_of s rs) body inverse bound packed in
    let gz = framed body (disk.defl.checksum (image_of s rs)) (length (image_of s rs)) in
    ap
      (λ x.
        x >>= (λ file. some (sdb_load inf legacy (some file) (fresh_store s.schema s.path grants))))
      (flush-gz s front rs e n h k disk gz l p writes (written gz))
    ∙ ap some (load-gz s front rs e n h k inf legacy grants gz p reads)
