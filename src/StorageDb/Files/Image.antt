-- ===== src/StorageDb/Files/Image.antt =====
-- The disk image of a store, read back: its header and its descriptor.
use spangap_core.Base.{
  ℕ, ◌+◌, ◌<◌, ◌≡◌, refl, sym, ap, ◌∙◌, true, some, List, [], ◌++◌, append-nil, arith, le→ltb,
  eq→==, length, take, drop, All, eq_bytes, length-append, take-append, drop-append, drop-drop,
}
use spangap_core.StorageDb.Words.{rd_u16, wr_u16, wr_u32, rd_u16-wr_u16}
use spangap_core.StorageDb.Schema.{SdbSchema, u16}
use spangap_core.StorageDb.Descriptor.{
  IsField, serialize_descriptor, parse_descriptor, parse_descriptor-serialize_descriptor,
}
use spangap_core.StorageDb.Index.{sdb_file_hdr}
use spangap_core.StorageDb.Store.{SdbStore, write_at, file_header, build_disk_image}
use spangap_core.StorageDb.Compact.InPlace.{length-file_header}
use spangap_core.StorageDb.Files.{Legacy, has_magic, embedded, reader_of}

-- A schema whose numbers are within the widths that the file gives them.
pub record IsSchema (sc : SdbSchema) : Type 0 where
  pub id_fits : sc.schema_id < 65536
  pub ver_fits : sc.schema_ver < 65536
  pub hdr_fits : sc.hdr_size < 65536
  pub count_fits : length sc.fields < 65536
  pub fields_fit : All IsField sc.fields
  pub desc_fits : length (serialize_descriptor sc) < 65536

module _ (sc : SdbSchema) (n : ℕ) (rest : List ℕ) where
  abbrev headed : List ℕ
  headed = file_header sc n ++ rest

  magic-headed : has_magic headed ≡ true
  unfolding file_header wr_u16 wr_u32 eq_bytes
  magic-headed = refl

  format-headed : rd_u16 (drop 4 headed) ≡ 2
  unfolding file_header wr_u16 wr_u32 rd_u16
  format-headed = refl

  id-headed : sc.schema_id < 65536 → rd_u16 (drop 6 headed) ≡ sc.schema_id
  unfolding file_header wr_u16 wr_u32 rd_u16
  id-headed h = omega (arith, h)

  ver-headed : sc.schema_ver < 65536 → rd_u16 (drop 8 headed) ≡ sc.schema_ver
  unfolding file_header wr_u16 wr_u32 rd_u16
  ver-headed h = omega (arith, h)

  hdr-headed : sc.hdr_size < 65536 → rd_u16 (drop 10 headed) ≡ sc.hdr_size
  unfolding file_header wr_u16 wr_u32 rd_u16
  hdr-headed h = omega (arith, h)

  drop-headed : drop sdb_file_hdr headed ≡ rest
  drop-headed = drop-append 16 (file_header sc n) rest (sym (length-file_header sc n))

  take-headed : take sdb_file_hdr headed ≡ file_header sc n
  take-headed = take-append 16 (file_header sc n) rest (sym (length-file_header sc n))

-- What follows the header: the descriptor with its length, and the records.
abbrev pub described : SdbSchema → List ℕ → List ℕ
described sc body = wr_u16 (length (serialize_descriptor sc)) ++ (serialize_descriptor sc ++ body)

reformat : (sc : SdbSchema) (n : ℕ) → write_at 4 (wr_u16 2) (file_header sc n) ≡ file_header sc n
unfolding file_header write_at wr_u16 wr_u32
reformat sc n = refl

pub build_disk_image-described :
    (s : SdbStore) (n : ℕ) (body : List ℕ)
    → s.block ≡ file_header s.schema n ++ body
    → length (serialize_descriptor s.schema) < 65536
    → build_disk_image s ≡ file_header s.schema n ++ described s.schema body
unfolding build_disk_image
build_disk_image-described s n body e h =
    let desc = serialize_descriptor s.schema in
    let size : u16 (length desc) ≡ length desc = omega (arith, h) in
    ap
      (λ (b : List ℕ).
        write_at 4 (wr_u16 2) b ++ (wr_u16 (u16 (length desc)) ++ (desc ++ drop 16 s.block)))
      (ap (take 16) e ∙ take-headed s.schema n body)
    ∙ ap (λ (b : List ℕ). b ++ (wr_u16 (u16 (length desc)) ++ (desc ++ drop 16 s.block)))
        (reformat s.schema n)
    ∙ ap (λ (k : ℕ). file_header s.schema n ++ (wr_u16 k ++ (desc ++ drop 16 s.block))) size
    ∙ ap (λ (b : List ℕ). file_header s.schema n ++ (wr_u16 (length desc) ++ (desc ++ b)))
        (ap (drop 16) e ∙ drop-headed s.schema n body)

module _ (sc : SdbSchema) (n : ℕ) (body : List ℕ) (h : IsSchema sc) where
  abbrev image : List ℕ
  image = file_header sc n ++ described sc body

  length-image : length image ≡ 18 + length (serialize_descriptor sc) + length body
  unfolding file_header wr_u16 wr_u32
  length-image = omega (arith, length-append (serialize_descriptor sc) body)

  desc_len-image : rd_u16 (drop sdb_file_hdr image) ≡ length (serialize_descriptor sc)
  desc_len-image =
      ap rd_u16 (drop-headed sc n (described sc body))
      ∙ rd_u16-wr_u16 (length (serialize_descriptor sc)) (serialize_descriptor sc ++ body)
          h.desc_fits

  after-image : drop (sdb_file_hdr + 2) image ≡ serialize_descriptor sc ++ body
  unfolding file_header wr_u16 wr_u32
  after-image = refl

  desc-image :
      take (length (serialize_descriptor sc)) (drop (sdb_file_hdr + 2) image)
      ≡ serialize_descriptor sc
  desc-image =
      ap (take (length (serialize_descriptor sc))) after-image
      ∙ take-append (length (serialize_descriptor sc)) (serialize_descriptor sc) body refl

  parsed :
      parse_descriptor (serialize_descriptor sc) sc.schema_id sc.schema_ver sc.hdr_size ≡ some sc
  parsed =
      ap (λ (b : List ℕ). parse_descriptor b sc.schema_id sc.schema_ver sc.hdr_size)
        (sym (append-nil (serialize_descriptor sc)))
      ∙ parse_descriptor-serialize_descriptor sc [] h.count_fits h.fields_fit

  records-image : drop (18 + length (serialize_descriptor sc)) image ≡ body
  records-image =
      let size = length (serialize_descriptor sc) in
      sym (drop-drop size (sdb_file_hdr + 2) (18 + size) image refl)
      ∙ ap (drop size) after-image
      ∙ drop-append size (serialize_descriptor sc) body refl

  pub resident-image :
      take sdb_file_hdr image ++ drop (18 + length (serialize_descriptor sc)) image
      ≡ file_header sc n ++ body
  resident-image = rw (records-image, take-headed sc n (described sc body)) refl

  embedded-image :
      (s : SdbStore) → embedded s image ≡ some (sc, 18 + length (serialize_descriptor sc))
  unfolding embedded
  embedded-image s =
      rw
        (
          desc_len-image,
          le→ltb (length image) 18 (omega (arith, length-image)),
          le→ltb (length image) (18 + length (serialize_descriptor sc))
              (omega (arith, length-image)),
          desc-image,
          id-headed sc n (described sc body) h.id_fits,
          ver-headed sc n (described sc body) h.ver_fits,
          hdr-headed sc n (described sc body) h.hdr_fits,
          parsed,
        )
        refl

  -- The image states its own schema and where its records begin, whatever the legacy layouts.
  pub reader_of-image :
      (s : SdbStore) (legacy : Legacy)
      → s.schema.schema_id ≡ sc.schema_id
      → reader_of s legacy image ≡ some (sc, 18 + length (serialize_descriptor sc))
  unfolding reader_of
  reader_of-image s legacy e =
      rw
        (
          le→ltb (length image) 16 (omega (arith, length-image)),
          magic-headed sc n (described sc body),
          id-headed sc n (described sc body) h.id_fits,
          eq→== sc.schema_id s.schema.schema_id (sym e),
          format-headed sc n (described sc body),
        )
        (embedded-image s)
