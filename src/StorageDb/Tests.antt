-- ===== src/StorageDb/Tests.antt =====
-- Concrete runs of the stores' encodings.
use spangap_core.Base.{
  ◌>>=◌, ℕ, ◌+◌, ◌≤◌, ◌<◌, ◌≡◌, refl, sym, ap, ◌↔◌, true, false, some, List, [], ◌∷◌, ◌++◌, arith,
  if◌then◌else◌, some-inj, length, replicate, All, codes, eq_bytes,
}
use spangap_core.StorageDb.Words.{rd_u16, rd_u32, wr_u16, wr_u32}
use spangap_core.StorageDb.Schema.{
  SdbSchema, sdb_u32, sdb_text, find, find_field, schema_layout_equal,
}
use spangap_core.StorageDb.Schema.Layout.{schema_layout_equal_iff}
use spangap_core.StorageDb.Descriptor.{
  IsField, serialize_descriptor, serialize_field, serialize_fields, parse_descriptor,
  parse_descriptor-serialize_descriptor,
}
use spangap_core.StorageDb.Record.{
  build_record, read_record_text, unsized_record, put_u32, prefixed, all_prefixed,
}
use spangap_core.StorageDb.Index.{rebuild_index, sdb_file_hdr, find_rec}
use spangap_core.StorageDb.Index.Rebuild.{IsRecord, flat, entries, rebuild_index-entries}
use spangap_core.StorageDb.Index.Built.{build_record-IsRecord}
use spangap_core.StorageDb.Record.RoundTrip.{read_record_text-build_record}
use spangap_core.StorageDb.Store.{SdbStore, used, file_header, ensure_cap, grow, double_until}
use spangap_core.StorageDb.Compact.{
  sdb_compact_in_place, relocate, append_record, with_room, append_to,
}
use spangap_core.StorageDb.Compact.Wholes.{IsWhole}
use spangap_core.StorageDb.Compact.Live.{live, repointed}
use spangap_core.StorageDb.Compact.InPlace.{length-file_header, sdb_compact_in_place-live}
use spangap_core.StorageDb.Compact.Trails.{Trails}
use spangap_core.StorageDb.Compact.Relocate.{relocate-sdb_compact_in_place}
use spangap_core.StorageDb.Compact.Append.{append_record-granted}
use spangap_core.StorageDb.Compact.Capacity.{append_record-fits}
use spangap_core.StorageDb.Fields.{sdb_has_record, sdb_delete_record, sdb_get_field, sdb_set_field}
use spangap_core.Base.Decimal.{strtoul, decimal}
use spangap_core.StorageDb.Fields.Numbers.{sdb_get_field-sdb_set_field}
use spangap_core.StorageDb.Fields.Delete.{sdb_delete_record-sdb_has_record}
use spangap_core.StorageDb.Gzip.{Inflater, Deflater, all_done}
use spangap_core.StorageDb.Gzip.RoundTrip.{IsInverse}
use spangap_core.StorageDb.Files.{Disk, fresh_store, sdb_load, sdb_flush}
use spangap_core.StorageDb.Files.Image.{IsSchema}
use spangap_core.StorageDb.Files.Reload.{loaded_with, image_of, sdb_load-sdb_flush}

abbrev messages : SdbSchema
messages = record {
  schema_id = 3;
  schema_ver = 1;
  hdr_size = 12;
  fields =
      record { name = codes "ts"; kind = sdb_u32; off = 8; width = 0 }
      ∷ record { name = codes "content"; kind = sdb_text; off = 0; width = 0 }
      ∷ [];
}

messages-IsField : All IsField messages.fields
messages-IsField = (
  (omega arith, omega arith, omega arith, omega arith),
  ((omega arith, omega arith, omega arith, omega arith), record {}),
)

parse_descriptor-serialize_descriptor_example :
    parse_descriptor (serialize_descriptor messages ++ 7 ∷ []) 3 1 12 ≡ some messages
parse_descriptor-serialize_descriptor_example =
    parse_descriptor-serialize_descriptor messages (7 ∷ []) (omega arith) messages-IsField

abbrev header : List ℕ
header = replicate 12 0

size : length (build_record 12 header (codes "k") (codes "hi" ∷ [])) ≡ 19
unfolding build_record unsized_record put_u32 prefixed all_prefixed wr_u16 wr_u32
size = refl

short : length (build_record 12 header (codes "k") (codes "hi" ∷ [])) < 4294967296
short = omega (arith, size)

read_record_text-build_record_example :
    (read_record_text 12 1
        ((9 ∷ 9 ∷ []) ++ (build_record 12 header (codes "k") (codes "hi" ∷ []) ++ (5 ∷ [])))
        2
      ≡ (codes "k", codes "hi" ∷ []))
    × (rd_u32 (build_record 12 header (codes "k") (codes "hi" ∷ []) ++ (5 ∷ []))
        ≡ length (build_record 12 header (codes "k") (codes "hi" ∷ [])))
read_record_text-build_record_example =
    read_record_text-build_record 12 header (codes "k") (codes "hi" ∷ []) (omega arith)
      (omega arith) (9 ∷ 9 ∷ []) (5 ∷ []) (omega arith) (omega arith, record {}) short

abbrev one : List ℕ
one = build_record 12 header (codes "k") (codes "hi" ∷ [])

one-IsRecord : IsRecord 12 one
one-IsRecord =
    build_record-IsRecord 12 header (codes "k") (codes "hi" ∷ []) (omega arith) (omega arith)
      (omega arith) short

rebuild_index-entries_example :
    rebuild_index 12 (replicate 16 0 ++ flat (one ∷ one ∷ []))
    ≡ some (entries 12 sdb_file_hdr (one ∷ one ∷ []) [])
rebuild_index-entries_example =
    rebuild_index-entries 12 (replicate 16 0) (one ∷ one ∷ []) refl
      (one-IsRecord, (one-IsRecord, record {}))

abbrev next_version : SdbSchema
next_version = record messages { schema_ver = 2 }

schema_layout_equal_iff_example :
    (schema_layout_equal messages next_version ≡ true)
    ↔ ((messages.hdr_size ≡ next_version.hdr_size) × (messages.fields ≡ next_version.fields))
schema_layout_equal_iff_example = schema_layout_equal_iff messages next_version

-- A record that a deletion has marked.
abbrev gone : List ℕ
gone = build_record 12 (replicate 4 0 ++ (1 ∷ replicate 7 0)) (codes "j") (codes "" ∷ [])

one-IsWhole : IsWhole 12 one
unfolding build_record unsized_record put_u32 prefixed all_prefixed wr_u16 wr_u32 rd_u16 rd_u32
one-IsWhole = record { flags_fit = omega arith; key_fits = omega arith; states = refl }

gone-IsWhole : IsWhole 12 gone
unfolding build_record unsized_record put_u32 prefixed all_prefixed wr_u16 wr_u32 rd_u16 rd_u32
gone-IsWhole = record { flags_fit = omega arith; key_fits = omega arith; states = refl }

abbrev two_records : List (List ℕ)
two_records = gone ∷ one ∷ []

two_records-IsWhole : All (IsWhole 12) two_records
two_records-IsWhole = (gone-IsWhole, (one-IsWhole, record {}))

abbrev filed : SdbStore
filed = record (fresh_store messages (codes "/m") []) {
  block = file_header messages 2 ++ flat two_records;
  cap = 60;
  loaded = true;
  index = (codes "k", 33) ∷ [];
}

sdb_compact_in_place-live_example :
    ((sdb_compact_in_place filed).block
      ≡ file_header messages (length (live two_records)) ++ flat (live two_records))
    × ((sdb_compact_in_place filed).index ≡ repointed 12 sdb_file_hdr two_records filed.index)
sdb_compact_in_place-live_example =
    sdb_compact_in_place-live filed (file_header messages 2) two_records refl
      (length-file_header messages 2) two_records-IsWhole

relocate-sdb_compact_in_place_example :
    ((relocate filed 4096).block ≡ (sdb_compact_in_place filed).block)
    × ((relocate filed 4096).index ≡ (sdb_compact_in_place filed).index)
relocate-sdb_compact_in_place_example =
    relocate-sdb_compact_in_place filed 4096 (file_header messages 2) two_records refl
      (length-file_header messages 2) two_records-IsWhole

appended : (append_record filed (codes "n") one).0 ≡ true
unfolding append_record with_room append_to ensure_cap build_record unsized_record put_u32 prefixed
    all_prefixed wr_u16 wr_u32 file_header grow double_until
appended = refl

append_record-fits_example :
    used (append_record filed (codes "n") one).1 ≤ (append_record filed (codes "n") one).1.cap
append_record-fits_example = append_record-fits filed (codes "n") one appended

sdb_delete_record-sdb_has_record_example :
    sdb_has_record (sdb_delete_record filed (codes "k")) (codes "k")
    ≡ (if eq_bytes (codes "k") (codes "k") then false else sdb_has_record filed (codes "k"))
sdb_delete_record-sdb_has_record_example =
    sdb_delete_record-sdb_has_record filed (codes "k") (codes "k") refl

-- A codec that stores its input as it is.
abbrev stored_inflater : Inflater
stored_inflater = record { inflate = λ body size. (body, all_done); crc32 = λ x. 7 }

abbrev stored_deflater : Deflater
stored_deflater = record { compress = λ x room. some x; checksum = λ x. 7 }

stored-IsInverse : IsInverse stored_inflater stored_deflater
stored-IsInverse = record {
  undoes = λ x body e. ap (λ b. (b, all_done)) (sym (some-inj e));
  same_crc = λ x. refl;
  crc_fits = λ x. omega arith;
}

descriptor_fits : length (serialize_descriptor messages) < 65536
unfolding serialize_descriptor serialize_fields serialize_field wr_u16
descriptor_fits = omega arith

messages-IsSchema : IsSchema messages
messages-IsSchema = record {
  id_fits = omega arith;
  ver_fits = omega arith;
  hdr_fits = omega arith;
  count_fits = omega arith;
  fields_fit = messages-IsField;
  desc_fits = descriptor_fits;
}

image_fits : length (image_of filed two_records) ≤ 8388608
unfolding serialize_descriptor serialize_fields serialize_field build_record unsized_record put_u32
    prefixed all_prefixed wr_u16 wr_u32 file_header
image_fits = omega arith

abbrev written_disk : Disk
written_disk = record { defl = stored_deflater; writes = λ gz. true }

sdb_load-sdb_flush_example :
    ((sdb_flush written_disk filed).2 >>= (λ gz.
      some (sdb_load stored_inflater [] (some gz) (fresh_store messages (codes "/m") []))))
    ≡ some (true, loaded_with (fresh_store messages (codes "/m") []) (live two_records))
sdb_load-sdb_flush_example =
    sdb_load-sdb_flush stored_inflater written_disk [] [] filed (file_header messages 2) two_records
      (image_of filed two_records) refl (length-file_header messages 2) two_records-IsWhole
      messages-IsSchema refl (omega arith) stored-IsInverse image_fits refl (λ gz. refl)

append_record-granted_example :
    ((append_record filed (codes "n") one).0 ≡ true)
    × ((append_record filed (codes "n") one).1.block ≡ filed.block ++ one)
    × ((other : List ℕ)
        → find_rec (append_record filed (codes "n") one).1.index other
          ≡ (if eq_bytes (codes "n") other then some (used filed) else find_rec filed.index other))
append_record-granted_example = append_record-granted filed (codes "n") one refl

filed_fits : 33 + 8 + 4 ≤ used filed
unfolding build_record unsized_record put_u32 prefixed all_prefixed wr_u16 wr_u32 file_header
filed_fits = omega arith

sdb_get_field-sdb_set_field_example :
    sdb_get_field
      (sdb_set_field filed (codes "k") (codes "ts") (codes "42"))
      (codes "k")
      (codes "ts")
    ≡ some (decimal (strtoul (codes "42")))
unfolding find_rec find find_field eq_bytes
sdb_get_field-sdb_set_field_example =
    sdb_get_field-sdb_set_field filed (codes "k") (codes "ts") (codes "42") 33
      record { name = codes "ts"; kind = sdb_u32; off = 8; width = 0 } refl refl refl refl
      filed_fits
