-- ===== src/StorageDb/Record.antt =====
-- buildRecord and readRecordText of esp-idf/src/storage_db.cpp: the image of one record in a block.
pub mod RoundTrip
use spangap_core.Base.{ℕ, zero, suc, ◌+◌, ◌%◌, List, [], ◌∷◌, ◌++◌, length, get_or, set, take, drop}
use spangap_core.StorageDb.Words.{wr_u16, rd_u16, wr_u32, rd_u32, rd_u16-wr_u16, rd_u32-wr_u32}
use spangap_core.StorageDb.Schema.{u16}

abbrev pub sdb_flags_off : ℕ
sdb_flags_off = 4

-- A length and the bytes.
unfoldable pub prefixed : List ℕ → List ℕ
prefixed t = wr_u16 (u16 (length t)) ++ t

unfoldable pub all_prefixed : List (List ℕ) → List ℕ
all_prefixed [] = []
all_prefixed (t ∷ ts) = prefixed t ++ all_prefixed ts

-- wrU32 to the first four bytes of a buffer.
unfoldable pub put_u32 : ℕ → List ℕ → List ℕ
put_u32 v r = wr_u32 v ++ drop 4 r

unfoldable pub unsized_record : ℕ → List ℕ → List ℕ → List (List ℕ) → List ℕ
unsized_record hs hdr_copy key texts = take hs hdr_copy ++ (prefixed key ++ all_prefixed texts)

unfoldable pub build_record : ℕ → List ℕ → List ℕ → List (List ℕ) → List ℕ
build_record hs hdr_copy key texts =
    let r = unsized_record hs hdr_copy key texts in
    set (put_u32 (length r % 4294967296) r) sdb_flags_off (get_or hdr_copy sdb_flags_off 0)

unfoldable pub read_texts : ℕ → List ℕ → List (List ℕ)
read_texts zero p = []
read_texts (suc n) p = take (rd_u16 p) (drop 2 p) ∷ read_texts n (drop (rd_u16 p) (drop 2 p))

-- The key and the texts of the record at `off`, of a schema with header size `hs` and `nt` text fields.
unfoldable pub read_record_text : ℕ → ℕ → List ℕ → ℕ → List ℕ × List (List ℕ)
read_record_text hs nt block off =
    let p = drop (off + hs) block in
    (take (rd_u16 p) (drop 2 p), read_texts nt (drop (rd_u16 p) (drop 2 p)))
