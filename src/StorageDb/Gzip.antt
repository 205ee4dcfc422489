-- ===== src/StorageDb/Gzip.antt =====
-- gzDeflateBin, gzInflateBin and gzInflatePrefix of esp-idf/src/storage_db.cpp: the gzip frame round a deflate stream.
-- tinfl and tdefl are the records Inflater and Deflater; the memory that the three take is there.
pub mod RoundTrip
use spangap_core.Base.{
  ◌>>=◌, ℕ, suc, ◌+◌, ◌-◌, ◌*◌, ◌/◌, ◌%◌, bit_and, Bool, not, ◌&&◌, Option, none, some, List, [],
  ◌∷◌, ◌++◌, ltb, leb, ◌==◌, if◌then◌else◌, length, get_or, take, drop,
}
use spangap_core.StorageDb.Words.{rd_u16, rd_u32, wr_u32}

-- tinfl_decompress into a buffer of a given size: the bytes put out and how it ended; and the CRC.
pub data Ending : Type 0 where
  all_done more_output broken : Ending

pub record Inflater : Type 0 where
  pub inflate : List ℕ → ℕ → List ℕ × Ending
  pub crc32 : List ℕ → ℕ

-- tdefl_compress with TDEFL_FINISH into a buffer of a given size; none when it does not end or does not
-- take all of its input. And the CRC.
pub record Deflater : Type 0 where
  pub compress : List ℕ → ℕ → Option (List ℕ)
  pub checksum : List ℕ → ℕ

abbrev pub sdb_gz_hdr : ℕ
sdb_gz_hdr = 10

abbrev pub sdb_gz_foot : ℕ
sdb_gz_foot = 8

-- The bit of the flag byte with this value.
abbrev pub has_flag : List ℕ → ℕ → Bool
has_flag gz bit = not (bit_and (get_or gz 3 0) bit == 0)

unfoldable pub is_gzip : List ℕ → Bool
is_gzip gz =
    leb (sdb_gz_hdr + sdb_gz_foot) (length gz)
    && get_or gz 0 0 == 31
    && get_or gz 1 0 == 139
    && get_or gz 2 0 == 8

-- Past a string that ends with a NUL, the NUL included, on the bytes from it on.
unfoldable pub string_end : List ℕ → ℕ
string_end [] = 1
string_end (c ∷ cs) = if c == 0 then 1 else suc (string_end cs)

unfoldable pub skip_extra_field : List ℕ → ℕ → Option ℕ
skip_extra_field gz off =
    if has_flag gz 4
    then (if ltb (length gz) (off + 2) then none else some (off + 2 + rd_u16 (drop off gz)))
    else some off

unfoldable pub skip_string : List ℕ → ℕ → ℕ → ℕ
skip_string gz bit off = if has_flag gz bit then off + string_end (drop off gz) else off

unfoldable pub skip_crc : List ℕ → ℕ → ℕ
skip_crc gz off = if has_flag gz 2 then off + 2 else off

-- Where the deflate stream starts; none if the frame is not one.
unfoldable pub body_start : List ℕ → Option ℕ
body_start gz = if not (is_gzip gz) then none else do
  off ← skip_extra_field gz sdb_gz_hdr
  let start = skip_crc gz (skip_string gz 16 (skip_string gz 8 off))
  if ltb (length gz) (start + sdb_gz_foot) then none else some start

abbrev pub body_of : List ℕ → ℕ → List ℕ
body_of gz start = take (length gz - start - sdb_gz_foot) (drop start gz)

-- The output counts when the stream ended, its length and its CRC being those of the footer.
unfoldable pub accept_whole : ℕ → ℕ → ℕ → (List ℕ × Ending) → Option (List ℕ)
accept_whole size crc found (out, all_done) =
    if length out == size && found == crc then some out else none
accept_whole size crc found (out, more_output) = none
accept_whole size crc found (out, broken) = none

unfoldable pub accept_prefix : (List ℕ × Ending) → List ℕ
accept_prefix (out, all_done) = out
accept_prefix (out, more_output) = out
accept_prefix (out, broken) = []

module _ (inf : Inflater) where
  unfoldable pub inflate_whole : List ℕ → ℕ → Option (List ℕ)
  inflate_whole gz start =
      let size = rd_u32 (drop (length gz - 4) gz) in
      let crc = rd_u32 (drop (length gz - 8) gz) in
      let out = inf.inflate (body_of gz start) size in
      if ltb (8 * 1024 * 1024) size then none else accept_whole size crc (inf.crc32 out.0) out

  unfoldable pub gz_inflate_bin : List ℕ → Option (List ℕ)
  gz_inflate_bin gz = do start ← body_start gz; inflate_whole gz start

  -- A stream that is no gzip gives no byte.
  unfoldable pub prefix_at : List ℕ → ℕ → Option ℕ → List ℕ
  prefix_at gz max_out none = []
  prefix_at gz max_out (some start) = accept_prefix (inf.inflate (body_of gz start) max_out)

  unfoldable pub gz_inflate_prefix : List ℕ → ℕ → List ℕ
  gz_inflate_prefix gz max_out = prefix_at gz max_out (body_start gz)

-- The ten bytes of the header.
abbrev pub gz_frame_header : List ℕ
gz_frame_header = 31 ∷ 139 ∷ 8 ∷ 0 ∷ 0 ∷ 0 ∷ 0 ∷ 0 ∷ 0 ∷ 255 ∷ []

-- The room that the output buffer has for the compressed bytes.
abbrev pub deflate_room : ℕ → ℕ
deflate_room n = n + n / 8 + 192

unfoldable pub gz_deflate_bin : Deflater → List ℕ → Option (List ℕ)
gz_deflate_bin defl input = do
  body ← defl.compress input (deflate_room (length input))
  some (
      gz_frame_header
      ++ (body
          ++ (wr_u32 (defl.checksum input % 4294967296) ++ wr_u32 (length input % 4294967296))))
