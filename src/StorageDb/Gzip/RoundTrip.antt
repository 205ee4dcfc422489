-- ===== src/StorageDb/Gzip/RoundTrip.antt =====
-- Frames that the stores write, read back.
use spangap_core.Base.{
  ◌>>=◌, ℕ, ◌+◌, ◌-◌, ◌%◌, ◌≤◌, ◌<◌, ◌≡◌, refl, sym, ap, ◌∙◌, true, some, List, [], ◌++◌,
  append-nil, append_assoc, arith, le→ltb, le→leb, eq→==, length, drop, length-append, take-append,
  drop-append,
}
use spangap_core.StorageDb.Words.{rd_u32, wr_u32, rd_u32-wr_u32}
use spangap_core.StorageDb.Gzip.{
  Inflater, Deflater, all_done, is_gzip, skip_extra_field, skip_string, skip_crc, body_start,
  body_of, accept_whole, inflate_whole, gz_inflate_bin, gz_frame_header, deflate_room,
  gz_deflate_bin,
}

-- The decompressor undoes the compressor when its buffer has the size of the input, and both compute the
-- same CRC, of 32 bits.
pub record IsInverse (inf : Inflater) (defl : Deflater) : Type 0 where
  pub undoes :
      (x body : List ℕ)
      → defl.compress x (deflate_room (length x)) ≡ some body
      → inf.inflate body (length x) ≡ (x, all_done)
  pub same_crc : (x : List ℕ) → inf.crc32 x ≡ defl.checksum x
  pub crc_fits : (x : List ℕ) → defl.checksum x < 4294967296

pub framed : List ℕ → ℕ → ℕ → List ℕ
framed body crc size = gz_frame_header ++ (body ++ (wr_u32 crc ++ wr_u32 size))

length-framed : (body : List ℕ) (crc size : ℕ) → length (framed body crc size) ≡ 18 + length body
unfolding framed wr_u32
length-framed body crc size = ground (arith, length-append body (wr_u32 crc ++ wr_u32 size))

module _ (body : List ℕ) (crc size : ℕ) where
  abbrev frame : List ℕ
  frame = framed body crc size

  is_gzip-framed : is_gzip frame ≡ true
  unfolding is_gzip framed
  is_gzip-framed = rw (le→leb 18 (length frame) (omega (arith, length-framed body crc size))) refl

  body_start-framed : body_start frame ≡ some 10
  unfolding framed body_start skip_extra_field skip_string skip_crc
  body_start-framed =
      rw (is_gzip-framed, le→ltb (length frame) 18 (omega (arith, length-framed body crc size)))
        refl

  body_of-framed : body_of frame 10 ≡ body
  unfolding framed
  body_of-framed =
      take-append (length frame - 10 - 8) body (wr_u32 crc ++ wr_u32 size)
        (omega (arith, length-framed body crc size))

  crc_of-framed : crc < 4294967296 → rd_u32 (drop (length frame - 8) frame) ≡ crc
  unfolding framed
  crc_of-framed h =
      ap rd_u32 (
        drop-append (length frame - 8) (gz_frame_header ++ body) (wr_u32 crc ++ wr_u32 size)
          (omega (arith, length-framed body crc size)))
      ∙ rd_u32-wr_u32 crc (wr_u32 size) h

  size_of-framed : size < 4294967296 → rd_u32 (drop (length frame - 4) frame) ≡ size
  unfolding framed wr_u32
  size_of-framed h =
      ap (λ (b : List ℕ). rd_u32 (drop (length frame - 4) (gz_frame_header ++ b)))
        (sym (append_assoc body (wr_u32 crc) (wr_u32 size)))
      ∙ ap rd_u32 (
          drop-append (length frame - 4) (gz_frame_header ++ (body ++ wr_u32 crc)) (wr_u32 size)
            (omega (arith, length-framed body crc size, length-append body (wr_u32 crc))))
      ∙ ap rd_u32 (sym (append-nil (wr_u32 size)))
      ∙ rd_u32-wr_u32 size [] h

  -- What the decompressor makes of the body counts when length and CRC are those written.
  inflate_whole-framed :
      (inf : Inflater) (out : List ℕ)
      → crc < 4294967296
      → size ≤ 8388608
      → inf.inflate body size ≡ (out, all_done)
      → length out ≡ size
      → inf.crc32 out ≡ crc
      → inflate_whole inf frame 10 ≡ some out
  unfolding inflate_whole accept_whole
  inflate_whole-framed inf out small bound done same right =
      rw
        (
          size_of-framed (omega arith),
          crc_of-framed small,
          body_of-framed,
          le→ltb 8388608 size bound,
          done,
          same,
          right,
          eq→== size size refl,
          eq→== crc crc refl,
        )
        refl

module _ (inf : Inflater) (defl : Deflater) (input body : List ℕ) (h : IsInverse inf defl) where
  open h use {undoes, same_crc, crc_fits}

  -- A frame that is read back. `gz` is what the file holds.
  abbrev pub ReadsBack : List ℕ → Type 0
  ReadsBack gz = (gz_deflate_bin defl input ≡ some gz) × (gz_inflate_bin inf gz ≡ some input)

  pub gz_deflate_bin-framed :
      length input ≤ 8388608
      → defl.compress input (deflate_room (length input)) ≡ some body
      → ReadsBack (framed body (defl.checksum input) (length input))
  unfolding gz_deflate_bin gz_inflate_bin framed
  gz_deflate_bin-framed bound packed = (
    ap
          (λ x. x >>= (λ b.
            some (framed b (defl.checksum input % 4294967296) (length input % 4294967296))))
          packed
        ∙ ap (λ (n : ℕ). some (framed body n (length input % 4294967296)))
            (omega (arith, crc_fits input))
        ∙ ap (λ (n : ℕ). some (framed body (defl.checksum input) n)) (omega (arith, bound)),
    ap (λ x. x >>= inflate_whole inf (framed body (defl.checksum input) (length input)))
          (body_start-framed body (defl.checksum input) (length input))
        ∙ inflate_whole-framed body (defl.checksum input) (length input) inf input (crc_fits input)
            bound (undoes input body packed) refl (same_crc input),
  )

-- What gzDeflateBin writes, gzInflateBin reads back, for a decompressor that undoes the compressor and an
-- input that compresses and has at most the 8 MB that the reader accepts.
pub gz_inflate_bin-gz_deflate_bin :
    (inf : Inflater) (defl : Deflater) (input body : List ℕ)
    → IsInverse inf defl
    → length input ≤ 8388608
    → defl.compress input (deflate_room (length input)) ≡ some body
    → (gz_deflate_bin defl input >>= gz_inflate_bin inf) ≡ some input
gz_inflate_bin-gz_deflate_bin inf defl input body h bound packed =
    let (writes, reads) = gz_deflate_bin-framed inf defl input body h bound packed in
    ap (λ x. x >>= gz_inflate_bin inf) writes ∙ reads
