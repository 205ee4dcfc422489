-- ===== src/Targz/Gzip.antt =====
-- gzHeader of esp-idf/src/targz.cpp: the header of a gzip member, in runs of any length.
pub mod Cut
pub mod Heads
pub mod Loop
use spangap_core.Base.{
  ℕ, zero, suc, ◌+◌, ◌-◌, ◌*◌, min, bit_and, Bool, not, ◌&&◌, List, [], ◌∷◌, ◌++◌, ltb, ◌==◌,
  if◌then◌else◌, length, get_or, take, drop,
}
use spangap_core.Targz.Tar.{Err, ok, err_magic}

pub data GzStage : Type 0 where
  gz_fixed gz_extra_len gz_extra gz_fname gz_fcomment gz_fhcrc gz_deflate gz_footer : GzStage

-- The fields of targz_reader_t that the header uses; `have` is gzHave, `buf` what gzBuf holds.
pub record GzHead : Type 0 where
  pub gz : GzStage
  pub buf : List ℕ
  pub have : ℕ
  pub flags : ℕ
  pub extra_left : ℕ

abbrev pub gz_hdr_len : ℕ
gz_hdr_len = 10

-- gzBuf[gzHave++] = c
abbrev pub gather : GzHead → ℕ → GzHead
gather h c = record h { buf = take h.have h.buf ++ c ∷ []; have = h.have + 1 }

abbrev pub flag_set : ℕ → ℕ → Bool
flag_set flags bit = not (bit_and flags bit == 0)

unfoldable pub after_comment : ℕ → GzStage
after_comment flags = if flag_set flags 2 then gz_fhcrc else gz_deflate

unfoldable pub after_name : ℕ → GzStage
after_name flags = if flag_set flags 16 then gz_fcomment else after_comment flags

unfoldable pub after_extra : ℕ → GzStage
after_extra flags = if flag_set flags 8 then gz_fname else after_name flags

unfoldable pub after_fixed : ℕ → GzStage
after_fixed flags = if flag_set flags 4 then gz_extra_len else after_extra flags

abbrev pub is_magic : List ℕ → Bool
is_magic b = get_or b 0 0 == 31 && get_or b 1 0 == 139 && get_or b 2 0 == 8

unfoldable pub fixed_done : GzHead → Err × GzHead
fixed_done h =
    if ltb h.have gz_hdr_len
    then (ok, h)
    else if not (is_magic h.buf)
    then (err_magic, h)
    else (ok, record h { flags = get_or h.buf 3 0; have = 0; gz = after_fixed (get_or h.buf 3 0) })

unfoldable pub extra_len_done : GzHead → GzHead
extra_len_done h =
    let n = get_or h.buf 0 0 + 256 * get_or h.buf 1 0 in
    if ltb h.have 2 then h else record h {
      extra_left = n;
      have = 0;
      gz = if n == 0 then after_extra h.flags else gz_extra;
    }

unfoldable pub string_byte : GzHead → GzStage → ℕ → GzHead
string_byte h next c = if c == 0 then record h { gz = next } else h

unfoldable pub fhcrc_byte : GzHead → GzHead
fhcrc_byte h =
    if ltb (h.have + 1) 2
    then record h { have = h.have + 1 }
    else record h { have = 0; gz = gz_deflate }

-- One byte in a stage that takes its bytes one at a time.
unfoldable pub gz_byte : GzStage → GzHead → ℕ → Err × GzHead
gz_byte gz_fixed h c = fixed_done (gather h c)
gz_byte gz_extra_len h c = (ok, extra_len_done (gather h c))
gz_byte gz_fname h c = (ok, string_byte h (after_name h.flags) c)
gz_byte gz_fcomment h c = (ok, string_byte h (after_comment h.flags) c)
gz_byte gz_fhcrc h c = (ok, fhcrc_byte h)
gz_byte gz_extra h c = (ok, h)
gz_byte gz_deflate h c = (ok, h)
gz_byte gz_footer h c = (ok, h)

-- GZ_EXTRA skips as many bytes as there are and as are left of the field.
unfoldable pub skip_extra : GzHead → ℕ → GzHead
skip_extra h n =
    if h.extra_left - n == 0
    then record h { extra_left = h.extra_left - n; gz = after_extra h.flags }
    else record h { extra_left = h.extra_left - n }

pub data Turn : Type 0 where
  by_byte in_extra ended : Turn

-- What a turn of the loop does in a stage.
abbrev pub turn_of : GzStage → Turn
turn_of gz_extra = in_extra
turn_of gz_deflate = ended
turn_of gz_footer = ended
turn_of gz_fixed = by_byte
turn_of gz_extra_len = by_byte
turn_of gz_fname = by_byte
turn_of gz_fcomment = by_byte
turn_of gz_fhcrc = by_byte

-- What follows a byte: the rest of the run, unless the byte was refused.
unfoldable pub gz_after :
    (GzHead → List ℕ → Err × GzHead × List ℕ) → List ℕ → Err × GzHead → Err × GzHead × List ℕ
gz_after rest p (ok, h) = rest h p
gz_after rest p (e, h) = (e, h, p)

unfoldable pub gz_turn :
    (GzHead → List ℕ → Err × GzHead × List ℕ) → Turn → GzHead → List ℕ → Err × GzHead × List ℕ
gz_turn rest ended h p = (ok, h, p)
gz_turn rest by_byte h [] = (ok, h, [])
gz_turn rest by_byte h (c ∷ p) = gz_after rest p (gz_byte h.gz h c)
gz_turn rest in_extra h [] = (ok, h, [])
gz_turn rest in_extra h (c ∷ p) =
    let n = min (length (c ∷ p)) h.extra_left in rest (skip_extra h n) (drop n (c ∷ p))

-- Each turn takes at least a byte, so the length of the run is fuel enough.
unfoldable pub gz_loop : ℕ → GzHead → List ℕ → Err × GzHead × List ℕ
gz_loop zero h p = (ok, h, p)
gz_loop (suc fuel) h p = gz_turn (gz_loop fuel) (turn_of h.gz) h p

-- The error, the state and the bytes that are not the header's.
unfoldable pub gz_header : GzHead → List ℕ → Err × GzHead × List ℕ
gz_header h p = gz_loop (length p) h p
