-- ===== src/Targz/Reader.antt =====
-- targz_reader_t, targzReaderOpen, inflateSome, targzReaderFeed, targzReaderFinish and targzErrStr of
-- esp-idf/src/targz.cpp. tinfl with its window, and the CRC, are the record Tinfl; allocation succeeds.
pub mod Hold
pub mod Handed
pub mod Footer
use spangap_core.Base.{
  ℕ, zero, suc, ◌+◌, ◌-◌, ◌*◌, ◌%◌, min, Bool, true, false, not, ◌&&◌, ◌||◌, Option, none, some,
  List, [], ◌∷◌, ◌++◌, ltb, leb, ◌==◌, if◌then◌else◌, length, get_or, take, drop, codes,
}
use spangap_core.Targz.Tar.{
  Err, ok, err_magic, err_deflate, err_tar, err_unsafe, err_crc, err_truncated, err_sink, err_mem,
  TarStage, tar_hdr, tar_data, tar_pad, tar_end, Tar, Callbacks, tar_consume,
}
use spangap_core.Targz.Gzip.{
  GzStage, GzHead, gz_header, gz_fixed, gz_extra_len, gz_extra, gz_fname, gz_fcomment, gz_fhcrc,
  gz_deflate, gz_footer,
}

-- How a call of tinfl_decompress ended: done, more to come (a positive status), failed (a negative one).
pub data InflateStatus : Type 0 where
  all_done wants_more has_failed : InflateStatus

pub record Inflated (D : Type 0) : Type 0 where
  pub status : InflateStatus
  pub taken : ℕ
  pub output : List ℕ
  pub inf : D

-- `decompress d input room final`: `final` is a call without TINFL_FLAG_HAS_MORE_INPUT. `rounds` bounds
-- the calls that a run can take, the fuel of the loop of inflateSome.
pub record Tinfl : Type 1 where
  pub D : Type 0
  pub inf_init : D
  pub decompress : D → List ℕ → ℕ → Bool → Inflated D
  pub crc32 : ℕ → List ℕ → ℕ
  pub rounds : D → List ℕ → ℕ

pub record Reader (D Ctx : Type 0) : Type 0 where
  pub inf : D
  pub dict_ofs : ℕ
  pub head : GzHead
  pub hold : List ℕ
  pub crc : ℕ
  pub raw_len : ℕ
  pub tar : Tar Ctx
  pub err : Err

abbrev pub dict_size : ℕ
dict_size = 32768

abbrev pub gz_foot_len : ℕ
gz_foot_len = 8

abbrev pub stage_of : {D Ctx : Type 0} → Reader D Ctx → GzStage
stage_of r = r.head.gz

abbrev pub in_deflate : GzStage → Bool
in_deflate gz_deflate = true
in_deflate _ = false

abbrev pub past_header : GzStage → Bool
past_header gz_deflate = true
past_header gz_footer = true
past_header _ = false

abbrev pub is_ok : Err → Bool
is_ok ok = true
is_ok _ = false

unfoldable pub targz_err_str : Err → List ℕ
targz_err_str ok = codes "ok"
targz_err_str err_magic = codes "not a gzip archive"
targz_err_str err_deflate = codes "corrupt compressed data"
targz_err_str err_tar = codes "corrupt archive"
targz_err_str err_unsafe = codes "archive contains an unsafe entry"
targz_err_str err_crc = codes "archive checksum mismatch"
targz_err_str err_truncated = codes "archive truncated"
targz_err_str err_sink = codes "could not write extracted data"
targz_err_str err_mem = codes "out of memory"

module _ (tn : Tinfl) (cb : Callbacks) where
  abbrev pub R : Type 0
  R = Reader tn.D cb.Ctx

  unfoldable pub targz_reader_open : cb.Ctx → R
  targz_reader_open ctx = record {
    inf = tn.inf_init;
    dict_ofs = 0;
    head = record { gz = gz_fixed; buf = []; have = 0; flags = 0; extra_left = 0 };
    hold = [];
    crc = 0;
    raw_len = 0;
    tar = record {
      ctx = ctx;
      stage = tar_hdr;
      hdr = [];
      pending = 0;
      pad = 0;
      zero_blocks = 0;
      entries = 0;
      bytes = 0;
      in_file = false;
    };
    err = ok;
  }

  -- What tarConsume makes of a run; it always gives an outcome from a state that it has left.
  unfoldable pub consumed : R → ℕ → Option (Err × Tar cb.Ctx) → R
  consumed r n none = record r { err = err_tar }
  consumed r n (some (ok, t)) = record r { tar = t; dict_ofs = (r.dict_ofs + n) % dict_size }
  consumed r n (some (e, t)) = record r { tar = t; err = e }

  -- The bytes that a call put out, if any, go into the CRC, the length and the tar parser.
  unfoldable pub take_output : R → List ℕ → R
  take_output r [] = r
  take_output r (c ∷ out) =
      consumed
        record r {
          crc = tn.crc32 r.crc (c ∷ out);
          raw_len = (r.raw_len + length (c ∷ out)) % 18446744073709551616;
        }
        (length (c ∷ out)) (tar_consume cb r.tar (c ∷ out))

  abbrev pub to_stage : R → GzStage → R
  to_stage r gz = record r { head = record (r.head) { gz = gz } }

  -- How a turn of inflateSome goes on: `rest` is the loop. The bytes not consumed come with the state.
  unfoldable pub inflate_on :
      (R → List ℕ → R × List ℕ) → InflateStatus → Bool → R → List ℕ → R × List ℕ
  inflate_on rest all_done stuck r p = (to_stage r gz_footer, p)
  inflate_on rest has_failed stuck r p = (record r { err = err_deflate }, p)
  inflate_on rest wants_more true r p = (r, p)
  inflate_on rest wants_more false r p = rest r p

  unfoldable pub inflate_turn : (R → List ℕ → R × List ℕ) → R → List ℕ → Inflated tn.D → R × List ℕ
  inflate_turn rest r p d =
      let r1 = take_output record r { inf = d.inf } d.output in
      let left = drop d.taken p in
      if not (is_ok r1.err)
      then (r1, left)
      else inflate_on rest d.status (d.taken == 0 && length d.output == 0) r1 left

  unfoldable pub inflate_loop : ℕ → Bool → R → List ℕ → R × List ℕ
  inflate_loop zero final r p = (r, p)
  inflate_loop (suc fuel) final r p =
      if in_deflate (stage_of r)
      then inflate_turn (inflate_loop fuel final) r p
          (tn.decompress r.inf p (dict_size - r.dict_ofs) final)
      else (r, p)

  unfoldable pub inflate_some : R → List ℕ → Bool → R × List ℕ
  inflate_some r p final = inflate_loop (tn.rounds r.inf p) final r p

  -- A run handed to the decompressor: bytes left while the stream is open are an error.
  unfoldable pub judge : R × List ℕ → R
  judge (r, []) = r
  judge (r, c ∷ left) =
      if is_ok r.err && in_deflate (stage_of r) then record r { err = err_deflate } else r

  unfoldable pub feed_run : R → List ℕ → R
  feed_run r [] = r
  feed_run r (c ∷ p) = if is_ok r.err then judge (inflate_some r (c ∷ p) false) else r

  -- The new hold counts only when both runs went well.
  unfoldable pub hold_next : R → List ℕ → R
  hold_next r next = if is_ok r.err then record r { hold = next } else r

  unfoldable pub feed_body : R → List ℕ → R
  feed_body r p =
      let total = length r.hold + length p in
      let feed = total - gz_foot_len in
      let from_hold = min feed (length r.hold) in
      let from_data = feed - from_hold in
      let next = drop from_hold r.hold ++ drop from_data p in
      if leb total gz_foot_len
      then record r { hold = r.hold ++ p }
      else hold_next (feed_run (feed_run r (take from_hold r.hold)) (take from_data p)) next

  unfoldable pub feed_header : R → Err × GzHead × List ℕ → R
  feed_header r (ok, h, p) =
      if in_deflate h.gz then feed_body (record r { head = h }) p else record r { head = h }
  feed_header r (e, h, p) = record r { head = h; err = e }

  -- targzReaderFeed; its result is the state's `err`.
  unfoldable pub targz_reader_feed : R → List ℕ → R
  targz_reader_feed r p =
      if not (is_ok r.err)
      then r
      else if past_header (stage_of r)
      then feed_body r p
      else feed_header r (gz_header r.head p)

  unfoldable pub close_stream : R → R
  close_stream r = if is_ok r.err && in_deflate (stage_of r) then (inflate_some r [] true).0 else r

  abbrev pub mid_entry : TarStage → Bool
  mid_entry tar_data = true
  mid_entry tar_pad = true
  mid_entry tar_hdr = false
  mid_entry tar_end = false

  -- A little-endian number of four bytes.
  abbrev pub word_at : List ℕ → ℕ
  word_at p = get_or p 0 0 + 256 * get_or p 1 0 + 65536 * get_or p 2 0 + 16777216 * get_or p 3 0

  unfoldable pub verdict : R → Err
  verdict r =
      if not (is_ok r.err)
      then r.err
      else if in_deflate (stage_of r)
      then err_truncated
      else if ltb (length r.hold) gz_foot_len
      then err_truncated
      else if mid_entry r.tar.stage || not (length r.tar.hdr == 0)
      then err_truncated
      else if word_at r.hold == r.crc && word_at (drop 4 r.hold) == r.raw_len % 4294967296
      then ok
      else err_crc

  -- targzReaderFinish: the result, the entries and the bytes.
  unfoldable pub targz_reader_finish : R → Err × ℕ × ℕ
  targz_reader_finish r = let c = close_stream r in (verdict c, c.tar.entries, c.tar.bytes)
