-- ===== src/Targz/Writer.antt =====
-- The archive writer of esp-idf/src/targz.cpp. The deflate compressor and the CRC of the ROM's miniz
-- and the receiver of the compressed bytes are parameters.
pub mod Stream
pub mod Archive
pub mod Layout
pub mod Sound
use spangap_core.Base.{
  ℕ, zero, suc, ◌+◌, ◌-◌, ◌*◌, ◌/◌, ◌%◌, ◌^◌, Option, none, some, List, [], ◌∷◌, ◌++◌, Bool, true,
  false, ltb, leb, ◌==◌, if◌then◌else◌, ◌&&◌, ◌||◌, not, length, take, drop, min, replicate,
}
use spangap_core.Targz.Header.{Ustar, fill_header, seal_header, to_bytes, tar_block}
use spangap_core.Targz.Names.{slash, set_entry_name}
use spangap_core.Targz.Tar.{pad_of}

pub data Status : Type 0 where
  failed okay done : Status

-- What one call of tdefl_compress reports: its status, how many bytes it took, what it put out, and
-- the compressor as it leaves it.
pub record Compressed (Comp : Type 0) : Type 0 where
  pub status : Status
  pub consumed : ℕ
  pub produced : List ℕ
  pub comp : Comp

-- miniz, and the sink. `compress c input finish`: `finish` is TDEFL_FINISH. `rounds` bounds the calls
-- that a run of deflate can take, which is the fuel of its loop.
pub record Miniz : Type 1 where
  pub Comp : Type 0
  pub Ctx : Type 0
  pub comp_init : Comp
  pub compress : Comp → List ℕ → Bool → Compressed Comp
  pub crc32 : ℕ → List ℕ → ℕ
  pub sink : Ctx → List ℕ → Bool × Ctx
  pub rounds : Comp → List ℕ → ℕ

-- targz_writer_t; `comp` is the compressor behind its pointer, `ctx` the sink's context.
pub record Writer (Comp Ctx : Type 0) : Type 0 where
  pub ctx : Ctx
  pub comp : Comp
  pub crc : ℕ
  pub raw_len : ℕ
  pub pending : ℕ
  pub pad : ℕ
  pub is_ok : Bool

-- memcpy of a little-endian uint32_t.
abbrev pub le32 : ℕ → List ℕ
le32 v = v % 256 ∷ (v / 256) % 256 ∷ (v / 65536) % 256 ∷ (v / 16777216) % 256 ∷ []

abbrev pub gz_header : List ℕ
gz_header = 0x1f ∷ 0x8b ∷ 8 ∷ 0 ∷ 0 ∷ 0 ∷ 0 ∷ 0 ∷ 0 ∷ 0xff ∷ []

abbrev is_failed : Status → Bool
is_failed failed = true
is_failed _ = false

abbrev is_done : Status → Bool
is_done done = true
is_done _ = false

module _ {S : Type 0} where
  -- `if (!f(w)) return false;` before the rest.
  abbrev pub and_then : Bool × S → (S → Bool × S) → Bool × S
  and_then (true, w) rest = rest w
  and_then (false, w) rest = (false, w)

module _ (m : Miniz) where
  open m use {Comp, Ctx, comp_init, compress, crc32, sink, rounds}

  abbrev pub W : Type 0
  W = Writer Comp Ctx

  abbrev pub fail : W → Bool × W
  fail w = (false, record w { is_ok = false })

  abbrev offer : Ctx → List ℕ → Bool × Ctx
  offer ctx produced = if length produced == 0 then (true, ctx) else sink ctx produced

  -- One turn of the loop of deflateRun; `again` is the rest of it.
  unfoldable pub deflate_turn : (W → List ℕ → Bool × W) → W → List ℕ → Bool → Bool × W
  deflate_turn again w input finish =
      let c = compress w.comp input finish in
      let (sent, ctx) = offer w.ctx c.produced in
      let left = drop c.consumed input in
      let w' = record w { comp = c.comp; ctx = ctx } in
      if is_failed c.status
      then fail (record w { comp = c.comp })
      else if not sent
      then fail w'
      else if (if finish then is_done c.status else length left == 0)
      then (true, w')
      else if c.consumed == 0 && length c.produced == 0
      then fail w'
      else again w' left

  -- `for (;;)` on fuel. Where the fuel ends the run ends as it does without progress.
  unfoldable pub deflate_run : ℕ → W → List ℕ → Bool → Bool × W
  deflate_run zero w input finish = fail w
  deflate_run (suc fuel) w input finish =
      deflate_turn (λ w' left. deflate_run fuel w' left finish) w input finish

  abbrev fuel_of : W → List ℕ → ℕ
  fuel_of w input = suc (rounds w.comp input)

  unfoldable pub write_raw : W → List ℕ → Bool × W
  write_raw w input =
      if not w.is_ok
      then (false, w)
      else if length input == 0
      then (true, w)
      else (let w' = record w {
        crc = crc32 w.crc input;
        raw_len = (w.raw_len + length input) % 2 ^ 64;
      } in
          deflate_run (fuel_of w' input) w' input false)

  -- `while (len)`, 64 bytes a turn; a turn takes one byte at least.
  unfoldable pub zeros_loop : ℕ → W → ℕ → Bool × W
  zeros_loop zero w len = (len == 0, w)
  zeros_loop (suc fuel) w len =
      let n = if ltb len 64 then len else 64 in
      let next = and_then (write_raw w (replicate n 0)) (λ w'. zeros_loop fuel w' (len - n)) in
      if len == 0 then (true, w) else next

  unfoldable pub write_zeros : W → ℕ → Bool × W
  write_zeros w len = zeros_loop len w len

  -- Each `if (w->x) { zeros; w->x = 0; }` of finishEntry.
  unfoldable pub close_body : W → Bool × W
  close_body w =
      if w.pending == 0
      then (true, w)
      else and_then (write_zeros w w.pending) (λ w'. (true, record w' { pending = 0 }))

  unfoldable pub close_pad : W → Bool × W
  close_pad w =
      if w.pad == 0
      then (true, w)
      else and_then (write_zeros w w.pad) (λ w'. (true, record w' { pad = 0 }))

  unfoldable pub finish_entry : W → Bool × W
  finish_entry w = and_then (close_body w) close_pad

  -- targzWriterOpen; `memory` says that the three allocations succeeded.
  unfoldable pub writer_open : Bool → Ctx → Option W
  writer_open memory ctx =
      let (sent, ctx') = sink ctx gz_header in
      if not memory
      then none
      else if not sent
      then none
      else some (record {
        ctx = ctx';
        comp = comp_init;
        crc = 0;
        raw_len = 0;
        pending = 0;
        pad = 0;
        is_ok = true;
      })

  -- A header that its name fits is sealed and written; `after` is what the entry then owes.
  unfoldable pub write_header : W → Option Ustar → (W → W) → Bool × W
  write_header w none after = (true, w)
  write_header w (some h) after =
      and_then (write_raw w (to_bytes (seal_header h))) (λ w'. (true, after w'))

  -- `snprintf(withSlash, 256, "%s/", name)`: too long a name skips the directory.
  abbrev pub dir_header : List ℕ → ℕ → Option Ustar
  dir_header name mtime =
      if leb 256 (length name + 1)
      then none
      else set_entry_name (fill_header 53 0 mtime) (name ++ (slash ∷ []))

  unfoldable pub add_dir : W → List ℕ → ℕ → Bool × W
  add_dir w name mtime =
      if not w.is_ok
      then (false, w)
      else and_then (finish_entry w) (λ w'. write_header w' (dir_header name mtime) (λ w''. w''))

  unfoldable pub add_file : W → List ℕ → ℕ → ℕ → Bool × W
  add_file w name size mtime =
      if not w.is_ok
      then (false, w)
      else and_then (finish_entry w) (λ w'.
        write_header w' (set_entry_name (fill_header 48 size mtime) name)
          (λ w''. record w'' { pending = size; pad = pad_of size }))

  -- Bytes beyond the declared size are dropped.
  unfoldable pub write_data : W → List ℕ → Bool × W
  write_data w input =
      let input' = take w.pending input in
      if not w.is_ok
      then (false, w)
      else and_then (write_raw w input') (λ w'.
        let w'' = record w' { pending = w'.pending - length input' } in
        if w''.pending == 0 then close_pad w'' else (true, w''))

  abbrev pub footer : W → List ℕ
  footer w = le32 w.crc ++ le32 (w.raw_len % 2 ^ 32)

  unfoldable pub send_footer : W → Bool × W
  send_footer w = let (sent, ctx) = sink w.ctx (footer w) in (sent, record w { ctx = ctx })

  -- targzWriterClose; the writer's memory is released behind it.
  unfoldable pub writer_close : W → Bool × W
  writer_close w =
      if not w.is_ok
      then (false, w)
      else and_then (finish_entry w) (λ w1.
        and_then (write_zeros w1 (2 * tar_block))
          (λ w2. and_then (deflate_run (fuel_of w2 []) w2 [] true) send_footer))
