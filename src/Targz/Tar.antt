-- ===== src/Targz/Tar.antt =====
-- The tar reader of esp-idf/src/targz.cpp: `tarHeader` on one block, `tarConsume` on any run of
-- inflated bytes. The receiver's callbacks are a parameter; a callback that the caller leaves null is
-- one that changes nothing and returns true.
pub mod Progress
pub mod Rounds
pub mod Chunks
pub mod Cut
pub mod Bytewise
use spangap_core.Base.{
  ℕ, zero, suc, ◌+◌, ◌-◌, ◌*◌, ◌%◌, ◌^◌, Option, none, some, List, [], ◌∷◌, ◌++◌, Bool, true, false,
  ltb, leb, ◌==◌, if◌then◌else◌, ◌&&◌, ◌||◌, not, length, take, drop, get_or, min,
}
use spangap_core.Targz.Octal.{octal_value}
use spangap_core.Targz.Header.{Ustar, of_bytes, header_checksum, tar_block}
use spangap_core.Targz.Names.{slash, safe_entry_name, entry_name}

pub data Err : Type 0 where
  ok err_magic err_deflate err_tar err_unsafe err_crc err_truncated err_sink err_mem : Err

pub data TarStage : Type 0 where
  tar_hdr tar_data tar_pad tar_end : TarStage

-- targz_reader_cb_t over the caller's context.
pub record Callbacks : Type 1 where
  pub Ctx : Type 0
  pub on_dir : Ctx → List ℕ → Bool × Ctx
  pub on_file : Ctx → List ℕ → ℕ → Bool × Ctx
  pub on_data : Ctx → List ℕ → Bool × Ctx
  pub on_file_end : Ctx → Bool × Ctx

-- for (i = 0; i < TAR_BLOCK; i++) if (hdr[i]) ...
unfoldable pub all_zero : List ℕ → Bool
all_zero [] = true
all_zero (c ∷ rest) = c == 0 && all_zero rest

-- while (len && name[len - 1] == '/') name[--len] = 0
unfoldable pub strip_slashes : List ℕ → List ℕ
strip_slashes [] = []
strip_slashes (c ∷ rest) =
    let rest' = strip_slashes rest in if c == slash && length rest' == 0 then [] else c ∷ rest'

abbrev pub pad_of : ℕ → ℕ
pad_of size = (tar_block - size % tar_block) % tar_block

abbrev pub is_end : TarStage → Bool
is_end tar_end = true
is_end _ = false

-- The fields of targz_reader_t that the tar parser owns; `hdr` holds the hdrHave bytes gathered so far.
pub record Tar (Ctx : Type 0) : Type 0 where
  pub ctx : Ctx
  pub stage : TarStage
  pub hdr : List ℕ
  pub pending : ℕ
  pub pad : ℕ
  pub zero_blocks : ℕ
  pub entries : ℕ
  pub bytes : ℕ
  pub in_file : Bool

module _ (cb : Callbacks) where
  open cb use {Ctx, on_dir, on_file, on_data, on_file_end}

  -- The body of an entry is over: onFileEnd for a file, then the padding or the next header.
  unfoldable pub end_entry : Tar Ctx → Err × Tar Ctx
  end_entry r =
      let after = if r.pad == 0 then tar_hdr else tar_pad in
      if r.in_file
      then (let (fine, ctx) = on_file_end r.ctx in
          if fine
          then (ok, record r { ctx = ctx; in_file = false; stage = after })
          else (err_sink, record r { ctx = ctx }))
      else (ok, record r { in_file = false; stage = after })

  -- The end of tarHeader: the body and the padding are known.
  unfoldable pub open_entry : Tar Ctx → ℕ → Err × Tar Ctx
  open_entry r size =
      let r' = record r { pending = size; pad = pad_of size } in
      if size == 0 then end_entry r' else (ok, record r' { stage = tar_data })

  -- An accepted entry is announced.
  unfoldable pub announce : Tar Ctx → Bool → List ℕ → ℕ → Err × Tar Ctx
  announce r is_dir name size =
      let r' = record r { entries = (r.entries + 1) % 2 ^ 32 } in
      if is_dir
      then (let (fine, ctx) = on_dir r.ctx name in
          let r'' = record r' { ctx = ctx } in
          if fine then open_entry r'' size else (err_sink, r''))
      else (let (fine, ctx) = on_file r.ctx name (size % 2 ^ 32) in
          let r'' = record r' { ctx = ctx } in
          if fine
          then open_entry (record r'' { in_file = true; bytes = (r.bytes + size) % 2 ^ 64 }) size
          else (err_sink, r''))

  -- The name is put together: its trailing slashes make a directory of the entry.
  unfoldable pub named_entry : Tar Ctx → Ustar → List ℕ → Err × Tar Ctx
  named_entry r h name =
      let stripped = strip_slashes name in
      let is_dir = h.typeflag == 53 || ltb (length stripped) (length name) in
      if not is_dir && (not (h.typeflag == 48) && not (h.typeflag == 0))
      then (err_unsafe, r)
      else if not (safe_entry_name stripped)
      then (err_unsafe, r)
      else announce r is_dir stripped (octal_value h.size)

  -- A path that does not fit the reader's buffer is refused.
  unfoldable pub accept : Tar Ctx → Ustar → Option (List ℕ) → Err × Tar Ctx
  accept r h none = (err_unsafe, r)
  accept r h (some name) = named_entry r h name

  -- `tarHeader` on a complete block; hdrHave is 0 by now.
  unfoldable pub tar_header : Tar Ctx → List ℕ → Err × Tar Ctx
  tar_header r block =
      let h = of_bytes block in
      if all_zero block
      then (let r' = record r { zero_blocks = r.zero_blocks + 1 } in
          if leb 2 r'.zero_blocks then (ok, record r' { stage = tar_end }) else (ok, r'))
      else (let r' = record r { zero_blocks = 0 } in
          if not (octal_value h.chksum == header_checksum h)
          then (err_tar, r')
          else accept r' h (entry_name h))

  -- One round of the loop of tarConsume, by stage: the error, the state and what is left of the run.
  unfoldable pub hdr_step : Tar Ctx → List ℕ → Err × Tar Ctx × List ℕ
  hdr_step r p =
      let n = min (tar_block - length r.hdr) (length p) in
      let hdr = r.hdr ++ take n p in
      if ltb (length hdr) tar_block
      then (ok, record r { hdr = hdr }, drop n p)
      else (let (e, r') = tar_header (record r { hdr = [] }) hdr in (e, r', drop n p))

  unfoldable pub data_step : Tar Ctx → List ℕ → Err × Tar Ctx × List ℕ
  data_step r p =
      let n = min r.pending (length p) in
      let (fine, ctx) = if r.in_file then on_data r.ctx (take n p) else (true, r.ctx) in
      let r' = record r { ctx = ctx; pending = r.pending - n } in
      if not fine
      then (err_sink, record r { ctx = ctx }, p)
      else if r.pending - n == 0
      then (let (e, r'') = end_entry r' in (e, r'', drop n p))
      else (ok, r', drop n p)

  unfoldable pub pad_step : Tar Ctx → List ℕ → Err × Tar Ctx × List ℕ
  pad_step r p =
      let n = min r.pad (length p) in
      let r' = record r { pad = r.pad - n } in
      (ok, (if r.pad - n == 0 then record r' { stage = tar_hdr } else r'), drop n p)

  unfoldable pub tar_step : TarStage → Tar Ctx → List ℕ → Err × Tar Ctx × List ℕ
  tar_step tar_hdr r p = hdr_step r p
  tar_step tar_data r p = data_step r p
  tar_step tar_pad r p = pad_step r p
  tar_step tar_end r p = (ok, r, p)

  -- After a round: an error ends the loop.
  abbrev pub after_round :
      (Tar Ctx → List ℕ → Option (Err × Tar Ctx)) → Err × Tar Ctx × List ℕ → Option (Err × Tar Ctx)
  after_round continue (ok, r, rest) = continue r rest
  after_round continue (e, r, rest) = some (e, r)

  -- `while (len && r->tar != TAR_END)` on fuel; `none` means that the fuel ran out.
  unfoldable pub tar_loop : ℕ → Tar Ctx → List ℕ → Option (Err × Tar Ctx)
  tar_loop fuel r [] = some (ok, r)
  tar_loop zero r (c ∷ p) = if is_end r.stage then some (ok, r) else none
  tar_loop (suc fuel) r (c ∷ p) =
      if is_end r.stage
      then some (ok, r)
      else after_round (tar_loop fuel) (tar_step r.stage r (c ∷ p))

  -- From a state that the parser can be in, a round takes a byte at least: the length is enough fuel.
  unfoldable pub tar_consume : Tar Ctx → List ℕ → Option (Err × Tar Ctx)
  tar_consume r p = tar_loop (length p) r p
