-- ===== src/StorageDb/Compact.antt =====
-- Compaction and appending in esp-idf/src/storage_db.cpp: sdbReindexRec, sdbCompactInPlace,
-- reclaimForAppend, appendRecord and compact. The loops run on fuel, the length of the block.
pub mod Append
pub mod Writes
pub mod Capacity
pub mod Live
pub mod Steps
pub mod Relocate
pub mod InPlace
pub mod Swept
pub mod Wholes
pub mod Trails
use spangap_core.Base.{
  ℕ, zero, suc, ◌+◌, ◌-◌, ◌*◌, ◌/◌, max, bit_or, Bool, true, false, ◌||◌, List, [], ◌∷◌, ◌++◌, ltb,
  leb, ◌==◌, if◌then◌else◌, length, get_or, set, take, drop, eq_bytes,
}
use spangap_core.StorageDb.Words.{rd_u16, rd_u32}
use spangap_core.StorageDb.Record.{sdb_flags_off}
use spangap_core.StorageDb.Index.{Index, sdb_file_hdr, sdb_flag_deleted, put, key_at, is_deleted}
use spangap_core.StorageDb.Store.{
  SdbStore, used, write_at, first_grant, later_grants, page_up, ensure_cap, file_header,
  write_file_header,
}

abbrev pub sdb_compact_scratch : ℕ
sdb_compact_scratch = 8192

-- The index entry of the record that starts `p` gets a new offset.
unfoldable pub sdb_reindex_rec : ℕ → List ℕ → ℕ → Index → Index
sdb_reindex_rec hs p new_off index = put (key_at hs p) new_off index

-- The variables of sdbCompactInPlace: the block, the write cursor `w`, the bytes in the scratch buffer.
pub record Sweep : Type 0 where
  pub block : List ℕ
  pub w : ℕ
  pub scratch : List ℕ
  pub kept : ℕ
  pub index : Index

unfoldable pub flush_scratch : Sweep → Sweep
flush_scratch t = record t {
  block = write_at t.w t.scratch t.block;
  w = t.w + length t.scratch;
  scratch = [];
}

abbrev pub no_bytes {ℓ} : {A : Type ℓ} → List A → Bool
no_bytes [] = true
no_bytes (x ∷ xs) = false

unfoldable pub flush_some : Sweep → Sweep
flush_some t = if no_bytes t.scratch then t else flush_scratch t

-- A record too big for the scratch buffer is moved at once.
unfoldable pub move_direct : ℕ → ℕ → ℕ → Sweep → Sweep
move_direct hs off rlen t =
    let f = flush_some t in
    let p = drop off f.block in
    record f {
      index = sdb_reindex_rec hs p f.w f.index;
      block = write_at f.w (take rlen p) f.block;
      w = f.w + rlen;
      kept = f.kept + 1;
    }

unfoldable pub make_room : ℕ → Sweep → Sweep
make_room rlen t = if ltb sdb_compact_scratch (length t.scratch + rlen) then flush_scratch t else t

unfoldable pub move_batched : ℕ → ℕ → ℕ → Sweep → Sweep
move_batched hs off rlen t =
    let f = make_room rlen t in
    let p = drop off f.block in
    record f {
      index = sdb_reindex_rec hs p (f.w + length f.scratch) f.index;
      scratch = f.scratch ++ take rlen p;
      kept = f.kept + 1;
    }

-- One record of `rlen` bytes at `off`.
unfoldable pub sweep_record : ℕ → ℕ → ℕ → Sweep → Sweep
sweep_record hs off rlen t =
    if is_deleted (drop off t.block)
    then t
    else if ltb sdb_compact_scratch rlen
    then move_direct hs off rlen t
    else move_batched hs off rlen t

-- A record that cannot be ends the walk over the records: it is longer than what is left, or shorter
-- than its header.
unfoldable pub is_broken : ℕ → ℕ → ℕ → ℕ → Bool
is_broken hs end off rlen = ltb rlen hs || ltb end (off + rlen)

unfoldable pub sweep_loop : ℕ → ℕ → ℕ → ℕ → Sweep → Sweep
sweep_loop zero hs end off t = t
sweep_loop (suc fuel) hs end off t =
    let rlen = rd_u32 (drop off t.block) in
    let next = sweep_loop fuel hs end (off + rlen) (sweep_record hs off rlen t) in
    if ltb off end then (if is_broken hs end off rlen then t else next) else t

unfoldable pub sweep : ℕ → List ℕ → Index → Sweep
sweep hs block index =
    sweep_loop (length block) hs (length block) sdb_file_hdr
      record { block = block; w = sdb_file_hdr; scratch = []; kept = 0; index = index }

unfoldable pub sdb_compact_in_place : SdbStore → SdbStore
sdb_compact_in_place s =
    let t = flush_some (sweep s.schema.hdr_size s.block s.index) in
    record s { block = write_file_header s.schema t.kept (take t.w t.block); index = t.index }

-- The loop of reclaimForAppend that adds up the live bytes.
unfoldable pub live_bytes : ℕ → ℕ → List ℕ → ℕ → ℕ → ℕ
live_bytes zero hs block off sum = sum
live_bytes (suc fuel) hs block off sum =
    let p = drop off block in
    let more =
      live_bytes fuel hs block (off + rd_u32 p) (if is_deleted p then sum else sum + rd_u32 p) in
    if ltb off (length block)
    then (if is_broken hs (length block) off (rd_u32 p) then sum else more)
    else sum

-- What the relocation has written to the new block, how many records, and the index.
pub record Copied : Type 0 where
  pub out : List ℕ
  pub copies : ℕ
  pub entries : Index

unfoldable pub copy_record : ℕ → List ℕ → Copied → Copied
copy_record hs p c = if is_deleted p then c else record {
  out = c.out ++ take (rd_u32 p) p;
  copies = c.copies + 1;
  entries = sdb_reindex_rec hs (take (rd_u32 p) p) (length c.out) c.entries;
}

unfoldable pub copy_loop : ℕ → ℕ → List ℕ → ℕ → Copied → Copied
copy_loop zero hs block off c = c
copy_loop (suc fuel) hs block off c =
    let p = drop off block in
    let more = copy_loop fuel hs block (off + rd_u32 p) (copy_record hs p c) in
    if ltb off (length block)
    then (if is_broken hs (length block) off (rd_u32 p) then c else more)
    else c

unfoldable pub relocate : SdbStore → ℕ → SdbStore
relocate s newcap =
    let c =
      copy_loop (length s.block) s.schema.hdr_size s.block sdb_file_hdr
        record { out = take sdb_file_hdr s.block; copies = 0; entries = s.index } in
    record s {
      block = write_file_header s.schema c.copies c.out;
      cap = newcap;
      index = c.entries;
      grow_failed = false;
    }

unfoldable pub reclaim_in_place : SdbStore → ℕ → Bool × SdbStore
reclaim_in_place s rec_size =
    let t = sdb_compact_in_place s in
    if leb (used t + rec_size) t.cap then (true, record t { grow_failed = false }) else (false, t)

unfoldable pub relocated_cap : ℕ → ℕ → ℕ
relocated_cap live rec_size = page_up (max (live + live / 5) (live + rec_size))

unfoldable pub reclaim_for_append : SdbStore → ℕ → Bool × SdbStore
reclaim_for_append s rec_size =
    let live = live_bytes (length s.block) s.schema.hdr_size s.block sdb_file_hdr sdb_file_hdr in
    let asked = record s { grants = later_grants s.grants } in
    let moved = relocate asked (relocated_cap live rec_size) in
    if ltb (live * 10) (s.cap * 9)
    then reclaim_in_place s rec_size
    else if first_grant s.grants
    then (leb (used moved + rec_size) moved.cap, moved)
    else reclaim_in_place asked rec_size

unfoldable pub with_room : (Bool × SdbStore) → ℕ → Bool × SdbStore
with_room (true, s) rec_size = (true, s)
with_room (false, s) rec_size = reclaim_for_append s rec_size

unfoldable pub append_to : List ℕ → List ℕ → (Bool × SdbStore) → Bool × SdbStore
append_to key bytes (false, s) = (false, s)
append_to key bytes (true, s) =
    (true, record s { block = s.block ++ bytes; index = put key (used s) s.index })

unfoldable pub append_record : SdbStore → List ℕ → List ℕ → Bool × SdbStore
append_record s key bytes =
    append_to key bytes (with_room (ensure_cap s (used s + length bytes)) (length bytes))

-- index.erase(key).
unfoldable pub erase : List ℕ → Index → Index
erase key [] = []
erase key ((k, o) ∷ rest) = if eq_bytes k key then erase key rest else (k, o) ∷ erase key rest

-- The flags of the record at `off`, with the deleted bit set.
unfoldable pub tombstone : ℕ → List ℕ → List ℕ
tombstone off block =
    set block (off + sdb_flags_off) (bit_or (get_or block (off + sdb_flags_off) 0) sdb_flag_deleted)

-- The tombstoning loop of compact: the block and the index.
unfoldable pub drop_loop : ℕ → ℕ → ℕ → ℕ → List ℕ × Index → List ℕ × Index
drop_loop zero hs left off (block, index) = (block, index)
drop_loop (suc fuel) hs left off (block, index) =
    let p = drop off block in
    let skip = drop_loop fuel hs left (off + rd_u32 p) (block, index) in
    let kill =
      drop_loop fuel hs (left - 1) (off + rd_u32 p)
        (tombstone off block, erase (key_at hs p) index) in
    if left == 0 || leb (length block) off
    then (block, index)
    else if is_broken hs (length block) off (rd_u32 p)
    then (block, index)
    else if is_deleted p
    then skip
    else kill

unfoldable pub compact : SdbStore → ℕ → SdbStore
compact s drop_oldest =
    let d =
      drop_loop (length s.block) s.schema.hdr_size drop_oldest sdb_file_hdr (s.block, s.index) in
    sdb_compact_in_place record s { block = d.0; index = d.1 }
