-- ===== src/StorageDb/Compact/Trails.antt =====
-- The cursors and the scratch buffer of sdbCompactInPlace, whatever bytes the block has.
use spangap_core.Base.{ℕ, zero, suc, ◌+◌, ◌≤◌, ◌≡◌, List, [], ltb, if◌then◌else◌, length, drop}
use spangap_core.StorageDb.Words.{rd_u32}
use spangap_core.StorageDb.Index.{Index, sdb_file_hdr}
use spangap_core.StorageDb.Compact.{Sweep, sdb_compact_scratch, is_broken}

-- The read cursor after `n` records at most, by the lengths in a block that nothing is moved in.
unfoldable pub read_cursor : ℕ → ℕ → List ℕ → ℕ → ℕ
read_cursor zero hs block off = off
read_cursor (suc n) hs block off =
    let rlen = rd_u32 (drop off block) in
    let next = read_cursor n hs block (off + rlen) in
    if ltb off (length block)
    then (if is_broken hs (length block) off rlen then off else next)
    else off

-- A sweep over `block` whose read cursor is `off`: the scratch buffer is large enough for what is in it,
-- what is written and what is about to be stay behind the read cursor, and the unread bytes are the
-- block's own.
pub record Trails (block : List ℕ) (off : ℕ) (t : Sweep) : Type 0 where
  pub fits : length t.scratch ≤ sdb_compact_scratch
  pub behind : t.w + length t.scratch ≤ off
  pub inside : off ≤ length block
  pub same_length : length t.block ≡ length block
  pub unread : drop off t.block ≡ drop off block

abbrev pub at_start : List ℕ → Index → Sweep
at_start block index = record {
  block = block;
  w = sdb_file_hdr;
  scratch = [];
  kept = 0;
  index = index;
}
