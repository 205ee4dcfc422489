-- ===== src/Storage/Ops.antt =====
-- The op lists of esp-idf/src/storage.cpp: opPutStr, opPutU32, opPutPtr and the opAppend functions write them, the
-- first pass of storageApplyOps reads them.
pub mod RoundTrip
use spangap_core.Base.{
  ◌>>=◌, ℕ, zero, suc, ◌+◌, ◌-◌, ◌%◌, Bool, not, Option, none, some, List, [], ◌∷◌, ◌++◌, ltb, ◌==◌,
  if◌then◌else◌, length, take, drop, u32,
}
use spangap_core.StorageDb.Words.{rd_u32, wr_u32}

-- A value: the 32 bits of an integer, a string, or printed JSON.
pub data Value : Type 0 where
  int : ℕ → Value
  str json : List ℕ → Value

-- Pointers are 32 bits wide.
pub data TreeOp : Type 0 where
  set_op default_op : List ℕ → Value → TreeOp
  delete_op : List ℕ → TreeOp
  sub_op sub_direct unsub_op : List ℕ → ℕ → TreeOp
  save_op : ℕ → TreeOp

abbrev pub op_put_str : List ℕ → List ℕ
op_put_str s = s ++ 0 ∷ []

-- opPutU32 and opPutPtr, little-endian.
abbrev pub op_put_u32 : ℕ → List ℕ
op_put_u32 v = wr_u32 v

unfoldable pub put_value : Value → List ℕ
put_value (int v) = 73 ∷ op_put_u32 v
put_value (str s) = 83 ∷ op_put_u32 (length s) ++ s
put_value (json s) = 74 ∷ op_put_u32 (length s) ++ s

-- opAppendKV and opAppendKVJson, with the opcode S or d.
abbrev op_append_kv : ℕ → List ℕ → Value → List ℕ
op_append_kv opcode key v = opcode ∷ (op_put_str key ++ put_value v)

abbrev op_append_delete : List ℕ → List ℕ
op_append_delete key = 68 ∷ op_put_str key

-- What storageSubscribe and storageUnsubscribeCb write, with the opcode plus, hash or minus.
abbrev op_append_sub : ℕ → List ℕ → ℕ → List ℕ
op_append_sub opcode scope cb = opcode ∷ (op_put_str scope ++ op_put_u32 cb)

-- What storageSave writes: W and the semaphore.
abbrev op_append_save : ℕ → List ℕ
op_append_save sem = 87 ∷ op_put_u32 sem

-- The writer of each op.
unfoldable pub op_append : TreeOp → List ℕ
op_append (set_op key v) = op_append_kv 83 key v
op_append (default_op key v) = op_append_kv 100 key v
op_append (delete_op key) = op_append_delete key
op_append (sub_op scope cb) = op_append_sub 43 scope cb
op_append (sub_direct scope cb) = op_append_sub 35 scope cb
op_append (unsub_op scope cb) = op_append_sub 45 scope cb
op_append (save_op sem) = op_append_save sem

-- strnlen to a NUL within bounds: the string, and what follows the NUL.
unfoldable pub take_key : List ℕ → Option (List ℕ × List ℕ)
take_key [] = none
take_key (c ∷ cs) =
    let later = take_key cs in
    if c == 0 then some ([], cs) else (later >>= (λ r. some (c ∷ r.0, r.1)))

-- A word of four bytes, if there are four.
unfoldable pub take_word : List ℕ → Option (ℕ × List ℕ)
take_word r = if ltb (length r) 4 then none else some (rd_u32 r, drop 4 r)

-- The bytes before a NUL: what c_str() shows of a string.
unfoldable pub until_nul : List ℕ → List ℕ
until_nul [] = []
until_nul (c ∷ cs) = if c == 0 then [] else c ∷ until_nul cs

-- A run of bytes with its length in front. The sum of the position and the length has 32 bits and
-- wraps; of a length that wraps the model takes what there is.
unfoldable pub take_run : ℕ → List ℕ → Option (List ℕ × List ℕ)
take_run len r = take_word r >>= (λ w.
    if ltb len (u32 (len - length w.1 + w.0)) then none else some (take w.0 w.1, drop w.0 w.1))

unfoldable pub take_value : ℕ → List ℕ → Option (Value × List ℕ)
take_value len [] = none
take_value len (vt ∷ r) =
    if vt == 73
    then (take_word r >>= (λ w. some (int w.0, w.1)))
    else if vt == 83
    then (take_run len r >>= (λ w. some (str (until_nul w.0), w.1)))
    else if vt == 74
    then (take_run len r >>= (λ w. some (json w.0, w.1)))
    else none

-- One op: S and d, D, the three of subscriptions, and W. none stands for bad.
unfoldable pub take_write : ℕ → (List ℕ → Value → TreeOp) → List ℕ → Option (TreeOp × List ℕ)
take_write len what r = take_key r >>= (λ k. take_value len k.1 >>= (λ v. some (what k.0 v.0, v.1)))

unfoldable pub take_sub : (List ℕ → ℕ → TreeOp) → List ℕ → Option (TreeOp × List ℕ)
take_sub what r = take_key r >>= (λ k. take_word k.1 >>= (λ w. some (what k.0 w.0, w.1)))

unfoldable pub take_op : ℕ → ℕ → List ℕ → Option (TreeOp × List ℕ)
take_op len op r =
    if op == 83
    then take_write len set_op r
    else if op == 100
    then take_write len default_op r
    else if op == 68
    then (take_key r >>= (λ k. some (delete_op k.0, k.1)))
    else if op == 43
    then take_sub sub_op r
    else if op == 35
    then take_sub sub_direct r
    else if op == 45
    then take_sub unsub_op r
    else if op == 87
    then (take_word r >>= (λ w. some (save_op w.0, w.1)))
    else none

-- The ops of a list of `len` bytes. The fuel is the length; each op takes a byte at least.
unfoldable pub take_ops : ℕ → ℕ → List ℕ → Option (List TreeOp)
take_ops len fuel [] = some []
take_ops len zero (op ∷ r) = none
take_ops len (suc fuel) (op ∷ r) =
    take_op len op r >>= (λ t. take_ops len fuel t.1 >>= (λ more. some (t.0 ∷ more)))

-- The ops of W stand in line with the others; the source keeps their semaphores in a vector of their
-- own, in the same order.
--
-- Pass 1 of storageApplyOps: whether the list is silent, and its ops. none stands for a list that is
-- rejected, or empty.
unfoldable pub parse_ops : List ℕ → Option (Bool × List TreeOp)
parse_ops [] = none
parse_ops (flags ∷ r) =
    take_ops (length (flags ∷ r)) (length r) r >>= (λ ops. some (not (flags % 2 == 0), ops))

-- The list that a writer builds.
unfoldable pub append_all : List TreeOp → List ℕ
append_all [] = []
append_all (o ∷ os) = op_append o ++ append_all os
