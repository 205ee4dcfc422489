-- ===== src/Storage/Ops/RoundTrip.antt =====
-- An op list that was written, read back.
use spangap_core.Base.{
  ◌>>=◌, ℕ, zero, suc, ◌+◌, ◌-◌, ◌%◌, ◌≤◌, ◌<◌, ◌≡◌, refl, ap, ◌∙◌, ◌≢◌, Bool, false, not, Option,
  none, some, List, [], ◌∷◌, ◌++◌, append_assoc, arith, ltb, ◌==◌, if◌then◌else◌, le→ltb, ne→==,
  length, take, drop, All, length-append, take-append, drop-append, u32,
}
use spangap_core.StorageDb.Words.{wr_u32, rd_u32-wr_u32}
use spangap_core.Storage.Ops.{
  Value, int, str, json, TreeOp, set_op, default_op, delete_op, sub_op, sub_direct, unsub_op,
  save_op, op_put_str, op_put_u32, put_value, op_append, take_key, take_word, until_nul, take_run,
  take_value, take_write, take_sub, take_op, take_ops, parse_ops, append_all,
}

-- A C string.
abbrev pub IsCstr : List ℕ → Type 0
IsCstr s = All (λ c. c ≢ 0) s

abbrev pub IsWord : ℕ → Type 0
IsWord v = v < 4294967296

abbrev pub ValueFits : Value → Type 0
ValueFits (int v) = IsWord v
ValueFits (str s) = IsCstr s
ValueFits (json s) = Unit

-- What the writers can be given: keys and scopes that are C strings, and words of 32 bits.
abbrev pub OpFits : TreeOp → Type 0
OpFits (set_op key v) = IsCstr key × ValueFits v
OpFits (default_op key v) = IsCstr key × ValueFits v
OpFits (delete_op key) = IsCstr key
OpFits (sub_op scope cb) = IsCstr scope × IsWord cb
OpFits (sub_direct scope cb) = IsCstr scope × IsWord cb
OpFits (unsub_op scope cb) = IsCstr scope × IsWord cb
OpFits (save_op sem) = IsWord sem

take_key-put : (key tail : List ℕ) → IsCstr key → take_key (key ++ 0 ∷ tail) ≡ some (key, tail)
unfolding take_key
take_key-put [] tail h = refl
take_key-put (c ∷ cs) tail (h, hs) =
    rw (ne→== c 0 h) (ap (λ o. o >>= (λ r. some (c ∷ r.0, r.1))) (take_key-put cs tail hs))

key-tail :
    (key v rest : List ℕ)
    → IsCstr key
    → take_key ((op_put_str key ++ v) ++ rest) ≡ some (key, v ++ rest)
key-tail key v rest h =
    ap take_key (append_assoc (op_put_str key) v rest ∙ append_assoc key (0 ∷ []) (v ++ rest))
    ∙ take_key-put key (v ++ rest) h

take_word-put : (v : ℕ) (rest : List ℕ) → IsWord v → take_word (wr_u32 v ++ rest) ≡ some (v, rest)
unfolding take_word wr_u32
take_word-put v rest h =
    let enough : ltb (length (wr_u32 v ++ rest)) 4 ≡ false =
      le→ltb (length (wr_u32 v ++ rest)) 4 (omega arith) in
    rw enough (ap (λ w. some (w, rest)) (rd_u32-wr_u32 v rest h))

until_nul-Cstr : (s : List ℕ) → IsCstr s → until_nul s ≡ s
unfolding until_nul
until_nul-Cstr [] h = refl
until_nul-Cstr (c ∷ cs) (h, hs) = rw (ne→== c 0 h) (ap (λ w. c ∷ w) (until_nul-Cstr cs hs))

take_run-put :
    (len : ℕ) (s rest : List ℕ)
    → length s + length rest ≤ len
    → IsWord len
    → take_run len ((op_put_u32 (length s) ++ s) ++ rest) ≡ some (s, rest)
unfolding take_run
take_run-put len s rest room small =
    let tail = s ++ rest in
    let long = length-append s rest in
    let inside : ltb len (u32 (len - length tail + length s)) ≡ false =
      le→ltb len (u32 (len - length tail + length s)) (omega (arith, long, room, small)) in
    let next : ℕ × List ℕ → Option (List ℕ × List ℕ) = λ w.
      if ltb len (u32 (len - length w.1 + w.0)) then none else some (take w.0 w.1, drop w.0 w.1) in
    ap (λ r. take_word r >>= next) (append_assoc (wr_u32 (length s)) s rest)
    ∙ ap (λ o. o >>= next) (take_word-put (length s) tail (omega (arith, room, small)))
    ∙ ap (λ (t : Bool). if t then none else some (take (length s) tail, drop (length s) tail))
        inside
    ∙ ap (λ w. some (w, drop (length s) tail)) (take-append (length s) s rest refl)
    ∙ ap (λ w. some (s, w)) (drop-append (length s) s rest refl)

take_value-put :
    (len : ℕ) (v : Value) (rest : List ℕ)
    → ValueFits v
    → length (put_value v ++ rest) ≤ len
    → IsWord len
    → take_value len (put_value v ++ rest) ≡ some (v, rest)
unfolding take_value put_value wr_u32
take_value-put len (int v) rest fits room small =
    ap (λ o. o >>= (λ w. some (int w.0, w.1))) (take_word-put v rest fits)
take_value-put len (str s) rest fits room small =
    let long = length-append s rest in
    ap (λ o. o >>= (λ w. some (str (until_nul w.0), w.1)))
      (take_run-put len s rest (omega (arith, room, long)) small)
    ∙ ap (λ w. some (str w, rest)) (until_nul-Cstr s fits)
take_value-put len (json s) rest fits room small =
    let long = length-append s rest in
    ap (λ o. o >>= (λ w. some (json w.0, w.1)))
      (take_run-put len s rest (omega (arith, room, long)) small)

take_write-put :
    (len : ℕ) (what : List ℕ → Value → TreeOp) (key : List ℕ) (v : Value) (rest : List ℕ)
    → IsCstr key
    → ValueFits v
    → length ((op_put_str key ++ put_value v) ++ rest) ≤ len
    → IsWord len
    → take_write len what ((op_put_str key ++ put_value v) ++ rest) ≡ some (what key v, rest)
unfolding take_write
take_write-put len what key v rest h fits room small =
    let body = put_value v in
    let shorter : length (body ++ rest) ≤ len = omega (
      arith,
      room,
      length-append (op_put_str key ++ body) rest,
      length-append (op_put_str key) body,
      length-append body rest,
    ) in
    ap (λ o. o >>= (λ k. take_value len k.1 >>= (λ x. some (what k.0 x.0, x.1))))
      (key-tail key body rest h)
    ∙ ap (λ o. o >>= (λ x. some (what key x.0, x.1))) (take_value-put len v rest fits shorter small)

take_sub-put :
    (what : List ℕ → ℕ → TreeOp) (scope : List ℕ) (cb : ℕ) (rest : List ℕ)
    → IsCstr scope
    → IsWord cb
    → take_sub what ((op_put_str scope ++ op_put_u32 cb) ++ rest) ≡ some (what scope cb, rest)
unfolding take_sub
take_sub-put what scope cb rest h fits =
    ap (λ o. o >>= (λ k. take_word k.1 >>= (λ w. some (what k.0 w.0, w.1))))
      (key-tail scope (wr_u32 cb) rest h)
    ∙ ap (λ o. o >>= (λ w. some (what scope w.0, w.1))) (take_word-put cb rest fits)

-- The op whose bytes come first.
first_op : ℕ → List ℕ → Option (TreeOp × List ℕ)
first_op len [] = none
first_op len (op ∷ r) = take_op len op r

take_op-append :
    (len : ℕ) (o : TreeOp) (rest : List ℕ)
    → OpFits o
    → length (op_append o ++ rest) ≤ len
    → IsWord len
    → first_op len (op_append o ++ rest) ≡ some (o, rest)
unfolding take_op op_append first_op
take_op-append len (set_op key v) rest fits room small =
    take_write-put len set_op key v rest fits.0 fits.1 (omega (arith, room)) small
take_op-append len (default_op key v) rest fits room small =
    take_write-put len default_op key v rest fits.0 fits.1 (omega (arith, room)) small
take_op-append len (delete_op key) rest fits room small =
    ap (λ r. take_key r >>= (λ k. some (delete_op k.0, k.1))) (append_assoc key (0 ∷ []) rest)
    ∙ ap (λ o. o >>= (λ k. some (delete_op k.0, k.1))) (take_key-put key rest fits)
take_op-append len (sub_op scope cb) rest fits room small =
    take_sub-put sub_op scope cb rest fits.0 fits.1
take_op-append len (sub_direct scope cb) rest fits room small =
    take_sub-put sub_direct scope cb rest fits.0 fits.1
take_op-append len (unsub_op scope cb) rest fits room small =
    take_sub-put unsub_op scope cb rest fits.0 fits.1
take_op-append len (save_op sem) rest fits room small =
    ap (λ o. o >>= (λ w. some (save_op w.0, w.1))) (take_word-put sem rest fits)

-- One more op in front.
take_ops-first :
    (len fuel : ℕ) (bytes rest : List ℕ) (o : TreeOp)
    → first_op len bytes ≡ some (o, rest)
    → length bytes ≤ fuel
    → take_ops len fuel bytes ≡ (take_ops len (fuel - 1) rest >>= (λ more. some (o ∷ more)))
unfolding first_op take_ops
take_ops-first len fuel [] rest o e h = ground (arith, e)
take_ops-first len zero (op ∷ r) rest o e h = ground arith
take_ops-first len (suc fuel) (op ∷ r) rest o e h =
    let same : fuel ≡ suc fuel - 1 = omega arith in
    ap (λ t. t >>= (λ x. take_ops len fuel x.1 >>= (λ more. some (x.0 ∷ more)))) e
    ∙ ap (λ (n : ℕ). take_ops len n rest >>= (λ more. some (o ∷ more))) same

op_append-some : (o : TreeOp) → 1 ≤ length (op_append o)
unfolding op_append
op_append-some (set_op key v) = omega arith
op_append-some (default_op key v) = omega arith
op_append-some (delete_op key) = omega arith
op_append-some (sub_op scope cb) = omega arith
op_append-some (sub_direct scope cb) = omega arith
op_append-some (unsub_op scope cb) = omega arith
op_append-some (save_op sem) = omega arith

take_ops-append_all :
    (len fuel : ℕ) (ops : List TreeOp)
    → All OpFits ops
    → length (append_all ops) ≤ len
    → length (append_all ops) ≤ fuel
    → IsWord len
    → take_ops len fuel (append_all ops) ≡ some ops
unfolding append_all take_ops
take_ops-append_all len fuel [] fits room fuelled small = refl
take_ops-append_all len fuel (o ∷ os) (h, hs) room fuelled small =
    let rest = append_all os in
    let long = length-append (op_append o) rest in
    let some_bytes = op_append-some o in
    take_ops-first len fuel (op_append o ++ rest) rest o (take_op-append len o rest h room small)
      fuelled
    ∙ ap (λ t. t >>= (λ more. some (o ∷ more)))
        (take_ops-append_all len (fuel - 1) os hs (omega (arith, room, long))
          (omega (arith, fuelled, long, some_bytes)) small)

-- storageApplyOps reads every list that the writers build exactly as it was meant, op by op and in
-- order, with the flag of silence: keys and scopes that are C strings, integers and pointers of 32
-- bits, strings without a NUL and JSON of any bytes, in a list of less than 4 GB.
pub parse_ops-append_all :
    (flags : ℕ) (ops : List TreeOp)
    → All OpFits ops
    → length (append_all ops) < 4294967295
    → parse_ops (flags ∷ append_all ops) ≡ some (not (flags % 2 == 0), ops)
unfolding parse_ops
parse_ops-append_all flags ops fits small =
    let bytes = append_all ops in
    ap (λ t. t >>= (λ os. some (not (flags % 2 == 0), os)))
      (take_ops-append_all (length (flags ∷ bytes)) (length bytes) ops fits (omega arith)
        (omega arith) (omega (arith, small)))
