-- ===== src/StorageDb/Compact/Writes.antt =====
-- What memcpy to a place in a block leaves and what it writes.
use spangap_core.Base.{
  ℕ, ◌+◌, ◌-◌, ◌≤◌, ◌≡◌, sym, ap, ◌∙◌, List, ◌++◌, append_assoc, arith, length, take, drop,
  length-append, take-append, drop-drop, drop-append_ge, length-take, length-drop,
}
use spangap_core.StorageDb.Store.{write_at}

pub take-write_at :
    (w : ℕ) (bytes block : List ℕ)
    → w ≤ length block
    → take (w + length bytes) (write_at w bytes block) ≡ take w block ++ bytes
unfolding write_at
take-write_at w bytes block h =
    ap (take (w + length bytes))
      (sym (append_assoc (take w block) bytes (drop (w + length bytes) block)))
    ∙ take-append (w + length bytes) (take w block ++ bytes) (drop (w + length bytes) block)
        (sym front)
  where
    front : length (take w block ++ bytes) ≡ w + length bytes
    front = omega (arith, length-append (take w block) bytes, length-take w block, h)

pub drop-write_at :
    (n w : ℕ) (bytes block : List ℕ)
    → w + length bytes ≤ n
    → w ≤ length block
    → drop n (write_at w bytes block) ≡ drop n block
unfolding write_at
drop-write_at n w bytes block h k =
    ap (drop n) (sym (append_assoc (take w block) bytes (drop (w + length bytes) block)))
    ∙ drop-append_ge n (take w block ++ bytes) (drop (w + length bytes) block)
        (omega (arith, front, h))
    ∙ drop-drop (n - length (take w block ++ bytes)) (w + length bytes) n block
        (omega (arith, front, h))
  where
    front : length (take w block ++ bytes) ≡ w + length bytes
    front = omega (arith, length-append (take w block) bytes, length-take w block, k)

pub length-write_at :
    (w : ℕ) (bytes block : List ℕ)
    → w + length bytes ≤ length block
    → length (write_at w bytes block) ≡ length block
unfolding write_at
length-write_at w bytes block h = omega (
  arith,
  length-append (take w block) (bytes ++ drop (w + length bytes) block),
  length-take w block,
  length-append bytes (drop (w + length bytes) block),
  length-drop (w + length bytes) block,
  h,
)
