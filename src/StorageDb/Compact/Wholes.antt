-- ===== src/StorageDb/Compact/Wholes.antt =====
-- Whole records, whatever follows them in a block.
use spangap_core.Base.{
  ℕ, ◌+◌, ◌-◌, ◌≤◌, bit_and, ◌≡◌, refl, ap, ◌∙◌, false, not, List, ◌++◌, arith, ◌==◌, le→ltb,
  length, take, drop, take-append, drop-append, drop-append_le, take-append_le, length-drop,
  get_or-append_lt,
}
use spangap_core.StorageDb.Words.{rd_u16, rd_u32}
use spangap_core.StorageDb.Record.{sdb_flags_off}
use spangap_core.StorageDb.Index.{key_at, is_deleted}
use spangap_core.StorageDb.Compact.{is_broken}

-- A record states its length, which leaves room for its key; `hs` is the header size.
pub record IsWhole (hs : ℕ) (r : List ℕ) : Type 0 where
  pub flags_fit : 5 ≤ hs
  pub key_fits : hs + 2 + rd_u16 (drop hs r) ≤ length r
  pub states : rd_u32 r ≡ length r

module _ (r post : List ℕ) where
  rd_u16-append : 2 ≤ length r → rd_u16 (r ++ post) ≡ rd_u16 r
  unfolding rd_u16
  rd_u16-append h =
      rw (get_or-append_lt r post 0 0 (omega arith), get_or-append_lt r post 1 0 (omega arith))

  rd_u32-append : 4 ≤ length r → rd_u32 (r ++ post) ≡ rd_u32 r
  unfolding rd_u32
  rd_u32-append h = rw (
    get_or-append_lt r post 0 0 (omega arith),
    get_or-append_lt r post 1 0 (omega arith),
    get_or-append_lt r post 2 0 (omega arith),
    get_or-append_lt r post 3 0 (omega arith),
  )

module _ (hs : ℕ) (r post : List ℕ) (h : IsWhole hs r) where
  open h use {flags_fit, key_fits, states}

  pub size_back : rd_u32 (r ++ post) ≡ length r
  size_back = rd_u32-append r post (omega arith) ∙ states

  pub is_deleted-append : is_deleted (r ++ post) ≡ is_deleted r
  is_deleted-append =
      ap (λ (c : ℕ). not (bit_and c 1 == 0)) (get_or-append_lt r post sdb_flags_off 0 (omega arith))

  pub key_at-append : key_at hs (r ++ post) ≡ key_at hs r
  key_at-append =
      ap (λ (p : List ℕ). take (rd_u16 p) (drop 2 p)) (drop-append_le hs r post (omega arith))
      ∙ ap (λ (n : ℕ). take n (drop 2 (drop hs r ++ post)))
          (rd_u16-append (drop hs r) post (omega (arith, tail)))
      ∙ ap (take (rd_u16 (drop hs r))) (drop-append_le 2 (drop hs r) post (omega (arith, tail)))
      ∙ take-append_le (rd_u16 (drop hs r)) (drop 2 (drop hs r)) post
          (omega (arith, tail, length-drop 2 (drop hs r)))
    where
      tail : length (drop hs r) ≡ length r - hs
      tail = length-drop hs r

  pub key_len-append : rd_u16 (drop hs (r ++ post)) ≡ rd_u16 (drop hs r)
  key_len-append =
      ap rd_u16 (drop-append_le hs r post (omega arith))
      ∙ rd_u16-append (drop hs r) post (omega (arith, length-drop hs r))

  pub not_broken : (end off : ℕ) → off + length r ≤ end → is_broken hs end off (length r) ≡ false
  unfolding is_broken
  not_broken end off k = rw (le→ltb (length r) hs (omega arith), le→ltb end (off + length r) k)

  pub take_back : take (length r) (r ++ post) ≡ r
  take_back = take-append (length r) r post refl

  pub drop_back : drop (length r) (r ++ post) ≡ post
  drop_back = drop-append (length r) r post refl
