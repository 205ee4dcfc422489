-- ===== src/StorageDb/Index/Rebuild.antt =====
-- rebuildIndex finds the live records of a block of well-formed records.
use spangap_core.Base.{
  ℕ, zero, suc, ◌+◌, ◌≤◌, ◌<◌, ◌≡◌, refl, sym, ap, ◌∙◌, subst, inl, inr, Option, some, List, [],
  ◌∷◌, ◌++◌, append_assoc, arith, if◌then◌else◌, Bool-cases, lt→ltb, le→ltb, length, drop, All,
  length-append, drop-append,
}
use spangap_core.StorageDb.Words.{rd_u16, rd_u32}
use spangap_core.StorageDb.Index.{
  Index, sdb_file_hdr, put, key_at, is_deleted, note_record, walk_record, walk, rebuild_index,
}

-- Record bytes with a header of `hs` bytes that, whatever follows, state their length and have room for
-- their key.
abbrev pub IsRecord : ℕ → List ℕ → Type 0
IsRecord hs r =
    (post : List ℕ)
    → (1 ≤ length r)
      × (hs ≤ length r)
      × (rd_u32 (r ++ post) ≡ length r)
      × (hs + 2 + rd_u16 (drop hs (r ++ post)) ≤ length r)

abbrev pub flat : List (List ℕ) → List ℕ
flat [] = []
flat (r ∷ rs) = r ++ flat rs

-- The offsets of the live records, the first record being at `off`.
abbrev pub entries : ℕ → ℕ → List (List ℕ) → Index → Index
entries hs off [] index = index
entries hs off (r ∷ rs) index =
    entries hs (off + length r) rs
      (if is_deleted (r ++ flat rs) then index else put (key_at hs (r ++ flat rs)) off index)

note_record-record :
    (rest : ℕ → Index → Option Index) (hs off : ℕ) (r : List ℕ) (rs : List (List ℕ)) (index : Index)
    → IsRecord hs r
    → note_record rest hs (r ++ flat rs) off index
      ≡ rest
          (off + length r)
          (if is_deleted (r ++ flat rs) then index else put (key_at hs (r ++ flat rs)) off index)
unfolding note_record
note_record-record rest hs off r rs index h =
    let (a, b, c, d) = h (flat rs) in
    elim (Bool-cases (is_deleted (r ++ flat rs))) [
      | inl e ↦ rw (e, c)
      | inr e ↦ rw (e, c, le→ltb (length r) (hs + 2 + rd_u16 (drop hs (r ++ flat rs))) d)
    ]

walk_record-record :
    (rest : ℕ → Index → Option Index) (hs used off : ℕ) (r : List ℕ) (rs : List (List ℕ))
    (index : Index)
    → IsRecord hs r
    → off + length r ≤ used
    → walk_record rest hs used (r ++ flat rs) off index
      ≡ note_record rest hs (r ++ flat rs) off index
unfolding walk_record
walk_record-record rest hs used off r rs index h l =
    let (a, b, c, d) = h (flat rs) in
    rw (
      le→ltb used (off + hs) (omega arith),
      c,
      le→ltb (length r) hs b,
      le→ltb used (off + length r) l,
    )

walk-entries :
    (rs : List (List ℕ)) (fuel hs : ℕ) (front block : List ℕ) (index : Index)
    → All (IsRecord hs) rs
    → block ≡ front ++ flat rs
    → length rs < fuel
    → walk fuel hs block (length front) index ≡ some (entries hs (length front) rs index)
unfolding walk
walk-entries rs zero hs front block index h e l = absurd (omega arith)
walk-entries [] (suc fuel) hs front block index h e l =
    rw (le→ltb (length front) (length block) (omega (arith, ap length e, length-append front [])))
walk-entries (r ∷ rs) (suc fuel) hs front block index h e l =
    rw (lt→ltb (length front) (length block) starts, at_record)
      (walk_record-record (walk fuel hs block) hs (length block) (length front) r rs index h.0 ends
        ∙ note_record-record (walk fuel hs block) hs (length front) r rs index h.0
        ∙ subst (λ (n : ℕ). walk fuel hs block n next ≡ some (entries hs n rs next))
            (length-append front r)
            (walk-entries rs fuel hs (front ++ r) block next h.1
              (e ∙ sym (append_assoc front r (flat rs))) (omega arith)))
  where
    next : Index
    next =
        if is_deleted (r ++ flat rs)
        then index
        else put (key_at hs (r ++ flat rs)) (length front) index

    starts : length front < length block
    starts =
        let k = h.0 [] in
        omega
          (arith, k.0, ap length e, length-append front (r ++ flat rs), length-append r (flat rs))

    ends : length front + length r ≤ length block
    ends = omega (arith, ap length e, length-append front (r ++ flat rs), length-append r (flat rs))

    at_record : drop (length front) block ≡ r ++ flat rs
    at_record = ap (drop (length front)) e ∙ drop-append (length front) front (r ++ flat rs) refl

count-flat : (hs : ℕ) (rs : List (List ℕ)) → All (IsRecord hs) rs → length rs ≤ length (flat rs)
count-flat hs [] h = omega arith
count-flat hs (r ∷ rs) h =
    let k = h.0 [] in omega (arith, k.0, length-append r (flat rs), count-flat hs rs h.1)

-- Of a block with a file header and well-formed records, rebuildIndex makes the index that has the key
-- and the offset of each record that is not deleted, a later record of a key in place of an earlier.
pub rebuild_index-entries :
    (hs : ℕ) (header : List ℕ) (rs : List (List ℕ))
    → length header ≡ sdb_file_hdr
    → All (IsRecord hs) rs
    → rebuild_index hs (header ++ flat rs) ≡ some (entries hs sdb_file_hdr rs [])
unfolding rebuild_index
rebuild_index-entries hs header rs n h =
    subst
      (λ (k : ℕ).
        walk (suc (length (header ++ flat rs))) hs (header ++ flat rs) k []
        ≡ some (entries hs k rs []))
      n
      (walk-entries rs (suc (length (header ++ flat rs))) hs header (header ++ flat rs) [] h refl
        (omega (arith, count-flat hs rs h, length-append header (flat rs))))
