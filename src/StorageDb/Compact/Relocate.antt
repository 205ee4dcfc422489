-- ===== src/StorageDb/Compact/Relocate.antt =====
-- Relocating a store's records to a new block leaves what compacting in place leaves.
use spangap_core.Base.{
  ℕ, zero, suc, ◌+◌, ◌≤◌, ◌<◌, ◌≡◌, refl, sym, ap, ◌∙◌, subst, inl, inr, true, false, List, [], ◌∷◌,
  ◌++◌, append-nil, append_assoc, arith, Bool-cases, lt→ltb, le→ltb, length, take, drop, All,
  length-append, take-append, drop-append,
}
use spangap_core.StorageDb.Index.{key_at, is_deleted, put, sdb_file_hdr}
use spangap_core.StorageDb.Index.Rebuild.{flat}
use spangap_core.StorageDb.Store.{SdbStore, write_file_header}
use spangap_core.StorageDb.Compact.{
  Copied, sdb_reindex_rec, copy_record, copy_loop, relocate, sdb_compact_in_place,
}
use spangap_core.StorageDb.Compact.Live.{live, repointed}
use spangap_core.StorageDb.Compact.Wholes.{
  IsWhole, size_back, is_deleted-append, not_broken, take_back,
}
use spangap_core.StorageDb.Compact.InPlace.{
  sdb_compact_in_place-live, write_file_header-front, length-flat,
}

module _ (hs : ℕ) (r post : List ℕ) (whole : IsWhole hs r) (c : Copied) where
  copies_live :
      is_deleted r ≡ false
      → copy_record hs (r ++ post) c ≡ record {
        out = c.out ++ r;
        copies = c.copies + 1;
        entries = put (key_at hs r) (length c.out) c.entries;
      }
  unfolding copy_record sdb_reindex_rec
  copies_live e =
      rw (
        is_deleted-append hs r post whole ∙ e,
        size_back hs r post whole,
        take_back hs r post whole,
      )

  skips_dead : is_deleted r ≡ true → copy_record hs (r ++ post) c ≡ c
  unfolding copy_record
  skips_dead e = rw (is_deleted-append hs r post whole ∙ e)

-- The copy of some records after what was copied before.
abbrev copied : ℕ → List (List ℕ) → Copied → Copied
copied hs rs c = record {
  out = c.out ++ flat (live rs);
  copies = c.copies + length (live rs);
  entries = repointed hs (length c.out) rs c.entries;
}

copied_eq : (a b : Copied) → a.out ≡ b.out → a.copies ≡ b.copies → a.entries ≡ b.entries → a ≡ b
copied_eq a b p q r = λ i. record { out = p i; copies = q i; entries = r i }

copy_loop-copied :
    (rs : List (List ℕ)) (fuel hs : ℕ) (front block : List ℕ) (c : Copied)
    → All (IsWhole hs) rs
    → block ≡ front ++ flat rs
    → length rs < fuel
    → copy_loop fuel hs block (length front) c ≡ copied hs rs c
unfolding copy_loop
copy_loop-copied rs zero hs front block c h e l = absurd (omega arith)
copy_loop-copied [] (suc fuel) hs front block c h e l =
    rw (le→ltb (length front) (length block) (omega (arith, ap length e, length-append front [])))
      (copied_eq _ _ (sym (append-nil c.out)) (omega arith) refl)
copy_loop-copied (r ∷ rs) (suc fuel) hs front block c h e l =
    let later = λ (d : Copied).
      copy_loop-copied rs fuel hs (front ++ r) block d h.1
        (e ∙ sym (append_assoc front r (flat rs))) (omega arith) in
    rw
      (
        lt→ltb (length front) (length block) (omega (arith, size, big)),
        at_record,
        size_back hs r (flat rs) h.0,
        not_broken hs r (flat rs) h.0 (length block) (length front) (omega (arith, size)),
      )
      (elim (Bool-cases (is_deleted r)) [
        | inl dead ↦ rw (dead, skips_dead hs r (flat rs) h.0 c dead) (go later c)
        | inr alive ↦
            rw (alive, copies_live hs r (flat rs) h.0 c alive)
              (go later (record {
                out = c.out ++ r;
                copies = c.copies + 1;
                entries = put (key_at hs r) (length c.out) c.entries;
              })
                ∙ copied_eq _ _ (append_assoc c.out r (flat (live rs))) (omega arith) (
                    ap (λ (n : ℕ). repointed hs n rs (put (key_at hs r) (length c.out) c.entries))
                      (length-append c.out r)))
      ])
  where
    size : length block ≡ length front + length r + length (flat rs)
    size = omega (arith, ap length e, length-append front (r ++ flat rs), length-append r (flat rs))

    big : 5 ≤ length r
    big = let w = h.0 in omega (arith, w.flags_fit, w.key_fits)

    at_record : drop (length front) block ≡ r ++ flat rs
    at_record = ap (drop (length front)) e ∙ drop-append (length front) front (r ++ flat rs) refl

    go :
        ((d : Copied) → copy_loop fuel hs block (length (front ++ r)) d ≡ copied hs rs d)
        → (d : Copied) → copy_loop fuel hs block (length front + length r) d ≡ copied hs rs d
    go f d =
        subst (λ (n : ℕ). copy_loop fuel hs block n d ≡ copied hs rs d) (length-append front r)
          (f d)

-- The block and the index after a relocation are those after compacting in place, for a block that is a
-- 16-byte header and whole records.
pub relocate-sdb_compact_in_place :
    (s : SdbStore) (newcap : ℕ) (front : List ℕ) (rs : List (List ℕ))
    → s.block ≡ front ++ flat rs
    → length front ≡ sdb_file_hdr
    → All (IsWhole s.schema.hdr_size) rs
    → ((relocate s newcap).block ≡ (sdb_compact_in_place s).block)
      × ((relocate s newcap).index ≡ (sdb_compact_in_place s).index)
unfolding relocate
relocate-sdb_compact_in_place s newcap front rs e n h =
    let (b, i) = sdb_compact_in_place-live s front rs e n h in
    (
      ap (λ (c : Copied). write_file_header s.schema c.copies c.out) run
          ∙ ap (λ (m : ℕ). write_file_header s.schema m (head ++ flat (live rs))) (omega arith)
          ∙ write_file_header-front s.schema (length (live rs)) head (flat (live rs))
              (ap length same ∙ n)
          ∙ sym b,
      ap (λ (c : Copied). c.entries) run
          ∙ ap (λ (m : ℕ). repointed s.schema.hdr_size m rs s.index) (ap length same ∙ n)
          ∙ sym i,
    )
  where
    head : List ℕ
    head = take sdb_file_hdr s.block

    same : head ≡ front
    same = ap (take sdb_file_hdr) e ∙ take-append sdb_file_hdr front (flat rs) (sym n)

    start : Copied
    start = record { out = head; copies = 0; entries = s.index }

    enough : length rs < length s.block
    enough =
        omega
          (arith, ap length e, length-append front (flat rs), n, length-flat s.schema.hdr_size rs h)

    run :
        copy_loop (length s.block) s.schema.hdr_size s.block sdb_file_hdr start
        ≡ copied s.schema.hdr_size rs start
    run =
        subst
          (λ (k : ℕ).
            copy_loop (length s.block) s.schema.hdr_size s.block k start
            ≡ copied s.schema.hdr_size rs start)
          n (copy_loop-copied rs (length s.block) s.schema.hdr_size front s.block start h e enough)
