-- ===== src/StorageDb/Compact/InPlace.antt =====
-- sdbCompactInPlace keeps the live records in order and nothing else.
use spangap_core.Base.{
  ℕ, zero, suc, ◌+◌, ◌≤◌, ◌<◌, ◌≡◌, refl, sym, ap, ◌∙◌, subst, inl, inr, List, [], ◌∷◌, ◌++◌,
  append-nil, append_assoc, arith, Bool-cases, lt→ltb, le→ltb, length, take, drop, All,
  length-append, take-append, drop-append,
}
use spangap_core.StorageDb.Words.{rd_u32, wr_u16, wr_u32}
use spangap_core.StorageDb.Schema.{SdbSchema}
use spangap_core.StorageDb.Index.{Index, key_at, is_deleted, put, sdb_file_hdr}
use spangap_core.StorageDb.Index.Rebuild.{flat}
use spangap_core.StorageDb.Store.{SdbStore, write_at, file_header, write_file_header}
use spangap_core.StorageDb.Compact.{
  Sweep, flush_some, sweep_record, sweep_loop, sweep, sdb_compact_in_place,
}
use spangap_core.StorageDb.Compact.Wholes.{IsWhole, size_back, not_broken}
use spangap_core.StorageDb.Compact.Swept.{Swept, flush_some-Swept}
use spangap_core.StorageDb.Compact.Live.{live, repointed}
use spangap_core.StorageDb.Compact.Steps.{Outcome, flush_some-same, moves, passes}

recast :
    (end : ℕ) (done done' : List ℕ) (k k' : ℕ) (i i' : Index) (t : Sweep)
    → Outcome end end done [] k i t
    → done ≡ done'
    → k ≡ k'
    → i ≡ i'
    → Outcome end end done' [] k' i' t
recast end done done' k k' i i' t o d e f = record {
  swept = subst (λ (x : List ℕ). Swept end end x [] t) d o.swept;
  count = o.count ∙ e;
  points = o.points ∙ f;
}

sweep_loop-Outcome :
    (rs : List (List ℕ)) (fuel hs end off : ℕ) (done : List ℕ) (t : Sweep)
    → All (IsWhole hs) rs
    → Swept end off done (flat rs) t
    → length rs < fuel
    → off + length (flat rs) ≡ end
    → Outcome end end
        (done ++ flat (live rs))
        []
        (t.kept + length (live rs))
        (repointed hs (length done) rs t.index)
        (sweep_loop fuel hs end off t)
unfolding sweep_loop
sweep_loop-Outcome rs zero hs end off done t h s l e = absurd (omega arith)
sweep_loop-Outcome [] (suc fuel) hs end off done t h s l e =
    rw (le→ltb off end (omega arith)) record {
      swept =
          subst (λ (d : List ℕ). Swept end end d [] t) (sym (append-nil done))
            (subst (λ (o : ℕ). Swept end o done [] t) (omega arith) s);
      count = omega arith;
      points = refl;
    }
sweep_loop-Outcome (r ∷ rs) (suc fuel) hs end off done t h s l e =
    rw
      (
        lt→ltb off end (omega (arith, k, f)),
        ap rd_u32 s.rest ∙ size_back hs r (flat rs) h.0,
        not_broken hs r (flat rs) h.0 end off here,
      )
      (elim (Bool-cases (is_deleted r)) [
        | inl dead ↦ rw dead (
            let o = passes hs end off done r (flat rs) h.0 here t s dead in
            recast _ _ _ _ _ _ _ _
              (sweep_loop-Outcome rs fuel hs end (off + length r) done next h.1 o.swept
                (omega arith) there)
              refl (ap (λ (n : ℕ). n + length (live rs)) o.count)
              (ap (repointed hs (length done) rs) o.points))
        | inr alive ↦ rw alive (
            let o = moves hs end off done r (flat rs) h.0 here t s alive in
            recast _ _ _ _ _ _ _ _
              (sweep_loop-Outcome rs fuel hs end (off + length r) (done ++ r) next h.1 o.swept
                (omega arith) there)
              (append_assoc done r (flat (live rs)))
              (ap (λ (n : ℕ). n + length (live rs)) o.count ∙ omega arith)
              (ap (repointed hs (length (done ++ r)) rs) o.points
                ∙ ap (λ (n : ℕ). repointed hs n rs (put (key_at hs r) (length done) t.index))
                    (length-append done r)))
      ])
  where
    next : Sweep
    next = sweep_record hs off (length r) t

    f : length (flat (r ∷ rs)) ≡ length r + length (flat rs)
    f = length-append r (flat rs)

    k : 5 ≤ length r
    k = let w = h.0 in omega (arith, w.flags_fit, w.key_fits)

    here : off + length r ≤ end
    here = omega (arith, f, e)

    there : off + length r + length (flat rs) ≡ end
    there = omega (arith, f, e)

pub length-file_header : (sc : SdbSchema) (n : ℕ) → length (file_header sc n) ≡ 16
unfolding file_header wr_u16 wr_u32
length-file_header sc n = refl

pub write_file_header-front :
    (sc : SdbSchema) (n : ℕ) (front body : List ℕ)
    → length front ≡ 16
    → write_file_header sc n (front ++ body) ≡ file_header sc n ++ body
unfolding write_file_header write_at
write_file_header-front sc n front body h =
    rw (length-file_header sc n)
      (ap (λ (b : List ℕ). file_header sc n ++ b) (drop-append 16 front body (sym h)))

pub length-flat : (hs : ℕ) (rs : List (List ℕ)) → All (IsWhole hs) rs → length rs ≤ length (flat rs)
length-flat hs [] h = omega arith
length-flat hs (r ∷ rs) h =
    let w = h.0 in
    omega (arith, w.flags_fit, w.key_fits, length-append r (flat rs), length-flat hs rs h.1)

sweep-Outcome :
    (hs : ℕ) (front block : List ℕ) (rs : List (List ℕ)) (index : Index)
    → block ≡ front ++ flat rs
    → length front ≡ sdb_file_hdr
    → All (IsWhole hs) rs
    → Outcome
        (length block)
        (length block)
        (front ++ flat (live rs))
        []
        (length (live rs))
        (repointed hs sdb_file_hdr rs index)
        (sweep hs block index)
unfolding sweep
sweep-Outcome hs front block rs index e n h =
    recast _ _ _ _ _ _ _ _
      (sweep_loop-Outcome rs (length block) hs (length block) sdb_file_hdr front start h begun
        enough all)
      refl (omega arith) (ap (λ (k : ℕ). repointed hs k rs index) n)
  where
    start : Sweep
    start = record { block = block; w = sdb_file_hdr; scratch = []; kept = 0; index = index }

    all : sdb_file_hdr + length (flat rs) ≡ length block
    all = omega (arith, ap length e, length-append front (flat rs), n)

    enough : length rs < length block
    enough = omega (arith, all, length-flat hs rs h)

    begun : Swept (length block) sdb_file_hdr front (flat rs) start
    begun = record {
      rest = ap (drop sdb_file_hdr) e ∙ drop-append sdb_file_hdr front (flat rs) (sym n);
      size = refl;
      within = omega (arith, all);
      room = omega arith;
      moved =
          append-nil _
          ∙ ap (take sdb_file_hdr) e
          ∙ take-append sdb_file_hdr front (flat rs) (sym n);
    }

-- Compaction of a store whose block is a 16-byte header and whole records leaves the header with the
-- number of the records that are not deleted, these records in order, and an index that has each of
-- them where it now stands.
pub sdb_compact_in_place-live :
    (s : SdbStore) (front : List ℕ) (rs : List (List ℕ))
    → s.block ≡ front ++ flat rs
    → length front ≡ sdb_file_hdr
    → All (IsWhole s.schema.hdr_size) rs
    → (((sdb_compact_in_place s).block) ≡ file_header s.schema (length (live rs)) ++ flat (live rs))
      × (((sdb_compact_in_place s).index) ≡ repointed s.schema.hdr_size sdb_file_hdr rs s.index)
unfolding sdb_compact_in_place
sdb_compact_in_place-live s front rs e n h =
    let t = sweep s.schema.hdr_size s.block s.index in
    let o = sweep-Outcome s.schema.hdr_size front s.block rs s.index e n h in
    let f = flush_some-Swept t o.swept in
    let (k, i, empty) = flush_some-same t in
    let moved =
      sym (append-nil _)
      ∙ ap (λ (b : List ℕ). take (flush_some t).w (flush_some t).block ++ b) (sym empty)
      ∙ f.moved in
    (
      ap (λ (m : ℕ). write_file_header s.schema m (take (flush_some t).w (flush_some t).block))
            (k ∙ o.count)
          ∙ ap (write_file_header s.schema (length (live rs))) moved
          ∙ write_file_header-front s.schema (length (live rs)) front (flat (live rs)) n,
      i ∙ o.points,
    )
