-- ===== src/StorageDb/Compact/Steps.antt =====
-- What one turn of sdbCompactInPlace does with a record.
use spangap_core.Base.{
  ℕ, ◌+◌, ◌≤◌, ◌≡◌, refl, sym, ap, ◌∙◌, inl, inr, true, false, List, [], ◌∷◌, ◌++◌, arith, ltb,
  Bool-cases, length,
}
use spangap_core.StorageDb.Index.{Index, key_at, is_deleted, put}
use spangap_core.StorageDb.Compact.{
  Sweep, sdb_reindex_rec, flush_scratch, flush_some, no_bytes, make_room, move_direct, move_batched,
  sweep_record, sdb_compact_scratch,
}
use spangap_core.StorageDb.Compact.Wholes.{IsWhole, is_deleted-append}
use spangap_core.StorageDb.Compact.Swept.{
  Swept, flush_some-Swept, make_room-Swept, length-done, taken, key_here, next_rest, batched-Swept,
  direct-Swept,
}

-- What a sweep has made of some records: the bytes moved, the count and the index.
pub record Outcome (end off : ℕ) (done ahead : List ℕ) (kept : ℕ) (index : Index) (t : Sweep)
    : Type 0 where
  pub swept : Swept end off done ahead t
  pub count : t.kept ≡ kept
  pub points : t.index ≡ index

make_room-same :
    (rlen : ℕ) (t : Sweep)
    → ((make_room rlen t).kept ≡ t.kept) × ((make_room rlen t).index ≡ t.index)
unfolding make_room flush_scratch
make_room-same rlen t = elim (Bool-cases (ltb sdb_compact_scratch (length t.scratch + rlen))) [
  | inl e ↦ rw e (refl, refl)
  | inr e ↦ rw e (refl, refl)
]

no_bytes-nil : (b : List ℕ) → no_bytes b ≡ true → b ≡ []
no_bytes-nil [] h = refl
no_bytes-nil (c ∷ b) h = cc

pub flush_some-same :
    (t : Sweep)
    → ((flush_some t).kept ≡ t.kept)
      × ((flush_some t).index ≡ t.index)
      × ((flush_some t).scratch ≡ [])
unfolding flush_some flush_scratch
flush_some-same t = elim (Bool-cases (no_bytes t.scratch)) [
  | inl e ↦ rw e (refl, refl, no_bytes-nil t.scratch e)
  | inr e ↦ rw e (refl, refl, refl)
]

put_same : (a b : List ℕ) (m n : ℕ) (i j : Index) → a ≡ b → m ≡ n → i ≡ j → put a m i ≡ put b n j
put_same a b m n i j p q r = cc

module _ (hs end off : ℕ) (done r post : List ℕ) (whole : IsWhole hs r)
    (l : off + length r ≤ end) where
  batched :
      (t : Sweep)
      → Swept end off done (r ++ post) t
      → Outcome end
          (off + length r)
          (done ++ r)
          post
          (t.kept + 1)
          (put (key_at hs r) (length done) t.index)
          (move_batched hs off (length r) t)
  unfolding move_batched sdb_reindex_rec
  batched t s =
      let f = make_room (length r) t in
      let sf = make_room-Swept (length r) t s in
      let (k, i) = make_room-same (length r) t in
      record {
        swept =
            batched-Swept hs end off done r post whole f _ _ _ sf
              (taken hs end off done r post whole f sf) l;
        count = ap (λ (n : ℕ). n + 1) k;
        points =
            put_same _ _ _ _ _ _ (key_here hs end off done r post whole f sf)
              (sym (length-done hs end off done r post whole f sf)) i;
      }

  direct :
      (t : Sweep)
      → Swept end off done (r ++ post) t
      → Outcome end
          (off + length r)
          (done ++ r)
          post
          (t.kept + 1)
          (put (key_at hs r) (length done) t.index)
          (move_direct hs off (length r) t)
  unfolding move_direct sdb_reindex_rec
  direct t s =
      let f = flush_some t in
      let sf = flush_some-Swept t s in
      let (k, i, e) = flush_some-same t in
      record {
        swept =
            direct-Swept hs end off done r post whole f _ _ _ sf e
              (taken hs end off done r post whole f sf) l;
        count = ap (λ (n : ℕ). n + 1) k;
        points =
            put_same _ _ _ _ _ _ (key_here hs end off done r post whole f sf)
              (omega (arith, length-done hs end off done r post whole f sf, ap length e)) i;
      }

  -- A record that is not deleted is moved, whichever way.
  pub moves :
      (t : Sweep)
      → Swept end off done (r ++ post) t
      → is_deleted r ≡ false
      → Outcome end
          (off + length r)
          (done ++ r)
          post
          (t.kept + 1)
          (put (key_at hs r) (length done) t.index)
          (sweep_record hs off (length r) t)
  unfolding sweep_record
  moves t s alive =
      rw (ap is_deleted s.rest ∙ is_deleted-append hs r post whole ∙ alive)
        (elim (Bool-cases (ltb sdb_compact_scratch (length r))) [
          | inl e ↦ rw e (direct t s)
          | inr e ↦ rw e (batched t s)
        ])

  -- A deleted one is passed over.
  pub passes :
      (t : Sweep)
      → Swept end off done (r ++ post) t
      → is_deleted r ≡ true
      → Outcome end (off + length r) done post t.kept t.index (sweep_record hs off (length r) t)
  unfolding sweep_record
  passes t s dead = rw (ap is_deleted s.rest ∙ is_deleted-append hs r post whole ∙ dead) record {
    swept = record {
      rest = next_rest hs end off done r post whole t s;
      size = s.size;
      within = l;
      room = omega (arith, s.room);
      moved = s.moved;
    };
    count = refl;
    points = refl;
  }
