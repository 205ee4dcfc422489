-- ===== src/StorageDb/Compact/Swept.antt =====
-- Where sdbCompactInPlace stands after each record: what it has moved, what is still ahead.
use spangap_core.Base.{
  ℕ, ◌+◌, ◌≤◌, ◌≡◌, refl, sym, ap, ◌∙◌, inl, inr, List, [], ◌++◌, append-nil, append_assoc, arith,
  ltb, Bool-cases, length, take, drop, length-append, drop-drop, length-take,
}
use spangap_core.StorageDb.Index.{Index, key_at}
use spangap_core.StorageDb.Store.{write_at}
use spangap_core.StorageDb.Compact.{
  Sweep, flush_scratch, flush_some, no_bytes, make_room, sdb_compact_scratch,
}
use spangap_core.StorageDb.Compact.Writes.{take-write_at, drop-write_at, length-write_at}
use spangap_core.StorageDb.Compact.Wholes.{IsWhole, key_at-append, take_back, drop_back}

-- The bytes moved so far are `done`, written up to the write cursor and then in the scratch buffer; the
-- bytes from `off` on are still those of the records ahead.
pub record Swept (end off : ℕ) (done ahead : List ℕ) (t : Sweep) : Type 0 where
  pub rest : drop off t.block ≡ ahead
  pub size : length t.block ≡ end
  pub within : off ≤ end
  pub room : t.w + length t.scratch ≤ off
  pub moved : take t.w t.block ++ t.scratch ≡ done

module _ {end off : ℕ} {done ahead : List ℕ} where
  pub flush_scratch-Swept :
      (t : Sweep) → Swept end off done ahead t → Swept end off done ahead (flush_scratch t)
  unfolding flush_scratch
  flush_scratch-Swept t s = record {
    rest =
        drop-write_at off t.w t.scratch t.block s.room (omega (arith, s.size, s.within, s.room))
        ∙ s.rest;
    size = length-write_at t.w t.scratch t.block (omega (arith, s.size, s.within, s.room)) ∙ s.size;
    within = s.within;
    room = omega (arith, s.room);
    moved =
        append-nil _
        ∙ take-write_at t.w t.scratch t.block (omega (arith, s.size, s.within, s.room))
        ∙ s.moved;
  }

  pub flush_some-Swept :
      (t : Sweep) → Swept end off done ahead t → Swept end off done ahead (flush_some t)
  unfolding flush_some
  flush_some-Swept t s = elim (Bool-cases (no_bytes t.scratch)) [
    | inl e ↦ rw e s
    | inr e ↦ rw e (flush_scratch-Swept t s)
  ]

  pub make_room-Swept :
      (rlen : ℕ) (t : Sweep)
      → Swept end off done ahead t
      → Swept end off done ahead (make_room rlen t)
  unfolding make_room
  make_room-Swept rlen t s = elim (Bool-cases (ltb sdb_compact_scratch (length t.scratch + rlen))) [
    | inl e ↦ rw e (flush_scratch-Swept t s)
    | inr e ↦ rw e s
  ]

module _ (hs end off : ℕ) (done r post : List ℕ) (whole : IsWhole hs r) where
  pub length-done :
      (t : Sweep) → Swept end off done (r ++ post) t → length done ≡ t.w + length t.scratch
  length-done t s =
      let e = ap length s.moved in
      omega (
        arith,
        e,
        length-append (take t.w t.block) t.scratch,
        length-take t.w t.block,
        s.size,
        s.within,
        s.room,
      )

  pub taken :
      (t : Sweep) → Swept end off done (r ++ post) t → take (length r) (drop off t.block) ≡ r
  taken t s = ap (take (length r)) s.rest ∙ take_back hs r post whole

  pub next_rest :
      (t : Sweep) → Swept end off done (r ++ post) t → drop (off + length r) t.block ≡ post
  next_rest t s =
      sym (drop-drop (length r) off (off + length r) t.block refl)
      ∙ ap (drop (length r)) s.rest
      ∙ drop_back hs r post whole

  pub key_here :
      (t : Sweep) → Swept end off done (r ++ post) t → key_at hs (drop off t.block) ≡ key_at hs r
  key_here t s = ap (key_at hs) s.rest ∙ key_at-append hs r post whole

  pub batched-Swept :
      (t : Sweep) (bytes : List ℕ) (index : Index) (kept : ℕ)
      → Swept end off done (r ++ post) t
      → bytes ≡ r
      → off + length r ≤ end
      → Swept end
          (off + length r)
          (done ++ r)
          post
          record t { index = index; scratch = t.scratch ++ bytes; kept = kept }
  batched-Swept t bytes index kept s e l = record {
    rest = next_rest t s;
    size = s.size;
    within = l;
    room = omega (arith, length-append t.scratch bytes, ap length e, s.room);
    moved =
        sym (append_assoc (take t.w t.block) t.scratch bytes)
        ∙ ap (λ (d : List ℕ). d ++ bytes) s.moved
        ∙ ap (λ (b : List ℕ). done ++ b) e;
  }

  pub direct-Swept :
      (t : Sweep) (bytes : List ℕ) (index : Index) (kept : ℕ)
      → Swept end off done (r ++ post) t
      → t.scratch ≡ []
      → bytes ≡ r
      → off + length r ≤ end
      → Swept end (off + length r) (done ++ r) post record t {
        index = index;
        block = write_at t.w bytes t.block;
        w = t.w + length r;
        kept = kept;
      }
  direct-Swept t bytes index kept s spent e l = record {
    rest = drop-write_at (off + length r) t.w bytes t.block below inside ∙ next_rest t s;
    size =
        length-write_at t.w bytes t.block (omega (arith, ap length e, s.room, s.size, l)) ∙ s.size;
    within = l;
    room = omega (arith, s.room);
    moved =
        ap (λ (b : List ℕ). take (t.w + length r) (write_at t.w bytes t.block) ++ b) spent
        ∙ append-nil _
        ∙ ap (λ (n : ℕ). take (t.w + n) (write_at t.w bytes t.block)) (sym (ap length e))
        ∙ take-write_at t.w bytes t.block inside
        ∙ ap (λ (b : List ℕ). take t.w t.block ++ b) e
        ∙ ap (λ (d : List ℕ). d ++ r)
            (sym (append-nil _) ∙ ap (λ (b : List ℕ). take t.w t.block ++ b) (sym spent) ∙ s.moved);
  }
    where
      below : t.w + length bytes ≤ off + length r
      below = omega (arith, ap length e, s.room)

      inside : t.w ≤ length t.block
      inside = omega (arith, s.room, s.size, s.within)
