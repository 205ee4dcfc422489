-- ===== src/Its/Conn/Alloc.antt =====
-- Which entry connAlloc takes.
use spangap_core.Base.{
  ℕ, zero, suc, ◌+◌, ◌%◌, ◌<◌, ◌≡◌, refl, sym, ap, ◌∙◌, ◌⊎◌, inl, inr, Bool, true, false, ◌&&◌,
  Option, none, some, List, arith, Bool-cases, get_or, set,
}
use spangap_core.Its.Conn.{Conn, Table, cleared, fresh_conn, alloc_loop, conn_alloc}

-- The entry some steps on.
abbrev pub ahead : ℕ → ℕ → ℕ
ahead start d = (start + d) % 128

-- Whether so many entries from one on are all in use.
unfoldable pub busy : List Conn → ℕ → ℕ → Bool
busy cs start zero = true
busy cs start (suc n) = (get_or cs start cleared).active && busy cs (ahead start 1) n

-- An entry set as connAlloc sets it.
abbrev pub taken_at : Table → ℕ → Table
taken_at t i = record { conns = set t.conns i fresh_conn; counter = (i + 1) % 128 }

-- The first entry in turn that is free.
pub record First (t : Table) (start d : ℕ) : Type 0 where
  pub busy_before : busy t.conns start d ≡ true
  pub free_there : (get_or t.conns (ahead start d) cleared).active ≡ false

-- What the loop has found among so many entries.
abbrev pub Found : Table → ℕ → ℕ → Option ℕ × Table → Type 0
Found t left start r =
    ((r ≡ (none, t)) × (busy t.conns start left ≡ true))
    ⊎ ((d : ℕ) × (d < left)
        × First t start d
        × (r ≡ (some (ahead start d), taken_at t (ahead start d))))

ahead-ahead : (start d : ℕ) → ahead (ahead start 1) d ≡ ahead start (suc d)
ahead-ahead start d = omega arith

ahead-none : (start : ℕ) → start < 128 → ahead start 0 ≡ start
ahead-none start h = omega (arith, h)

alloc_loop-Found :
    (t : Table) (left start : ℕ) → start < 128 → Found t left start (alloc_loop t left start)
unfolding alloc_loop busy
alloc_loop-Found t zero start h = inl (refl, refl)
alloc_loop-Found t (suc left) start h = elim (Bool-cases (get_or t.conns start cleared).active) [
  | inl e ↦ elim (alloc_loop-Found t left (ahead start 1) (omega arith)) [
    | inl (same, all) ↦ rw e (inl (same, all))
    | inr (d, less, first, same) ↦ rw e (
        inr (
          suc d,
          omega (arith, less),
          record {
            busy_before = rw e first.busy_before;
            free_there =
                ap (λ (i : ℕ). (get_or t.conns i cleared).active) (sym (ahead-ahead start d))
                ∙ first.free_there;
          },
          same ∙ ap (λ (i : ℕ). (some i, taken_at t i)) (ahead-ahead start d),
        ))
  ]
  | inr e ↦
      let here = ahead-none start h in
      rw e (
        inr (
          0,
          omega arith,
          record {
            busy_before = refl;
            free_there = ap (λ (i : ℕ). (get_or t.conns i cleared).active) here ∙ e;
          },
          ap (λ (i : ℕ). (some i, taken_at t i)) (sym here),
        ))
]

-- connAlloc takes the first entry that is not in use, in turn from where the last one was taken and
-- with a wrap at 128; it marks that entry as taken, holding nothing, changes no other, and goes on
-- behind it the next time. It fails, and changes nothing, only when all 128 are in use.
pub conn_alloc-Found : (t : Table) → Found t 128 (t.counter % 128) (conn_alloc t)
unfolding conn_alloc
conn_alloc-Found t = alloc_loop-Found t 128 (t.counter % 128) (omega arith)
