-- ===== src/Its/Conn/Free.antt =====
-- What the frees of connections release.
use spangap_core.Base.{
  ℕ, zero, suc, ◌+◌, ◌≡◌, ◌∙◌, refl, ap, inl, inr, Bool, false, Option, none, some, List, [], ◌∷◌,
  ◌++◌, arith, leb, ◌==◌, if◌then◌else◌, Bool-cases, get_or, set, if-P,
}
use spangap_core.Its.Conn.{
  Conn, Table, cleared, max_conns, Held, pool_entry, link_entry, held_at, held_by, conn_free,
}

abbrev pub same_held : Held → Held → Bool
same_held (pool_entry i) (pool_entry j) = i == j
same_held (link_entry i) (link_entry j) = i == j
same_held (pool_entry i) (link_entry j) = false
same_held (link_entry i) (pool_entry j) = false

-- How often something is in a list.
unfoldable pub times : Held → List Held → ℕ
times h [] = 0
times h (x ∷ xs) = let rest = times h xs in if same_held h x then suc rest else rest

-- Whether a field is this index, as a number.
abbrev pub is_index : ℕ → Option ℕ → ℕ
is_index i none = 0
is_index i (some j) = if i == j then 1 else 0

-- How many of the four index fields of a connection name this buffer or link.
unfoldable pub owns : Held → Conn → ℕ
owns (pool_entry i) c = is_index i c.to_pool_idx + is_index i c.from_pool_idx
owns (link_entry i) c = is_index i c.to_link_idx + is_index i c.from_link_idx

-- How many fields of all the connections do.
unfoldable pub owned_times : Held → List Conn → ℕ
owned_times h [] = 0
owned_times h (c ∷ cs) = owns h c + owned_times h cs

-- The frees of some handles, in the order in which they got the lock: what they release in the end.
unfoldable pub free_all : Table → List ℕ → List Held × Table
free_all t [] = ([], t)
free_all t (h ∷ hs) =
    let (first, t') = conn_free t h in let (rest, t'') = free_all t' hs in (first ++ rest, t'')

times-append : (h : Held) (xs ys : List Held) → times h (xs ++ ys) ≡ times h xs + times h ys
unfolding times
times-append h [] ys = omega arith
times-append h (x ∷ xs) ys = elim (Bool-cases (same_held h x)) [
  | inl e ↦ rw e (omega (arith, times-append h xs ys))
  | inr e ↦ rw e (times-append h xs ys)
]

times-same :
    (what : ℕ → Held) (i : ℕ) (o : Option ℕ)
    → ((j : ℕ) → same_held (what i) (what j) ≡ (i == j))
    → times (what i) (held_at what o) ≡ is_index i o
unfolding times held_at
times-same what i none e = refl
times-same what i (some j) e = rw (e j) refl

times-other :
    (h : Held) (what : ℕ → Held) (o : Option ℕ)
    → ((j : ℕ) → same_held h (what j) ≡ false)
    → times h (held_at what o) ≡ 0
unfolding times held_at
times-other h what none e = refl
times-other h what (some j) e = rw (e j) refl

-- `connFree` releases what each of the four fields names.
times-held_by : (h : Held) (c : Conn) → times h (held_by c) ≡ owns h c
unfolding held_by owns
times-held_by h c =
    let tp = held_at pool_entry c.to_pool_idx in
    let fp = held_at pool_entry c.from_pool_idx in
    let tl = held_at link_entry c.to_link_idx in
    let fl = held_at link_entry c.from_link_idx in
    times-append h tp (fp ++ (tl ++ fl))
    ∙ ap (λ n. times h tp + n)
        (times-append h fp (tl ++ fl) ∙ ap (λ n. times h fp + n) (times-append h tl fl))
    ∙ fields h
  where
    fields :
        (h : Held)
        → times h (held_at pool_entry c.to_pool_idx)
            + (times h (held_at pool_entry c.from_pool_idx)
                + (times h (held_at link_entry c.to_link_idx)
                    + times h (held_at link_entry c.from_link_idx)))
          ≡ owns h c
    fields (pool_entry i) = omega (
      arith,
      times-same pool_entry i c.to_pool_idx (λ j. refl),
      times-same pool_entry i c.from_pool_idx (λ j. refl),
      times-other (pool_entry i) link_entry c.to_link_idx (λ j. refl),
      times-other (pool_entry i) link_entry c.from_link_idx (λ j. refl),
    )
    fields (link_entry i) = omega (
      arith,
      times-other (link_entry i) pool_entry c.to_pool_idx (λ j. refl),
      times-other (link_entry i) pool_entry c.from_pool_idx (λ j. refl),
      times-same link_entry i c.to_link_idx (λ j. refl),
      times-same link_entry i c.from_link_idx (λ j. refl),
    )

owns-cleared : (h : Held) → owns h cleared ≡ 0
unfolding owns
owns-cleared (pool_entry i) = refl
owns-cleared (link_entry i) = refl

-- Clearing an entry takes from the table what the entry held.
cleared-owned_times :
    (h : Held) (cs : List Conn) (i : ℕ)
    → times h (held_by (get_or cs i cleared)) + owned_times h (set cs i cleared) ≡ owned_times h cs
unfolding owned_times
cleared-owned_times h [] i = omega (arith, times-held_by h cleared, owns-cleared h)
cleared-owned_times h (c ∷ cs) zero = omega (arith, times-held_by h c, owns-cleared h)
cleared-owned_times h (c ∷ cs) (suc i) = omega (arith, cleared-owned_times h cs i)

conn_free-times :
    (h : Held) (t : Table) (handle : ℕ)
    → times h (conn_free t handle).0 + owned_times h (conn_free t handle).1.conns
      ≡ owned_times h t.conns
unfolding conn_free times
conn_free-times h t handle =
    if-P (λ (r : List Held × Table). times h r.0 + owned_times h r.1.conns ≡ owned_times h t.conns)
      (leb max_conns handle) ([], t)
      (held_by (get_or t.conns handle cleared), record t { conns = set t.conns handle cleared })
      (omega arith) (cleared-owned_times h t.conns handle)

-- Whatever handles are freed, in whatever order and however often each, and by whichever end of a
-- connection: a buffer or link is released exactly as often as an index field of the table named it
-- before and none names it after. One that a single field named is never released twice.
pub free_all-times :
    (h : Held) (t : Table) (handles : List ℕ)
    → times h (free_all t handles).0 + owned_times h (free_all t handles).1.conns
      ≡ owned_times h t.conns
unfolding free_all times
free_all-times h t [] = omega arith
free_all-times h t (x ∷ xs) =
    let t' = (conn_free t x).1 in
    omega (
      arith,
      conn_free-times h t x,
      free_all-times h t' xs,
      times-append h (conn_free t x).0 (free_all t' xs).0,
    )
