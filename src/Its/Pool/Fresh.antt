-- ===== src/Its/Pool/Fresh.antt =====
-- What poolGet hands out.
use spangap_core.Base.{
  ◌>>=◌, ℕ, zero, suc, ◌<◌, ◌≡◌, refl, ap, ◌∙◌, ◌⊎◌, inl, inr, Bool, true, false, not, ◌&&◌, ◌||◌,
  Option, none, some, List, [], ◌∷◌, ◌++◌, arith, leb, ◌==◌, if◌then◌else◌, Bool-cases, ==_iff,
  length, get_or, set, length-append, if-P,
}
use spangap_core.Its.Pool.{
  Entry, Memory, Result, unused, max_pool, is_some, is_same_size, is_empty_slot, find_entry,
  no_entry, reuse, fill, fill_slot, reuse_or_fill, pool_get,
}

-- An entry of the pool, one that was not used before being as the table's memory is.
abbrev pub at : List Entry → ℕ → Entry
at pool i = get_or pool i unused

-- What may be said of an index handed out: nobody had the entry before, it is taken now, and it has a
-- buffer of this size.
pub record IsFresh (before after : List Entry) (size i : ℕ) : Type 0 where
  pub was_free : (at before i).in_use ≡ false
  pub is_taken : (at after i).in_use ≡ true
  pub has_buffer : is_some (at after i).handle ≡ true
  pub has_size : (at after i).size ≡ size

-- A result: no index, or a fresh one.
abbrev pub GivesFresh : List Entry → ℕ → Result → Type 0
GivesFresh before size r =
    (r.index ≡ none) ⊎ ((i : ℕ) × (r.index ≡ some i) × IsFresh before r.pool size i)

at-set_self : (pool : List Entry) (i : ℕ) (e : Entry) → i < length pool → at (set pool i e) i ≡ e
at-set_self [] i e h = ground arith
at-set_self (x ∷ xs) zero e h = refl
at-set_self (x ∷ xs) (suc i) e h = at-set_self xs i e (omega arith)

-- Past the end an entry is as it was never used.
at-end : (pool : List Entry) → at pool (length pool) ≡ unused
at-end [] = refl
at-end (x ∷ xs) = at-end xs

first-true : (a c : Bool) → (a && c) ≡ true → a ≡ true
first-true true c h = refl
first-true false c h = ground (arith, h)

-- What a search finds is an entry that passes the test.
abbrev Passes : (Entry → Bool) → List Entry → Option ℕ → Type 0
Passes test pool none = Unit
Passes test pool (some i) = (i < length pool) × (test (at pool i) ≡ true)

next-Passes :
    (test : Entry → Bool) (e : Entry) (es : List Entry) (o : Option ℕ)
    → Passes test es o
    → Passes test (e ∷ es) (o >>= (λ i. some (suc i)))
next-Passes test e es none h = _
next-Passes test e es (some i) h = (omega (arith, h.0), h.1)

find_entry-Passes :
    (test : Entry → Bool) (pool : List Entry) → Passes test pool (find_entry test pool)
unfolding find_entry
find_entry-Passes test [] = _
find_entry-Passes test (e ∷ es) = elim (Bool-cases (test e)) [
  | inl t ↦ rw t (omega arith, t)
  | inr t ↦ rw t (next-Passes test e es (find_entry test es) (find_entry-Passes test es))
]

three-parts :
    (used pooled made : Bool) (n size : ℕ)
    → (not used && (pooled && (made && n == size))) ≡ true
    → (used ≡ false) × (made ≡ true) × (n ≡ size)
three-parts false true true n size h = (refl, refl, (==_iff n size).0 h)
three-parts true pooled made n size h = ground (arith, h)
three-parts false false made n size h = ground (arith, h)
three-parts false true false n size h = ground (arith, h)

not-false : (used made : Bool) → (not used && not made) ≡ true → used ≡ false
not-false true made h = ground (arith, h)
not-false false made h = refl

reuse-GivesFresh :
    (pool : List Entry) (size i : ℕ)
    → i < length pool
    → is_same_size size (at pool i) ≡ true
    → GivesFresh pool size (reuse pool i)
unfolding reuse
reuse-GivesFresh pool size i h test =
    let e = at pool i in
    let parts = three-parts e.in_use e.pooled (is_some e.handle) e.size size test in
    let now = at-set_self pool i (record e { in_use = true; trigger_level = 1 }) h in
    inr (
      i,
      refl,
      record {
        was_free = parts.0;
        is_taken = ap (λ (x : Entry). x.in_use) now;
        has_buffer = ap (λ (x : Entry). is_some x.handle) now ∙ parts.1;
        has_size = ap (λ (x : Entry). x.size) now ∙ parts.2;
      },
    )

fill-GivesFresh :
    (m : Memory) (before pool : List Entry) (size i : ℕ) (no_pool : Bool)
    → i < length pool
    → (at before i).in_use ≡ false
    → GivesFresh before size (fill m pool i size no_pool)
unfolding fill
fill-GivesFresh m before pool size i no_pool h free =
    let sem = (at pool i).has_sem || m.sem in
    elim (Bool-cases (is_some m.buffer && sem)) [
      | inl made ↦
          let now =
            at-set_self pool i
              (record {
                handle = m.buffer;
                size = size;
                pooled = not no_pool;
                trigger_level = 1;
                in_use = true;
                free_notify = 0;
                has_sem = sem;
              })
              h in
          inr (
            i,
            ap (λ (t : Bool). if t then some i else none) made,
            record {
              was_free = free;
              is_taken = ap (λ (x : Entry). x.in_use) now;
              has_buffer =
                  ap (λ (x : Entry). is_some x.handle) now ∙ first-true (is_some m.buffer) sem made;
              has_size = ap (λ (x : Entry). x.size) now;
            },
          )
      | inr short ↦ inl (ap (λ (t : Bool). if t then some i else none) short)
    ]

fill_slot-GivesFresh :
    (m : Memory) (pool : List Entry) (size : ℕ) (no_pool : Bool) (slot : Option ℕ)
    → Passes is_empty_slot pool slot
    → GivesFresh pool size (fill_slot m pool size no_pool slot)
unfolding fill_slot
fill_slot-GivesFresh m pool size no_pool (some i) (h, test) =
    let e = at pool i in
    fill-GivesFresh m pool pool size i no_pool h (not-false e.in_use (is_some e.handle) test)
fill_slot-GivesFresh m pool size no_pool none h =
    let more = pool ++ unused ∷ [] in
    let there : length pool < length more = omega (arith, length-append pool (unused ∷ [])) in
    if-P (GivesFresh pool size) (leb max_pool (length pool)) (no_entry pool) _ (inl refl) (
      fill-GivesFresh m pool more size (length pool) no_pool there
        (ap (λ (x : Entry). x.in_use) (at-end pool)))

reuse_or_fill-GivesFresh :
    (m : Memory) (pool : List Entry) (size : ℕ) (no_pool : Bool) (found : Option ℕ)
    → Passes (is_same_size size) pool found
    → GivesFresh pool size (reuse_or_fill m pool size no_pool found)
unfolding reuse_or_fill
reuse_or_fill-GivesFresh m pool size no_pool (some i) (h, test) =
    reuse-GivesFresh pool size i h test
reuse_or_fill-GivesFresh m pool size no_pool none h =
    fill_slot-GivesFresh m pool size no_pool (find_entry is_empty_slot pool)
      (find_entry-Passes is_empty_slot pool)

-- Whatever the pool and the state of memory, poolGet gives no index, or one of an entry that nobody
-- had and that is taken from then on, with a buffer of exactly the size asked for: reused, in a slot
-- reclaimed or in a new one.
pub pool_get-GivesFresh :
    (m : Memory) (pool : List Entry) (size : ℕ) (no_pool : Bool)
    → GivesFresh pool size (pool_get m pool size no_pool)
unfolding pool_get
pool_get-GivesFresh m pool size no_pool =
    let found = if no_pool then none else find_entry (is_same_size size) pool in
    if-P (GivesFresh pool size) (size == 0) (no_entry pool)
      (reuse_or_fill m pool size no_pool found) (inl refl)
      (reuse_or_fill-GivesFresh m pool size no_pool found (
        if-P (Passes (is_same_size size) pool) no_pool none (find_entry (is_same_size size) pool) _
          (find_entry-Passes (is_same_size size) pool)))
