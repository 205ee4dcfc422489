-- ===== src/Targz/Names/RoundTrip.antt =====
-- The path that the reader puts together is the path that the writer placed.
use spangap_core.Base.{
  ℕ, zero, suc, ◌+◌, ◌-◌, ◌≤◌, ◌<◌, ◌≡◌, ◌≢◌, ◌∙◌, refl, ap, sym, inl, inr, some, List, [], false,
  some-inj, ◌∷◌, ◌++◌, Bool-cases, leb→le, arith, ltb, leb, ◌==◌, ==_iff, All, append-nil, length,
  take, drop, get_or, replicate, length-take, length-drop,
}
use spangap_core.Targz.Header.{Ustar, overwrite}
use spangap_core.Targz.Names.{slash, misfit, split_loop, set_entry_name, c_string, entry_name}

abbrev pub NoNul : List ℕ → Type 0
NoNul = All (λ c. c ≢ 0)

NoNul-take : (n : ℕ) (s : List ℕ) → NoNul s → NoNul (take n s)
NoNul-take zero s h = tt
NoNul-take (suc n) [] h = tt
NoNul-take (suc n) (c ∷ s) (h, hs) = (h, NoNul-take n s hs)

NoNul-drop : (n : ℕ) (s : List ℕ) → NoNul s → NoNul (drop n s)
NoNul-drop zero s h = h
NoNul-drop (suc n) [] h = tt
NoNul-drop (suc n) (c ∷ s) (h, hs) = NoNul-drop n s hs

pub c_string-append : (s t : List ℕ) → NoNul s → c_string (s ++ t) ≡ s ++ c_string t
unfolding c_string
c_string-append [] t h = refl
c_string-append (c ∷ s) t (h, hs) = ground (arith, c_string-append s t hs)

c_string-zeros : (k n : ℕ) → c_string (drop k (replicate n 0)) ≡ []
unfolding c_string
c_string-zeros zero zero = refl
c_string-zeros zero (suc n) = refl
c_string-zeros (suc k) zero = refl
c_string-zeros (suc k) (suc n) = c_string-zeros k n

-- A C string copied into a zeroed field is read back, also where it fills the field.
pub c_string-overwrite : (n : ℕ) (s : List ℕ) → NoNul s → c_string (overwrite (replicate n 0) s) ≡ s
c_string-overwrite n s h =
    c_string-append s _ h ∙ ap (λ t. s ++ t) (c_string-zeros (length s) n) ∙ append-nil s

split_at : (j : ℕ) (s : List ℕ) → j < length s → take j s ++ (get_or s j 0 ∷ drop (suc j) s) ≡ s
split_at zero [] h = absurd (omega arith)
split_at zero (c ∷ s) h = refl
split_at (suc j) [] h = absurd (omega arith)
split_at (suc j) (c ∷ s) h = ap (λ t. c ∷ t) (split_at j s (omega arith))

-- Where the loop of `setEntryName` ends: at a '/' both of whose sides fit.
pub record SplitAt (name : List ℕ) (h h' : Ustar) (j : ℕ) : Type 0 where
  pub is_slash : get_or name j 0 ≡ slash
  pub inside : j < length name
  pub tail_some : j + 1 < length name
  pub tail_fits : length name - j - 1 ≤ 100
  pub prefix_fits : j ≤ 155
  pub written : h' ≡ record h {
    prefix = overwrite h.prefix (take j name);
    name = overwrite h.name (drop (suc j) name);
  }

misfit-false : (tail i : ℕ) → misfit tail i ≡ false → (0 < tail) × (tail ≤ 100) × (i ≤ 155)
unfolding misfit
misfit-false tail i h = ground arith

pub split_loop-some :
    (i : ℕ) (h h' : Ustar) (name : List ℕ)
    → i ≤ length name
    → split_loop i h name ≡ some h'
    → (j : ℕ) × SplitAt name h h' j
unfolding split_loop
split_loop-some zero h h' name le e = cc
split_loop-some (suc i) h h' name le e = elim (Bool-cases (get_or name i 0 == slash)) [
  | inr other ↦ split_loop-some i h h' name (omega arith) (rw other at e)
  | inl here ↦ elim (Bool-cases (misfit (length name - i - 1) i)) [
    | inl bad ↦ split_loop-some i h h' name (omega arith) (rw (here, bad) at e)
    | inr good ↦
        let fits = misfit-false (length name - i - 1) i good in
        (
          i,
          record {
            is_slash = (==_iff _ _).0 here;
            inside = le;
            tail_some = omega (arith, fits.0);
            tail_fits = fits.1;
            prefix_fits = fits.2;
            written = sym (some-inj (rw (here, good) at e));
          },
        )
  ]
]

-- What the reader makes of a name in two parts, and of one with no prefix.
entry_name-join :
    (h : Ustar) (prefix name : List ℕ)
    → c_string h.prefix ≡ prefix
    → c_string h.name ≡ name
    → 0 < length prefix
    → length prefix + 1 + length name < 264
    → entry_name h ≡ some (prefix ++ (slash ∷ name))
unfolding entry_name
entry_name-join h prefix name hp hn pos fits = rw (hp, hn) (ground arith)

entry_name-plain :
    (h : Ustar) (name : List ℕ)
    → c_string h.prefix ≡ []
    → c_string h.name ≡ name
    → length name < 264
    → entry_name h ≡ some name
unfolding entry_name
entry_name-plain h name hp hn fits = rw (hp, hn) (ground arith)

module _ (name : List ℕ) (h h' : Ustar) (nonul : NoNul name) (hp : h.prefix ≡ replicate 155 0)
    (hn : h.name ≡ replicate 100 0) where
  entry_name-split : (j : ℕ) → 0 < j → SplitAt name h h' j → entry_name h' ≡ some name
  entry_name-split j pos s =
      entry_name-join h' (take j name) (drop (suc j) name)
        (rw (s.written, hp) (c_string-overwrite 155 (take j name) (NoNul-take j name nonul)))
        (rw (s.written, hn)
          (c_string-overwrite 100 (drop (suc j) name) (NoNul-drop (suc j) name nonul)))
        (omega (arith, length-take j name, s.inside))
        (omega (
          arith,
          length-take j name,
          length-drop (suc j) name,
          s.inside,
          s.tail_fits,
          s.prefix_fits,
        ))
      ∙ ap some (rw (← s.is_slash) (split_at j name s.inside))

  -- A path that the writer placed in a fresh header is what the reader puts together, if it does not
  -- begin with '/'.
  pub entry_name-set_entry_name :
      get_or name 0 0 ≢ slash → set_entry_name h name ≡ some h' → entry_name h' ≡ some name
  unfolding set_entry_name
  entry_name-set_entry_name rel e = elim (Bool-cases (length name == 0)) [
    | inl empty ↦ cc (rw empty at e)
    | inr full ↦ elim (Bool-cases (leb (length name) 100)) [
      | inl short ↦
          placed (sym (some-inj (rw (full, short) at e)))
            (omega (arith, leb→le (length name) 100 short))
      | inr long ↦ elim (Bool-cases (ltb 256 (length name))) [
        | inl over ↦ cc (rw (full, long, over) at e)
        | inr fits ↦
            let (j, s) =
              split_loop-some (length name) h h' name (omega arith) (rw (full, long, fits) at e) in
            entry_name-split j (later j s) s
      ]
    ]
  ]
    where
      placed :
          h' ≡ record h { name = overwrite h.name name }
          → length name < 264
          → entry_name h' ≡ some name
      placed w short =
          entry_name-plain h' name (rw (w, hp) (c_string-zeros 0 155))
            (rw (w, hn) (c_string-overwrite 100 name nonul)) short

      later : (j : ℕ) → SplitAt name h h' j → 0 < j
      later zero s = absurd (rel s.is_slash)
      later (suc j) s = omega arith
