-- ===== src/Storage/Subs/Sweep.antt =====
-- What the loops over the subscriptions keep.
use spangap_core.Base.{
  ℕ, zero, suc, ◌+◌, ◌≤◌, ◌≡◌, refl, ap, ◌∙◌, inl, inr, Bool, true, false, not, ◌&&◌, Option, List,
  [], ◌∷◌, arith, if◌then◌else◌, Bool-cases, length,
}
use spangap_core.Storage.Subs.{
  Sub, last_row, but_last, sub_drop, sweep_rows, is_dead, sub_reap, is_removed, sub_remove,
}

abbrev pub one_if : Bool → ℕ
one_if true = 1
one_if false = 0

-- How many rows pass a test.
unfoldable pub count : (Sub → Bool) → List Sub → ℕ
count test [] = 0
count test (s ∷ rows) = one_if (test s) + count test rows

count-last :
    (test : Sub → Bool) (s : Sub) (rows : List Sub)
    → one_if (test (last_row s rows)) + count test (but_last s rows)
      ≡ one_if (test s) + count test rows
unfolding count
count-last test s [] = refl
count-last test s (r ∷ rows) = omega (arith, count-last test r rows)

count-sub_drop :
    (test : Sub → Bool) (rows : List Sub) → count test (sub_drop rows) ≡ count test rows
unfolding count sub_drop
count-sub_drop test [] = refl
count-sub_drop test (r ∷ rows) = count-last test r rows

length-but_last : (s : Sub) (rows : List Sub) → length (but_last s rows) ≡ length rows
length-but_last s [] = refl
length-but_last s (r ∷ rows) = ap suc (length-but_last r rows)

length-sub_drop : (rows : List Sub) → length (sub_drop rows) ≡ length rows
unfolding sub_drop
length-sub_drop [] = refl
length-sub_drop (r ∷ rows) = ap suc (length-but_last r rows)

and-false : (b : Bool) → one_if (b && not true) ≡ 0
and-false true = refl
and-false false = refl

and-true : (b : Bool) → one_if (b && not false) ≡ one_if b
and-true true = refl
and-true false = refl

-- Of the rows that pass any test, the sweep keeps those that are not swept.
count-sweep_rows :
    (swept test : Sub → Bool) (fuel : ℕ) (rows : List Sub)
    → length rows ≤ fuel
    → count test (sweep_rows swept fuel rows) ≡ count (λ s. test s && not (swept s)) rows
unfolding count sweep_rows
count-sweep_rows swept test fuel [] h = refl
count-sweep_rows swept test zero (s ∷ rows) h = ground arith
count-sweep_rows swept test (suc fuel) (s ∷ rows) h =
    let kept = λ (r : Sub). test r && not (swept r) in
    elim (Bool-cases (swept s)) [
      | inl e ↦
          let none_here : one_if (test s && not (swept s)) ≡ 0 =
            ap (λ b. one_if (test s && not b)) e ∙ and-false (test s) in
          ap
            (λ (b : Bool).
              count test (
                if b
                then sweep_rows swept fuel (sub_drop rows)
                else s ∷ sweep_rows swept fuel rows))
            e
          ∙ count-sweep_rows swept test fuel (sub_drop rows)
              (omega (arith, h, length-sub_drop rows))
          ∙ count-sub_drop kept rows
          ∙ omega (arith, none_here)
      | inr e ↦
          let one_here : one_if (test s && not (swept s)) ≡ one_if (test s) =
            ap (λ b. one_if (test s && not b)) e ∙ and-true (test s) in
          ap
            (λ (b : Bool).
              count test (
                if b
                then sweep_rows swept fuel (sub_drop rows)
                else s ∷ sweep_rows swept fuel rows))
            e
          ∙ omega (arith, one_here, count-sweep_rows swept test fuel rows (omega (arith, h)))
    ]

-- subRemove takes away exactly the rows that are to go, and subReap those whose owner is dead: of the
-- rows that pass any test at all, as many are left as passed it and were not to go. Each row
-- that stays stays as often as it was there, though the last one may have moved up.
pub sub_remove-count :
    (subs : List Sub) (task cb : Option ℕ) (scope : Option (List ℕ)) (test : Sub → Bool)
    → (count test (sub_remove subs task cb scope)
        ≡ count (λ s. test s && not (is_removed task cb scope s)) subs)
      × (count test (sub_reap subs) ≡ count (λ s. test s && not (is_dead s)) subs)
unfolding sub_remove sub_reap
sub_remove-count subs task cb scope test = (
  count-sweep_rows (is_removed task cb scope) test (length subs) subs (omega arith),
  count-sweep_rows is_dead test (length subs) subs (omega arith),
)
