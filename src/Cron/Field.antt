-- ===== src/Cron/Field.antt =====
-- cronMatchField of esp-idf/src/cron.cpp: whether a value matches one time field of an entry.
-- Integers of C are integers here, so a number in a field that does not fit an int is read as itself.
use spangap_core.Base.{
  ℕ, zero, suc, ◌+◌, ◌%◌, Bool, true, false, not, ◌||◌, Option, none, some, List, [], ◌∷◌, leb,
  ◌==◌, if◌then◌else◌, length, take, codes, eq_bytes,
}
use spangap_core.Base.Decimal.{atoi}
use spangap_core.Base.Int.{ℤ, pos, negsuc, ◌-ℤ◌, ltb_ℤ, pos_part, neg_part}

-- strchr(s, c): what stands before the first `c`, all of `s` when there is none.
unfoldable pub before : ℕ → List ℕ → List ℕ
before c [] = []
before c (x ∷ xs) = if x == c then [] else x ∷ before c xs

-- strchr(s, c) + 1: what follows the first `c`.
unfoldable pub after : ℕ → List ℕ → Option (List ℕ)
after c [] = none
after c (x ∷ xs) = if x == c then some xs else after c xs

-- d % step == 0 for a positive step: C's remainder takes the sign of d.
abbrev pub divides : ℕ → ℤ → Bool
divides step d = ((pos_part d + neg_part d) % step) == 0

-- The tests on a base; step 0 stands for no step.
unfoldable pub match_step : ℕ → ℤ → Bool
match_step step d = if step == 0 then true else divides step d

unfoldable pub match_range : ℕ → ℤ → ℤ → ℕ → Bool
match_range value lo hi step =
    if ltb_ℤ (pos value) lo || ltb_ℤ hi (pos value)
    then false
    else match_step step (pos value -ℤ lo)

unfoldable pub match_number : ℕ → ℤ → ℕ → Bool
match_number value num step =
    if step == 0
    then not (ltb_ℤ (pos value) num || ltb_ℤ num (pos value))
    else if ltb_ℤ (pos value) num
    then false
    else divides step (pos value -ℤ num)

unfoldable pub match_dashed : List ℕ → Option (List ℕ) → ℕ → ℕ → Bool
match_dashed base none value step = match_number value (atoi base) step
match_dashed base (some rest) value step = match_range value (atoi base) (atoi rest) step

unfoldable pub match_base : List ℕ → ℕ → ℕ → ℕ → Bool
match_base base step value min_val =
    if eq_bytes base (codes "*")
    then match_step step (pos value -ℤ pos min_val)
    else match_dashed base (after 45 base) value step

-- The step after the slash has to be positive.
unfoldable pub match_stepped : List ℕ → ℤ → ℕ → ℕ → Bool
match_stepped base (pos zero) value min_val = false
match_stepped base (pos (suc n)) value min_val = match_base base (suc n) value min_val
match_stepped base (negsuc n) value min_val = false

-- A part with no comma: the base is copied into a buffer of 16 bytes.
unfoldable pub match_part : List ℕ → Option (List ℕ) → ℕ → ℕ → Bool
match_part part none value min_val = match_base (take 15 part) 0 value min_val
match_part part (some step) value min_val =
    if leb 16 (length (before 47 part))
    then false
    else match_stepped (before 47 part) (atoi step) value min_val

unfoldable pub match_single : List ℕ → ℕ → ℕ → Bool
match_single part value min_val = match_part part (after 47 part) value min_val

abbrev pub push_head : ℕ → List (List ℕ) → List (List ℕ)
push_head x [] = (x ∷ []) ∷ []
push_head x (p ∷ ps) = (x ∷ p) ∷ ps

-- The parts between commas.
unfoldable pub parts : List ℕ → List (List ℕ)
parts [] = [] ∷ []
parts (x ∷ xs) = if x == 44 then [] ∷ parts xs else push_head x (parts xs)

-- The loop over the parts: it gives up at the first that does not fit the buffer of 32 bytes.
unfoldable pub match_parts : List (List ℕ) → ℕ → ℕ → Bool
match_parts [] value min_val = false
match_parts (p ∷ ps) value min_val =
    if leb 32 (length p)
    then false
    else if match_single p value min_val
    then true
    else match_parts ps value min_val

unfoldable pub match_after_comma : List ℕ → Option (List ℕ) → ℕ → ℕ → Bool
match_after_comma field none value min_val = match_single field value min_val
match_after_comma field (some rest) value min_val = match_parts (parts field) value min_val

-- The highest value of a field, maxVal, is not used by the source either.
unfoldable pub cron_match_field : List ℕ → ℕ → ℕ → ℕ → Bool
cron_match_field field value min_val max_val =
    match_after_comma field (after 44 field) value min_val
