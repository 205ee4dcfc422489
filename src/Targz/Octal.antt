-- ===== src/Targz/Octal.antt =====
-- The numeric fields of a ustar header: `octalField` and `octalValue` of esp-idf/src/targz.cpp.
use mathlib.Core.Path.{◌≡⟨◌⟩◌, ◌∎}
use spangap_core.Base.{
  ℕ, zero, suc, ◌+◌, ◌-◌, ◌*◌, ◌/◌, ◌%◌, ◌^◌, ◌<◌, ◌≤◌, ◌≡◌, refl, ap, ◌++◌, All, ◌∙◌, List, [],
  ◌∷◌, arith, ltb, ◌==◌, if◌then◌else◌, ◌||◌, length,
}

-- `for (i = width - 1; i-- > 0; )` writes dst[i] = '0' + (v & 7) and shifts v by three; what is
-- already written stands to the right of dst[i].
octal_loop : ℕ → ℕ → List ℕ → List ℕ
octal_loop zero v written = written
octal_loop (suc i) v written = octal_loop i (v / 8) ((48 + v % 8) ∷ written)

-- The bytes of the field: width - 1 digits and a NUL.
unfoldable pub octal_field : ℕ → ℕ → List ℕ
unfolding octal_loop
octal_field width v = octal_loop (width - 1) v (0 ∷ [])

-- `v << 3` wraps in the uint64_t, and its three low bits are 0, so that the `|` is a sum.
octal_go : ℕ → List ℕ → ℕ
octal_go v [] = v
octal_go v (c ∷ rest) =
    if c == 0 || c == 32
    then v
    else if ltb c 48 || ltb 55 c
    then 0
    else octal_go ((v * 8) % 2 ^ 64 + (c - 48)) rest

unfoldable pub octal_value : List ℕ → ℕ
unfolding octal_go
octal_value src = octal_go 0 src

length-octal_loop : (i v : ℕ) (w : List ℕ) → length (octal_loop i v w) ≡ i + length w
unfolding octal_loop
length-octal_loop zero v w = omega arith
length-octal_loop (suc i) v w = omega (arith, length-octal_loop i (v / 8) ((48 + v % 8) ∷ w))

-- A field has the width that was asked for.
pub length-octal_field : (width v : ℕ) → 0 < width → length (octal_field width v) ≡ width
unfolding octal_field
length-octal_field width v h = omega (arith, length-octal_loop (width - 1) v (0 ∷ []))

digit_step :
    (a v : ℕ) (rest : List ℕ)
    → a * 8 + v % 8 < 2 ^ 64
    → octal_go a ((48 + v % 8) ∷ rest) ≡ octal_go (a * 8 + v % 8) rest
unfolding octal_go
digit_step a v rest h = ground arith

pow-suc_eight : (k : ℕ) → 8 ^ suc k ≡ 8 * 8 ^ k
pow-suc_eight k = omega arith

-- The reader, having read `a`, goes through the digits of `v` to `a * 8 ^ k + v`.
octal_go-octal_loop :
    (k a v : ℕ) (w : List ℕ)
    → v < 8 ^ k
    → a * 8 ^ k + v < 2 ^ 64
    → octal_go a (octal_loop k v w) ≡ octal_go (a * 8 ^ k + v) w
unfolding octal_loop
octal_go-octal_loop zero a v w h fits = ap (λ t. octal_go t w) (omega arith)
octal_go-octal_loop (suc k) a v w h fits =
    octal_go a (octal_loop k (v / 8) ((48 + v % 8) ∷ w))
    ≡⟨ octal_go-octal_loop k a (v / 8) ((48 + v % 8) ∷ w) (omega (arith, pow-suc_eight k))
        (omega (arith, split)) ⟩
      octal_go (a * 8 ^ k + v / 8) ((48 + v % 8) ∷ w)
    ≡⟨ digit_step (a * 8 ^ k + v / 8) v w (omega (arith, split)) ⟩
      octal_go ((a * 8 ^ k + v / 8) * 8 + v % 8) w
    ≡⟨ ap (λ t. octal_go t w) (omega (arith, split)) ⟩ octal_go (a * 8 ^ suc k + v) w ∎
  where
    split : a * 8 ^ suc k ≡ a * 8 ^ k * 8
    split = omega (arith, ap (λ (t : ℕ). a * t) (pow-suc_eight k))

octal_loop-append :
    (k v : ℕ) (w rest : List ℕ) → octal_loop k v w ++ rest ≡ octal_loop k v (w ++ rest)
unfolding octal_loop
octal_loop-append zero v w rest = refl
octal_loop-append (suc k) v w rest = octal_loop-append k (v / 8) ((48 + v % 8) ∷ w) rest

-- `octalValue` reads back what `octalField` wrote, whatever stands behind the NUL, when the number has
-- at most width - 1 octal digits and fits an uint64_t.
pub octal_value-octal_field :
    (width v : ℕ) (rest : List ℕ)
    → v < 8 ^ (width - 1)
    → v < 2 ^ 64
    → octal_value (octal_field width v ++ rest) ≡ v
unfolding octal_value octal_field
octal_value-octal_field width v rest h fits =
    rw octal_loop-append (octal_go-octal_loop (width - 1) 0 v (0 ∷ rest) h (omega arith) ∙ last)
  where
    last : octal_go (0 * 8 ^ (width - 1) + v) (0 ∷ rest) ≡ v
    last = unfold octal_go in omega arith

-- A digit is a byte.
pub All-octal_field {ℓ} :
    (P : ℕ → Type ℓ) (width v : ℕ)
    → P 0
    → ((d : ℕ) → 48 ≤ d → d < 56 → P d)
    → All P (octal_field width v)
unfolding octal_field octal_loop
All-octal_field P width v nul digit = go (width - 1) v (0 ∷ []) (nul, tt)
  where
    go : (k v : ℕ) (w : List ℕ) → All P w → All P (octal_loop k v w)
    go zero v w h = h
    go (suc k) v w h =
        go k (v / 8) ((48 + v % 8) ∷ w) (digit (48 + v % 8) (omega arith) (omega arith), h)
