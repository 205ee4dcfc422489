-- ===== src/Log/Ring/Window.antt =====
-- The bytes between two positions of the ring.
use spangap_core.Base.{
  ℕ, zero, suc, ◌+◌, ◌%◌, ◌≤◌, ◌<◌, ◌≡◌, refl, sym, ap, ◌∙◌, ◌≢◌, List, [], ◌∷◌, ◌++◌, append-nil,
  append_assoc, arith, length, get_or, set,
}
use spangap_core.Log.Ring.{slot, put_loop, get_loop}

pub length-set : (xs : List ℕ) (i v : ℕ) → length (set xs i v) ≡ length xs
length-set [] i v = refl
length-set (x ∷ xs) zero v = refl
length-set (x ∷ xs) (suc i) v = ap suc (length-set xs i v)

get_or-set_self : (xs : List ℕ) (i v : ℕ) → i < length xs → get_or (set xs i v) i 0 ≡ v
get_or-set_self [] i v h = ground arith
get_or-set_self (x ∷ xs) zero v h = refl
get_or-set_self (x ∷ xs) (suc i) v h = get_or-set_self xs i v (omega arith)

get_or-set_ne : (xs : List ℕ) (i j v : ℕ) → i ≢ j → get_or (set xs i v) j 0 ≡ get_or xs j 0
get_or-set_ne [] i j v h = refl
get_or-set_ne (x ∷ xs) zero zero v h = ground (arith, h)
get_or-set_ne (x ∷ xs) zero (suc j) v h = refl
get_or-set_ne (x ∷ xs) (suc i) zero v h = refl
get_or-set_ne (x ∷ xs) (suc i) (suc j) v h = get_or-set_ne xs i j v (λ e. h (ap suc e))

-- A write ahead of a window, less than a turn from its start, leaves it alone.
get_loop-set :
    (cells : List ℕ) (t n p v : ℕ)
    → t + n ≤ p
    → p < t + 8192
    → get_loop (set cells (slot p) v) t n ≡ get_loop cells t n
unfolding get_loop
get_loop-set cells t zero p v a b = refl
get_loop-set cells t (suc n) p v a b =
    let apart : slot p ≢ slot t = λ e. omega (arith, e) in
    ap (λ c. c ∷ get_loop (set cells (slot p) v) (t + 1) n)
      (get_or-set_ne cells (slot p) (slot t) v apart)
    ∙ ap (λ w. get_or cells (slot t) 0 ∷ w)
        (get_loop-set cells (t + 1) n p v (omega arith) (omega arith))

-- A window with one more byte.
get_loop-last :
    (cells : List ℕ) (t n : ℕ)
    → get_loop cells t (suc n) ≡ get_loop cells t n ++ get_or cells (slot (t + n)) 0 ∷ []
unfolding get_loop
get_loop-last cells t zero = ap (λ q. get_or cells (slot q) 0 ∷ []) (omega arith)
get_loop-last cells t (suc n) =
    ap (λ w. get_or cells (slot t) 0 ∷ w) (get_loop-last cells (t + 1) n)
    ∙ ap (λ q. get_or cells (slot t) 0 ∷ get_loop cells (t + 1) n ++ get_or cells (slot q) 0 ∷ [])
        (omega arith)

-- Positions that differ by whole turns are the same.
pub put_loop-slot :
    (cells : List ℕ) (p q : ℕ) (bytes : List ℕ)
    → p % 8192 ≡ q % 8192
    → put_loop cells p bytes ≡ put_loop cells q bytes
unfolding put_loop
put_loop-slot cells p q [] h = refl
put_loop-slot cells p q (b ∷ bs) h =
    let same : slot p ≡ slot q = omega (arith, h) in
    ap (λ i. put_loop (set cells i b) (p + 1) bs) same
    ∙ put_loop-slot (set cells (slot q) b) (p + 1) (q + 1) bs (omega (arith, h))

pub get_loop-slot :
    (cells : List ℕ) (p q n : ℕ) → p % 8192 ≡ q % 8192 → get_loop cells p n ≡ get_loop cells q n
unfolding get_loop
get_loop-slot cells p q zero h = refl
get_loop-slot cells p q (suc n) h =
    let same : slot p ≡ slot q = omega (arith, h) in
    ap (λ i. get_or cells i 0 ∷ get_loop cells (p + 1) n) same
    ∙ ap (λ w. get_or cells (slot q) 0 ∷ w)
        (get_loop-slot cells (p + 1) (q + 1) n (omega (arith, h)))

pub length-put_loop :
    (cells : List ℕ) (p : ℕ) (bytes : List ℕ) → length (put_loop cells p bytes) ≡ length cells
unfolding put_loop
length-put_loop cells p [] = refl
length-put_loop cells p (b ∷ bs) =
    length-put_loop (set cells (slot p) b) (p + 1) bs ∙ length-set cells (slot p) b

pub length-get_loop : (cells : List ℕ) (t n : ℕ) → length (get_loop cells t n) ≡ n
unfolding get_loop
length-get_loop cells t zero = refl
length-get_loop cells t (suc n) = ap suc (length-get_loop cells (t + 1) n)

pub get_loop-split :
    (cells : List ℕ) (t a b : ℕ)
    → get_loop cells t (a + b) ≡ get_loop cells t a ++ get_loop cells (t + a) b
unfolding get_loop
get_loop-split cells t zero b =
    let none_more : 0 + b ≡ b = omega arith in
    let here : t ≡ t + 0 = omega arith in
    ap (get_loop cells t) none_more ∙ ap (λ (q : ℕ). get_loop cells q b) here
get_loop-split cells t (suc a) b =
    let more : suc a + b ≡ suc (a + b) = omega arith in
    ap (get_loop cells t) more
    ∙ ap (λ w. get_or cells (slot t) 0 ∷ w) (get_loop-split cells (t + 1) a b)
    ∙ ap (λ q. get_or cells (slot t) 0 ∷ get_loop cells (t + 1) a ++ get_loop cells q b)
        (omega arith)

-- A run put at the end of a window that has the room extends the window by the run.
pub get_loop-put_loop :
    (cells : List ℕ) (t n : ℕ) (bytes : List ℕ)
    → length cells ≡ 8192
    → n + length bytes ≤ 8192
    → get_loop (put_loop cells (t + n) bytes) t (n + length bytes) ≡ get_loop cells t n ++ bytes
unfolding put_loop
get_loop-put_loop cells t n [] full fits =
    ap (get_loop cells t) (omega arith) ∙ sym (append-nil (get_loop cells t n))
get_loop-put_loop cells t n (b ∷ bs) full fits =
    let next = set cells (slot (t + n)) b in
    let full' : length next ≡ 8192 = length-set cells (slot (t + n)) b ∙ full in
    let more : n + length (b ∷ bs) ≡ suc n + length bs = omega arith in
    let at : t + n + 1 ≡ t + suc n = omega arith in
    let cell : get_or next (slot (t + n)) 0 ≡ b =
      get_or-set_self cells (slot (t + n)) b (omega (arith, full)) in
    let kept : get_loop next t n ≡ get_loop cells t n =
      get_loop-set cells t n (t + n) b (omega arith) (omega (arith, fits)) in
    ap (λ k. get_loop (put_loop next (t + n + 1) bs) t k) more
    ∙ ap (λ k. get_loop (put_loop next k bs) t (suc n + length bs)) at
    ∙ get_loop-put_loop next t (suc n) bs full' (omega (arith, fits))
    ∙ ap (λ w. w ++ bs) (get_loop-last next t n)
    ∙ ap (λ v. (get_loop next t n ++ v ∷ []) ++ bs) cell
    ∙ ap (λ w. (w ++ b ∷ []) ++ bs) kept
    ∙ append_assoc (get_loop cells t n) (b ∷ []) bs
