-- ===== src/Log/Reformat/Escapes.antt =====
-- What stripping does to texts, colours and their sums.
use spangap_core.Base.{
  ℕ, ◌≤◌, ◌≡◌, refl, sym, ap, ◌∙◌, ◌≢◌, true, false, List, [], ◌∷◌, ◌++◌, append-nil, append_assoc,
  ne→==, length, All,
}
use spangap_core.Log.Ansi.{strip_from, strip_ansi}
use spangap_core.Log.Reformat.{escape}

-- Not an ESC.
abbrev pub IsText : ℕ → Type 0
IsText c = c ≢ 27

abbrev pub IsColor : List ℕ → Type 0
IsColor color = All (λ c. c ≢ 109) color × (length color ≤ 15)

-- Whatever follows, stripping `a` leaves `b`.
abbrev pub Strips : List ℕ → List ℕ → Type 0
Strips a b = (ys : List ℕ) → strip_from false (a ++ ys) ≡ b ++ strip_from false ys

pub Strips-text : (xs : List ℕ) → All IsText xs → Strips xs xs
unfolding strip_from
Strips-text [] h ys = refl
Strips-text (c ∷ cs) (h, hs) ys = rw (ne→== c 27 h) (ap (λ w. c ∷ w) (Strips-text cs hs ys))

pub Strips-append : (a b c d : List ℕ) → Strips a b → Strips c d → Strips (a ++ c) (b ++ d)
Strips-append a b c d h k ys =
    ap (strip_from false) (append_assoc a c ys)
    ∙ h (c ++ ys)
    ∙ ap (λ w. b ++ w) (k ys)
    ∙ sym (append_assoc b d (strip_from false ys))

inside :
    (color ys : List ℕ)
    → All (λ c. c ≢ 109) color
    → strip_from true (color ++ 109 ∷ ys) ≡ strip_from false ys
unfolding strip_from
inside [] ys h = refl
inside (c ∷ cs) ys (h, hs) = rw (ne→== c 109 h) (inside cs ys hs)

pub Strips-escape : (color : List ℕ) → All (λ c. c ≢ 109) color → Strips (escape color) []
unfolding strip_from
Strips-escape color h ys =
    ap (strip_from true) (append_assoc color (109 ∷ []) ys) ∙ inside color ys h

pub strip_ansi-Strips : (a b : List ℕ) → Strips a b → strip_ansi a ≡ b
unfolding strip_ansi strip_from
strip_ansi-Strips a b h = ap (strip_from false) (sym (append-nil a)) ∙ h [] ∙ append-nil b
