-- ===== src/Log/Ansi.antt =====
-- containsAnsi and stripAnsi of esp-idf/src/log.cpp.
use spangap_core.Base.{ℕ, Bool, false, not, ◌&&◌, ◌||◌, List, [], ◌∷◌, ◌==◌, if◌then◌else◌, get_or}

-- ESC and the bracket after it.
abbrev pub opens_seq : ℕ → List ℕ → Bool
opens_seq c cs = c == 27 && get_or cs 0 0 == 91

unfoldable pub contains_ansi : List ℕ → Bool
contains_ansi [] = false
contains_ansi (c ∷ cs) = opens_seq c cs || contains_ansi cs

-- Whether the byte after this one belongs to an escape sequence.
abbrev pub still_inside : Bool → ℕ → List ℕ → Bool
still_inside inside c cs = if inside then not (c == 109) else opens_seq c cs

-- The loop of stripAnsi, inside a sequence or not.
unfoldable pub strip_from : Bool → List ℕ → List ℕ
strip_from inside [] = []
strip_from inside (c ∷ cs) =
    let more = still_inside inside c cs in
    let rest = strip_from more cs in if inside || more then rest else c ∷ rest

unfoldable pub strip_ansi : List ℕ → List ℕ
strip_ansi buf = strip_from false buf
