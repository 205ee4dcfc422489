-- ===== src/Targz/Gzip/Loop.antt =====
-- The loop over the bytes of a gzip header: its turns take a byte each, so fuel beyond the run changes
-- nothing.
use spangap_core.Base.{
  ℕ, zero, suc, ◌≤◌, min, ◌≡◌, refl, sym, ◌∙◌, List, [], ◌∷◌, arith, length, drop, length-drop,
}
use spangap_core.Targz.Tar.{
  Err, ok, err_magic, err_deflate, err_tar, err_unsafe, err_crc, err_truncated, err_sink, err_mem,
}
use spangap_core.Targz.Gzip.{
  GzStage, GzHead, gz_fixed, gz_extra_len, gz_extra, gz_fname, gz_fcomment, gz_fhcrc, gz_deflate,
  gz_footer, gz_byte, skip_extra, Turn, by_byte, in_extra, ended, turn_of, gz_after, gz_turn,
  gz_loop,
}
use spangap_core.Targz.Gzip.Heads.{IsHead, Left, gz_byte-IsHead, skip_extra-IsHead}

abbrev pub Header : Type 0
Header = Err × GzHead × List ℕ

-- What a turn does is what its stage says.
abbrev pub Fits : Turn → GzHead → Type 0
Fits by_byte h = h.gz ≡ h.gz
Fits in_extra h = (h.gz ≡ gz_extra) × (1 ≤ h.extra_left)
Fits ended h = h.gz ≡ h.gz

pub stage_Fits :
    (gz : GzStage) (h : GzHead) → h.gz ≡ gz → Left gz h.extra_left → Fits (turn_of gz) h
stage_Fits gz_fixed h e k = refl
stage_Fits gz_extra_len h e k = refl
stage_Fits gz_extra h e k = (e, k)
stage_Fits gz_fname h e k = refl
stage_Fits gz_fcomment h e k = refl
stage_Fits gz_fhcrc h e k = refl
stage_Fits gz_deflate h e k = refl
stage_Fits gz_footer h e k = refl

gz_turn-nil :
    (rest : GzHead → List ℕ → Header) (turn : Turn) (h : GzHead)
    → gz_turn rest turn h [] ≡ (ok, h, [])
unfolding gz_turn
gz_turn-nil rest by_byte h = refl
gz_turn-nil rest in_extra h = refl
gz_turn-nil rest ended h = refl

pub gz_loop-nil : (fuel : ℕ) (h : GzHead) → gz_loop fuel h [] ≡ (ok, h, [])
unfolding gz_loop
gz_loop-nil zero h = refl
gz_loop-nil (suc fuel) h = gz_turn-nil (gz_loop fuel) (turn_of h.gz) h

gz_after-Agree :
    (first second : GzHead → List ℕ → Header) (p : List ℕ) (r : Err × GzHead)
    → first r.1 p ≡ second r.1 p
    → gz_after first p r ≡ gz_after second p r
unfolding gz_after
gz_after-Agree first second p (ok, h) e = e
gz_after-Agree first second p (err_magic, h) e = refl
gz_after-Agree first second p (err_deflate, h) e = refl
gz_after-Agree first second p (err_tar, h) e = refl
gz_after-Agree first second p (err_unsafe, h) e = refl
gz_after-Agree first second p (err_crc, h) e = refl
gz_after-Agree first second p (err_truncated, h) e = refl
gz_after-Agree first second p (err_sink, h) e = refl
gz_after-Agree first second p (err_mem, h) e = refl

-- Two loops that agree on shorter runs agree after a turn.
abbrev Agree : ℕ → (GzHead → List ℕ → Header) → (GzHead → List ℕ → Header) → Type 0
Agree n first second = (h : GzHead) (p : List ℕ) → length p ≤ n → IsHead h → first h p ≡ second h p

gz_turn-Agree :
    (first second : GzHead → List ℕ → Header) (turn : Turn) (h : GzHead) (c : ℕ) (p : List ℕ)
    → Agree (length p) first second
    → IsHead h
    → Fits turn h
    → gz_turn first turn h (c ∷ p) ≡ gz_turn second turn h (c ∷ p)
unfolding gz_turn
gz_turn-Agree first second ended h c p a k f = refl
gz_turn-Agree first second by_byte h c p a k f =
    gz_after-Agree first second p (gz_byte h.gz h c)
      (a (gz_byte h.gz h c).1 p (omega arith) (gz_byte-IsHead h.gz h c k))
gz_turn-Agree first second in_extra h c p a k f =
    let n = min (length (c ∷ p)) h.extra_left in
    a (skip_extra h n) (drop n (c ∷ p)) (omega (arith, length-drop n (c ∷ p), f.1))
      (skip_extra-IsHead h n f.0)

-- Fuel beyond the length of the run changes nothing.
pub gz_loop-fuel :
    (some_fuel other : ℕ) (h : GzHead) (p : List ℕ)
    → length p ≤ some_fuel
    → length p ≤ other
    → IsHead h
    → gz_loop some_fuel h p ≡ gz_loop other h p
unfolding gz_loop
gz_loop-fuel zero other h [] a b k = sym (gz_loop-nil other h)
gz_loop-fuel zero other h (c ∷ p) a b k = ground arith
gz_loop-fuel (suc f) zero h [] a b k = gz_loop-nil (suc f) h
gz_loop-fuel (suc f) zero h (c ∷ p) a b k = ground arith
gz_loop-fuel (suc f) (suc g) h [] a b k = gz_loop-nil (suc f) h ∙ sym (gz_loop-nil (suc g) h)
gz_loop-fuel (suc f) (suc g) h (c ∷ p) a b k =
    gz_turn-Agree (gz_loop f) (gz_loop g) (turn_of h.gz) h c p
      (λ h1 p1 l k1. gz_loop-fuel f g h1 p1 (omega arith) (omega arith) k1) k
      (stage_Fits h.gz h refl k)
