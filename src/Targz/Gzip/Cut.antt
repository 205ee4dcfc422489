-- ===== src/Targz/Gzip/Cut.antt =====
-- The gzip header does not depend on how its bytes are cut into runs.
use spangap_core.Base.{
  ℕ, zero, suc, ◌+◌, ◌-◌, ◌≤◌, ◌<◌, min, ◌≡◌, refl, sym, ap, ◌∙◌, inl, inr, List, [], ◌∷◌, ◌++◌,
  arith, leb, ◌==◌, if◌then◌else◌, Bool-cases, leb→le, leb→lt, ne→==, length, drop, length-append,
  drop-all, drop-append_le, drop-append_ge, length-drop,
}
use spangap_core.Targz.Tar.{
  Err, ok, err_magic, err_deflate, err_tar, err_unsafe, err_crc, err_truncated, err_sink, err_mem,
}
use spangap_core.Targz.Gzip.{
  GzHead, gz_extra, after_extra, gz_byte, skip_extra, Turn, by_byte, in_extra, ended, turn_of,
  gz_after, gz_turn, gz_loop, gz_header,
}
use spangap_core.Targz.Gzip.Heads.{IsHead, gz_byte-IsHead, skip_extra-IsHead}
use spangap_core.Targz.Gzip.Loop.{Header, Fits, stage_Fits, gz_loop-nil, gz_loop-fuel}

-- The header goes on with what the next run brings, unless it was refused.
pub gz_resume : Header → List ℕ → Header
gz_resume (ok, h, p) q = gz_header h (p ++ q)
gz_resume (e, h, p) q = (e, h, p ++ q)

gz_after-resume :
    (whole part : GzHead → List ℕ → Header) (p q : List ℕ) (r : Err × GzHead)
    → whole r.1 (p ++ q) ≡ gz_resume (part r.1 p) q
    → gz_after whole (p ++ q) r ≡ gz_resume (gz_after part p r) q
unfolding gz_after gz_resume
gz_after-resume whole part p q (ok, h) e = e
gz_after-resume whole part p q (err_magic, h) e = refl
gz_after-resume whole part p q (err_deflate, h) e = refl
gz_after-resume whole part p q (err_tar, h) e = refl
gz_after-resume whole part p q (err_unsafe, h) e = refl
gz_after-resume whole part p q (err_crc, h) e = refl
gz_after-resume whole part p q (err_truncated, h) e = refl
gz_after-resume whole part p q (err_sink, h) e = refl
gz_after-resume whole part p q (err_mem, h) e = refl

-- Past the header the bytes stay.
gz_header-ended :
    (h : GzHead) (c : ℕ) (p : List ℕ) → turn_of h.gz ≡ ended → gz_header h (c ∷ p) ≡ (ok, h, c ∷ p)
unfolding gz_header gz_loop gz_turn
gz_header-ended h c p e = rw e refl

module _ (h : GzHead) (g : h.gz ≡ gz_extra) where
  -- The extra field goes on in the next run.
  skip_extra-part :
      (n : ℕ) → n < h.extra_left → skip_extra h n ≡ record h { extra_left = h.extra_left - n }
  unfolding skip_extra
  skip_extra-part n l = rw (ne→== (h.extra_left - n) 0 (omega arith)) refl

  skip_extra-rest :
      (n m : ℕ) → skip_extra (record h { extra_left = h.extra_left - n }) m ≡ skip_extra h (n + m)
  unfolding skip_extra
  skip_extra-rest n m =
      ap
        (λ (k : ℕ).
          if k == 0
          then record h { extra_left = k; gz = after_extra h.flags }
          else record h { extra_left = k })
        (omega arith)

  turn_extra :
      (rest : GzHead → List ℕ → Header) (c : ℕ) (p : List ℕ) (left n : ℕ)
      → min (length (c ∷ p)) left ≡ n
      → gz_turn rest in_extra (record h { extra_left = left }) (c ∷ p)
        ≡ rest (skip_extra (record h { extra_left = left }) n) (drop n (c ∷ p))
  unfolding gz_turn
  turn_extra rest c p left n e =
      ap (λ (k : ℕ). rest (skip_extra (record h { extra_left = left }) k) (drop k (c ∷ p))) e

  -- The next run starts inside of the extra field, of which a run has taken `n` bytes.
  extra_next :
      (fuel n : ℕ) (q : List ℕ)
      → n < h.extra_left
      → length q ≤ fuel
      → gz_header (skip_extra h n) q
        ≡ gz_loop fuel
            (skip_extra h (n + min (length q) (h.extra_left - n)))
            (drop (min (length q) (h.extra_left - n)) q)
  unfolding gz_header gz_loop
  extra_next fuel n [] l b =
      let none_taken : n ≡ n + 0 = omega arith in
      let empty : 0 ≡ min 0 (h.extra_left - n) = omega arith in
      sym (gz_loop-nil fuel (skip_extra h n))
      ∙ ap (λ (k : ℕ). gz_loop fuel (skip_extra h k) []) none_taken
      ∙ ap (λ (k : ℕ). gz_loop fuel (skip_extra h (n + k)) (drop k [])) empty
  extra_next fuel n (d ∷ q) l b =
      let m = min (length (d ∷ q)) (h.extra_left - n) in
      ap (λ k. gz_header k (d ∷ q)) (skip_extra-part n l)
      ∙ ap
          (λ s.
            gz_turn (gz_loop (length q)) (turn_of s) record h { extra_left = h.extra_left - n }
              (d ∷ q))
          g
      ∙ turn_extra (gz_loop (length q)) d q (h.extra_left - n) m refl
      ∙ ap (λ k. gz_loop (length q) k (drop m (d ∷ q))) (skip_extra-rest n m)
      ∙ gz_loop-fuel (length q) fuel (skip_extra h (n + m)) (drop m (d ∷ q))
          (omega (arith, length-drop m (d ∷ q))) (omega (arith, length-drop m (d ∷ q)))
          (skip_extra-IsHead h (n + m) g)

-- The turns on a run that goes on, `part` being the loop on the first part of it.
gz_turn-cut :
    (turn : Turn) (fuel total : ℕ) (h : GzHead) (c : ℕ) (p q : List ℕ)
    → turn_of h.gz ≡ turn
    → length (p ++ q) ≤ total
    → IsHead h
    → Fits turn h
    → ((h1 : GzHead) (p1 : List ℕ)
        → length p1 ≤ length p
        → IsHead h1
        → gz_loop total h1 (p1 ++ q) ≡ gz_resume (gz_loop fuel h1 p1) q)
    → gz_turn (gz_loop total) turn h (c ∷ (p ++ q))
      ≡ gz_resume (gz_turn (gz_loop fuel) turn h (c ∷ p)) q
unfolding gz_turn gz_resume
gz_turn-cut ended fuel total h c p q t b k f later = sym (gz_header-ended h c (p ++ q) t)
gz_turn-cut by_byte fuel total h c p q t b k f later =
    gz_after-resume (gz_loop total) (gz_loop fuel) p q (gz_byte h.gz h c)
      (later (gz_byte h.gz h c).1 p (omega arith) (gz_byte-IsHead h.gz h c k))
gz_turn-cut in_extra fuel total h c p q t b k f later =
    elim (Bool-cases (leb h.extra_left (length (c ∷ p)))) [
      | inl a ↦
          let n = h.extra_left in
          let fits = leb→le n (length (c ∷ p)) a in
          turn_extra h f.0 (gz_loop total) c (p ++ q) n n (omega (arith, fits, length-append p q))
          ∙ ap (gz_loop total (skip_extra h n)) (drop-append_le n (c ∷ p) q fits)
          ∙ later (skip_extra h n) (drop n (c ∷ p)) (omega (arith, f.1, length-drop n (c ∷ p)))
              (skip_extra-IsHead h n f.0)
          ∙ ap (λ r. gz_resume r q)
              (sym (turn_extra h f.0 (gz_loop fuel) c p n n (omega (arith, fits))))
      | inr a ↦
          let n = length (c ∷ p) in
          let over = leb→lt h.extra_left n a in
          let m = min (length q) (h.extra_left - n) in
          turn_extra h f.0 (gz_loop total) c (p ++ q) h.extra_left (n + m)
            (omega (arith, over, length-append p q))
          ∙ ap (gz_loop total (skip_extra h (n + m))) (
              drop-append_ge (n + m) (c ∷ p) q (omega arith)
              ∙ ap (λ (j : ℕ). drop j q) (omega arith))
          ∙ sym (extra_next h f.0 total n q over (omega (arith, b, length-append p q)))
          ∙ ap (λ r. gz_resume r q)
              (sym (
                turn_extra h f.0 (gz_loop fuel) c p h.extra_left n (omega (arith, over))
                ∙ ap (gz_loop fuel (skip_extra h n)) (drop-all n (c ∷ p) (omega arith))
                ∙ gz_loop-nil fuel (skip_extra h n)))
    ]

gz_loop-cut :
    (fuel total : ℕ) (h : GzHead) (p q : List ℕ)
    → length p ≤ fuel
    → length (p ++ q) ≤ total
    → IsHead h
    → gz_loop total h (p ++ q) ≡ gz_resume (gz_loop fuel h p) q
unfolding gz_loop gz_resume gz_header
gz_loop-cut fuel total h [] q a b k =
    gz_loop-fuel total (length q) h q b (omega arith) k
    ∙ ap (λ r. gz_resume r q) (sym (gz_loop-nil fuel h))
gz_loop-cut zero total h (c ∷ p) q a b k = ground arith
gz_loop-cut (suc fuel) zero h (c ∷ p) q a b k = ground arith
gz_loop-cut (suc fuel) (suc total) h (c ∷ p) q a b k =
    gz_turn-cut (turn_of h.gz) fuel total h c p q refl (omega arith) k (stage_Fits h.gz h refl k)
      (λ h1 p1 l k1.
        gz_loop-cut fuel total h1 p1 q (omega arith)
          (omega (arith, length-append p1 q, length-append p q)) k1)

-- The header gives the same whether its bytes come in one run or in two: the second run takes up where
-- the first left the header, and what is refused in the first stays refused.
pub gz_header-cut :
    (h : GzHead) (p q : List ℕ) → IsHead h → gz_header h (p ++ q) ≡ gz_resume (gz_header h p) q
unfolding gz_header
gz_header-cut h p q k = gz_loop-cut (length p) (length (p ++ q)) h p q (omega arith) (omega arith) k
