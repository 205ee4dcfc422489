-- ===== src/Targz/Reader/Footer.antt =====
-- Runs fed to a reader one after the other, and the footer at their end.
use spangap_core.Base.{
  ℕ, zero, suc, ◌+◌, ◌-◌, ◌≤◌, min, ◌≡◌, refl, sym, ap, ◌∙◌, inl, inr, true, false, List, [], ◌∷◌,
  ◌++◌, append-nil, append_assoc, arith, leb, Bool-cases, leb→le, leb→lt, length, take, drop,
  length-append, drop-all, drop-append_le, drop-drop, drop-append_ge, length-drop, take-append_le,
  take-append_ge, take-all,
}
use spangap_core.Targz.Tar.{Callbacks}
use spangap_core.Targz.Reader.{
  Tinfl, gz_foot_len, is_ok, stage_of, past_header, feed_run, hold_next, feed_body,
  targz_reader_feed,
}
use spangap_core.Targz.Reader.Hold.{State, Kept-trans, feed_run-Kept}
use spangap_core.Targz.Reader.Handed.{with_hold, handed, handed-with_hold, handed-append}

-- The last eight bytes, or all when there are fewer.
abbrev pub last_eight : List ℕ → List ℕ
last_eight b = drop (length b - gz_foot_len) b

-- All but the last eight bytes, or none when there are fewer.
abbrev pub but_last_eight : List ℕ → List ℕ
but_last_eight b = take (length b - gz_foot_len) b

take_sum : (k n : ℕ) (b : List ℕ) → take k b ++ take n (drop k b) ≡ take (k + n) b
take_sum zero n b = ap (λ (i : ℕ). take i b) (omega arith)
take_sum (suc k) zero [] =
    let same : suc k ≡ suc k + 0 = omega arith in ap (λ (i : ℕ). take i []) same
take_sum (suc k) (suc n) [] =
    let same : suc (k + suc n) ≡ suc k + suc n = omega arith in ap (λ (i : ℕ). take i []) same
take_sum (suc k) n (c ∷ b) =
    let same : suc (k + n) ≡ suc k + n = omega arith in
    ap (λ (t : List ℕ). c ∷ t) (take_sum k n b) ∙ ap (λ (i : ℕ). take i (c ∷ b)) same

module _ (x y : List ℕ) where
  abbrev k : ℕ
  k = length x - 8

  abbrev n : ℕ
  n = length (drop k x ++ y) - 8

  k_n : k + n ≡ length (x ++ y) - 8
  k_n = omega (arith, length-append x y, length-append (drop k x) y, length-drop k x)

  -- Keeping back the last eight of what was kept back and what comes is keeping back the last eight of all.
  last_eight-append : last_eight (last_eight x ++ y) ≡ last_eight (x ++ y)
  last_eight-append =
      ap (drop n) (sym (drop-append_le k x y (omega arith)))
      ∙ drop-drop n k (length (x ++ y) - 8) (x ++ y) (omega (arith, k_n))

  -- And what goes before them is what went before, and then the rest.
  but_last_eight-append :
      but_last_eight x ++ but_last_eight (last_eight x ++ y) ≡ but_last_eight (x ++ y)
  but_last_eight-append =
      ap (λ (a : List ℕ). a ++ take n (drop k x ++ y)) (sym (take-append_le k x y (omega arith)))
      ∙ ap (λ (b : List ℕ). take k (x ++ y) ++ take n b) (sym (drop-append_le k x y (omega arith)))
      ∙ take_sum k n (x ++ y)
      ∙ ap (λ (i : ℕ). take i (x ++ y)) k_n

length-last_eight : (x : List ℕ) → length (last_eight x) ≤ 8
length-last_eight x = omega (arith, length-drop (length x - 8) x)

drop_split :
    (feed : ℕ) (x y : List ℕ)
    → drop (min feed (length x)) x ++ drop (feed - min feed (length x)) y ≡ drop feed (x ++ y)
drop_split feed x y = elim (Bool-cases (leb feed (length x))) [
  | inl a ↦
      let h = leb→le feed (length x) a in
      let part : min feed (length x) ≡ feed = omega (arith, h) in
      let nothing : feed - feed ≡ 0 = omega arith in
      rw (part, nothing) (sym (drop-append_le feed x y h))
  | inr a ↦
      let h = leb→lt feed (length x) a in
      let all : min feed (length x) ≡ length x = omega (arith, h) in
      rw all (
        ap (λ (b : List ℕ). b ++ drop (feed - length x) y) (drop-all (length x) x (omega arith))
        ∙ sym (drop-append_ge feed x y (omega (arith, h))))
]

take_split :
    (feed : ℕ) (x y : List ℕ)
    → take (min feed (length x)) x ++ take (feed - min feed (length x)) y ≡ take feed (x ++ y)
take_split feed x y = elim (Bool-cases (leb feed (length x))) [
  | inl a ↦
      let h = leb→le feed (length x) a in
      let part : min feed (length x) ≡ feed = omega (arith, h) in
      let nothing : feed - feed ≡ 0 = omega arith in
      rw (part, nothing) (append-nil (take feed x) ∙ sym (take-append_le feed x y h))
  | inr a ↦
      let h = leb→lt feed (length x) a in
      let all : min feed (length x) ≡ length x = omega (arith, h) in
      rw all (
        ap (λ (b : List ℕ). b ++ take (feed - length x) y) (take-all (length x) x (omega arith))
        ∙ sym (take-append_ge feed x y (omega (arith, h))))
]

abbrev pub joined : List (List ℕ) → List ℕ
joined [] = []
joined (p ∷ ps) = p ++ joined ps

module _ (tn : Tinfl) (cb : Callbacks) where
  abbrev R : Type 0
  R = State tn cb

  -- Past the header, and holding no more than a footer.
  abbrev pub IsInBody : R → Type 0
  IsInBody r = (past_header (stage_of r) ≡ true) × (length r.hold ≤ gz_foot_len)

  -- How a reader stands after a call that went well, `all` being the bytes kept back before it and the
  -- bytes that it took: the decompressor was handed all but the last eight, and those are kept back.
  pub record Handed (r : R) (all : List ℕ) (t : R) : Type 0 where
    pub runs : List (List ℕ)
    pub handed_all : joined runs ≡ but_last_eight all
    pub state : t ≡ with_hold tn cb (last_eight all) (handed tn cb r runs)

  abbrev Fed : R → List ℕ → R → Type 0
  Fed r p t = (past_header (stage_of t) ≡ true) × (is_ok t.err ≡ true → Handed r (r.hold ++ p) t)

  -- Nothing is handed on while there are no more than eight bytes.
  kept-Handed : (r : R) (all : List ℕ) → length all ≤ 8 → Handed r all (with_hold tn cb all r)
  unfolding handed
  kept-Handed r all few =
      let none : 0 ≡ length all - 8 = omega arith in
      record {
        runs = [];
        handed_all = ap (λ (i : ℕ). take i all) none;
        state = ap (λ (i : ℕ). with_hold tn cb (drop i all) r) none;
      }

  hold_next-Handed :
      (r t : R) (all : List ℕ)
      → past_header (stage_of t) ≡ true
      → Handed r all (with_hold tn cb (last_eight all) t)
      → (past_header (stage_of (hold_next tn cb t (last_eight all))) ≡ true)
        × (is_ok (hold_next tn cb t (last_eight all)).err ≡ true
            → Handed r all (hold_next tn cb t (last_eight all)))
  unfolding hold_next
  hold_next-Handed r t all s h = elim (Bool-cases (is_ok t.err)) [
    | inl a ↦ rw a (s, λ x. h)
    | inr a ↦ rw a (s, λ x. ground (arith, x, a))
  ]

  feed_body-Fed :
      (r : R) (p : List ℕ) → past_header (stage_of r) ≡ true → Fed r p (feed_body tn cb r p)
  unfolding feed_body handed
  feed_body-Fed r p s =
      let total = length r.hold + length p in
      let feed = total - gz_foot_len in
      let n = min feed (length r.hold) in
      let half = feed_run tn cb r (take n r.hold) in
      let t = feed_run tn cb half (take (feed - n) p) in
      let all = r.hold ++ p in
      let kept =
        Kept-trans tn cb r half t (feed_run-Kept tn cb r (take n r.hold))
          (feed_run-Kept tn cb half (take (feed - n) p)) in
      let count : feed ≡ length all - 8 = omega (arith, length-append r.hold p) in
      let next = drop_split feed r.hold p ∙ ap (λ (k : ℕ). drop k all) count in
      let given = take_split feed r.hold p ∙ ap (λ (k : ℕ). take k all) count in
      elim (Bool-cases (leb total gz_foot_len)) [
        | inl a ↦
            rw a
              (s, λ x. kept-Handed r all (omega (arith, leb→le total 8 a, length-append r.hold p)))
        | inr a ↦
            rw (a, next)
              (hold_next-Handed r t all (kept.1 s) record {
                runs = take n r.hold ∷ take (feed - n) p ∷ [];
                handed_all =
                    ap (λ (b : List ℕ). take n r.hold ++ b) (append-nil (take (feed - n) p))
                    ∙ given;
                state = refl;
              })
      ]

  targz_reader_feed-Fed :
      (r : R) (p : List ℕ)
      → past_header (stage_of r) ≡ true
      → is_ok r.err ≡ true
      → Fed r p (targz_reader_feed tn cb r p)
  unfolding targz_reader_feed
  targz_reader_feed-Fed r p s k = rw (k, s) (feed_body-Fed r p s)

  -- An error stays, and nothing else changes.
  targz_reader_feed-failed :
      (r : R) (p : List ℕ) → is_ok r.err ≡ false → targz_reader_feed tn cb r p ≡ r
  unfolding targz_reader_feed
  targz_reader_feed-failed r p k = rw k refl

  -- Runs fed one after the other.
  unfoldable pub feeds : R → List (List ℕ) → R
  feeds r [] = r
  feeds r (p ∷ ps) = feeds (targz_reader_feed tn cb r p) ps

  feeds-failed : (r : R) (ps : List (List ℕ)) → is_ok r.err ≡ false → feeds r ps ≡ r
  unfolding feeds
  feeds-failed r [] k = refl
  feeds-failed r (p ∷ ps) k =
      ap (λ t. feeds t ps) (targz_reader_feed-failed r p k) ∙ feeds-failed r ps k

  joined-append : (ws xs : List (List ℕ)) → joined (ws ++ xs) ≡ joined ws ++ joined xs
  joined-append [] xs = refl
  joined-append (w ∷ ws) xs =
      ap (λ (b : List ℕ). w ++ b) (joined-append ws xs)
      ∙ sym (append_assoc w (joined ws) (joined xs))

  -- One call after the other.
  Handed-trans :
      (r t u : R) (x y : List ℕ) → Handed r x t → Handed t (t.hold ++ y) u → Handed r (x ++ y) u
  Handed-trans r t u x y a b =
      let held : t.hold ≡ last_eight x = ap (λ (v : R). v.hold) a.state in
      let most : joined b.runs ≡ but_last_eight (last_eight x ++ y) =
        b.handed_all ∙ ap (λ (h : List ℕ). but_last_eight (h ++ y)) held in
      let last : last_eight (t.hold ++ y) ≡ last_eight (x ++ y) =
        ap (λ (h : List ℕ). last_eight (h ++ y)) held ∙ last_eight-append x y in
      record {
        runs = a.runs ++ b.runs;
        handed_all =
            joined-append a.runs b.runs ∙ rw (a.handed_all, most) (but_last_eight-append x y);
        state =
            b.state
            ∙ rw last (
                ap (with_hold tn cb (last_eight (x ++ y))) (
                  ap (λ v. handed tn cb v b.runs) a.state
                  ∙ handed-with_hold tn cb (last_eight x) (handed tn cb r a.runs) b.runs
                  ∙ ap (with_hold tn cb (last_eight x))
                      (sym (handed-append tn cb r a.runs b.runs))));
      }

  -- Take a reader past the header that keeps back no more than eight bytes, and feed it runs one after
  -- the other that end without an error. With `all` for the bytes that it kept back and the bytes of
  -- the runs, it ends as if the decompressor had been handed all but the last eight of `all`, in some
  -- pieces, and nothing else; and the last eight of `all`, or all when there are fewer, are kept back.
  pub feeds-Handed :
      (r : R) (ps : List (List ℕ))
      → IsInBody r
      → is_ok (feeds r ps).err ≡ true
      → Handed r (r.hold ++ joined ps) (feeds r ps)
  unfolding feeds
  feeds-Handed r [] b k = rw (append-nil r.hold) (kept-Handed r r.hold (omega (arith, b.1)))
  feeds-Handed r (p ∷ ps) b k = elim (Bool-cases (is_ok r.err)) [
    | inl a ↦
        let t = targz_reader_feed tn cb r p in
        let f = targz_reader_feed-Fed r p b.0 a in
        elim (Bool-cases (is_ok t.err)) [
          | inl c ↦
              let x = r.hold ++ p in
              let short : length t.hold ≤ 8 =
                omega (arith, ap (λ (v : R). length v.hold) (f.1 c).state, length-last_eight x) in
              rw (← append_assoc r.hold p (joined ps)) (
                Handed-trans r t (feeds t ps) x (joined ps) (f.1 c)
                  (feeds-Handed t ps (f.0, short) k))
          | inr c ↦ ground (arith, ap (λ (u : R). is_ok u.err) (feeds-failed t ps c), c, k)
        ]
    | inr a ↦ ground (arith, ap (λ (u : R). is_ok u.err) (feeds-failed r (p ∷ ps) a), a, k)
  ]
