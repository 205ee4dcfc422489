-- ===== src/Targz/Names/Safe.antt =====
-- Which names `safeEntryName` accepts, in terms of the components of a path.
use spangap_core.Base.{
  ℕ, suc, ◌+◌, ◌-◌, ◌<◌, ◌≡◌, ◌≢◌, ◌∙◌, refl, ap, inl, inr, List, [], ◌∷◌, ◌++◌, true, false,
  Bool-cases, arith, leb, ◌==◌, ne→==, ==→ne, leb→lt, lt→leb, if◌then◌else◌, All, append_assoc,
  length, get_or, length-append, ◌↔◌,
}
use spangap_core.Targz.Names.{slash, dot, is_dotdot, safe_loop, safe_entry_name}

-- The parts between the slashes; `cur` is what has been read of the first one.
components_from : List ℕ → List ℕ → List (List ℕ)
components_from cur [] = cur ∷ []
components_from cur (c ∷ rest) =
    let next = components_from [] rest in
    let same = components_from (cur ++ (c ∷ [])) rest in if c == slash then cur ∷ next else same

pub components : List ℕ → List (List ℕ)
components name = components_from [] name

abbrev pub all_but_last {ℓ} : {A : Type ℓ} → List A → List A
all_but_last [] = []
all_but_last (x ∷ []) = []
all_but_last (x ∷ y ∷ r) = x ∷ all_but_last (y ∷ r)

abbrev dotdot : List ℕ
dotdot = dot ∷ dot ∷ []

-- No component climbs, and only the last one may be empty.
pub record Climbless (parts : List (List ℕ)) : Type 0 where
  pub no_dotdot : All (λ s. s ≢ dotdot) parts
  pub nonempty : All (λ s. s ≢ []) (all_but_last parts)

all_but_last-cons :
    (x cur rest : List ℕ)
    → all_but_last (x ∷ components_from cur rest) ≡ x ∷ all_but_last (components_from cur rest)
unfolding components_from
all_but_last-cons x cur [] = refl
all_but_last-cons x cur (c ∷ rest) = elim (Bool-cases (c == slash)) [
  | inl e ↦ rw e
  | inr e ↦ rw e (all_but_last-cons x (cur ++ (c ∷ [])) rest)
]

get_or-at : (pre t : List ℕ) (k : ℕ) → get_or (pre ++ t) (length pre + k) 0 ≡ get_or t k 0
get_or-at [] t k = ap (λ (n : ℕ). get_or t n 0) (omega arith)
get_or-at (x ∷ pre) t k =
    ap (λ (n : ℕ). get_or (x ∷ (pre ++ t)) n 0) (suc_first (length pre) k) ∙ get_or-at pre t k
  where
    suc_first : (a b : ℕ) → suc a + b ≡ suc (a + b)
    suc_first a b = omega arith

-- The test on the indices says what it should of the component.
module _ (pre cur rest : List ℕ) (i : ℕ) (hi : i ≡ length pre + length cur) where
  dotdot_found : is_dotdot (pre ++ (cur ++ rest)) i (length pre) ≡ true → cur ≡ dotdot
  unfolding is_dotdot
  dotdot_found = go cur hi
    where
      go :
          (s : List ℕ)
          → i ≡ length pre + length s
          → is_dotdot (pre ++ (s ++ rest)) i (length pre) ≡ true
          → s ≡ dotdot
      go [] e h = ground arith
      go (a ∷ []) e h = ground arith
      go (a ∷ b ∷ []) e h =
          ground (arith, get_or-at pre (a ∷ b ∷ rest) 0, get_or-at pre (a ∷ b ∷ rest) 1)
      go (a ∷ b ∷ c ∷ s) e h = ground arith

  dotdot_missed : is_dotdot (pre ++ (cur ++ rest)) i (length pre) ≡ false → cur ≢ dotdot
  unfolding is_dotdot
  dotdot_missed h e = ground (
    arith,
    ap length e,
    rw e at h,
    get_or-at pre (dot ∷ dot ∷ rest) 0,
    get_or-at pre (dot ∷ dot ∷ rest) 1,
  )

dotdot_free :
    (name pre cur rest : List ℕ) (i start : ℕ)
    → name ≡ pre ++ (cur ++ rest)
    → start ≡ length pre
    → i ≡ start + length cur
    → (is_dotdot name i start ≡ false) ↔ (cur ≢ dotdot)
dotdot_free name pre cur rest i start en es ei =
    (λ h. dotdot_missed pre cur rest i at_cur (rw (en, es) at h), λ ne. rw (en, es) (missed ne))
  where
    at_cur : i ≡ length pre + length cur
    at_cur = omega arith

    missed : cur ≢ dotdot → is_dotdot (pre ++ (cur ++ rest)) i (length pre) ≡ false
    missed ne = elim (Bool-cases (is_dotdot (pre ++ (cur ++ rest)) i (length pre))) [
      | inl found ↦ absurd (ne (dotdot_found pre cur rest i at_cur found))
      | inr h ↦ h
    ]

regroup :
    (pre cur rest : List ℕ) (c : ℕ)
    → pre ++ (cur ++ (c ∷ rest)) ≡ (pre ++ (cur ++ (c ∷ []))) ++ rest
regroup pre cur rest c = simp append_assoc

regroup_cur :
    (pre cur rest : List ℕ) (c : ℕ)
    → pre ++ (cur ++ (c ∷ rest)) ≡ pre ++ ((cur ++ (c ∷ [])) ++ rest)
regroup_cur pre cur rest c = simp append_assoc

nil_of_length : (s : List ℕ) → length s ≡ 0 → s ≡ []
nil_of_length [] h = refl
nil_of_length (c ∷ s) h = absurd (omega arith)

Climbless-cons :
    (x cur rest : List ℕ)
    → Climbless (x ∷ components_from cur rest)
      ↔ ((x ≢ dotdot) × (x ≢ []) × Climbless (components_from cur rest))
Climbless-cons x cur rest = (
  λ h.
      let n : All (λ s. s ≢ []) (x ∷ all_but_last (components_from cur rest)) =
        rw (all_but_last-cons x cur rest) at h.nonempty in
      (h.no_dotdot.0, n.0, record { no_dotdot = h.no_dotdot.1; nonempty = n.1 }),
  λ h. record {
    no_dotdot = (h.0, h.2.no_dotdot);
    nonempty = rw (all_but_last-cons x cur rest) (h.1, h.2.nonempty);
  },
)

safe_loop-Climbless :
    (name pre cur rest : List ℕ) (i start : ℕ)
    → name ≡ pre ++ (cur ++ rest)
    → start ≡ length pre
    → i ≡ start + length cur
    → safe_loop name i start rest ≡ true
    → Climbless (components_from cur rest)
unfolding safe_loop components_from
safe_loop-Climbless name pre cur [] i start en es ei h = record {
  no_dotdot = ((dotdot_free name pre cur [] i start en es ei).0 (ground arith), tt);
  nonempty = tt;
}
safe_loop-Climbless name pre cur (c ∷ rest) i start en es ei h = elim (Bool-cases (c == slash)) [
  | inr other ↦ rw other (
      safe_loop-Climbless name pre (cur ++ (c ∷ [])) rest (i + 1) start
        (en ∙ regroup_cur pre cur rest c) es (omega (arith, length-append cur (c ∷ [])))
        (rw other at h))
  | inl here ↦ elim (Bool-cases (i - start == 0)) [
    | inl empty ↦ cc (rw (here, empty) at h)
    | inr full ↦ elim (Bool-cases (is_dotdot name i start)) [
      | inl up ↦ cc (rw (here, full, up) at h)
      | inr fine ↦ rw here (
          (Climbless-cons cur [] rest).1 (
            (dotdot_free name pre cur (c ∷ rest) i start en es ei).0 fine,
            (λ e. ==→ne _ _ full (omega (arith, ap length e))),
            safe_loop-Climbless name (pre ++ (cur ++ (c ∷ []))) [] rest (i + 1) (i + 1)
                (en ∙ regroup pre cur rest c) (omega (arith, lengths)) (omega arith)
                (rw (here, full, fine) at h),
          ))
    ]
  ]
]
  where
    lengths : length (pre ++ (cur ++ (c ∷ []))) ≡ length pre + length cur + 1
    lengths = omega (arith, length-append pre (cur ++ (c ∷ [])), length-append cur (c ∷ []))

Climbless-safe_loop :
    (name pre cur rest : List ℕ) (i start : ℕ)
    → name ≡ pre ++ (cur ++ rest)
    → start ≡ length pre
    → i ≡ start + length cur
    → Climbless (components_from cur rest)
    → safe_loop name i start rest ≡ true
unfolding safe_loop components_from
Climbless-safe_loop name pre cur [] i start en es ei h =
    rw ((dotdot_free name pre cur [] i start en es ei).1 h.no_dotdot.0)
Climbless-safe_loop name pre cur (c ∷ rest) i start en es ei h = elim (Bool-cases (c == slash)) [
  | inr other ↦ rw other (
      Climbless-safe_loop name pre (cur ++ (c ∷ [])) rest (i + 1) start
        (en ∙ regroup_cur pre cur rest c) es (omega (arith, length-append cur (c ∷ [])))
        (rw other at h))
  | inl here ↦
      let (up, full, later) = (Climbless-cons cur [] rest).0 (rw here at h) in
      rw
        (
          here,
          ne→== (i - start) 0 (λ e. full (nil_of_length cur (omega arith))),
          (dotdot_free name pre cur (c ∷ rest) i start en es ei).1 up,
        )
        (Climbless-safe_loop name (pre ++ (cur ++ (c ∷ []))) [] rest (i + 1) (i + 1)
          (en ∙ regroup pre cur rest c) (omega (arith, lengths)) (omega arith) later)
]
  where
    lengths : length (pre ++ (cur ++ (c ∷ []))) ≡ length pre + length cur + 1
    lengths = omega (arith, length-append pre (cur ++ (c ∷ [])), length-append cur (c ∷ []))

-- What may be written to the filesystem: a relative path of 1 to 255 bytes that never climbs.
pub record IsSafe (name : List ℕ) : Type 0 where
  pub some_bytes : name ≢ []
  pub short : length name < 256
  pub relative : get_or name 0 0 ≢ slash
  pub climbless : Climbless (components name)

-- `safeEntryName` accepts a name exactly when it has 1 to 255 bytes, does not begin with '/', has no
-- ".." among its components and no empty component but the last.
pub safe_entry_name_iff : (name : List ℕ) → (safe_entry_name name ≡ true) ↔ IsSafe name
unfolding safe_entry_name components
safe_entry_name_iff name = (accepted, safe)
  where
    accepted : safe_entry_name name ≡ true → IsSafe name
    accepted h = elim (Bool-cases (length name == 0)) [
      | inl none ↦ cc (rw none at h)
      | inr full ↦ elim (Bool-cases (get_or name 0 0 == slash)) [
        | inl abs ↦ cc (rw (full, abs) at h)
        | inr rel ↦ elim (Bool-cases (leb 256 (length name))) [
          | inl long ↦ cc (rw (full, rel, long) at h)
          | inr short ↦ record {
            some_bytes = λ e. ==→ne _ _ full (ap length e);
            short = leb→lt _ _ short;
            relative = ==→ne _ _ rel;
            climbless =
                safe_loop-Climbless name [] [] name 0 0 refl refl refl (rw (full, rel, short) at h);
          }
        ]
      ]
    ]

    safe : IsSafe name → safe_entry_name name ≡ true
    safe s =
        rw
          (
            ne→== (length name) 0 (λ e. s.some_bytes (nil_of_length name e)),
            ne→== (get_or name 0 0) slash s.relative,
            lt→leb 256 (length name) s.short,
          )
          (Climbless-safe_loop name [] [] name 0 0 refl refl refl s.climbless)
