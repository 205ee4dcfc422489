-- ===== src/Cron/Entry/Flags.antt =====
-- The flags that parseFlags reads.
use spangap_core.Base.{
  ℕ, bit_or, ◌≡◌, refl, sym, subst, ◌⊎◌, inl, inr, ◌||◌, List, [], ◌∷◌, ◌==◌, if◌then◌else◌,
  Bool-cases,
}
use spangap_core.Cron.Entry.{
  parse_flags, flags_loop, flag_letter, no_flags, flag_awake, flag_network,
}

-- No flag, A, or N with the A that it implies.
abbrev pub IsFlags : ℕ → Type 0
IsFlags f = (f ≡ 0) ⊎ ((f ≡ flag_awake) ⊎ (f ≡ 3))

flag_letter-IsFlags : (c f : ℕ) → IsFlags f → IsFlags (flag_letter c f)
unfolding flag_letter
flag_letter-IsFlags c f h = elim (Bool-cases (c == 65 || c == 97)) [
  | inl a ↦ rw a (awake h)
  | inr a ↦
      rw a (elim (Bool-cases (c == 78 || c == 110)) [ inl b ↦ rw b (network h) | inr b ↦ rw b h ])
]
  where
    awake : IsFlags f → IsFlags (bit_or f flag_awake)
    awake (inl e) = rw e (inr (inl refl))
    awake (inr (inl e)) = rw e (inr (inl refl))
    awake (inr (inr e)) = rw e (inr (inr refl))

    network : IsFlags f → IsFlags (bit_or f (bit_or flag_network flag_awake))
    network (inl e) = rw e (inr (inr refl))
    network (inr (inl e)) = rw e (inr (inr refl))
    network (inr (inr e)) = rw e (inr (inr refl))

flags_loop-IsFlags : (s : List ℕ) (f : ℕ) → IsFlags f → IsFlags (flags_loop s f)
unfolding flags_loop
flags_loop-IsFlags [] f h = h
flags_loop-IsFlags (c ∷ cs) f h = elim (Bool-cases (c == 32)) [
  | inl a ↦ subst (λ b. IsFlags (if b then f else flags_loop cs (flag_letter c f))) (sym a) h
  | inr a ↦
      subst (λ b. IsFlags (if b then f else flags_loop cs (flag_letter c f))) (sym a)
        (flags_loop-IsFlags cs (flag_letter c f) (flag_letter-IsFlags c f h))
]

-- parseFlags yields no flag, A alone, or N and A together: N implies A.
pub parse_flags-IsFlags : (s : List ℕ) → IsFlags (parse_flags s)
unfolding parse_flags
parse_flags-IsFlags s = elim (Bool-cases (no_flags s)) [
  | inl a ↦ rw a (inl refl)
  | inr a ↦ rw a (flags_loop-IsFlags s 0 (inl refl))
]
