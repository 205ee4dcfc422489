-- ===== src/Auth/Login/Refused.antt =====
-- Logins that no realm lets in.
use spangap_core.Base.{
  ℕ, zero, suc, ◌+◌, ◌<◌, ◌≡◌, refl, ◌⊎◌, inl, inr, false, not, ◌&&◌, none, List, arith, Bool-cases,
  eq_bytes,
}
use spangap_core.Auth.{Env, verify_password}
use spangap_core.Auth.Realms.{wrong_password, hash_of, name_of, no_chars, is_usable, realm_get}
use spangap_core.Auth.Backoff.{Backoff, is_rate_limited}
use spangap_core.Auth.Login.{Moment, opens, or_else, login_loop, login_end, auth_login}

module _ (e : Env) (t : e.T) (password : List ℕ) where
  -- A realm without a password, or locked, or with another password.
  abbrev pub Refuses : ℕ → Type 0
  Refuses i =
      (is_usable (hash_of e t i) ≡ false) ⊎ (verify_password e password (hash_of e t i) ≡ false)

  opens-none :
      (try_realm : List ℕ) (i : ℕ) → Refuses i → opens e password try_realm (realm_get e t i) ≡ none
  unfolding opens realm_get
  opens-none try_realm i h = elim (Bool-cases (no_chars (name_of e t i))) [
    | inl a ↦ rw a refl
    | inr a ↦
        rw a
          (elim (Bool-cases
            (not (no_chars try_realm) && not (eq_bytes (name_of e t i) try_realm))) [
              | inl b ↦ rw b refl
              | inr b ↦ rw b (elim (Bool-cases (is_usable (hash_of e t i))) [
                | inl c ↦ elim h [ inl u ↦ rw u refl | inr v ↦ rw (c, v) refl ]
                | inr c ↦ rw c refl
              ])
            ])
  ]

  login_loop-none :
      (try_realm : List ℕ) (left i : ℕ)
      → ((j : ℕ) → j < i + left → Refuses j)
      → login_loop e t password try_realm left i ≡ none
  unfolding login_loop or_else
  login_loop-none try_realm zero i h = refl
  login_loop-none try_realm (suc left) i h =
      rw (opens-none try_realm i (h i (omega arith)))
        (login_loop-none try_realm left (suc i) (λ j l. h j (omega (arith, l))))

  -- When no realm has the password, a login that is not held off is refused as a wrong password: no
  -- session, the tree as it was, one more failure, at this time.
  pub auth_login-refused :
      (m : Moment) (try_realm : List ℕ) (b : Backoff)
      → is_rate_limited b m.millis ≡ false
      → ((i : ℕ) → i < e.realm_count t → Refuses i)
      → auth_login e m password try_realm t b ≡ record {
        err = wrong_password;
        tree = t;
        backoff = record { last_fail_ms = m.millis; fail_count = b.fail_count + 1 };
        session = none;
      }
  unfolding auth_login login_end
  auth_login-refused m try_realm b free h =
      rw (free, login_loop-none try_realm (e.realm_count t) 0 (λ j l. h j (omega (arith, l)))) refl
