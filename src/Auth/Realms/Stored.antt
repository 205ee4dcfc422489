-- ===== src/Auth/Realms/Stored.antt =====
-- A password that was set opens its realm.
use spangap_core.Base.{
  ℕ, ◌≤◌, ◌<◌, ◌≡◌, refl, ap, ◌∙◌, inl, inr, true, false, some, List, [], ◌∷◌, ◌++◌, arith,
  Bool-cases, length, take, All, codes, eq_bytes, length-append, take-all,
}
use spangap_core.StorageDb.Schema.Layout.{eq_bytes-eq}
use spangap_core.Auth.{Env, Key, realm_name, realm_hash, to_hex, hash_password, verify_password}
use spangap_core.Auth.Password.{ScansHex, length-to_hex, verify_password-hash_password}
use spangap_core.Auth.Realms.{
  auth_ok, no_chars, is_locked, is_usable, hash_of, realm_find, is_shared, store_password,
  set_unshared, force_at, auth_force_set_password,
}

-- What is relied on: a value that was set is read back, a digest has 32 bytes, and sscanf reads two
-- lower-case digits.
pub record Documented (e : Env) : Type 0 where
  pub reads_back : (t : e.T) (k : Key) (v : List ℕ) → e.get_str (e.set_str t k v) k ≡ v
  pub digest_size : (x : List ℕ) → length (e.sha256 x) ≡ 32
  pub scans : ScansHex e

not_locked : (hash : List ℕ) → 3 ≤ length hash → is_locked hash ≡ false
not_locked hash h = elim (Bool-cases (eq_bytes hash (codes "--"))) [
  | inl a ↦
      let two : length hash ≡ 2 = ap length (eq_bytes-eq hash (codes "--") a) in ground (arith, two)
  | inr a ↦ a
]

long_usable : (hash : List ℕ) → 3 ≤ length hash → is_usable hash ≡ true
long_usable [] h = ground arith
long_usable (c ∷ hash) h = rw (not_locked (c ∷ hash) h) refl

module _ (e : Env) (d : Documented e) (t : e.T) (salt realm password : List ℕ)
    (n : length salt ≡ 16) where
  open d use {reads_back, digest_size, scans}

  length-hash : length (hash_password e password salt) ≡ 97
  unfolding hash_password
  length-hash = omega (
    arith,
    length-append (to_hex salt) (58 ∷ to_hex (e.sha256 (salt ++ password))),
    length-to_hex salt,
    length-to_hex (e.sha256 (salt ++ password)),
    digest_size (salt ++ password),
    n,
  )

  hash_of-stored :
      (idx : ℕ)
      → hash_of e (store_password e t salt realm password idx) idx ≡ hash_password e password salt
  unfolding store_password
  hash_of-stored idx =
      ap (take 127) (
        reads_back (e.set_str t (realm_name idx) realm) (realm_hash idx)
          (hash_password e password salt))
      ∙ take-all 127 (hash_password e password salt) (omega (arith, length-hash))

  -- A password that is not empty and not another realm's is set for a realm that there is: the hash then
  -- stored for the realm is one that can be logged in with, and the password verifies against it.
  pub auth_force_set_password-verifies :
      (idx : ℕ)
      → All (λ b. b < 256) salt
      → no_chars password ≡ false
      → realm_find e t realm ≡ some idx
      → is_shared e t password idx ≡ false
      → ((auth_force_set_password e t salt realm password).0 ≡ auth_ok)
        × (is_usable (hash_of e (auth_force_set_password e t salt realm password).1 idx) ≡ true)
        × (verify_password e password
              (hash_of e (auth_force_set_password e t salt realm password).1 idx)
            ≡ true)
  unfolding auth_force_set_password force_at set_unshared
  auth_force_set_password-verifies idx bytes full found alone =
      rw (full, found, alone, hash_of-stored idx)
        (
          refl,
          long_usable (hash_password e password salt) (omega (arith, length-hash)),
          verify_password-hash_password e password salt scans n bytes,
        )
