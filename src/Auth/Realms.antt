-- ===== src/Auth/Realms.antt =====
-- Realms in esp-idf/src/auth.cpp: realmGet, realmFind, authForceSetPassword, authPasswd, authEnabled and
-- authRealmUnset. A copy into a buffer is cut to leave a NUL. CONFIG_SPANGAP_AUTH_OPEN is the argument
-- `is_open`.
pub mod Stored
use spangap_core.Base.{
  ℕ, zero, suc, Bool, true, false, not, ◌&&◌, ◌||◌, Option, none, some, List, [], ◌∷◌, ◌==◌,
  if◌then◌else◌, take, codes, eq_bytes,
}
use spangap_core.Auth.{Env, Key, realm_name, realm_hash, enable, verify_password, hash_password}

pub data AuthErr : Type 0 where
  auth_ok no_such_realm wrong_password same_as_other_realm rate_limited : AuthErr

abbrev pub no_chars : List ℕ → Bool
no_chars [] = true
no_chars (c ∷ cs) = false

abbrev pub is_locked : List ℕ → Bool
is_locked hash = eq_bytes hash (codes "--")

-- A password that can be logged in with.
abbrev pub is_usable : List ℕ → Bool
is_usable hash = not (no_chars hash || is_locked hash)

module _ (e : Env) (t : e.T) where
  abbrev pub name_of : ℕ → List ℕ
  name_of i = take 31 (e.get_str t (realm_name i))

  abbrev pub hash_of : ℕ → List ℕ
  hash_of i = take 127 (e.get_str t (realm_hash i))

  -- none stands for false.
  unfoldable pub realm_get : ℕ → Option (List ℕ × List ℕ)
  realm_get i = if no_chars (name_of i) then none else some (name_of i, hash_of i)

  unfoldable pub is_named : List ℕ → Option (List ℕ × List ℕ) → Bool
  is_named realm none = false
  is_named realm (some (name, hash)) = eq_bytes name realm

  -- The loop from `i`, with so many realms left.
  unfoldable pub find_loop : List ℕ → ℕ → ℕ → Option ℕ
  find_loop realm zero i = none
  find_loop realm (suc left) i =
      let rest = find_loop realm left (suc i) in
      if is_named realm (realm_get i) then some i else rest

  -- none stands for -1.
  unfoldable pub realm_find : List ℕ → Option ℕ
  realm_find realm = find_loop realm (e.realm_count t) 0

  -- Whether the password is that of another realm than `idx`.
  unfoldable pub shared_loop : List ℕ → ℕ → ℕ → ℕ → Bool
  shared_loop password idx zero i = false
  shared_loop password idx (suc left) i =
      let rest = shared_loop password idx left (suc i) in
      if not (i == idx) && is_usable (hash_of i) && verify_password e password (hash_of i)
      then true
      else rest

  unfoldable pub is_shared : List ℕ → ℕ → Bool
  is_shared password idx = shared_loop password idx (e.realm_count t) 0

  -- The new hash with the salt that randomBytes gave, and the name again.
  unfoldable pub store_password : List ℕ → List ℕ → List ℕ → ℕ → e.T
  store_password salt realm password idx =
      e.set_str (e.set_str t (realm_name idx) realm) (realm_hash idx)
        (hash_password e password salt)

  unfoldable pub set_unshared : List ℕ → List ℕ → List ℕ → ℕ → AuthErr × e.T
  set_unshared salt realm password idx =
      if is_shared password idx
      then (same_as_other_realm, t)
      else (auth_ok, store_password salt realm password idx)

  unfoldable pub force_at : List ℕ → List ℕ → List ℕ → Option ℕ → AuthErr × e.T
  force_at salt realm password none = (no_such_realm, t)
  force_at salt realm password (some idx) = set_unshared salt realm password idx

  unfoldable pub auth_force_set_password : List ℕ → List ℕ → List ℕ → AuthErr × e.T
  auth_force_set_password salt realm password =
      if no_chars password
      then (wrong_password, t)
      else force_at salt realm password (realm_find realm)

  -- What authPasswd answers before it looks at the other realms; none is that it goes on.
  unfoldable pub passwd_early : Bool → List ℕ → List ℕ → List ℕ → Option AuthErr
  passwd_early is_open hash old password =
      if is_open && no_chars old && no_chars password
      then some wrong_password
      else if is_usable hash
      then (if not (verify_password e old hash) || no_chars password
          then some wrong_password
          else none)
      else if not (no_chars old)
      then some wrong_password
      else if no_chars password
      then some auth_ok
      else none

  unfoldable pub passwd_on : List ℕ → List ℕ → List ℕ → ℕ → Option AuthErr → AuthErr × e.T
  passwd_on salt realm password idx (some err) = (err, t)
  passwd_on salt realm password idx none = set_unshared salt realm password idx

  unfoldable pub passwd_at : Bool → List ℕ → List ℕ → List ℕ → List ℕ → Option ℕ → AuthErr × e.T
  passwd_at is_open salt realm old password none = (no_such_realm, t)
  passwd_at is_open salt realm old password (some idx) =
      passwd_on salt realm password idx (passwd_early is_open (hash_of idx) old password)

  unfoldable pub auth_passwd : Bool → List ℕ → List ℕ → List ℕ → List ℕ → AuthErr × e.T
  auth_passwd is_open salt realm old password =
      passwd_at is_open salt realm old password (realm_find realm)

  unfoldable pub auth_enabled : Bool → Bool
  auth_enabled is_open = if is_open then false else e.get_int t enable 0 == 1

  unfoldable pub unset_at : Option ℕ → Bool
  unset_at none = false
  unset_at (some idx) = no_chars (hash_of idx)

  unfoldable pub auth_realm_unset : Bool → List ℕ → Bool
  auth_realm_unset is_open realm = if is_open then false else unset_at (realm_find realm)
