-- ===== src/Auth.antt =====
-- Passwords of esp-idf/src/auth.cpp: toHex, fromHex, hashPassword and verifyPassword, and what auth uses of
-- other code: the configuration tree, SHA-256 and sscanf.
pub mod Password
pub mod Realms
pub mod Backoff
pub mod Cookies
pub mod Login
mod Tests
use spangap_core.Base.{
  ◌>>=◌, ℕ, zero, suc, ◌+◌, ◌/◌, ◌%◌, Bool, false, Option, none, some, List, [], ◌∷◌, ◌++◌, ltb,
  ◌==◌, if◌then◌else◌, drop, eq_bytes,
}

-- The keys that auth prints, by their index: secrets.auth.realms.N.name and so on.
pub data Key : Type 0 where
  realm_name realm_hash cookie_token cookie_expires cookie_realm : ℕ → Key
  enable : Key

-- The operations of the configuration tree that auth calls, mbedtls's SHA-256 and sscanf with "%2x".
-- A key with no value reads as the empty string.
pub record Env : Type 1 where
  pub T : Type 0
  pub get_str : T → Key → List ℕ
  pub get_int : T → Key → ℕ → ℕ
  pub set_str : T → Key → List ℕ → T
  pub unset : T → Key → T
  pub realm_count : T → ℕ
  pub cookie_count : T → ℕ
  pub sha256 : List ℕ → List ℕ
  pub scan_hex : List ℕ → Option ℕ

abbrev pub nibble : ℕ → ℕ
nibble n = if ltb n 10 then 48 + n else 87 + n

-- "%02x" of each byte.
unfoldable pub to_hex : List ℕ → List ℕ
to_hex [] = []
to_hex (b ∷ bs) = nibble (b / 16) ∷ nibble (b % 16) ∷ to_hex bs

-- strchr of a colon, as an index.
unfoldable pub colon_at : List ℕ → Option ℕ
colon_at [] = none
colon_at (c ∷ cs) =
    let later = (colon_at cs >>= (λ i. some (suc i))) in if c == 58 then some 0 else later

module _ (e : Env) where
  -- none stands for false.
  unfoldable pub from_hex : List ℕ → ℕ → Option (List ℕ)
  from_hex hex zero = some []
  from_hex hex (suc n) = do v ← e.scan_hex hex; vs ← from_hex (drop 2 hex) n; some (v % 256 ∷ vs)

  unfoldable pub hash_password : List ℕ → List ℕ → List ℕ
  hash_password password salt = to_hex salt ++ 58 ∷ to_hex (e.sha256 (salt ++ password))

  unfoldable pub verify_salted : List ℕ → List ℕ → Option (List ℕ) → Bool
  verify_salted password stored none = false
  verify_salted password stored (some salt) = eq_bytes (hash_password password salt) stored

  unfoldable pub verify_at : List ℕ → List ℕ → Option ℕ → Bool
  verify_at password stored none = false
  verify_at password stored (some colon) =
      if colon == 32 then verify_salted password stored (from_hex stored 16) else false

  unfoldable pub verify_password : List ℕ → List ℕ → Bool
  verify_password password stored = verify_at password stored (colon_at stored)
