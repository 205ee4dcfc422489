-- ===== src/Auth/Password.antt =====
-- A password verifies against its own hash.
use spangap_core.Base.{
  ℕ, ◌+◌, ◌*◌, ◌/◌, ◌%◌, ◌<◌, ◌≡◌, refl, sym, ap, ◌∙◌, true, false, some, List, [], ◌∷◌, ◌++◌,
  arith, ◌==◌, ne→==, length, All,
}
use spangap_core.StorageDb.Schema.Layout.{eq_bytes_refl}
use spangap_core.Auth.{
  Env, nibble, to_hex, colon_at, from_hex, hash_password, verify_salted, verify_at, verify_password,
}

pub length-to_hex : (bs : List ℕ) → length (to_hex bs) ≡ length bs * 2
unfolding to_hex
length-to_hex [] = refl
length-to_hex (b ∷ bs) = omega (arith, length-to_hex bs)

nibble-colon : (n : ℕ) → n < 16 → (nibble n == 58) ≡ false
nibble-colon n h = ne→== (nibble n) 58 (ground arith)

-- No digit is a colon.
colon_at-to_hex :
    (bs rest : List ℕ)
    → All (λ b. b < 256) bs
    → colon_at (to_hex bs ++ 58 ∷ rest) ≡ some (length (to_hex bs))
unfolding to_hex colon_at
colon_at-to_hex [] rest h = refl
colon_at-to_hex (b ∷ bs) rest h =
    rw
      (
        nibble-colon (b / 16) (omega (arith, h.0)),
        nibble-colon (b % 16) (omega arith),
        colon_at-to_hex bs rest h.1,
      )
      refl

-- sscanf with "%2x" reads two lower-case digits.
abbrev pub ScansHex : Env → Type 0
ScansHex e =
    (a b : ℕ) (rest : List ℕ)
    → a < 16
    → b < 16
    → e.scan_hex (nibble a ∷ nibble b ∷ rest) ≡ some (16 * a + b)

from_hex-to_hex :
    (e : Env) (bs rest : List ℕ)
    → ScansHex e
    → All (λ b. b < 256) bs
    → from_hex e (to_hex bs ++ rest) (length bs) ≡ some bs
unfolding from_hex to_hex
from_hex-to_hex e [] rest s h = refl
from_hex-to_hex e (b ∷ bs) rest s h =
    let back : (16 * (b / 16) + b % 16) % 256 ≡ b = omega (arith, h.0) in
    rw
      (
        s (b / 16) (b % 16) (to_hex bs ++ rest) (omega (arith, h.0)) (omega arith),
        from_hex-to_hex e bs rest s h.1,
        back,
      )
      refl

-- hashPassword with a salt of 16 bytes makes a text against which verifyPassword accepts the password,
-- when sscanf reads two lower-case digits as their value.
pub verify_password-hash_password :
    (e : Env) (password salt : List ℕ)
    → ScansHex e
    → length salt ≡ 16
    → All (λ b. b < 256) salt
    → verify_password e password (hash_password e password salt) ≡ true
unfolding verify_password verify_at verify_salted hash_password
verify_password-hash_password e password salt s n h =
    let tail = to_hex (e.sha256 (salt ++ password)) in
    let at : length (to_hex salt) ≡ 32 = omega (arith, length-to_hex salt, n) in
    let read : from_hex e (to_hex salt ++ 58 ∷ tail) 16 ≡ some salt =
      ap (from_hex e (to_hex salt ++ 58 ∷ tail)) (sym n) ∙ from_hex-to_hex e salt (58 ∷ tail) s h in
    rw (colon_at-to_hex salt tail h, at, read) (eq_bytes_refl (to_hex salt ++ 58 ∷ tail))
