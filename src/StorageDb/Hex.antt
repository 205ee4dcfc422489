-- ===== src/StorageDb/Hex.antt =====
-- hexNib, hexEncodeBytes, hexDecodeInto and isAllZero of esp-idf/src/storage_db.cpp: a value of kind
-- SDB_DATA as text. A C string is the list of its bytes before the NUL.
use spangap_core.Base.{
  ℕ, zero, suc, ◌+◌, ◌-◌, ◌*◌, ◌/◌, ◌%◌, ◌<◌, ◌≡◌, refl, ap, Bool, true, ◌&&◌, Option, none, some,
  List, [], ◌∷◌, arith, ltb, leb, ◌==◌, if◌then◌else◌, take, All,
}

unfoldable pub hex_nib : ℕ → Option ℕ
hex_nib c =
    if leb 48 c && leb c 57
    then some (c - 48)
    else if leb 97 c && leb c 102
    then some (c - 97 + 10)
    else if leb 65 c && leb c 70
    then some (c - 65 + 10)
    else none

-- "0123456789abcdef"[n].
unfoldable pub hex_digit : ℕ → ℕ
hex_digit n = if ltb n 10 then 48 + n else 87 + n

unfoldable pub hex_encode_bytes : List ℕ → List ℕ
hex_encode_bytes [] = []
hex_encode_bytes (b ∷ bs) = hex_digit (b / 16) ∷ hex_digit (b % 16) ∷ hex_encode_bytes bs

-- One pair of characters; hi << 4 has no bit in common with lo. `later` is what the following pairs give.
unfoldable pub decode_pair : Option ℕ → Option ℕ → List ℕ → List ℕ
decode_pair none lo later = []
decode_pair (some hi) none later = []
decode_pair (some hi) (some lo) later = (hi * 16 + lo) % 256 ∷ later

unfoldable pub hex_decode_into : List ℕ → ℕ → List ℕ
hex_decode_into [] max_out = []
hex_decode_into (x ∷ []) max_out = []
hex_decode_into (x ∷ y ∷ s) zero = []
hex_decode_into (x ∷ y ∷ s) (suc n) = decode_pair (hex_nib x) (hex_nib y) (hex_decode_into s n)

unfoldable pub is_all_zero : List ℕ → Bool
is_all_zero [] = true
is_all_zero (b ∷ bs) = b == 0 && is_all_zero bs

hex_nib-hex_digit : (n : ℕ) → n < 16 → hex_nib (hex_digit n) ≡ some n
unfolding hex_nib hex_digit
hex_nib-hex_digit n h = ground arith

-- Decoding what hexEncodeBytes wrote gives the bytes back, as many as there is room for.
pub hex_decode_into-hex_encode_bytes :
    (bs : List ℕ) (max_out : ℕ)
    → All (◌< 256) bs
    → hex_decode_into (hex_encode_bytes bs) max_out ≡ take max_out bs
unfolding hex_decode_into hex_encode_bytes decode_pair
hex_decode_into-hex_encode_bytes [] zero h = refl
hex_decode_into-hex_encode_bytes [] (suc n) h = refl
hex_decode_into-hex_encode_bytes (b ∷ bs) zero h = refl
hex_decode_into-hex_encode_bytes (b ∷ bs) (suc n) h =
    rw
      (
        hex_nib-hex_digit (b / 16) (omega (arith, h.0)),
        hex_nib-hex_digit (b % 16) (omega arith),
        hex_decode_into-hex_encode_bytes bs n h.1,
      )
      (ap (◌∷ take n bs) (omega (arith, h.0)))
