-- ===== src/StorageDb/Words.antt =====
-- rdU16, rdU32, wrU16 and wrU32 of esp-idf/src/storage_db.cpp, on a little-endian machine. The pointer
-- is what is left of the bytes from it on.
use spangap_core.Base.{ℕ, ◌+◌, ◌*◌, ◌/◌, ◌%◌, ◌<◌, ◌≡◌, List, [], ◌∷◌, ◌++◌, arith, get_or}

unfoldable pub wr_u16 : ℕ → List ℕ
wr_u16 v = v % 256 ∷ v / 256 % 256 ∷ []

unfoldable pub rd_u16 : List ℕ → ℕ
rd_u16 p = get_or p 0 0 + 256 * get_or p 1 0

unfoldable pub wr_u32 : ℕ → List ℕ
wr_u32 v = v % 256 ∷ v / 256 % 256 ∷ v / 65536 % 256 ∷ v / 16777216 % 256 ∷ []

unfoldable pub rd_u32 : List ℕ → ℕ
rd_u32 p = get_or p 0 0 + 256 * get_or p 1 0 + 65536 * get_or p 2 0 + 16777216 * get_or p 3 0

pub rd_u16-wr_u16 : (v : ℕ) (rest : List ℕ) → v < 65536 → rd_u16 (wr_u16 v ++ rest) ≡ v
unfolding rd_u16 wr_u16
rd_u16-wr_u16 v rest h = omega (arith, h)

pub rd_u32-wr_u32 : (v : ℕ) (rest : List ℕ) → v < 4294967296 → rd_u32 (wr_u32 v ++ rest) ≡ v
unfolding rd_u32 wr_u32
rd_u32-wr_u32 v rest h = omega (arith, h)
