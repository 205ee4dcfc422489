-- ===== src/StorageDb/Compact/Live.antt =====
-- What compaction is to leave of some records.
use spangap_core.Base.{ℕ, ◌+◌, List, [], ◌∷◌, if◌then◌else◌, length}
use spangap_core.StorageDb.Index.{Index, key_at, is_deleted, put}

-- The records that are not deleted, in order.
abbrev pub live : List (List ℕ) → List (List ℕ)
live [] = []
live (r ∷ rs) = if is_deleted r then live rs else r ∷ live rs

-- The index once each live record stands right after the one before it, the first at `at`.
abbrev pub repointed : ℕ → ℕ → List (List ℕ) → Index → Index
repointed hs at [] index = index
repointed hs at (r ∷ rs) index =
    repointed hs (if is_deleted r then at else at + length r) rs
      (if is_deleted r then index else put (key_at hs r) at index)
