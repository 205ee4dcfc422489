-- ===== src/Storage/Subs.antt =====
-- The table of subscriptions of esp-idf/src/storage.cpp: subDrop, subReap, subAdd, subRemove and
-- storageOnTaskDeath. The table is the list of its rows in use.
pub mod Sweep
use spangap_core.Base.{
  ℕ, zero, suc, Bool, true, false, not, ◌&&◌, ◌||◌, Option, none, some, List, [], ◌∷◌, ◌++◌, leb,
  ◌==◌, if◌then◌else◌, length, eq_bytes,
}

-- none stands for a null task or callback.
pub record Sub : Type 0 where
  pub task : Option ℕ
  pub cb : Option ℕ
  pub scope : List ℕ
  pub direct : Bool

abbrev pub storage_max_subs : ℕ
storage_max_subs = 256

abbrev pub last_row : Sub → List Sub → Sub
last_row x [] = x
last_row x (y ∷ ys) = last_row y ys

abbrev pub but_last : Sub → List Sub → List Sub
but_last x [] = []
but_last x (y ∷ ys) = x ∷ but_last y ys

-- The rows behind a vacated one, once the last one has taken its place.
unfoldable pub sub_drop : List Sub → List Sub
sub_drop [] = []
sub_drop (x ∷ xs) = last_row x xs ∷ but_last x xs

-- The loops of subReap and subRemove from a row on: one that is vacated is looked at again. The fuel
-- is the number of rows.
unfoldable pub sweep_rows : (Sub → Bool) → ℕ → List Sub → List Sub
sweep_rows test fuel [] = []
sweep_rows test zero (s ∷ rows) = s ∷ rows
sweep_rows test (suc fuel) (s ∷ rows) =
    let dropped = sweep_rows test fuel (sub_drop rows) in
    let kept = sweep_rows test fuel rows in if test s then dropped else s ∷ kept

abbrev pub is_null : Option ℕ → Bool
is_null none = true
is_null (some x) = false

abbrev pub same_ptr : Option ℕ → Option ℕ → Bool
same_ptr none none = true
same_ptr (some x) (some y) = x == y
same_ptr none (some y) = false
same_ptr (some x) none = false

abbrev pub is_dead : Sub → Bool
is_dead s = is_null s.task && not s.direct

unfoldable pub sub_reap : List Sub → List Sub
sub_reap subs = sweep_rows is_dead (length subs) subs

abbrev pub same_bool : Bool → Bool → Bool
same_bool a c = if a then c else not c

-- Whether a row is the same subscription.
unfoldable pub is_same : Sub → Sub → Bool
is_same new s =
    same_ptr s.task new.task
    && same_ptr s.cb new.cb
    && eq_bytes s.scope new.scope
    && same_bool s.direct new.direct

unfoldable pub any_row : (Sub → Bool) → List Sub → Bool
any_row test [] = false
any_row test (s ∷ rows) = test s || any_row test rows

unfoldable pub sub_add : List Sub → Sub → List Sub
sub_add subs new =
    let live = sub_reap subs in
    if any_row (is_same new) live
    then live
    else if leb storage_max_subs (length live)
    then live
    else live ++ new ∷ []

abbrev pub scope_matches : Option (List ℕ) → List ℕ → Bool
scope_matches none scope = true
scope_matches (some wanted) scope = eq_bytes scope wanted

-- The rows that subRemove takes away.
unfoldable pub is_removed : Option ℕ → Option ℕ → Option (List ℕ) → Sub → Bool
is_removed task cb scope s =
    let owner = if s.direct then not (is_null cb) else same_ptr s.task task in
    owner && scope_matches scope s.scope && (is_null cb || same_ptr s.cb cb)

unfoldable pub sub_remove : List Sub → Option ℕ → Option ℕ → Option (List ℕ) → List Sub
sub_remove subs task cb scope = sweep_rows (is_removed task cb scope) (length subs) subs

-- The task's rows lose their owner.
unfoldable pub storage_on_task_death : ℕ → List Sub → List Sub
storage_on_task_death dead [] = []
storage_on_task_death dead (s ∷ rows) =
    let rest = storage_on_task_death dead rows in
    if same_ptr s.task (some dead) then record s { task = none } ∷ rest else s ∷ rest
