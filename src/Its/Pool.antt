-- ===== src/Its/Pool.antt =====
-- The pool of stream buffers of esp-idf/src/its.cpp: poolGet, poolFree, poolRetainOnFree and poolHandle.
pub mod Fresh
use spangap_core.Base.{
  ◌>>=◌, ℕ, suc, Bool, true, false, not, ◌&&◌, ◌||◌, Option, none, some, List, [], ◌∷◌, ◌++◌, leb,
  ◌==◌, if◌then◌else◌, length, get_or, set,
}

-- `handle` stands for the buffer with its two blocks of memory, none for a null handle.
pub record Entry : Type 0 where
  pub handle : Option ℕ
  pub size : ℕ
  pub pooled : Bool
  pub trigger_level : ℕ
  pub in_use : Bool
  pub free_notify : ℕ
  pub has_sem : Bool

abbrev pub max_pool : ℕ
max_pool = 128

-- An entry as the table's memory is before it is first used.
abbrev pub unused : Entry
unused = record {
  handle = none;
  size = 0;
  pooled = false;
  trigger_level = 0;
  in_use = false;
  free_notify = 0;
  has_sem = false;
}

-- What is called of FreeRTOS: a buffer reset, its trigger level set, a semaphore given, a buffer
-- deleted with its memory.
pub data Act : Type 0 where
  reset_buffer : ℕ → Act
  set_trigger : ℕ → ℕ → Act
  give_sem : ℕ → Act
  delete_buffer : ℕ → Act

abbrev pub is_some : Option ℕ → Bool
is_some none = false
is_some (some h) = true

unfoldable pub find_entry : (Entry → Bool) → List Entry → Option ℕ
find_entry test [] = none
find_entry test (e ∷ es) =
    let later = (find_entry test es >>= (λ i. some (suc i))) in if test e then some 0 else later

abbrev pub is_same_size : ℕ → Entry → Bool
is_same_size size e = not e.in_use && (e.pooled && (is_some e.handle && e.size == size))

abbrev pub is_empty_slot : Entry → Bool
is_empty_slot e = not e.in_use && not (is_some e.handle)

abbrev pub on_handle : Option ℕ → List Act
on_handle none = []
on_handle (some h) = reset_buffer h ∷ set_trigger h 1 ∷ []

pub record Result : Type 0 where
  pub index : Option ℕ
  pub pool : List Entry
  pub acts : List Act

abbrev pub no_entry : List Entry → Result
no_entry pool = record { index = none; pool = pool; acts = [] }

-- What an allocation gives: the new buffer, if there was memory for both blocks, and whether a
-- semaphore could be made.
pub record Memory : Type 0 where
  pub buffer : Option ℕ
  pub sem : Bool

-- A retained buffer again.
unfoldable pub reuse : List Entry → ℕ → Result
reuse pool i =
    let e = get_or pool i unused in
    record {
      index = some i;
      pool = set pool i (record e { in_use = true; trigger_level = 1 });
      acts = on_handle e.handle;
    }

-- A new buffer in the slot `i`.
unfoldable pub fill : Memory → List Entry → ℕ → ℕ → Bool → Result
fill m pool i size no_pool =
    let sem = (get_or pool i unused).has_sem || m.sem in
    record {
      index = if is_some m.buffer && sem then some i else none;
      pool = set pool i (record {
        handle = m.buffer;
        size = size;
        pooled = not no_pool;
        trigger_level = 1;
        in_use = true;
        free_notify = 0;
        has_sem = sem;
      });
      acts = [];
    }

unfoldable pub fill_slot : Memory → List Entry → ℕ → Bool → Option ℕ → Result
fill_slot m pool size no_pool (some i) = fill m pool i size no_pool
fill_slot m pool size no_pool none =
    if leb max_pool (length pool)
    then no_entry pool
    else fill m (pool ++ unused ∷ []) (length pool) size no_pool

unfoldable pub reuse_or_fill : Memory → List Entry → ℕ → Bool → Option ℕ → Result
reuse_or_fill m pool size no_pool (some i) = reuse pool i
reuse_or_fill m pool size no_pool none =
    fill_slot m pool size no_pool (find_entry is_empty_slot pool)

-- index none stands for -1.
unfoldable pub pool_get : Memory → List Entry → ℕ → Bool → Result
pool_get m pool size no_pool =
    if size == 0
    then no_entry pool
    else reuse_or_fill m pool size no_pool
        (if no_pool then none else find_entry (is_same_size size) pool)

abbrev pub give : Entry → ℕ → List Act
give e i = if e.has_sem then give_sem i ∷ [] else []

abbrev pub delete : Option ℕ → List Act
delete none = []
delete (some h) = delete_buffer h ∷ []

unfoldable pub pool_free : List Entry → Option ℕ → List Entry × List Act
pool_free pool none = (pool, [])
pool_free pool (some i) =
    let e = get_or pool i unused in
    if leb (length pool) i
    then (pool, [])
    else if e.pooled
    then (
      set pool i (record e { in_use = false; trigger_level = 1 }),
      on_handle e.handle ++ give e i,
    )
    else (
      set pool i (record e {
        handle = none;
        size = 0;
        in_use = false;
        trigger_level = 1;
        free_notify = 0;
      }),
      give e i ++ delete e.handle,
    )

unfoldable pub pool_retain_on_free : List Entry → Option ℕ → List Entry
pool_retain_on_free pool none = pool
pool_retain_on_free pool (some i) =
    if leb (length pool) i
    then pool
    else set pool i (record (get_or pool i unused) { pooled = true })

unfoldable pub pool_handle : List Entry → Option ℕ → Option ℕ
pool_handle pool none = none
pool_handle pool (some i) = (get_or pool i unused).handle
