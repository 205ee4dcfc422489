-- ===== src/Targz/Names.antt =====
-- Entry names of esp-idf/src/targz.cpp: how the writer places a path in a header, how the reader
-- puts it together again, and which paths it accepts.
pub mod RoundTrip
pub mod Safe
pub mod Keeps
use spangap_core.Base.{
  ℕ, zero, suc, ◌+◌, ◌-◌, Option, none, some, List, [], ◌∷◌, ◌++◌, Bool, true, false, ltb, leb,
  ◌==◌, if◌then◌else◌, ◌&&◌, ◌||◌, not, length, take, drop, get_or,
}
use spangap_core.Targz.Header.{Ustar, overwrite}

abbrev pub slash : ℕ
slash = 47

abbrev pub dot : ℕ
dot = 46

-- The test under which `setEntryName` goes on to an earlier '/'.
misfit : ℕ → ℕ → Bool
misfit tail i = tail == 0 || ltb 100 tail || ltb 155 i

-- `name` is a C string: its bytes, none of them NUL. The loop `for (i = len; i-- > 0; )` looks for the
-- latest '/' whose two sides fit; its index is one below the argument.
pub split_loop : ℕ → Ustar → List ℕ → Option Ustar
split_loop zero h name = none
split_loop (suc i) h name =
    let earlier = split_loop i h name in
    let tail = length name - i - 1 in
    if not (get_or name i 0 == slash)
    then earlier
    else if misfit tail i
    then earlier
    else some (record h {
      prefix = overwrite h.prefix (take i name);
      name = overwrite h.name (drop (suc i) name);
    })

-- `setEntryName(h, name)`; `none` is false. A failed call leaves the header as it was.
unfoldable pub set_entry_name : Ustar → List ℕ → Option Ustar
unfolding split_loop misfit
set_entry_name h name =
    if length name == 0
    then none
    else if leb (length name) 100
    then some (record h { name = overwrite h.name name })
    else if ltb 256 (length name)
    then none
    else split_loop (length name) h name

-- The bytes before the first NUL: `strnlen` and the copy that follows it.
unfoldable pub c_string : List ℕ → List ℕ
c_string [] = []
c_string (c ∷ rest) = if c == 0 then [] else c ∷ c_string rest

-- The path that `tarHeader` puts together; `none` where its buffer of 264 bytes would not hold it.
unfoldable pub entry_name : Ustar → Option (List ℕ)
unfolding c_string
entry_name h =
    let prefix = c_string h.prefix in
    let name = c_string h.name in
    if ltb 0 (length prefix)
    then (if leb 264 (length prefix + 1 + length name)
        then none
        else some (prefix ++ (slash ∷ name)))
    else (if leb 264 (length name) then none else some name)

-- The component that ends before index i is "..".
is_dotdot : List ℕ → ℕ → ℕ → Bool
is_dotdot name i start =
    i - start == 2 && (get_or name start 0 == dot && get_or name (start + 1) 0 == dot)

-- for (i = 0; i <= len; i++): the list is what is left of the name at index i.
safe_loop : List ℕ → ℕ → ℕ → List ℕ → Bool
safe_loop name i start [] = not (is_dotdot name i start)
safe_loop name i start (c ∷ rest) =
    let next = safe_loop name (i + 1) (i + 1) rest in
    let same = safe_loop name (i + 1) start rest in
    if not (c == slash)
    then same
    else if i - start == 0
    then false
    else if is_dotdot name i start
    then false
    else next

unfoldable pub safe_entry_name : List ℕ → Bool
unfolding safe_loop is_dotdot
safe_entry_name name =
    if length name == 0
    then false
    else if get_or name 0 0 == slash
    then false
    else if leb 256 (length name)
    then false
    else safe_loop name 0 0 name
