-- ===== src/Cron/Entry.antt =====
-- cron_parsed_t, parseFlags and cronParse of esp-idf/src/cron.cpp: an entry line cut into its parts.
pub mod Flags
use spangap_core.Base.{
  ◌>>=◌, ℕ, bit_or, Bool, false, ◌&&◌, ◌||◌, Option, none, some, List, [], ◌∷◌, leb, ◌==◌,
  if◌then◌else◌, length,
}

abbrev pub flag_awake : ℕ
flag_awake = 1

abbrev pub flag_network : ℕ
flag_network = 2

-- s[0] == '-' and the field ends there.
unfoldable pub no_flags : List ℕ → Bool
no_flags [] = false
no_flags (x ∷ []) = x == 45
no_flags (x ∷ y ∷ xs) = x == 45 && y == 32

unfoldable pub flag_letter : ℕ → ℕ → ℕ
flag_letter c flags =
    if c == 65 || c == 97
    then bit_or flags flag_awake
    else if c == 78 || c == 110
    then bit_or flags (bit_or flag_network flag_awake)
    else flags

unfoldable pub flags_loop : List ℕ → ℕ → ℕ
flags_loop [] flags = flags
flags_loop (c ∷ cs) flags = if c == 32 then flags else flags_loop cs (flag_letter c flags)

unfoldable pub parse_flags : List ℕ → ℕ
parse_flags s = if no_flags s then 0 else flags_loop s 0

pub record CronParsed : Type 0 where
  pub minute : List ℕ
  pub hour : List ℕ
  pub day : List ℕ
  pub month : List ℕ
  pub weekday : List ℕ
  pub flags : ℕ
  pub cmd : List ℕ

abbrev pub is_blank : ℕ → Bool
is_blank c = c == 32 || c == 9

unfoldable pub skip_blank : List ℕ → List ℕ
skip_blank [] = []
skip_blank (c ∷ cs) = if is_blank c then skip_blank cs else c ∷ cs

unfoldable pub word : List ℕ → List ℕ
word [] = []
word (c ∷ cs) = if is_blank c then [] else c ∷ word cs

unfoldable pub after_word : List ℕ → List ℕ
after_word [] = []
after_word (c ∷ cs) = if is_blank c then c ∷ cs else after_word cs

-- What is left after blanks, if anything is.
unfoldable pub next_word : List ℕ → Option (List ℕ)
next_word [] = none
next_word (c ∷ cs) = some (c ∷ cs)

-- One turn of the loop over the five time fields: the field and what follows it. A field has 32 bytes.
unfoldable pub take_field : List ℕ → Option (List ℕ × List ℕ)
take_field p = do
  start ← next_word (skip_blank p)
  if leb 32 (length (word start)) then none else some (word start, after_word start)

unfoldable pub cron_parse : List ℕ → Option CronParsed
cron_parse entry = do
  (minute, p1) ← take_field entry
  (hour, p2) ← take_field p1
  (day, p3) ← take_field p2
  (month, p4) ← take_field p3
  (weekday, p5) ← take_field p4
  p6 ← next_word (skip_blank p5)
  cmd ← next_word (skip_blank (after_word p6))
  some record {
    minute = minute;
    hour = hour;
    day = day;
    month = month;
    weekday = weekday;
    flags = parse_flags p6;
    cmd = cmd;
  }
