-- ===== src/Targz/Gzip/Heads.antt =====
-- The states of the gzip header in which each turn takes a byte.
use spangap_core.Base.{
  ℕ, ◌+◌, ◌-◌, ◌*◌, ◌≤◌, ◌≡◌, inl, inr, Bool, true, false, arith, ltb, ◌==◌, if◌then◌else◌,
  Bool-cases, ==→ne, get_or,
}
use spangap_core.Targz.Gzip.{
  GzStage, GzHead, gz_fixed, gz_extra_len, gz_extra, gz_fname, gz_fcomment, gz_fhcrc, gz_deflate,
  gz_footer, after_comment, after_name, after_extra, after_fixed, gather, is_magic, gz_hdr_len,
  fixed_done, extra_len_done, string_byte, fhcrc_byte, gz_byte, skip_extra, flag_set,
}

-- In the extra field some of it is left.
abbrev pub Left : GzStage → ℕ → Type 0
Left gz_extra n = 1 ≤ n
Left gz_fixed n = 0 ≤ n
Left gz_extra_len n = 0 ≤ n
Left gz_fname n = 0 ≤ n
Left gz_fcomment n = 0 ≤ n
Left gz_fhcrc n = 0 ≤ n
Left gz_deflate n = 0 ≤ n
Left gz_footer n = 0 ≤ n

abbrev pub IsHead : GzHead → Type 0
IsHead h = Left h.gz h.extra_left

chosen : (b : Bool) (x y : GzStage) (n : ℕ) → Left x n → Left y n → Left (if b then x else y) n
chosen true x y n p q = p
chosen false x y n p q = q

after_comment-Left : (flags n : ℕ) → Left (after_comment flags) n
unfolding after_comment
after_comment-Left flags n =
    chosen (flag_set flags 2) gz_fhcrc gz_deflate n (omega arith) (omega arith)

after_name-Left : (flags n : ℕ) → Left (after_name flags) n
unfolding after_name
after_name-Left flags n =
    chosen (flag_set flags 16) gz_fcomment (after_comment flags) n (omega arith)
      (after_comment-Left flags n)

after_extra-Left : (flags n : ℕ) → Left (after_extra flags) n
unfolding after_extra
after_extra-Left flags n =
    chosen (flag_set flags 8) gz_fname (after_name flags) n (omega arith) (after_name-Left flags n)

after_fixed-Left : (flags n : ℕ) → Left (after_fixed flags) n
unfolding after_fixed
after_fixed-Left flags n =
    chosen (flag_set flags 4) gz_extra_len (after_extra flags) n (omega arith)
      (after_extra-Left flags n)

-- A byte leaves a head that is one, in a stage that takes its bytes one at a time.
fixed_done-IsHead : (h : GzHead) → IsHead h → IsHead (fixed_done h).1
unfolding fixed_done
fixed_done-IsHead h k = elim (Bool-cases (ltb h.have gz_hdr_len)) [
  | inl a ↦ rw a k
  | inr a ↦ rw a (elim (Bool-cases (is_magic h.buf)) [
    | inl b ↦ rw b (after_fixed-Left (get_or h.buf 3 0) h.extra_left)
    | inr b ↦ rw b k
  ])
]

extra_len_done-IsHead : (h : GzHead) → IsHead h → IsHead (extra_len_done h)
unfolding extra_len_done
extra_len_done-IsHead h k = elim (Bool-cases (ltb h.have 2)) [
  | inl a ↦ rw a k
  | inr a ↦ rw a (elim (Bool-cases (get_or h.buf 0 0 + 256 * get_or h.buf 1 0 == 0)) [
    | inl b ↦ rw b (after_extra-Left h.flags (get_or h.buf 0 0 + 256 * get_or h.buf 1 0))
    | inr b ↦ rw b (ground (arith, ==→ne (get_or h.buf 0 0 + 256 * get_or h.buf 1 0) 0 b))
  ])
]

string_byte-IsHead :
    (h : GzHead) (next : GzStage) (c : ℕ)
    → IsHead h
    → Left next h.extra_left
    → IsHead (string_byte h next c)
unfolding string_byte
string_byte-IsHead h next c k n = elim (Bool-cases (c == 0)) [ inl a ↦ rw a n | inr a ↦ rw a k ]

fhcrc_byte-IsHead : (h : GzHead) → IsHead h → IsHead (fhcrc_byte h)
unfolding fhcrc_byte
fhcrc_byte-IsHead h k = elim (Bool-cases (ltb (h.have + 1) 2)) [
  | inl a ↦ rw a k
  | inr a ↦ rw a (omega arith)
]

pub gz_byte-IsHead : (gz : GzStage) (h : GzHead) (c : ℕ) → IsHead h → IsHead (gz_byte gz h c).1
unfolding gz_byte
gz_byte-IsHead gz_fixed h c k = fixed_done-IsHead (gather h c) k
gz_byte-IsHead gz_extra_len h c k = extra_len_done-IsHead (gather h c) k
gz_byte-IsHead gz_fname h c k =
    string_byte-IsHead h (after_name h.flags) c k (after_name-Left h.flags h.extra_left)
gz_byte-IsHead gz_fcomment h c k =
    string_byte-IsHead h (after_comment h.flags) c k (after_comment-Left h.flags h.extra_left)
gz_byte-IsHead gz_fhcrc h c k = fhcrc_byte-IsHead h k
gz_byte-IsHead gz_extra h c k = k
gz_byte-IsHead gz_deflate h c k = k
gz_byte-IsHead gz_footer h c k = k

pub skip_extra-IsHead : (h : GzHead) (n : ℕ) → h.gz ≡ gz_extra → IsHead (skip_extra h n)
unfolding skip_extra
skip_extra-IsHead h n g = elim (Bool-cases (h.extra_left - n == 0)) [
  | inl a ↦ rw a (after_extra-Left h.flags (h.extra_left - n))
  | inr a ↦ rw (a, g) (ground (arith, ==→ne (h.extra_left - n) 0 a))
]
