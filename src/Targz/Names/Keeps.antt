-- ===== src/Targz/Names/Keeps.antt =====
-- Placing a name changes only the name fields, and keeps them as wide as they were.
use spangap_core.Base.{
  ℕ, zero, suc, ◌≤◌, ◌≡◌, ap, sym, subst, inl, inr, some, some-inj, List, [], ◌∷◌, Bool-cases,
  arith, ltb, leb, ◌==◌, length, take, drop, length-take, length-drop, leb→le, All, All-append,
}
use spangap_core.Targz.Header.{Ustar, HasWidths, overwrite}
use spangap_core.Targz.Header.Laws.{HasBytes, IsByte, length-overwrite}
use spangap_core.Targz.Names.{set_entry_name}
use spangap_core.Targz.Names.RoundTrip.{SplitAt, split_loop-some}

-- What a successful call may have written: the name alone, or the two parts of a split.
pub data Placed (h : Ustar) (name : List ℕ) (h' : Ustar) : Type 0 where
  plain : h' ≡ record h { name = overwrite h.name name } → length name ≤ 100 → Placed h name h'
  split : (j : ℕ) → SplitAt name h h' j → Placed h name h'

pub set_entry_name-Placed :
    (h h' : Ustar) (name : List ℕ) → set_entry_name h name ≡ some h' → Placed h name h'
unfolding set_entry_name
set_entry_name-Placed h h' name e = elim (Bool-cases (length name == 0)) [
  | inl empty ↦ cc (rw empty at e)
  | inr full ↦ elim (Bool-cases (leb (length name) 100)) [
    | inl short ↦ plain (sym (some-inj (rw (full, short) at e))) (leb→le (length name) 100 short)
    | inr long ↦ elim (Bool-cases (ltb 256 (length name))) [
      | inl over ↦ cc (rw (full, long, over) at e)
      | inr fits ↦
          let (j, s) =
            split_loop-some (length name) h h' name (omega arith) (rw (full, long, fits) at e) in
          split j s
    ]
  ]
]

-- A header with other name fields of the same widths.
renamed-HasWidths :
    (h : Ustar) (name prefix : List ℕ)
    → HasWidths h
    → length name ≡ 100
    → length prefix ≡ 155
    → HasWidths (record h { name = name; prefix = prefix })
renamed-HasWidths h name prefix v hn hp = record {
  name = hn;
  mode = v.mode;
  uid = v.uid;
  gid = v.gid;
  size = v.size;
  mtime = v.mtime;
  chksum = v.chksum;
  linkname = v.linkname;
  magic = v.magic;
  version = v.version;
  uname = v.uname;
  gname = v.gname;
  devmajor = v.devmajor;
  devminor = v.devminor;
  prefix = hp;
  pad = v.pad;
}

Placed-HasWidths : (h h' : Ustar) (name : List ℕ) → HasWidths h → Placed h name h' → HasWidths h'
Placed-HasWidths h h' name v (plain e short) =
    subst HasWidths (sym e)
      (renamed-HasWidths h _ h.prefix v (length-overwrite 100 h.name name v.name short) v.prefix)
Placed-HasWidths h h' name v (split j s) = subst HasWidths (sym s.written) (
    renamed-HasWidths h _ _ v
      (length-overwrite 100 h.name (drop (suc j) name) v.name
        (omega (arith, length-drop (suc j) name, s.tail_fits, s.inside)))
      (length-overwrite 155 h.prefix (take j name) v.prefix
        (omega (arith, length-take j name, s.prefix_fits))))

pub set_entry_name-HasWidths :
    (h h' : Ustar) (name : List ℕ) → HasWidths h → set_entry_name h name ≡ some h' → HasWidths h'
set_entry_name-HasWidths h h' name v e =
    Placed-HasWidths h h' name v (set_entry_name-Placed h h' name e)

All-take : (n : ℕ) (s : List ℕ) → All IsByte s → All IsByte (take n s)
All-take zero s h = tt
All-take (suc n) [] h = tt
All-take (suc n) (c ∷ s) (h, hs) = (h, All-take n s hs)

All-drop : (n : ℕ) (s : List ℕ) → All IsByte s → All IsByte (drop n s)
All-drop zero s h = h
All-drop (suc n) [] h = tt
All-drop (suc n) (c ∷ s) (h, hs) = All-drop n s hs

overwrite-IsByte :
    (dst src : List ℕ) → All IsByte dst → All IsByte src → All IsByte (overwrite dst src)
overwrite-IsByte dst src hd hs = All-append IsByte src _ hs (All-drop (length src) dst hd)

renamed-HasBytes :
    (h : Ustar) (name prefix : List ℕ)
    → HasBytes h
    → All IsByte name
    → All IsByte prefix
    → HasBytes (record h { name = name; prefix = prefix })
renamed-HasBytes h name prefix
      (
        _,
        (
          b2,
          (
            b3,
            (b4, (b5, (b6, (b7, (b8, (b9, (b10, (b11, (b12, (b13, (b14, (b15, (_, b17))))))))))))),
          ),
        ),
      )
      hn hp =
    (
      hn,
      (
        b2,
        (
          b3,
          (b4, (b5, (b6, (b7, (b8, (b9, (b10, (b11, (b12, (b13, (b14, (b15, (hp, b17))))))))))))),
        ),
      ),
    )

prefix_bytes : (h : Ustar) → HasBytes h → All IsByte h.prefix
prefix_bytes h b = b.1.1.1.1.1.1.1.1.1.1.1.1.1.1.1.0

Placed-HasBytes :
    (h h' : Ustar) (name : List ℕ) → HasBytes h → All IsByte name → Placed h name h' → HasBytes h'
Placed-HasBytes h h' name v b (plain e short) =
    subst HasBytes (sym e)
      (renamed-HasBytes h _ h.prefix v (overwrite-IsByte h.name name v.0 b) (prefix_bytes h v))
Placed-HasBytes h h' name v b (split j s) = subst HasBytes (sym s.written) (
    renamed-HasBytes h _ _ v (overwrite-IsByte h.name _ v.0 (All-drop (suc j) name b))
      (overwrite-IsByte h.prefix _ (prefix_bytes h v) (All-take j name b)))

pub set_entry_name-HasBytes :
    (h h' : Ustar) (name : List ℕ)
    → HasBytes h
    → All IsByte name
    → set_entry_name h name ≡ some h'
    → HasBytes h'
set_entry_name-HasBytes h h' name v b e =
    Placed-HasBytes h h' name v b (set_entry_name-Placed h h' name e)

-- The other fields are as they were.
pub record SameBody (h h' : Ustar) : Type 0 where
  pub size : h'.size ≡ h.size
  pub typeflag : h'.typeflag ≡ h.typeflag

pub set_entry_name-SameBody :
    (h h' : Ustar) (name : List ℕ) → set_entry_name h name ≡ some h' → SameBody h h'
set_entry_name-SameBody h h' name e = go (set_entry_name-Placed h h' name e)
  where
    go : Placed h name h' → SameBody h h'
    go (plain w short) = record {
      size = ap (λ (x : Ustar). x.size) w;
      typeflag = ap (λ (x : Ustar). x.typeflag) w;
    }
    go (split j s) = record {
      size = ap (λ (x : Ustar). x.size) s.written;
      typeflag = ap (λ (x : Ustar). x.typeflag) s.written;
    }
