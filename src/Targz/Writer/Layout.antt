-- ===== src/Targz/Writer/Layout.antt =====
-- The shape of the archive: entries stand on block boundaries, bodies have their declared size, and the
-- footer tells of what was written.
use spangap_core.Base.{
  ℕ, zero, suc, ◌+◌, ◌%◌, ◌^◌, ◌≡◌, ◌∙◌, refl, ap, sym, subst, inl, inr, ◌⊎◌, Option, none, some,
  List, [], ◌∷◌, ◌++◌, Bool, true, Bool-cases, arith, ◌==◌, if◌then◌else◌, length, replicate,
  length-append, append_assoc, append-nil, ==_iff,
}
use spangap_core.Targz.Header.{Ustar, fill_header, seal_header, to_bytes}
use spangap_core.Targz.Names.{set_entry_name}
use spangap_core.Targz.Tar.{pad_of}
use spangap_core.Targz.Writer.{
  Miniz, W, and_then, close_body, close_pad, finish_entry, write_header, dir_header, add_dir,
  add_file, write_raw, write_zeros,
}
use spangap_core.Targz.Writer.Stream.{Documented, Succeeds, and_then-inv, ok_guard}
use spangap_core.Targz.Writer.Archive.{Wrote, Wrote-nil, write_raw-Wrote, write_zeros-Wrote}

pub zeros_sum : (a b : ℕ) → ◌++◌ {A = ℕ} (replicate a 0) (replicate b 0) ≡ replicate (a + b) 0
zeros_sum zero b = ap (λ (n : ℕ). replicate n 0) (omega arith)
zeros_sum (suc a) b =
    ap (λ t. 0 ∷ t) (zeros_sum a b) ∙ ap (λ (n : ℕ). replicate n 0) (suc_first a b)
  where
    suc_first : (i j : ℕ) → suc (i + j) ≡ suc i + j
    suc_first i j = omega arith

-- What `targzWriterAddFile` and `targzWriterAddDir` put behind it: a sealed header, or nothing.
abbrev pub header_bytes : Option Ustar → List ℕ
header_bytes none = []
header_bytes (some h) = to_bytes (seal_header h)

abbrev pub owed {ℓ} : {A : Type ℓ} → Option A → ℕ → ℕ
owed none n = 0
owed (some h) n = n

module _ (m : Miniz) (d : Documented m) where
  open m use {crc32}
  open d use {fed}

  -- `bytes` have gone into the archive, and the entry now owes `body` bytes and `padding` zeros.
  pub record Adds (w w' : W m) (bytes : List ℕ) (body padding : ℕ) : Type 0 where
    pub taken : fed w'.comp ≡ fed w.comp ++ bytes
    pub crc : w'.crc ≡ crc32 w.crc bytes
    pub raw_len : w'.raw_len % 2 ^ 64 ≡ (w.raw_len + length bytes) % 2 ^ 64
    pub pending : w'.pending ≡ body
    pub pad : w'.pad ≡ padding

  pub Adds-Wrote :
      (w w' : W m) (bytes : List ℕ) → Wrote m d w w' bytes → Adds w w' bytes w.pending w.pad
  Adds-Wrote w w' bytes t = record {
    taken = t.taken;
    crc = t.crc;
    raw_len = t.raw_len;
    pending = t.pending;
    pad = t.pad;
  }

  pub Adds-nil : (w : W m) → Adds w w [] w.pending w.pad
  Adds-nil w = record {
    taken = sym (append-nil _);
    crc = sym (d.crc_nil w.crc);
    raw_len = ap (λ (n : ℕ). n % 2 ^ 64) (omega arith);
    pending = refl;
    pad = refl;
  }

  pub Adds-trans :
      (w1 w2 w3 : W m) (a b : List ℕ) (i j k l : ℕ)
      → Adds w1 w2 a i j
      → Adds w2 w3 b k l
      → Adds w1 w3 (a ++ b) k l
  Adds-trans w1 w2 w3 a b i j k l s t = record {
    taken = t.taken ∙ rw s.taken (append_assoc (fed w1.comp) a b);
    crc = t.crc ∙ rw s.crc (d.crc_append w1.crc a b);
    raw_len = omega (arith, t.raw_len, s.raw_len, length-append a b);
    pending = t.pending;
    pad = t.pad;
  }

  -- `if (n) { writeZeros(n); after }` writes n zeros, and `after` holds if there were any.
  close-Wrote :
      (n : ℕ) (after : W m → W m) (w w' : W m)
      → Succeeds
          (if n == 0 then (true, w) else and_then (write_zeros m w n) (λ x. (true, after x)))
          w'
      → (w1 : W m) × Wrote m d w w1 (replicate n 0) × ((w' ≡ after w1) ⊎ ((n ≡ 0) × (w' ≡ w1)))
  close-Wrote n after w w' h = elim (Bool-cases (n == 0)) [
    | inl nothing ↦
        let e0 = (==_iff n 0).0 nothing in
        (
          w,
          subst (λ (k : ℕ). Wrote m d w w (replicate k 0)) (sym e0) (Wrote-nil m d w),
          inr (e0, sym (ap (λ (x : Bool × W m). x.1) (rw nothing at h))),
        )
    | inr owed ↦
        let (w1, zeros, last) =
          and_then-inv (write_zeros m w n) (λ x. (true, after x)) (rw owed at h) in
        (w1, write_zeros-Wrote m d w w1 n zeros, inl (sym (ap (λ (x : Bool × W m). x.1) last)))
  ]

  close_body-Adds :
      (w w' : W m) → Succeeds (close_body m w) w' → Adds w w' (replicate w.pending 0) 0 w.pad
  unfolding close_body
  close_body-Adds w w' h = go (close-Wrote w.pending (λ x. record x { pending = 0 }) w w' h)
    where
      go :
          (w1 : W m) × Wrote m d w w1 (replicate w.pending 0)
            × ((w' ≡ record w1 { pending = 0 }) ⊎ ((w.pending ≡ 0) × (w' ≡ w1)))
          → Adds w w' (replicate w.pending 0) 0 w.pad
      go (w1, t, inl e) =
          subst (λ x. Adds w x (replicate w.pending 0) 0 w.pad) (sym e)
            (record {
              taken = t.taken;
              crc = t.crc;
              raw_len = t.raw_len;
              pending = refl;
              pad = t.pad;
            })
      go (w1, t, inr (e0, e)) =
          subst (λ x. Adds w x (replicate w.pending 0) 0 w.pad) (sym e)
            (record {
              taken = t.taken;
              crc = t.crc;
              raw_len = t.raw_len;
              pending = t.pending ∙ e0;
              pad = t.pad;
            })

  pub close_pad-Adds :
      (w w' : W m) → Succeeds (close_pad m w) w' → Adds w w' (replicate w.pad 0) w.pending 0
  unfolding close_pad
  close_pad-Adds w w' h = go (close-Wrote w.pad (λ x. record x { pad = 0 }) w w' h)
    where
      go :
          (w1 : W m) × Wrote m d w w1 (replicate w.pad 0)
            × ((w' ≡ record w1 { pad = 0 }) ⊎ ((w.pad ≡ 0) × (w' ≡ w1)))
          → Adds w w' (replicate w.pad 0) w.pending 0
      go (w1, t, inl e) =
          subst (λ x. Adds w x (replicate w.pad 0) w.pending 0) (sym e)
            (record {
              taken = t.taken;
              crc = t.crc;
              raw_len = t.raw_len;
              pending = t.pending;
              pad = refl;
            })
      go (w1, t, inr (e0, e)) =
          subst (λ x. Adds w x (replicate w.pad 0) w.pending 0) (sym e)
            (record {
              taken = t.taken;
              crc = t.crc;
              raw_len = t.raw_len;
              pending = t.pending;
              pad = t.pad ∙ e0;
            })

  -- What an open entry still owes is written as zeros before anything else.
  pub finish_entry-Adds :
      (w w' : W m)
      → Succeeds (finish_entry m w) w'
      → Adds w w' (replicate (w.pending + w.pad) 0) 0 0
  unfolding finish_entry
  finish_entry-Adds w w' h =
      let (w1, first, rest) = and_then-inv (close_body m w) (close_pad m) h in
      let s = close_body-Adds w w1 first in
      let t = close_pad-Adds w1 w' rest in
      subst (λ b. Adds w w' b 0 0) (zeros_sum w.pending w.pad)
        (Adds-trans w w1 w' (replicate w.pending 0) (replicate w.pad 0) 0 w.pad 0 0 s (
          subst (λ (k : ℕ). Adds w1 w' (replicate k 0) 0 0) s.pad
            (subst (λ (k : ℕ). Adds w1 w' (replicate w1.pad 0) k 0) s.pending t)))

  pub write_header-Adds :
      (w w' : W m) (o : Option Ustar) (body padding : ℕ)
      → w.pending ≡ 0
      → w.pad ≡ 0
      → Succeeds (write_header m w o (λ x. record x { pending = body; pad = padding })) w'
      → Adds w w' (header_bytes o) (owed o body) (owed o padding)
  unfolding write_header
  write_header-Adds w w' none body padding e0 e1 h =
      subst (λ x. Adds w x [] 0 0) (ap (λ (x : Bool × W m). x.1) h)
        (subst (λ (k : ℕ). Adds w w [] k 0) e0
          (subst (λ (k : ℕ). Adds w w [] w.pending k) e1 (Adds-nil w)))
  write_header-Adds w w' (some hd) body padding e0 e1 h =
      let (w1, first, last) =
        and_then-inv (write_raw m w (to_bytes (seal_header hd)))
          (λ x. (true, record x { pending = body; pad = padding })) h in
      let t = write_raw-Wrote m d w w1 (to_bytes (seal_header hd)) first in
      subst (λ x. Adds w x (to_bytes (seal_header hd)) body padding)
        (ap (λ (x : Bool × W m). x.1) last)
        (record { taken = t.taken; crc = t.crc; raw_len = t.raw_len; pending = refl; pad = refl })

  -- A file: the open entry is completed, its header follows, and its body is owed with its padding. If
  -- the name does not fit, the file is skipped and nothing is owed.
  pub add_file-Adds :
      (w w' : W m) (name : List ℕ) (size mtime : ℕ)
      → Succeeds (add_file m w name size mtime) w'
      → let placed = set_entry_name (fill_header 48 size mtime) name in
        Adds w w'
          (replicate (w.pending + w.pad) 0 ++ header_bytes placed)
          (owed placed size)
          (owed placed (pad_of size))
  unfolding add_file
  add_file-Adds w w' name size mtime h =
      let (w1, first, rest) =
        and_then-inv (finish_entry m w)
          (λ x.
            write_header m x (set_entry_name (fill_header 48 size mtime) name)
              (λ y. record y { pending = size; pad = pad_of size }))
          (ok_guard w.is_ok w _ h).1 in
      let s = finish_entry-Adds w w1 first in
      Adds-trans w w1 w' _ _ 0 0 _ _ s (
        write_header-Adds w1 w' (set_entry_name (fill_header 48 size mtime) name) size (pad_of size)
          s.pending s.pad rest)

  -- A directory: the open entry is completed and its header follows, or it is skipped.
  pub add_dir-Adds :
      (w w' : W m) (name : List ℕ) (mtime : ℕ)
      → Succeeds (add_dir m w name mtime) w'
      → Adds w w' (replicate (w.pending + w.pad) 0 ++ header_bytes (dir_header m name mtime)) 0 0
  unfolding add_dir
  add_dir-Adds w w' name mtime h =
      let (w1, first, rest) =
        and_then-inv (finish_entry m w) (λ x. write_header m x (dir_header m name mtime) (λ y. y))
          (ok_guard w.is_ok w _ h).1 in
      let s = finish_entry-Adds w w1 first in
      Adds-trans w w1 w' _ _ 0 0 0 0 s (bare w1 (dir_header m name mtime) s.pending s.pad rest)
    where
      bare :
          (w1 : W m) (o : Option Ustar)
          → w1.pending ≡ 0
          → w1.pad ≡ 0
          → Succeeds (write_header m w1 o (λ y. y)) w'
          → Adds w1 w' (header_bytes o) 0 0
      bare w1 none e0 e1 e =
          unfold write_header in
          subst (λ x. Adds w1 x [] 0 0) (ap (λ (x : Bool × W m). x.1) e)
            (subst (λ (k : ℕ). Adds w1 w1 [] k 0) e0
              (subst (λ (k : ℕ). Adds w1 w1 [] w1.pending k) e1 (Adds-nil w1)))
      bare w1 (some hd) e0 e1 e =
          unfold write_header in
          (let (w2, first, last) =
              and_then-inv (write_raw m w1 (to_bytes (seal_header hd))) (λ x. (true, x)) e in
            let t = write_raw-Wrote m d w1 w2 (to_bytes (seal_header hd)) first in
            subst (λ x. Adds w1 x (to_bytes (seal_header hd)) 0 0)
              (ap (λ (x : Bool × W m). x.1) last)
              (record {
                taken = t.taken;
                crc = t.crc;
                raw_len = t.raw_len;
                pending = t.pending ∙ e0;
                pad = t.pad ∙ e1;
              }))
