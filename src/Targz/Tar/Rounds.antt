-- ===== src/Targz/Tar/Rounds.antt =====
-- One round of `tarConsume` in closed form: a run that leaves the stage open, and one that ends it.
use spangap_core.Base.{
  ℕ, ◌+◌, ◌-◌, ◌≤◌, ◌<◌, ◌≡◌, List, [], ◌++◌, Bool, true, false, arith, if◌then◌else◌, length, take,
  drop, length-take, length-append, min, lt→ltb, le→ltb, ne→==, take-all, drop-all,
}
use spangap_core.Targz.Header.{tar_block}
use spangap_core.Targz.Tar.{
  Err, ok, err_sink, tar_hdr, Callbacks, Tar, end_entry, tar_header, hdr_step, data_step, pad_step,
}

-- The result of a round with what is left of the run behind it.
abbrev pub with_rest {ℓ} : {Ctx : Type 0} {R : Type ℓ} → Err × Tar Ctx → R → Err × Tar Ctx × R
with_rest (e, r) rest = (e, r, rest)

-- The rounds of the header stage, on a run that does not fill the block and on one that does.
module _ (cb : Callbacks) (r : Tar cb.Ctx) where
  pub hdr_step-short :
      (p : List ℕ)
      → length r.hdr + length p < 512
      → hdr_step cb r p ≡ (ok, record r { hdr = r.hdr ++ p }, [])
  unfolding hdr_step
  hdr_step-short p h = rw (
    min_all,
    take-all (length p) p (omega arith),
    drop-all (length p) p (omega arith),
    lt→ltb (length (r.hdr ++ p)) 512 (omega (arith, length-append r.hdr p)),
  )
    where
      min_all : min (tar_block - length r.hdr) (length p) ≡ length p
      min_all = omega arith

  pub hdr_step-full :
      (p : List ℕ) (n : ℕ)
      → n + length r.hdr ≡ 512
      → n ≤ length p
      → hdr_step cb r p
        ≡ with_rest (tar_header cb (record r { hdr = [] }) (r.hdr ++ take n p)) (drop n p)
  unfolding hdr_step
  hdr_step-full p n hn h = rw (
    min_need,
    le→ltb (length (r.hdr ++ take n p)) 512
        (omega (arith, length-append r.hdr (take n p), length-take n p)),
  )
    where
      min_need : min (tar_block - length r.hdr) (length p) ≡ n
      min_need = omega arith

-- The rounds of the padding.
module _ (cb : Callbacks) (r : Tar cb.Ctx) where
  pub pad_step-short :
      (p : List ℕ)
      → length p < r.pad
      → pad_step cb r p ≡ (ok, record r { pad = r.pad - length p }, [])
  unfolding pad_step
  pad_step-short p h =
      rw (least, drop-all (length p) p (omega arith), ne→== (r.pad - length p) 0 (λ e. omega arith))
    where
      least : min r.pad (length p) ≡ length p
      least = omega arith

  pub pad_step-full :
      (p : List ℕ)
      → r.pad ≤ length p
      → pad_step cb r p ≡ (ok, record r { pad = 0; stage = tar_hdr }, drop r.pad p)
  unfolding pad_step
  pad_step-full p h = rw (least, nothing)
    where
      least : min r.pad (length p) ≡ r.pad
      least = omega arith

      nothing : r.pad - r.pad ≡ 0
      nothing = omega arith

-- The rounds of a body: what the receiver answered decides.
module _ (cb : Callbacks) (r : Tar cb.Ctx) where
  open cb use {Ctx, on_data}

  abbrev pub body : List ℕ → Bool × Ctx
  body bytes = if r.in_file then on_data r.ctx bytes else (true, r.ctx)

  pub data_step-short :
      (p : List ℕ)
      → length p < r.pending
      → (body p).0 ≡ true
      → data_step cb r p ≡ (ok, record r { ctx = (body p).1; pending = r.pending - length p }, [])
  unfolding data_step
  data_step-short p h fine = rw (
    least,
    take-all (length p) p (omega arith),
    drop-all (length p) p (omega arith),
    fine,
    ne→== (r.pending - length p) 0 (λ e. omega arith),
  )
    where
      least : min r.pending (length p) ≡ length p
      least = omega arith

  pub data_step-full :
      (p : List ℕ)
      → r.pending ≤ length p
      → (body (take r.pending p)).0 ≡ true
      → data_step cb r p
        ≡ with_rest
            (end_entry cb (record r { ctx = (body (take r.pending p)).1; pending = 0 }))
            (drop r.pending p)
  unfolding data_step
  data_step-full p h fine = rw (least, fine, nothing)
    where
      least : min r.pending (length p) ≡ r.pending
      least = omega arith

      nothing : r.pending - r.pending ≡ 0
      nothing = omega arith

  pub data_step-fails :
      (p b : List ℕ)
      → take (min r.pending (length p)) p ≡ b
      → (body b).0 ≡ false
      → data_step cb r p ≡ (err_sink, record r { ctx = (body b).1 }, p)
  unfolding data_step
  data_step-fails p b e bad = rw (e, bad)
