-- ===== src/Targz/Tar/Progress.antt =====
-- The loop of `tarConsume` ends: every round takes a byte, and the state stays one from which the next
-- round does.
use spangap_core.Base.{
  ℕ, zero, suc, ◌+◌, ◌-◌, ◌≤◌, ◌<◌, ◌%◌, ◌^◌, ◌≡◌, ◌≢◌, refl, inl, inr, Option, none, some, List,
  [], ◌∷◌, ◌++◌, Bool, true, false, Bool-cases, arith, ltb, leb, ◌==◌, if◌then◌else◌, length, take,
  drop, length-drop, min, ltb→lt,
}
use spangap_core.Targz.Octal.{octal_value}
use spangap_core.Targz.Header.{Ustar, of_bytes, tar_block}
use spangap_core.Targz.Names.{entry_name}
use spangap_core.Targz.Tar.{
  Err, ok, err_tar, err_unsafe, TarStage, tar_hdr, tar_data, tar_pad, tar_end, Callbacks, Tar,
  end_entry, open_entry, announce, named_entry, accept, tar_header, hdr_step, data_step, pad_step,
  tar_step, after_round, is_end, tar_loop, tar_consume, strip_slashes, all_zero,
}

-- What the stage still waits for is more than nothing.
abbrev pub HasWork : TarStage → ℕ → ℕ → Type 0
HasWork tar_data pending pad = 0 < pending
HasWork tar_pad pending pad = 0 < pad
HasWork tar_hdr pending pad = Unit
HasWork tar_end pending pad = Unit

module _ {Ctx : Type 0} where
  pub record IsReady (r : Tar Ctx) : Type 0 where
    pub room : length r.hdr < 512
    pub work : HasWork r.stage r.pending r.pad

  abbrev Ready : Err × Tar Ctx → Type 0
  Ready (e, r) = e ≡ ok → IsReady r

module _ (cb : Callbacks) where
  open cb use {Ctx, on_dir, on_file, on_data, on_file_end}

  end_entry-Ready : (r : Tar Ctx) → length r.hdr < 512 → Ready (end_entry cb r)
  unfolding end_entry
  end_entry-Ready r h = elim (Bool-cases r.in_file) [
    | inl file ↦ rw file (elim (Bool-cases (on_file_end r.ctx).0) [
      | inl fine ↦ rw fine (λ _. ground arith)
      | inr bad ↦ rw bad (λ e. cc)
    ])
    | inr dir ↦ rw dir (λ _. ground arith)
  ]

  open_entry-Ready : (r : Tar Ctx) (size : ℕ) → length r.hdr < 512 → Ready (open_entry cb r size)
  unfolding open_entry
  open_entry-Ready r size h = elim (Bool-cases (size == 0)) [
    | inl empty ↦ rw empty (end_entry-Ready _ h)
    | inr full ↦ rw full (λ _. record { room = h; work = ground arith })
  ]

  announce-Ready :
      (r : Tar Ctx) (is_dir : Bool) (name : List ℕ) (size : ℕ)
      → length r.hdr < 512
      → Ready (announce cb r is_dir name size)
  unfolding announce
  announce-Ready r true name size h = elim (Bool-cases (on_dir r.ctx name).0) [
    | inl fine ↦ rw fine (open_entry-Ready _ size h)
    | inr bad ↦ rw bad (λ e. cc)
  ]
  announce-Ready r false name size h = elim (Bool-cases (on_file r.ctx name (size % 2 ^ 32)).0) [
    | inl fine ↦ rw fine (open_entry-Ready _ size h)
    | inr bad ↦ rw bad (λ e. cc)
  ]

  if-Ready :
      (test : Bool) (e : Err) (r : Tar Ctx) (other : Err × Tar Ctx)
      → e ≢ ok
      → Ready other
      → Ready (if test then (e, r) else other)
  if-Ready true e r other ne h = λ p. absurd (ne p)
  if-Ready false e r other ne h = h

  named_entry-Ready :
      (r : Tar Ctx) (h : Ustar) (name : List ℕ)
      → length r.hdr < 512
      → Ready (named_entry cb r h name)
  unfolding named_entry
  named_entry-Ready r h name lt =
      if-Ready _ err_unsafe r _ (λ e. cc)
        (if-Ready _ err_unsafe r _ (λ e. cc)
          (announce-Ready r _ (strip_slashes name) (octal_value h.size) lt))

  accept-Ready :
      (r : Tar Ctx) (h : Ustar) (o : Option (List ℕ)) → length r.hdr < 512 → Ready (accept cb r h o)
  unfolding accept
  accept-Ready r h none lt = λ e. cc
  accept-Ready r h (some name) lt = named_entry-Ready r h name lt

  tar_header-Ready :
      (r : Tar Ctx) (block : List ℕ)
      → r.stage ≡ tar_hdr
      → length r.hdr < 512
      → Ready (tar_header cb r block)
  unfolding tar_header
  tar_header-Ready r block st lt = elim (Bool-cases (all_zero block)) [
    | inl zeros ↦ rw zeros (elim (Bool-cases (leb 2 (r.zero_blocks + 1))) [
      | inl two ↦ rw two (λ _. record { room = lt; work = tt })
      | inr one ↦ rw one (λ _. record { room = lt; work = rw st tt })
    ])
    | inr entry ↦ rw entry (
        if-Ready _ err_tar _ _ (λ e. cc)
          (accept-Ready (record r { zero_blocks = 0 }) (of_bytes block)
            (entry_name (of_bytes block)) lt))
  ]

  -- What a round owes: a byte less, and a state from which the next one can go on.
  abbrev pub Round : List ℕ → Err × Tar Ctx × List ℕ → Type 0
  Round p (e, r, rest) = e ≡ ok → IsReady r × (length rest < length p)

  module _ (r : Tar Ctx) (v : IsReady r) (p : List ℕ) (more : 0 < length p) where
    hdr_step-Round : r.stage ≡ tar_hdr → Round p (hdr_step cb r p)
    unfolding hdr_step
    hdr_step-Round st =
        elim (Bool-cases
          (ltb (length (r.hdr ++ take (min (tar_block - length r.hdr) (length p)) p)) tar_block)) [
            | inl short ↦
                rw short (λ _. (record { room = ltb→lt _ _ short; work = rw st tt }, shorter))
            | inr full ↦
                rw full
                  (λ e. (tar_header-Ready (record r { hdr = [] }) _ st (omega arith) e, shorter))
          ]
      where
        shorter : length (drop (min (tar_block - length r.hdr) (length p)) p) < length p
        shorter =
            omega (arith, v.room, more, length-drop (min (tar_block - length r.hdr) (length p)) p)

    pad_step-Round : r.stage ≡ tar_pad → Round p (pad_step cb r p)
    unfolding pad_step
    pad_step-Round st = elim (Bool-cases (r.pad - min r.pad (length p) == 0)) [
      | inl done ↦ rw done (λ _. (record { room = v.room; work = tt }, shorter))
      | inr open_pad ↦
          rw open_pad (λ _. (record { room = v.room; work = rw st (ground arith) }, shorter))
    ]
      where
        some_pad : 0 < r.pad
        some_pad = rw st at v.work

        shorter : length (drop (min r.pad (length p)) p) < length p
        shorter = omega (arith, more, some_pad, length-drop (min r.pad (length p)) p)

    -- The end of a body, or more of it, on whatever the receiver answered.
    data_step-Round : r.stage ≡ tar_data → Round p (data_step cb r p)
    unfolding data_step
    data_step-Round st = elim (Bool-cases got) [
      | inr bad ↦ rw bad (λ e. cc)
      | inl fine ↦ elim (Bool-cases (r.pending - n == 0)) [
        | inl done ↦ rw (fine, done) (λ e. (end_entry-Ready _ v.room e, shorter))
        | inr open_body ↦
            rw (fine, open_body)
              (λ _. (record { room = v.room; work = rw st (ground arith) }, shorter))
      ]
    ]
      where
        n : ℕ
        n = min r.pending (length p)

        got : Bool
        got = (if r.in_file then on_data r.ctx (take n p) else (true, r.ctx)).0

        some_body : 0 < r.pending
        some_body = rw st at v.work

        shorter : length (drop (min r.pending (length p)) p) < length p
        shorter = omega (arith, more, some_body, length-drop (min r.pending (length p)) p)

    pub tar_step-Round :
        (stage : TarStage)
        → r.stage ≡ stage
        → is_end stage ≡ false
        → Round p (tar_step cb stage r p)
    unfolding tar_step
    tar_step-Round tar_hdr st e = hdr_step-Round st
    tar_step-Round tar_data st e = data_step-Round st
    tar_step-Round tar_pad st e = pad_step-Round st
    tar_step-Round tar_end st e = cc

  -- The run was consumed: there is a result, and after a success the parser can go on.
  pub record Consumed (o : Option (Err × Tar Ctx)) : Type 0 where
    pub result : Err × Tar Ctx
    pub returned : o ≡ some result
    pub ready : result.0 ≡ ok → IsReady result.1

  Round-Consumed :
      (fuel : ℕ)
      → ((r : Tar Ctx) (p : List ℕ) → IsReady r → length p ≤ fuel → Consumed (tar_loop cb fuel r p))
      → (p : List ℕ) (s : Err × Tar Ctx × List ℕ) → length p ≤ suc fuel
      → Round p s
      → Consumed (after_round cb (tar_loop cb fuel) s)
  Round-Consumed fuel ih p (ok, r', rest) le h = ih r' rest (h refl).0 (omega (arith, (h refl).1))
  Round-Consumed fuel ih p (e, r', rest) le h = record {
    result = (e, r');
    returned = refl;
    ready = λ p. cc;
  }

  tar_loop-Consumed :
      (fuel : ℕ) (r : Tar Ctx) (p : List ℕ)
      → IsReady r
      → length p ≤ fuel
      → Consumed (tar_loop cb fuel r p)
  unfolding tar_loop
  tar_loop-Consumed fuel r [] v le = record { result = (ok, r); returned = refl; ready = λ _. v }
  tar_loop-Consumed zero r (c ∷ p) v le = absurd (omega arith)
  tar_loop-Consumed (suc fuel) r (c ∷ p) v le = elim (Bool-cases (is_end r.stage)) [
    | inl done ↦ rw done (record { result = (ok, r); returned = refl; ready = λ _. v })
    | inr go_on ↦ rw go_on (
        Round-Consumed fuel (λ r' rest v' le'. tar_loop-Consumed fuel r' rest v' le') (c ∷ p)
          (tar_step cb r.stage r (c ∷ p)) le
          (tar_step-Round r v (c ∷ p) (omega arith) r.stage refl go_on))
  ]

  -- From a state that the parser can be in, `tarConsume` ends on every run of bytes, and leaves such a
  -- state behind when it succeeds.
  pub tar_consume-Consumed : (r : Tar Ctx) (p : List ℕ) → IsReady r → Consumed (tar_consume cb r p)
  unfolding tar_consume
  tar_consume-Consumed r p v = tar_loop-Consumed (length p) r p v (omega arith)
