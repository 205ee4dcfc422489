-- ===== src/Targz/Tar/Bytewise.antt =====
-- A receiver that takes the contents of files byte by byte, and `tarConsume` with such a receiver: the
-- runs that its input comes in make no difference.
use spangap_core.Base.{
  ℕ, ◌<◌, ◌≡◌, refl, inl, inr, Bool, true, false, Bool-cases, some, List, [], ◌∷◌, ◌++◌, length,
  if◌then◌else◌,
}
use spangap_core.Targz.Tar.{Err, ok, Callbacks, Tar, tar_consume}
use spangap_core.Targz.Tar.Progress.{IsReady}
use spangap_core.Targz.Tar.Chunks.{TakesPieces, Agree}
use spangap_core.Targz.Tar.Cut.{tar_consume-append}

-- What a receiver does on each byte of a body, and its other callbacks.
pub record ByteReceiver : Type 1 where
  pub Ctx : Type 0
  pub on_dir : Ctx → List ℕ → Bool × Ctx
  pub on_file : Ctx → List ℕ → ℕ → Bool × Ctx
  pub on_byte : Ctx → ℕ → Bool × Ctx
  pub on_file_end : Ctx → Bool × Ctx

module _ (b : ByteReceiver) where
  open b use {Ctx, on_byte}

  -- The bytes in order, up to the first one that it refuses.
  unfoldable pub on_bytes : Ctx → List ℕ → Bool × Ctx
  on_bytes c [] = (true, c)
  on_bytes c (x ∷ xs) =
      let later = on_bytes (on_byte c x).1 xs in
      if (on_byte c x).0 then later else (false, (on_byte c x).1)

  abbrev pub by_bytes : Callbacks
  by_bytes = record {
    Ctx = Ctx;
    on_dir = b.on_dir;
    on_file = b.on_file;
    on_data = on_bytes;
    on_file_end = b.on_file_end;
  }

  on_bytes-append :
      (c : Ctx) (xs ys : List ℕ)
      → (on_bytes c xs).0 ≡ true
      → on_bytes c (xs ++ ys) ≡ on_bytes (on_bytes c xs).1 ys
  unfolding on_bytes
  on_bytes-append c [] ys h = refl
  on_bytes-append c (x ∷ xs) ys h = elim (Bool-cases (on_byte c x).0) [
    | inl a ↦ rw a (on_bytes-append (on_byte c x).1 xs ys (rw a at h))
    | inr a ↦ cc (rw a at h)
  ]

  by_bytes-TakesPieces : TakesPieces by_bytes
  by_bytes-TakesPieces = record { pieces = λ c xs ys _ _ h. on_bytes-append c xs ys h }

  -- Let the receiver take the contents of files byte by byte, up to the first byte that it refuses, and
  -- let the parser be in a state that it can be in. If `tarConsume` takes a run `p` without an error,
  -- and from there ends with `res` on a run `q` that is not empty, then on both in one run it ends with
  -- `res` too: with the same state after a success, and after a failure with the same error, the same
  -- state of the receiver and the same counts.
  pub tar_consume-cut :
      (r r1 : Tar Ctx) (p q : List ℕ) (res : Err × Tar Ctx)
      → IsReady r
      → 0 < length q
      → tar_consume by_bytes r p ≡ some (ok, r1)
      → tar_consume by_bytes r1 q ≡ some res
      → (whole : Err × Tar Ctx) × (tar_consume by_bytes r (p ++ q) ≡ some whole) × Agree whole res
  tar_consume-cut = tar_consume-append by_bytes by_bytes-TakesPieces
