-- ===== src/Its/Counter.antt =====
-- The ownership counters of esp-idf/src/its.cpp: ctrAdd, ctrSub and the wrappers of the payloads.
use spangap_core.Base.{ℕ, ◌+◌, Bool, Option, none, some, ltb, ◌==◌, if◌then◌else◌, u32, sub_u32}

pub record Ctr : Type 0 where
  pub live_blocks : ℕ
  pub live_bytes : ℕ
  pub hw_blocks : ℕ
  pub hw_bytes : ℕ

unfoldable pub ctr_add : Ctr → ℕ → Ctr
ctr_add c bytes =
    let lb = u32 (c.live_blocks + 1) in
    let by = u32 (c.live_bytes + bytes) in
    record {
      live_blocks = lb;
      live_bytes = by;
      hw_blocks = if ltb c.hw_blocks lb then lb else c.hw_blocks;
      hw_bytes = if ltb c.hw_bytes by then by else c.hw_bytes;
    }

unfoldable pub ctr_sub : Ctr → ℕ → Ctr
ctr_sub c bytes = record c {
  live_blocks = sub_u32 c.live_blocks 1;
  live_bytes = sub_u32 c.live_bytes bytes;
}

-- payAlloc, `has_memory` whether the allocation succeeds. none stands for a null pointer.
unfoldable pub pay_alloc : Bool → Ctr → ℕ → Option Ctr
pay_alloc has_memory c len =
    if len == 0 then none else if has_memory then some (ctr_add c len) else none
