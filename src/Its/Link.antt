-- ===== src/Its/Link.antt =====
-- The packet links of esp-idf/src/its.cpp: a ring of descriptors each way, the window of payload bytes, and the
-- send and receive calls on them. A block of memory is the list of its bytes.
pub mod Queue
pub mod Send
pub mod Receive
pub mod Refine
use spangap_core.Base.{
  ◌>>=◌, ℕ, zero, suc, ◌+◌, ◌-◌, ◌/◌, Bool, false, not, ◌||◌, Option, none, some, List, [], ltb,
  leb, ◌==◌, if◌then◌else◌, length, take, u32, sub_u32,
}
use spangap_core.Its.Counter.{Ctr, ctr_add, ctr_sub, pay_alloc}

pub record Desc : Type 0 where
  pub len : ℕ
  pub block : List ℕ

-- What the links use of FreeRTOS's stream buffers. A descriptor has 8 bytes.
pub record StreamBuffer : Type 1 where
  pub R : Type 0
  pub spaces : R → ℕ
  pub available : R → ℕ
  pub send : R → Desc → R
  pub receive : R → Option (Desc × R)
  pub reset : R → R

-- Whether a call with payload bytes gives its own block away (itsSendOwned), and if not whether there
-- is memory for a copy.
pub data Source : Type 0 where
  owned : Source
  copied : Bool → Source

module _ (b : StreamBuffer) where
  pub record Link : Type 0 where
    pub ring : b.R
    pub byte_cap : ℕ
    pub max_msg : ℕ
    pub outstanding : ℕ

  -- One direction, and the payload counter.
  pub record Side : Type 0 where
    pub link : Link
    pub pay : Ctr

  unfoldable pub link_send_space : Link → ℕ
  link_send_space l =
      let out = l.outstanding in
      if ltb (b.spaces l.ring) 8
      then 0
      else if out == 0
      then l.max_msg
      else if ltb out l.byte_cap
      then l.byte_cap - out
      else 0

  unfoldable pub link_can_send : Link → ℕ → Bool
  link_can_send l len =
      let out = l.outstanding in
      if ltb (b.spaces l.ring) 8 then false else out == 0 || leb (u32 (out + len)) l.byte_cap

  unfoldable pub link_enqueue : Link → Desc → Link
  link_enqueue l d = record l { outstanding = u32 (l.outstanding + d.len); ring = b.send l.ring d }

  -- The descriptor received, none for false. A wait of no ticks.
  unfoldable pub link_dequeue : Link → Option (Desc × Link)
  link_dequeue l =
      if ltb (b.available l.ring) 8
      then none
      else (b.receive l.ring >>= (λ got.
          some (got.0, record l { ring = got.1; outstanding = sub_u32 l.outstanding got.0.len })))

  -- The counter once the payload is the transport's: adopted, or copied into a new block.
  unfoldable pub take_payload : Source → Ctr → ℕ → Option Ctr
  take_payload owned c len = some (ctr_add c len)
  take_payload (copied has_memory) c len = pay_alloc has_memory c len

  abbrev pub queue_payload : Side → Desc → Option Ctr → ℕ × Side
  queue_payload s d none = (0, s)
  queue_payload s d (some pay) = (d.len, record { link = link_enqueue s.link d; pay = pay })

  -- itsSendPacket with a wait of no ticks: the value, and the side.
  unfoldable pub its_send_packet : Side → Source → List ℕ → ℕ × Side
  its_send_packet s source data_bytes =
      let len = length data_bytes in
      if len == 0 || ltb s.link.max_msg len
      then (0, s)
      else if not (link_can_send s.link len)
      then (0, s)
      else queue_payload s (record { len = len; block = data_bytes })
          (take_payload source s.pay len)

  abbrev pub recv_message : Side → ℕ → Option (Desc × Link) → List ℕ × Side
  recv_message s max_len none = ([], s)
  recv_message s max_len (some (d, link)) = (
    if ltb max_len d.len then [] else take d.len d.block,
    record { link = link; pay = ctr_sub s.pay d.len },
  )

  abbrev pub hand_off : Side → Option (Desc × Link) → Option (List ℕ) × Side
  hand_off s none = (none, s)
  hand_off s (some (d, link)) = (some d.block, record { link = link; pay = ctr_sub s.pay d.len })

  -- itsRecv on a packet link: the bytes, [] for a value of 0. A message too long for the buffer is
  -- dropped.
  unfoldable pub its_recv : Side → ℕ → List ℕ × Side
  its_recv s max_len = recv_message s max_len (link_dequeue s.link)

  -- itsRecvRef: the block, which is the caller's from then on.
  unfoldable pub its_recv_ref : Side → Option (List ℕ) × Side
  its_recv_ref s = hand_off s (link_dequeue s.link)

  -- The descriptors that the loops of linkPurge and linkFree drain. The fuel is the number of them.
  unfoldable pub drain_ring : ℕ → b.R → Ctr → b.R × Ctr
  drain_ring zero r c = (r, c)
  drain_ring (suc fuel) r c = if ltb (b.available r) 8 then (r, c) else elim (b.receive r) [
    | none ↦ (r, c)
    | some got ↦ drain_ring fuel got.1 (ctr_sub c got.0.len)
  ]

  unfoldable pub link_purge : Side → Side
  link_purge s =
      let fuel = b.available s.link.ring / 8 in
      let drained = drain_ring fuel s.link.ring s.pay in
      record { link = record s.link { ring = b.reset drained.0; outstanding = 0 }; pay = drained.1 }
