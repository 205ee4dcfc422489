-- ===== src/Its/Link/Queue.antt =====
-- The queue of messages with a window that a packet link stands for.
use spangap_core.Base.{
  ℕ, ◌+◌, ◌-◌, ◌*◌, ◌≤◌, ◌<◌, ◌≡◌, Bool, true, false, not, ◌||◌, Option, none, some, List, [], ◌∷◌,
  ◌++◌, map, ltb, leb, ◌==◌, if◌then◌else◌, length, All, u32,
}
use spangap_core.Its.Link.{
  Desc, StreamBuffer, Source, owned, copied, Side, link_send_space, its_send_packet, its_recv,
  its_recv_ref, link_purge,
}

-- What FreeRTOS says of a stream buffer that only whole descriptors are sent to and received from:
-- what it holds, in order, and how many bytes fit.
pub record Laws (b : StreamBuffer) : Type 0 where
  pub items : b.R → List Desc
  pub capacity : b.R → ℕ
  pub spaces-items : (r : b.R) → b.spaces r ≡ capacity r - 8 * length (items r)
  pub available-items : (r : b.R) → b.available r ≡ 8 * length (items r)
  pub send-items : (r : b.R) (d : Desc) → 8 ≤ b.spaces r → items (b.send r d) ≡ items r ++ d ∷ []
  pub capacity-send : (r : b.R) (d : Desc) → capacity (b.send r d) ≡ capacity r
  pub receive-items :
      (r : b.R) (d : Desc) (ds : List Desc)
      → items r ≡ d ∷ ds
      → (r' : b.R) × (b.receive r ≡ some (d, r')) × (items r' ≡ ds) × (capacity r' ≡ capacity r)
  pub reset-items : (r : b.R) → items (b.reset r) ≡ []
  pub capacity-reset : (r : b.R) → capacity (b.reset r) ≡ capacity r

-- How many messages fit, the window of payload bytes and the longest message.
pub record Limits : Type 0 where
  pub depth : ℕ
  pub window : ℕ
  pub longest : ℕ
  -- No sum of lengths wraps.
  pub small : window + 2 * longest < 4294967296

abbrev pub total : List (List ℕ) → ℕ
total [] = 0
total (m ∷ ms) = length m + total ms

abbrev pub desc_of : List ℕ → Desc
desc_of m = record { len = length m; block = m }

-- A call on either end, the sender's or the receiver's.
pub data Call : Type 0 where
  send : Source → List ℕ → Call
  recv : ℕ → Call
  recv_ref reset space : Call

pub data Answer : Type 0 where
  sent : ℕ → Answer
  received : List ℕ → Answer
  referenced : Option (List ℕ) → Answer
  done : Answer
  room : ℕ → Answer

-- The queue: whether a message may enter.
abbrev pub admits : Limits → List (List ℕ) → ℕ → Bool
admits k q len =
    if leb k.depth (length q) then false else total q == 0 || leb (total q + len) k.window

-- Whether the sender has a block for the message.
abbrev pub has_block : Source → Bool
has_block owned = true
has_block (copied has_memory) = has_memory

unfoldable pub queue_step : Limits → Call → List (List ℕ) → Answer × List (List ℕ)
queue_step k (send source m) q =
    if length m == 0 || ltb k.longest (length m)
    then (sent 0, q)
    else if not (admits k q (length m))
    then (sent 0, q)
    else if has_block source
    then (sent (length m), q ++ m ∷ [])
    else (sent 0, q)
queue_step k (recv max_len) [] = (received [], [])
queue_step k (recv max_len) (m ∷ q) = (received (if ltb max_len (length m) then [] else m), q)
queue_step k recv_ref [] = (referenced none, [])
queue_step k recv_ref (m ∷ q) = (referenced (some m), q)
queue_step k reset q = (done, [])
queue_step k space q = (
  room (
      if leb k.depth (length q)
      then 0
      else if total q == 0
      then k.longest
      else if ltb (total q) k.window
      then k.window - total q
      else 0),
  q,
)

module _ (b : StreamBuffer) where
  unfoldable pub side_step : Call → Side b → Answer × Side b
  side_step (send source m) s = let r = its_send_packet b s source m in (sent r.0, r.1)
  side_step (recv max_len) s = let r = its_recv b s max_len in (received r.0, r.1)
  side_step recv_ref s = let r = its_recv_ref b s in (referenced r.0, r.1)
  side_step reset s = (done, link_purge b s)
  side_step space s = (room (link_send_space b s.link), s)

  -- The side holds the queue's messages, and `base` bytes of payload are live elsewhere.
  pub record Stands (laws : Laws b) (k : Limits) (base : ℕ) (s : Side b) (q : List (List ℕ))
      : Type 0 where
    pub held : laws.items s.link.ring ≡ map desc_of q
    pub charged : s.link.outstanding ≡ total q
    pub counted : s.pay.live_bytes ≡ u32 (base + total q)
    pub no_empty : All (λ m. 0 < length m) q
    pub within : total q ≤ k.window + k.longest
    pub fits : laws.capacity s.link.ring ≡ 8 * k.depth + 7
    pub cap : s.link.byte_cap ≡ k.window
    pub max : s.link.max_msg ≡ k.longest

module _ (b : StreamBuffer) (laws : Laws b) (k : Limits) (base : ℕ) where
  -- The same answer, and a side that stands for the queue.
  abbrev pub Follows : Answer × Side b → Answer × List (List ℕ) → Type 0
  Follows r a = (r.0 ≡ a.0) × Stands b laws k base r.1 a.1
