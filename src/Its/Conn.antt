-- ===== src/Its/Conn.antt =====
-- The connection table of esp-idf/src/its.cpp: connAlloc, connFree, conn, and which buffer or link a task uses
-- at a connection.
pub mod Alloc
pub mod Free
use spangap_core.Base.{
  ◌>>=◌, ℕ, zero, suc, ◌+◌, ◌%◌, Bool, true, false, not, ◌&&◌, Option, none, some, List, [], ◌∷◌,
  ◌++◌, leb, ◌==◌, if◌then◌else◌, get_or, set,
}

-- its_port_kind_t
pub data Kind : Type 0 where
  stream packet_legacy packet : Kind

-- none stands for a null task, and for -1 as an index or a reference.
pub record Conn : Type 0 where
  pub active : Bool
  pub kind : Kind
  pub no_pool : Bool
  pub client_task : Option ℕ
  pub server_task : Option ℕ
  pub to_pool_idx : Option ℕ
  pub from_pool_idx : Option ℕ
  pub to_link_idx : Option ℕ
  pub from_link_idx : Option ℕ
  pub its_port : ℕ
  pub client_ref : Option ℕ
  pub server_ref : Option ℕ
  pub connect_nonce : ℕ

abbrev pub max_conns : ℕ
max_conns = 128

pub record Table : Type 0 where
  pub conns : List Conn
  pub counter : ℕ

-- An entry of zeros, but for its four indices, which are -1.
abbrev pub cleared : Conn
cleared = record {
  active = false;
  kind = stream;
  no_pool = false;
  client_task = none;
  server_task = none;
  to_pool_idx = none;
  from_pool_idx = none;
  to_link_idx = none;
  from_link_idx = none;
  its_port = 0;
  client_ref = some 0;
  server_ref = some 0;
  connect_nonce = 0;
}

abbrev pub fresh_conn : Conn
fresh_conn = record cleared { active = true; client_ref = none; server_ref = none }

-- The loop of connAlloc, `idx` the entry to look at.
unfoldable pub alloc_loop : Table → ℕ → ℕ → Option ℕ × Table
alloc_loop t zero idx = (none, t)
alloc_loop t (suc left) idx =
    let later = alloc_loop t left ((idx + 1) % max_conns) in
    if (get_or t.conns idx cleared).active
    then later
    else (some idx, record { conns = set t.conns idx fresh_conn; counter = (idx + 1) % max_conns })

unfoldable pub conn_alloc : Table → Option ℕ × Table
conn_alloc t = alloc_loop t max_conns (t.counter % max_conns)

-- What a connection holds.
pub data Held : Type 0 where
  pool_entry link_entry : ℕ → Held

abbrev pub held_at : (ℕ → Held) → Option ℕ → List Held
held_at what none = []
held_at what (some i) = what i ∷ []

-- In the order of the calls of poolFree and linkFree, which do nothing for -1.
unfoldable pub held_by : Conn → List Held
held_by c =
    held_at pool_entry c.to_pool_idx
    ++ (held_at pool_entry c.from_pool_idx
        ++ (held_at link_entry c.to_link_idx ++ held_at link_entry c.from_link_idx))

-- connFree: what it releases once the lock is left, and the table. Only this part is under the lock.
unfoldable pub conn_free : Table → ℕ → List Held × Table
conn_free t handle =
    if leb max_conns handle
    then ([], t)
    else (held_by (get_or t.conns handle cleared), record t { conns = set t.conns handle cleared })

unfoldable pub conn : Table → ℕ → Option Conn
conn t handle =
    let c = get_or t.conns handle cleared in
    if leb max_conns handle then none else if c.active then some c else none

-- Tasks are numbered; a null task is nobody's.
abbrev pub is_task : ℕ → Option ℕ → Bool
is_task me none = false
is_task me (some task) = me == task

-- The index that sendBufWithPool uses, and the one of recvBufWithPool.
unfoldable pub send_pool_idx : Conn → ℕ → Option ℕ
send_pool_idx c me =
    if is_task me c.client_task
    then c.to_pool_idx
    else if is_task me c.server_task
    then c.from_pool_idx
    else none

unfoldable pub recv_pool_idx : Conn → ℕ → Option ℕ
recv_pool_idx c me =
    if is_task me c.client_task
    then c.from_pool_idx
    else if is_task me c.server_task
    then c.to_pool_idx
    else none

unfoldable pub remote_of : Conn → ℕ → Option ℕ
remote_of c me =
    if is_task me c.client_task
    then c.server_task
    else if is_task me c.server_task
    then c.client_task
    else none

abbrev pub is_packet : Kind → Bool
is_packet packet = true
is_packet stream = false
is_packet packet_legacy = false

unfoldable pub send_link : Conn → ℕ → Option ℕ
send_link c me =
    if not (is_packet c.kind)
    then none
    else if is_task me c.client_task
    then c.to_link_idx
    else if is_task me c.server_task
    then c.from_link_idx
    else none

unfoldable pub recv_link : Conn → ℕ → Option ℕ
recv_link c me =
    if not (is_packet c.kind)
    then none
    else if is_task me c.client_task
    then c.from_link_idx
    else if is_task me c.server_task
    then c.to_link_idx
    else none

-- How many connections a server has at a port.
unfoldable pub server_port_active_count : List Conn → ℕ → ℕ → ℕ
server_port_active_count [] task port = 0
server_port_active_count (c ∷ cs) task port =
    let rest = server_port_active_count cs task port in
    if c.active && is_task task c.server_task && c.its_port == port then suc rest else rest

-- The reaping of an abandoned connect: the first connection of this server, client and nonce.
unfoldable pub orphan_of : List Conn → ℕ → ℕ → ℕ → Option ℕ
orphan_of [] me sender nonce = none
orphan_of (c ∷ cs) me sender nonce =
    let later = (orphan_of cs me sender nonce >>= (λ i. some (suc i))) in
    if c.active
      && is_task me c.server_task
      && is_task sender c.client_task
      && c.connect_nonce == nonce
      && not (nonce == 0)
    then some 0
    else later
