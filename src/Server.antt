-- ===== src/Server.antt =====
-- src/conn/socket_server.cc with include/conn/socket_server.hh, and the life of a `connection` of
-- include/conn/connections.hh: the listeners with their accept loops, the list of connections, and the
-- gate that `stop` waits for. The credentials, the addresses and the keepalive parameters are values
-- that are passed on.
pub mod Tasks
pub mod Counts
pub mod Stop
pub mod Aborted
pub mod Drain
mod Tests
use shunya_kv.Prelude.{
  ℕ, ◌+◌, ◌≡◌, Bool, true, false, not, ◌&&◌, Option, none, some, List, [], ◌∷◌, ◌++◌, map, length,
  if◌then◌else◌, inc64, dec64,
}
use shunya_kv.Server.Tasks.{Gate}

-- Where an accept loop is: about to enter the gate again, in `accept`, or at its end.
pub data LoopAt : Type 0 where
  turning accepting ended : LoopAt

-- `listen_options`, as far as this code sets it.
pub record ListenOptions : Type 0 where
  pub reuse_address : Bool

abbrev pub default_options : ListenOptions
default_options = record { reuse_address = false }

-- `is_aborted` says that `abort_accept` has been called: no `accept` succeeds from then on.
pub record Listener (Address : Type 0) : Type 0 where
  pub address : Address
  pub options : ListenOptions
  pub is_aborted : Bool

abbrev pub abort_accept : {Address : Type 0} → Listener Address → Listener Address
abort_accept l = record l { is_aborted = true }

-- An accept loop of the listener `which`.
pub record Loop : Type 0 where
  pub which : ℕ
  pub tls : Bool
  pub at : LoopAt

-- `is_shut` says that `shutdown` has been called; `nodelay` and `keepalive` are set on the socket.
pub record Connection (Address Keepalive : Type 0) : Type 0 where
  pub client_addr : Address
  pub server_addr : Address
  pub tls : Bool
  pub nodelay : Bool
  pub keepalive : Option Keepalive
  pub is_shut : Bool

-- What `accept` gives.
pub record AcceptResult (Address : Type 0) : Type 0 where
  pub remote_address : Address
  pub local_address : Address

-- `has_handler` says that a handler factory has been set, `has_credentials` that credentials have.
pub record Server (G : Gate) (Address Keepalive : Type 0) : Type 0 where
  pub listeners : List (Listener Address)
  pub loops : List Loop
  pub has_handler : Bool
  pub has_credentials : Bool
  pub keepalive_params : Option Keepalive
  pub total_connections : ℕ
  pub current_connections : ℕ
  pub connections : List (Connection Address Keepalive)
  pub task_gate : G.State

module _ (G : Gate) {Address Keepalive : Type 0} where
  abbrev pub fresh_server : G.State → Server G Address Keepalive
  fresh_server g = record {
    listeners = [];
    loops = [];
    has_handler = false;
    has_credentials = false;
    keepalive_params = none;
    total_connections = 0;
    current_connections = 0;
    connections = [];
    task_gate = g;
  }

  abbrev pub set_handler : Server G Address Keepalive → (given : Bool) → Server G Address Keepalive
  set_handler s given = record s { has_handler = given }

  abbrev pub set_tls_credentials :
      Server G Address Keepalive → (given : Bool) → Server G Address Keepalive
  set_tls_credentials s given = record s { has_credentials = given }

  abbrev pub set_keepalive_parameters :
      Server G Address Keepalive → Option Keepalive → Server G Address Keepalive
  set_keepalive_parameters s params = record s { keepalive_params = params }

  abbrev pub on_conn_open :
      Server G Address Keepalive → Connection Address Keepalive → Server G Address Keepalive
  on_conn_open s c = record s {
    total_connections = inc64 s.total_connections;
    current_connections = inc64 s.current_connections;
    connections = s.connections ++ c ∷ [];
  }

  abbrev pub on_conn_close : Server G Address Keepalive → Server G Address Keepalive
  on_conn_close s = record s { current_connections = dec64 s.current_connections }

  -- The destructor of a connection that stands in the list between those of `a` and those of `b`.
  abbrev pub destroy :
      Server G Address Keepalive
      → (a b : List (Connection Address Keepalive)) → Server G Address Keepalive
  destroy s a b = record s {
    current_connections = dec64 s.current_connections;
    connections = a ++ b;
  }

  -- The constructor, on a socket with the keepalive parameters that were set on it, and what it does
  -- to the server by `on_new_connection`.
  abbrev pub new_connection :
      AcceptResult Address → (tls : Bool) → Option Keepalive → Connection Address Keepalive
  new_connection ar tls keepalive = record {
    client_addr = ar.remote_address;
    server_addr = ar.local_address;
    tls = tls;
    nodelay = true;
    keepalive = keepalive;
    is_shut = false;
  }

  abbrev pub shutdown : Connection Address Keepalive → Connection Address Keepalive
  shutdown c = record c { is_shut = true }

  -- A loop is started inside the gate, and not at all if the gate is closed.
  pub do_accepts :
      Server G Address Keepalive → (which : ℕ) → (tls : Bool) → Server G Address Keepalive
  do_accepts s which tls = elim (G.enter s.task_gate) [
    | none ↦ s
    | some g ↦ record s {
      task_gate = g;
      loops = s.loops ++ record { which = which; tls = tls; at = turning } ∷ [];
    }
  ]

  abbrev pub do_accepts_default :
      Server G Address Keepalive → (which : ℕ) → Server G Address Keepalive
  do_accepts_default s which = do_accepts s which s.has_credentials

  -- `listen` with an address, options and credentials; the others come to this one.
  pub listen :
      Server G Address Keepalive
      → Address
      → ListenOptions
      → (creds : Bool) → Server G Address Keepalive
  listen s addr lo creds =
      let listener : Listener Address = record {
        address = addr;
        options = record lo { reuse_address = true };
        is_aborted = false;
      } in
      do_accepts (record s { listeners = s.listeners ++ listener ∷ [] }) (length s.listeners) creds

  abbrev pub listen_with_options :
      Server G Address Keepalive → Address → ListenOptions → Server G Address Keepalive
  listen_with_options s addr lo = listen s addr lo s.has_credentials

  abbrev pub listen_default : Server G Address Keepalive → Address → Server G Address Keepalive
  listen_default s addr =
      listen s addr (record default_options { reuse_address = true }) s.has_credentials

  abbrev pub listen_with_credentials :
      Server G Address Keepalive → Address → (creds : Bool) → Server G Address Keepalive
  listen_with_credentials s addr creds =
      listen s addr (record default_options { reuse_address = true }) creds

  -- One turn of `keep_doing` for the loop `l`, which stands between those of `a` and those of `b`: it
  -- enters the gate once more and calls `accept`, or finds the gate closed and leaves for good.
  pub turn :
      Server G Address Keepalive
      → (a : List Loop) → Loop
      → (b : List Loop) → Server G Address Keepalive
  turn s a l b = elim (G.enter s.task_gate) [
    | none ↦ record s { task_gate = G.leave s.task_gate; loops = a ++ record l { at = ended } ∷ b }
    | some g ↦ record s { task_gate = g; loops = a ++ record l { at = accepting } ∷ b }
  ]

  -- `accept` is over, in one way or the other, and the loop turns.
  abbrev pub accept_over :
      Server G Address Keepalive
      → (a : List Loop) → Loop
      → (b : List Loop) → Server G Address Keepalive
  accept_over s a l b = record s {
    task_gate = G.leave s.task_gate;
    loops = a ++ record l { at = turning } ∷ b;
  }

  -- The continuation of `accept`. `made` says whether the factory makes a handler: without one an
  -- exception is thrown before the connection is there. A new connection is processed inside the gate,
  -- and destroyed at once if the gate is closed.
  pub serve :
      Server G Address Keepalive
      → (made : Bool) → AcceptResult Address
      → (tls : Bool) → Server G Address Keepalive
  serve s made ar tls =
      let opened = on_conn_open s (new_connection ar tls s.keepalive_params) in
      if not (s.has_handler && made) then s else elim (G.enter opened.task_gate) [
        | none ↦ destroy opened s.connections []
        | some g ↦ record opened { task_gate = g }
      ]

  pub stop : Server G Address Keepalive → Server G Address Keepalive
  stop s = record s {
    listeners = map abort_accept s.listeners;
    connections = map shutdown s.connections;
    task_gate = G.close s.task_gate;
  }

  -- What may happen between two suspension points. A loop is one of `do_accept_one`; `accept` may fail
  -- at any time, and one that is over when `stop` aborts it may have succeeded. A connection is destroyed
  -- when its `process` is over, which may be at any time or never.
  pub data Step : Server G Address Keepalive → Server G Address Keepalive → Type 0 where
    sets_handler : {s : Server G Address Keepalive} (given : Bool) → Step s (set_handler s given)
    sets_credentials :
        {s : Server G Address Keepalive} (given : Bool) → Step s (set_tls_credentials s given)
    sets_keepalive :
        {s : Server G Address Keepalive} (params : Option Keepalive)
        → Step s (set_keepalive_parameters s params)
    listens :
        {s : Server G Address Keepalive} (addr : Address) (lo : ListenOptions) (creds : Bool)
        → Step s (listen s addr lo creds)
    turns :
        {s : Server G Address Keepalive} (a : List Loop) (l : Loop) (b : List Loop)
        → s.loops ≡ a ++ l ∷ b
        → l.at ≡ turning
        → Step s (turn s a l b)
    accepts :
        {s : Server G Address Keepalive} (a : List Loop) (l : Loop) (b : List Loop) (made : Bool)
        (ar : AcceptResult Address)
        → s.loops ≡ a ++ l ∷ b
        → l.at ≡ accepting
        → Step s (accept_over (serve s made ar l.tls) a l b)
    accept_fails :
        {s : Server G Address Keepalive} (a : List Loop) (l : Loop) (b : List Loop)
        → s.loops ≡ a ++ l ∷ b
        → l.at ≡ accepting
        → Step s (accept_over s a l b)
    processed :
        {s : Server G Address Keepalive} (a : List (Connection Address Keepalive))
        (c : Connection Address Keepalive) (b : List (Connection Address Keepalive))
        → s.connections ≡ a ++ c ∷ b
        → Step s (record (destroy s a b) { task_gate = G.leave s.task_gate })
    stops : {s : Server G Address Keepalive} → Step s (stop s)

  pub data Reach (s : Server G Address Keepalive) : Server G Address Keepalive → Type 0 where
    here : Reach s s
    next : {t u : Server G Address Keepalive} → Reach s t → Step t u → Reach s u
