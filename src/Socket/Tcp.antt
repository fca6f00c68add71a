-- ===== src/Socket/Tcp.antt =====
-- src/socket/socket_tcp.c: starting a TCP service, and connecting one.
-- What the system calls return is given by `Calls`; what is done to descriptors and pools is a list
-- of effects. An endpoint is named by its index in the pool of TCP nodes, a node by its own.
use dmmr_orbit.Base.{
  ℕ, if◌then◌else◌, ◌&&◌, not, Bool, true, false, Option, none, some, List, [], ◌∷◌, ◌≡◌, refl, ◌⊎◌,
  inl, inr, Run, ret, fault,
}
use dmmr_orbit.Base.Int.{ℤ, pos, eof}

-- What the calls of one start return: `socket_fd` is the descriptor, and a result of 0 is true.
pub record Calls : Type 0 where
  pub socket_fd : Option ℕ
  pub fcntl_ok : Bool
  pub setsockopt_ok : Bool
  pub bind_ok : Bool
  pub listen_ok : Bool
  pub spawn_ok : Bool

-- What `start_tcp_service` does: a descriptor is closed, or `run` is set and the thread started.
pub data Effect : Type 0 where
  close : ℕ → Effect
  set_run : Effect

-- `own_fd` is the descriptor of `node->node`, where that pointer is not null; `is_inet` says
-- whether the family is one of the two that are bound. A null endpoint goes on to close a
-- descriptor that was never set.
unfoldable pub start_tcp_service : Bool → Bool → Option ℕ → Calls → Run (ℤ × List Effect)
start_tcp_service has_node is_inet own_fd c =
    if has_node
    then elim c.socket_fd [
      | none ↦ ret (eof, [])
      | some fd ↦
          if not c.fcntl_ok
          then ret (eof, close fd ∷ [])
          else if not c.setsockopt_ok
          then ret (eof, close fd ∷ [])
          else if is_inet && not c.bind_ok
          then ret (eof, close fd ∷ [])
          else if not c.listen_ok
          then ret (eof, close fd ∷ [])
          else if c.spawn_ok
          then ret (pos 0, set_run ∷ [])
          else elim own_fd [ none ↦ fault | some other ↦ ret (eof, set_run ∷ close other ∷ []) ]
    ]
    else fault

-- The calls up to the start of the thread.
abbrev pub prepared : Calls → Bool
prepared c = c.fcntl_ok && (c.setsockopt_ok && (c.bind_ok && c.listen_ok))

abbrev pub StartOutcome : Option ℕ → ℕ → Calls → Type 0
StartOutcome own_fd fd c =
    ((prepared c ≡ true)
      × (c.spawn_ok ≡ true)
      × (start_tcp_service true true own_fd c ≡ ret (pos 0, set_run ∷ [])))
    ⊎ (((prepared c ≡ false) × (start_tcp_service true true own_fd c ≡ ret (eof, close fd ∷ [])))
        ⊎ ((prepared c ≡ true)
            × (c.spawn_ok ≡ false)
            × (start_tcp_service true true own_fd c ≡ (elim own_fd [
              | none ↦ fault
              | some other ↦ ret (eof, set_run ∷ close other ∷ [])
            ]))))

start_cases :
    (own_fd : Option ℕ) (fd : ℕ) (f o b l p : Bool)
    → StartOutcome own_fd fd (record {
      socket_fd = some fd;
      fcntl_ok = f;
      setsockopt_ok = o;
      bind_ok = b;
      listen_ok = l;
      spawn_ok = p;
    })
unfolding start_tcp_service
start_cases own_fd fd false o b l p = inr (inl (refl, refl))
start_cases own_fd fd true false b l p = inr (inl (refl, refl))
start_cases own_fd fd true true false l p = inr (inl (refl, refl))
start_cases own_fd fd true true true false p = inr (inl (refl, refl))
start_cases own_fd fd true true true true true = inl (refl, refl, refl)
start_cases own_fd fd true true true true false = inr (inr (refl, refl, refl))

-- For an IPv4 or IPv6 endpoint whose socket was opened: when every call succeeds the service runs;
-- when a call before the thread's start fails, its own socket is closed and nothing runs; and when
-- the thread cannot be started, its socket stays open: what is closed is the descriptor of the
-- endpoint's node, through a pointer that is null in an endpoint with no node.
pub start_tcp_service_lem :
    (own_fd : Option ℕ) (fd : ℕ) (c : Calls) → c.socket_fd ≡ some fd → StartOutcome own_fd fd c
start_tcp_service_lem own_fd fd c e =
    rw e (start_cases own_fd fd c.fcntl_ok c.setsockopt_ok c.bind_ok c.listen_ok c.spawn_ok)

-- What the calls of one connection return. `node` and `tcp_node` are what the pools hand out.
pub record ConnectCalls : Type 0 where
  pub socket_fd : Option ℕ
  pub connected : Bool
  pub node : Option ℕ
  pub getsockname_ok : Bool
  pub tcp_node : Option ℕ
  pub spawn_ok : Bool

pub data ConnectEffect : Type 0 where
  close_fd : ℕ → ConnectEffect
  fill_node : ℕ → ConnectEffect
  fill_port : ℕ → ConnectEffect
  delete_node : ℕ → ConnectEffect
  run_receiver : ℕ → ConnectEffect
  on_connect : ℕ → ConnectEffect

-- The connection, once it has a node.
abbrev pub connect_node : Bool → ℕ → ℕ → ConnectCalls → List ConnectEffect × ℤ
connect_node has_cb fd n c = elim c.tcp_node [
  | none ↦ (delete_node n ∷ close_fd fd ∷ [], eof)
  | some t ↦ (run_receiver t ∷ (if c.spawn_ok && has_cb then on_connect t ∷ [] else []), pos 0)
]

unfoldable pub connect_tcp_server : Bool → Bool → ConnectCalls → List ConnectEffect × ℤ
connect_tcp_server has_node has_cb c =
    if has_node
    then elim c.socket_fd [
      | none ↦ ([], eof)
      | some fd ↦
          if c.connected
          then elim c.node [
            | none ↦ (close_fd fd ∷ [], eof)
            | some n ↦
                let (effects, status) = connect_node has_cb fd n c in
                (
                  fill_node n ∷ (if c.getsockname_ok then fill_port n ∷ effects else effects),
                  status,
                )
          ]
          else (close_fd fd ∷ [], eof)
    ]
    else ([], eof)

-- Whether a list of effects closes a descriptor.
abbrev pub closes : List ConnectEffect → Bool
closes [] = false
closes (close_fd fd ∷ es) = true
closes (fill_node n ∷ es) = closes es
closes (fill_port n ∷ es) = closes es
closes (delete_node n ∷ es) = closes es
closes (run_receiver t ∷ es) = closes es
closes (on_connect t ∷ es) = closes es

abbrev pub ConnectOutcome : Bool → ConnectCalls → Type 0
ConnectOutcome has_cb c =
    (((connect_tcp_server true has_cb c).1 ≡ pos 0)
      × (closes (connect_tcp_server true has_cb c).0 ≡ false))
    ⊎ (((connect_tcp_server true has_cb c).1 ≡ eof)
        × (closes (connect_tcp_server true has_cb c).0 ≡ true))

connect_cases :
    (has_cb : Bool) (fd : ℕ) (k : Bool) (n : Option ℕ) (g : Bool) (t : Option ℕ) (p : Bool)
    → ConnectOutcome has_cb (record {
      socket_fd = some fd;
      connected = k;
      node = n;
      getsockname_ok = g;
      tcp_node = t;
      spawn_ok = p;
    })
unfolding connect_tcp_server
connect_cases cb fd false n g t p = inr (refl, refl)
connect_cases cb fd true none g t p = inr (refl, refl)
connect_cases cb fd true (some n) true none p = inr (refl, refl)
connect_cases cb fd true (some n) false none p = inr (refl, refl)
connect_cases cb fd true (some n) true (some t) false = inl (refl, refl)
connect_cases cb fd true (some n) false (some t) false = inl (refl, refl)
connect_cases false fd true (some n) true (some t) true = inl (refl, refl)
connect_cases false fd true (some n) false (some t) true = inl (refl, refl)
connect_cases true fd true (some n) true (some t) true = inl (refl, refl)
connect_cases true fd true (some n) false (some t) true = inl (refl, refl)

-- A connection whose socket was opened either returns 0 and keeps its socket, or returns EOF and
-- closes it.
pub connect_tcp_server_lem :
    (has_cb : Bool) (fd : ℕ) (c : ConnectCalls) → c.socket_fd ≡ some fd → ConnectOutcome has_cb c
connect_tcp_server_lem has_cb fd c e =
    rw e (connect_cases has_cb fd c.connected c.node c.getsockname_ok c.tcp_node c.spawn_ok)
