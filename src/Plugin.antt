-- ===== src/Plugin.antt =====
-- src/plugin/dmmr_trunk_plugin.c: the callbacks that tie an endpoint to its session, and the
-- plugin's start.
-- The session manager that the plugin is given is an interface: a record of the functions that it
-- calls, each a step on a state `W`, which holds the endpoints and the table of pools.
pub mod Attach
use dmmr_orbit.Base.{
  ℕ, ◌==◌, if◌then◌else◌, ◌&&◌, Bool, true, false, Option, none, some, Run, ret, fault, ◌>>=◌, ◌≡◌,
}
use dmmr_orbit.Base.Int.{ℤ, pos, eqb_ℤ}
use dmmr_orbit.Protocol.{
  Endpoint, Heap, Proto, proto_none, proto_udp, proto_tcp, proto_arr_udp, proto_arr_tcp, port_of,
  link_session_ports,
}
use dmmr_orbit.Session.{SessionConnectionPool, get_recno_slot}

-- What the pointers of the plugin lead to: nodes and endpoints, and the pools of the table, by port
-- and protocol. `session_of` is where the endpoint inside a pool stands.
pub record Table : Type 0 where
  pub heap : Heap
  pub pools : ℕ × ℕ → SessionConnectionPool
  pub session_of : ℕ × ℕ → ℕ

-- The functions of `struct dmmr_session_connection_manager` that the plugin calls. Reading the table
-- of a state whose table was written gives what was written.
pub record SessionManager (W : Type 0) : Type 0 where
  pub table : W → Table
  pub with_table : Table → W → W
  pub table-with_table : (t : Table) (w : W) → table (with_table t w) ≡ t
  pub insert_session : ℕ × ℕ → W → Run (ℤ × W)
  pub insert_scheduler : ℕ × ℕ → W → Run (ℤ × W)
  pub create_dispatcher : W → Run (ℤ × W)
  pub start_accept : W → Run (ℤ × W)
  pub sm_delete_session : Option ℕ → W → Run W

abbrev pub same_place : ℕ × ℕ → ℕ × ℕ → Bool
same_place (a, b) (c, d) = (a == c) && (b == d)

abbrev pub write_pool : ℕ × ℕ → SessionConnectionPool → Table → Table
write_pool place p t = record t { pools = λ q. if same_place place q then p else t.pools q }

abbrev pub write_endpoint : ℕ → Endpoint → Table → Table
write_endpoint a u t =
    let h = t.heap in
    record t { heap = record h { endpoints = λ b. if a == b then u else h.endpoints b } }

abbrev pub arr_of : Proto → ℕ
arr_of proto_none = 2
arr_of proto_udp = proto_arr_udp
arr_of proto_tcp = proto_arr_tcp

-- The lines that the six callbacks share, up to the call of `link_session_ports`: the pool's endpoint
-- becomes a copy of the input, linked to it. `links` says whether the input is linked back.
abbrev pub attach : Bool → Proto → ℕ → ℕ × ℕ → Table → Table
attach links proto input place t =
    let copy = t.heap.endpoints input in
    let linked_back =
      if links
      then write_endpoint input (record copy { linked = some (t.session_of place) }) t
      else t in
    let session = record copy { linked = some input; proto = proto } in
    let (port, linked_port) = link_session_ports linked_back.heap session in
    let p = t.pools place in
    write_pool place (record p { session = session; port = port; linked_port = linked_port })
      linked_back

module _ {W : Type 0} (sm : SessionManager W) where
  -- From the input to its pool and the endpoint in it. No record has a null address.
  abbrev pub attach_input : Bool → Proto → ℕ → W → Run ((ℕ × ℕ) × W)
  attach_input links proto input w =
      let t = sm.table w in
      port_of t.heap (t.heap.endpoints input).node >>= λ port.
      get_recno_slot port (arr_of proto) >>= λ place.
      ret (place, sm.with_table (attach links proto input place t) w)

  -- The result of a call is tested for 0.
  abbrev pub if_zero : ℤ → Run W → W → Run W
  if_zero status next w = if eqb_ℤ status (pos 0) then next else ret w

  -- The callbacks for an active connection and for a dispatched one.
  unfoldable pub on_connect_connection_cb : Proto → Option ℕ → W → Run W
  on_connect_connection_cb proto none w = ret w
  on_connect_connection_cb proto (some input) w = attach_input true proto input w >>= λ (place, w1).
      sm.insert_session place w1 >>= λ (status, w2).
      if_zero status (sm.insert_scheduler place w2 >>= λ (status', w3). ret w3) w2

  unfoldable pub on_dispatch_connection_cb : Proto → Option ℕ → W → Run W
  on_dispatch_connection_cb proto none w = ret w
  on_dispatch_connection_cb proto (some input) w =
      attach_input true proto input w >>= λ (place, w1).
      sm.insert_session place w1 >>= λ (status, w2).
      if_zero status (sm.insert_scheduler place w2 >>= λ (status', w3). ret w3) w2

  -- The callback for an accepted connection, which is not linked back.
  unfoldable pub on_acception_connection_cb : Proto → Option ℕ → W → Run W
  on_acception_connection_cb proto none w = ret w
  on_acception_connection_cb proto (some input) w =
      attach_input false proto input w >>= λ (place, w1).
      sm.insert_session place w1 >>= λ (status, w2).
      if_zero status
        (sm.insert_scheduler place w2 >>= λ (status', w3).
          if_zero status' (sm.create_dispatcher w3 >>= λ (status'', w4). ret w4) w3)
        w2

  abbrev pub on_close_connection_cb : Option ℕ → W → Run W
  on_close_connection_cb input w = sm.sm_delete_session input w

-- The static pointers of the plugin.
pub record PluginState : Type 0 where
  pub sm : Bool
  pub cfg : Bool
  pub this : Bool

-- `calloc` succeeds or not. The result is the pointer `this`, false for null.
unfoldable pub new_dmmr_plugin : Bool → Bool → Bool → PluginState → Bool × PluginState
new_dmmr_plugin has_sm has_cfg made s =
    let s' : PluginState =
      if has_sm && has_cfg
      then (if made
          then record { sm = true; cfg = true; this = true }
          else record s { this = false })
      else s in
    (s'.this, s')

unfoldable pub dmmr_plugin_load : {W : Type 0} → SessionManager W → PluginState → W → Run W
dmmr_plugin_load sm s w =
    if s.sm && s.cfg then (sm.start_accept w >>= λ (status, w'). ret w') else ret w
