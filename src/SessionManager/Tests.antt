-- ===== src/SessionManager/Tests.antt =====
-- A manager over one endpoint whose node has port 8080.
use dmmr_orbit.Base.{◌≡◌, ◌≢◌, refl, arith, true, false, none, some, [], ◌∷◌, ret, hang}
use dmmr_orbit.Base.Int.{pos}
use dmmr_orbit.Node.Tests.{blank_node}
use dmmr_orbit.Protocol.{proto_none, proto_tcp, proto_arr_tcp}
use dmmr_orbit.Protocol.Tests.{test_heap}
use dmmr_orbit.Session.Tests.{test_session}
use dmmr_orbit.Socket.Service.{Callbacks}
use dmmr_orbit.Socket.Dispatch.{System}
use dmmr_orbit.Plugin.{
  attach_input, on_connect_connection_cb, on_dispatch_connection_cb, on_acception_connection_cb,
}
use dmmr_orbit.Plugin.Attach.{IsAttached, attach_input_lem}
use dmmr_orbit.SessionManager.{World, Surroundings, session_manager, ManagerState}
use dmmr_orbit.SessionManager.Hang.{callbacks_hang}

abbrev pub world : World
world = record {
  table = record { heap = test_heap; pools = λ q. test_session 1; session_of = λ q. 100 };
  sched = record {
    scheduler_connection_size = 0;
    scheduler_connection_count = 0;
    slots = [];
    run = 1;
    pools = λ p. test_session p;
  };
  cap = record { slots = []; size = 0; count = 0 };
}

abbrev no_callbacks : Callbacks
no_callbacks = record { on_accept = none; on_connect = none; on_receive = none; on_close = none }

abbrev failing : System
failing = record {
  resolve = λ host. none;
  udp_calls = record { socket_fd = none; bind_ok = false; spawned = 0 };
  tcp_calls = record {
    socket_fd = none;
    fcntl_ok = false;
    setsockopt_ok = false;
    bind_ok = false;
    listen_ok = false;
    spawn_ok = false;
  };
  connect_calls = record {
    socket_fd = none;
    connected = false;
    node = none;
    getsockname_ok = false;
    tcp_node = none;
    spawn_ok = false;
  };
  own_fd = none;
  fresh = none;
}

abbrev pub surroundings : Surroundings
surroundings = record {
  fuel = 1000;
  has_circle_buffer = true;
  buffer = some (blank_node ∷ []);
  created = pos 0;
  deadline = 50;
  fresh_slots = none;
  sys = failing;
  garbage = 0;
  udp_cbs = no_callbacks;
  tcp_cbs = no_callbacks;
  trunk_accept_uri = none;
  trunk_dispatch_uri = none;
  zeroed = test_session 0;
}

is_tcp : proto_tcp ≢ proto_none
is_tcp e = ground arith

attach_input_example :
    (w' : World) × (attach_input (session_manager surroundings) true proto_tcp 5 world
      ≡ ret ((8080, proto_arr_tcp), w'))
    × IsAttached true proto_tcp 5 3 (8080, proto_arr_tcp) world.table w'.table
attach_input_example =
    attach_input_lem (session_manager surroundings) true proto_tcp 5 3 world is_tcp refl
      (omega arith)

callbacks_hang_example :
    (on_connect_connection_cb (session_manager surroundings) proto_tcp (some 5) world ≡ hang)
    × (on_dispatch_connection_cb (session_manager surroundings) proto_tcp (some 5) world ≡ hang)
    × (on_acception_connection_cb (session_manager surroundings) proto_tcp (some 5) world ≡ hang)
callbacks_hang_example =
    callbacks_hang surroundings world (blank_node ∷ []) proto_tcp 5 3 refl refl is_tcp refl
      (omega arith)

abbrev made_before : ManagerState
made_before = record { circle_buffer = true; sched = true; sock = true; this = true; snd_cb = true }
