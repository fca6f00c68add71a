-- ===== src/Server/Boot/Config.antt =====
-- src/server/dmmr_server.c: a start in which nothing fails, from the text of the configuration on.
use dmmr_orbit.Base.{true, none, replicate}
use dmmr_orbit.Node.{Node}
use dmmr_orbit.Plugin.{SessionManager}
use dmmr_orbit.Protocol.{Endpoint}
use dmmr_orbit.SessionManager.{ManagerState}
use dmmr_orbit.Socket.Dispatch.{SocketState}

abbrev pub opened_sockets : Endpoint → SocketState → SocketState
opened_sockets endpoint s = record {
  this = true;
  cap = record { slots = replicate 0x400 endpoint; size = 0x400; count = s.cap.count };
  nbuff = record { slots = replicate 0x400 none; size = 0x400; count = s.nbuff.count };
}

abbrev pub made_manager : ManagerState
made_manager = record {
  circle_buffer = true;
  sched = true;
  sock = true;
  this = true;
  snd_cb = true;
}
