-- ===== src/Server/Boot/Tests.antt =====
-- A start on a text with 31 slots for the circle buffer.
use dmmr_orbit.Base.{ℕ, false, none, List, [], ret}
use dmmr_orbit.Base.Codes.{codes}
use dmmr_orbit.Node.Tests.{blank_node}
use dmmr_orbit.Parser.Scanner.File.{config_text}
use dmmr_orbit.Parser.Tests.{cfg_of, unread}
use dmmr_orbit.Server.{no_components}
use dmmr_orbit.Server.Boot.{Memory, Statics}
use dmmr_orbit.Server.Boot.Enough.{enough}
use dmmr_orbit.Session.Tests.{test_session}
use dmmr_orbit.SessionManager.{World}
use dmmr_orbit.SessionManager.Tests.{world}

abbrev boot_text : List ℕ
boot_text = config_text (cfg_of 31) (codes "UDP/h:1") (codes "UDP/h:1")

abbrev at_first : Statics World
at_first = record {
  pointers = no_components;
  parser_state = unread;
  log = [];
  buffer = none;
  sockets = record {
    this = false;
    cap = record { slots = []; size = 0; count = 0 };
    nbuff = record { slots = []; size = 0; count = 0 };
  };
  scheduling = world.sched;
  manager = record {
    circle_buffer = false;
    sched = false;
    sock = false;
    this = false;
    snd_cb = false;
  };
  recno = [];
  plugin_state = record { sm = false; cfg = false; this = false };
  rest = world;
}

abbrev memory : Memory
memory = enough blank_node (test_session 0).session (test_session 0) [] (ret tt)
