-- ===== src/Server/Boot/Enough.antt =====
-- src/server/dmmr_server.c: the steps of a start in which nothing fails.
use dmmr_orbit.Base.{
  ℕ, Bool-cases, true, false, Option, ◌==◌, some, List, [], ◌∷◌, replicate, Run, ret, fault, hang,
  ◌>>=◌, ◌≡◌, ◌≢◌, ◌⊎◌, refl, ◌∙◌, inl, inr, arith,
}
use dmmr_orbit.Base.Int.{pos}
use dmmr_orbit.Checksum.{crc32_file, generate_crc32_table}
use dmmr_orbit.CircleBuffer
use dmmr_orbit.CircleBuffer.{CircleBuffer, slot, new_circle_buffer}
use dmmr_orbit.Base.Codes.{codes}
use dmmr_orbit.Exception.{construct, text, log_info}
use dmmr_orbit.Node.{Node}
use dmmr_orbit.Parser.{CfgServerServer, config_none}
use dmmr_orbit.Parser.Reload.{ConfigFile, new_dmmr_parser, ParserState, parser_load_config}
use dmmr_orbit.Plugin.{SessionManager, new_dmmr_plugin, dmmr_plugin_load}
use dmmr_orbit.Protocol.{Endpoint}
use dmmr_orbit.Scheduler.{SchedulerConnection, sched_start}
use dmmr_orbit.Scheduler.Life.{new_dmmr_scheduler}
use dmmr_orbit.Server.Boot.{
  LogUse, opened, pushed, server_started, Memory, Statics, boot, boot_buffer, boot_manager,
  boot_sock, boot_parser, end_boot,
}
use dmmr_orbit.Server.Start.{all_components}
use dmmr_orbit.Session.{SessionConnectionPool, Recno}
use dmmr_orbit.SessionManager.{ManagerState, new_session_connection_manager}
use dmmr_orbit.Socket.Dispatch.{SocketState, new_dmmr_socket}

-- Every allocation succeeds and the thread starts.
abbrev pub enough :
    Node → Endpoint → SessionConnectionPool → List SchedulerConnection → Run (Unit {0}) → Memory
enough node endpoint pool v join = record {
  parser_made = true;
  circle_buffer_made = true;
  zeroed_slot = some node;
  sock_made = true;
  cap_made = true;
  nbuff_made = true;
  zeroed_endpoint = endpoint;
  scheduler_made = true;
  scheduler_slots = some v;
  reorder_thread = pos 0;
  manager_made = true;
  zeroed_pool = pool;
  plugin_made = true;
  join = join;
}

-- The parser behind a load of the file.
abbrev pub loaded_from : List (List ℕ) → CfgServerServer → ParserState
loaded_from pieces config = record {
  last_crc = crc32_file generate_crc32_table (some pieces);
  crc_table = generate_crc32_table;
  config = config;
  has_cfg = true;
  has_file = true;
  current_setting = config_none;
}

abbrev pub empty_buffer : ℕ → Node → CircleBuffer
empty_buffer size node = record {
  circle_buffer_size = size;
  cursor = slot 0;
  slots = replicate size node;
  fifo = [];
  batch = [];
  run = true;
}

abbrev pub said : List ℕ → LogUse
said message = pushed (record { level = log_info; message = text message })

-- The uses of the log by a start, behind the ones before it, up to the load of the plugin.
abbrev pub components_logged : ℕ → List LogUse → List LogUse
components_logged level uses =
    said (codes "Gerenciador de sessões criado")
    ∷ said (codes "Scheduler criado")
    ∷ said (codes "Circle buffer criado")
    ∷ opened level
    ∷ said (codes "Parser configurado")
    ∷ uses

-- The components behind a start that gave the sockets `k`, the manager `m` and the table `r`, before
-- with the log, but before the plugin is loaded.
abbrev pub all_started :
    {W : Type 0}
    → Node
    → List SchedulerConnection
    → ParserState
    → SocketState
    → ManagerState
    → Recno
    → Statics W
    → Statics W
all_started node v p k m r s = record {
  pointers = all_components;
  parser_state = p;
  log = pushed server_started ∷ components_logged p.config.log_level s.log;
  buffer = some (empty_buffer p.config.circle_buffer_size node);
  sockets = k;
  scheduling = record s.scheduling { slots = v; scheduler_connection_size = 0x400; run = 1 };
  manager = m;
  recno = r;
  plugin_state = record { sm = true; cfg = true; this = true };
  rest = s.rest;
}

-- The plugin's load of a state.
abbrev pub load_plugin : {W : Type 0} → SessionManager W → W → Run W
load_plugin sm w = dmmr_plugin_load sm (record { sm = true; cfg = true; this = true }) w

abbrev with_parser : {W : Type 0} → ParserState → Statics W → Statics W
with_parser p s = record s {
  pointers = record s.pointers { parser = true };
  parser_state = p;
  log = opened p.config.log_level ∷ said (codes "Parser configurado") ∷ s.log;
}

start-positive :
    (size : ℕ) (node : Node)
    → size ≢ 0
    → CircleBuffer.start size (some node) ≡ ret (pos 0, some (empty_buffer size node))
unfolding CircleBuffer.start
start-positive size node h =
    let some_slots : (size == 0) ≡ false = ground arith in rw some_slots refl

start-zero : (size : ℕ) (node : Node) → size ≡ 0 → CircleBuffer.start size (some node) ≡ fault
unfolding CircleBuffer.start
start-zero size node e = rw e refl

after_plugin :
    {W : Type 0} (join : Run (Unit {0})) (q : Run W) (f : W → Statics W)
    → ((q >>= λ rest. ret (true, f rest)) >>= end_boot join)
      ≡ (q >>= λ rest. ret (pos 0, f rest, []))
after_plugin join (ret rest) f = refl
after_plugin join fault f = refl
after_plugin join hang f = refl

module _ {W : Type 0} (sm : SessionManager W) (node : Node) (endpoint : Endpoint)
    (pool : SessionConnectionPool) (v : List SchedulerConnection) (k : SocketState)
    (m : ManagerState) (r : Recno) (join : Run (Unit {0})) where
  boot_manager-enough :
      (s : Statics W)
      → new_session_connection_manager pool true true true true s.manager s.recno ≡ ret (true, m, r)
      → boot_manager sm (enough node endpoint pool v join) s ≡ (
          load_plugin sm s.rest >>= λ rest. ret (
            true,
            record s {
              pointers = record s.pointers { session_manager = true; plugin = true };
              manager = m;
              recno = r;
              log = pushed server_started ∷ said (codes "Gerenciador de sessões criado") ∷ s.log;
              plugin_state = record { sm = true; cfg = true; this = true };
              rest = rest;
            },
          ))
  unfolding new_dmmr_plugin construct
  boot_manager-enough s made = rw made refl

  boot_sock-enough :
      (s : Statics W)
      → new_dmmr_socket true true true endpoint s.sockets ≡ (true, k)
      → new_session_connection_manager pool true true true true s.manager s.recno ≡ ret (true, m, r)
      → boot_sock sm (enough node endpoint pool v join) s
        ≡ boot_manager sm (enough node endpoint pool v join) (record s {
          pointers = record s.pointers { sock = true; scheduler = true };
          sockets = k;
          scheduling = record s.scheduling {
            slots = v;
            scheduler_connection_size = 0x400;
            run = 1;
          };
          log = said (codes "Scheduler criado") ∷ s.log;
        })
  unfolding new_dmmr_scheduler construct sched_start
  boot_sock-enough s given made = rw given refl

  boot_buffer-started :
      (s : Statics W) (p : ParserState) (b : Option CircleBuffer)
      → CircleBuffer.start p.config.circle_buffer_size (some node) ≡ ret (pos 0, b)
      → boot_buffer sm (enough node endpoint pool v join) (with_parser p s)
        ≡ boot_sock sm (enough node endpoint pool v join) (record (with_parser p s) {
          pointers = record s.pointers { parser = true; circle_buffer = true };
          buffer = b;
          log = said (codes "Circle buffer criado") ∷ (with_parser p s).log;
        })
  unfolding new_circle_buffer construct
  boot_buffer-started s p b started = rw started refl

  boot_buffer-enough :
      (s : Statics W) (p : ParserState)
      → p.config.circle_buffer_size ≢ 0
      → new_dmmr_socket true true true endpoint s.sockets ≡ (true, k)
      → new_session_connection_manager pool true true true true s.manager s.recno ≡ ret (true, m, r)
      → boot_buffer sm (enough node endpoint pool v join) (with_parser p s) ≡ (
          load_plugin sm s.rest >>= λ rest.
          ret (true, record (all_started node v p k m r s) { rest = rest }))
  boot_buffer-enough s p size given made =
      let s1 : Statics W = record (with_parser p s) {
        pointers = record s.pointers { parser = true; circle_buffer = true };
        buffer = some (empty_buffer p.config.circle_buffer_size node);
        log = said (codes "Circle buffer criado") ∷ (with_parser p s).log;
      } in
      let s2 : Statics W = record s1 {
        pointers = record s1.pointers { sock = true; scheduler = true };
        sockets = k;
        scheduling = record s.scheduling { slots = v; scheduler_connection_size = 0x400; run = 1 };
        log = said (codes "Scheduler criado") ∷ s1.log;
      } in
      boot_buffer-started s p _ (start-positive p.config.circle_buffer_size node size)
      ∙ boot_sock-enough s1 given made
      ∙ boot_manager-enough s2 made

  boot_buffer-empty :
      (s : Statics W) (p : ParserState)
      → p.config.circle_buffer_size ≡ 0
      → boot_buffer sm (enough node endpoint pool v join) (with_parser p s) ≡ fault
  unfolding new_circle_buffer construct
  boot_buffer-empty s p size = rw (start-zero p.config.circle_buffer_size node size) refl

  -- What the whole start makes of the parser's state behind its load.
  abbrev pub BootOutcome : ConfigFile → ParserState → Statics W → Type 0
  BootOutcome file p s =
      ((p.config.circle_buffer_size ≡ 0)
        × (boot sm (enough node endpoint pool v join) file s ≡ fault))
      ⊎ ((p.config.circle_buffer_size ≢ 0)
          × (boot sm (enough node endpoint pool v join) file s ≡ (
              load_plugin sm s.rest >>= λ rest.
              ret (pos 0, record (all_started node v p k m r s) { rest = rest }, []))))

  pub boot-loaded :
      (file : ConfigFile) (p : ParserState) (s : Statics W)
      → parser_load_config file s.parser_state ≡ ret (pos 0, p)
      → new_dmmr_socket true true true endpoint s.sockets ≡ (true, k)
      → new_session_connection_manager pool true true true true s.manager s.recno ≡ ret (true, m, r)
      → BootOutcome file p s
  unfolding boot boot_parser new_dmmr_parser construct
  boot-loaded file p s read given made = elim (Bool-cases (p.config.circle_buffer_size == 0)) [
    | inl none_at_all ↦
        let size : p.config.circle_buffer_size ≡ 0 = ground arith in
        inl (size, rw (boot, boot_parser, read, boot_buffer-empty s p size) refl)
    | inr some_slots ↦
        let size : p.config.circle_buffer_size ≢ 0 = ground arith in
        inr (
          size,
          rw (boot, boot_parser, read, boot_buffer-enough s p size given made)
              (after_plugin join (load_plugin sm s.rest) _),
        )
  ]
