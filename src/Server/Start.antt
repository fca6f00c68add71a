-- ===== src/Server/Start.antt =====
-- src/server/dmmr_server.c: a start is all or nothing; what a failed one leaves behind.
use dmmr_orbit.Base.{arith, ◌&&◌, Bool, true, false, List, [], ◌∷◌, fault, ◌≡◌, refl, ◌⊎◌, inl, inr}
use dmmr_orbit.Base.Int.{pos, eof}
use dmmr_orbit.Parser.Reload.{ParserState}
use dmmr_orbit.Server.{
  Components, no_components, Outcomes, Action, Round, foreground_loop, try_start, server_start,
  run_foreground, server_run,
}

-- Every constructor returned an object, and everything that was loaded or started returned 0.
abbrev pub all_well : Outcomes → Bool
all_well o =
    o.parser_created
    && (o.parser_loaded
        && (o.circle_buffer_created
            && (o.circle_buffer_started
                && (o.sock_created
                    && (o.scheduler_created
                        && (o.scheduler_started
                            && (o.session_manager_created && o.plugin_created)))))))

abbrev pub all_components : Components
all_components = record {
  parser = true;
  circle_buffer = true;
  sock = true;
  scheduler = true;
  session_manager = true;
  plugin = true;
}

abbrev pub IsAllOrNothing : Outcomes → Components → Type 0
IsAllOrNothing o s =
    ((all_well o ≡ true) × (server_start true o s ≡ (pos 0, all_components, [])))
    ⊎ ((all_well o ≡ false)
        × (actions : List Action) × (server_start true o s ≡ (eof, no_components, actions)))

-- The first step that fails decides.
server_start_cases :
    (s : Components) (p l c b k d t m g : Bool)
    → IsAllOrNothing
        (record {
          parser_created = p;
          parser_loaded = l;
          circle_buffer_created = c;
          circle_buffer_started = b;
          sock_created = k;
          scheduler_created = d;
          scheduler_started = t;
          session_manager_created = m;
          plugin_created = g;
        })
        s
unfolding server_start try_start
server_start_cases s false l c b k d t m g = inr (refl, _, refl)
server_start_cases s true false c b k d t m g = inr (refl, _, refl)
server_start_cases s true true false b k d t m g = inr (refl, _, refl)
server_start_cases s true true true false k d t m g = inr (refl, _, refl)
server_start_cases s true true true true false d t m g = inr (refl, _, refl)
server_start_cases s true true true true true false t m g = inr (refl, _, refl)
server_start_cases s true true true true true true false m g = inr (refl, _, refl)
server_start_cases s true true true true true true true false g = inr (refl, _, refl)
server_start_cases s true true true true true true true true false = inr (refl, _, refl)
server_start_cases s true true true true true true true true true = inl (refl, refl)

pub server_start_lem : (o : Outcomes) (s : Components) → IsAllOrNothing o s
unfolding server_start try_start
server_start_lem o s =
    server_start_cases s o.parser_created o.parser_loaded o.circle_buffer_created
      o.circle_buffer_started o.sock_created o.scheduler_created o.scheduler_started
      o.session_manager_created o.plugin_created

-- When a step of the start fails, the foreground server runs into its null parser.
pub run_foreground_faults :
    (o : Outcomes) (s : Components) (first : Round) (rounds : List Round) (p : ParserState)
    → all_well o ≡ false
    → run_foreground true true o s (first ∷ rounds) p ≡ fault
unfolding run_foreground foreground_loop server_run
run_foreground_faults o s first rounds p h = elim (server_start_lem o s) [
  | inl (well, e) ↦ ground (arith, well, h)
  | inr (ill, actions, e) ↦ rw (run_foreground, e) refl
]
