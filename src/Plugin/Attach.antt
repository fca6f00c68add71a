-- ===== src/Plugin/Attach.antt =====
-- What the callbacks of src/plugin/dmmr_trunk_plugin.c make of an endpoint and its pool.
use dmmr_orbit.Base.{
  ℕ, ◌==◌, if◌then◌else◌, Bool, true, false, Option, none, some, ◌≡◌, ◌≢◌, refl, sym, ap, ltb, ◌<◌,
  ret, arith,
}
use dmmr_orbit.Protocol.{Proto, proto_none, proto_udp, proto_tcp, link_session_ports}
use dmmr_orbit.Plugin.{Table, same_place, attach, arr_of, attach_input, SessionManager}
use dmmr_orbit.Session.{get_recno_slot, recno_size}
use mathlib.Core.Path.{subst}

-- A pool that is tied to the input, whose node is `n`, and to nothing else.
abbrev pub IsAttached : Bool → Proto → ℕ → ℕ → ℕ × ℕ → Table → Table → Type 0
IsAttached links proto input n place t t' =
    ((t'.pools place).session.linked ≡ some input)
    × ((t'.pools place).session.proto ≡ proto)
    × ((t'.pools place).session.node ≡ some n)
    × ((t'.pools place).port ≡ (t.heap.nodes n).port)
    × ((t'.pools place).linked_port ≡ (t.heap.nodes n).port)
    × ((t'.heap.endpoints input).linked
        ≡ (if links then some (t.session_of place) else (t.heap.endpoints input).linked))
    × ((q : ℕ × ℕ) → same_place place q ≡ false → t'.pools q ≡ t.pools q)

-- The port of the node that a pointer leads to; 0 for a null one.
abbrev port_behind : Table → Option ℕ → ℕ
port_behind t o = elim o [ none ↦ 0 | some m ↦ (t.heap.nodes m).port ]

-- Whatever the input was linked to before, its pool is then tied to the input and to nothing else:
-- the endpoint in the pool is linked to the input, both its ports are the port of the input's node,
-- and with `links` the input is linked to the endpoint in the pool. No other pool is written.
pub attach_lem :
    (links : Bool) (proto : Proto) (input n : ℕ) (place : ℕ × ℕ) (t : Table)
    → proto ≢ proto_none
    → (t.heap.endpoints input).node ≡ some n
    → IsAttached links proto input n place t (attach links proto input place t)
unfolding link_session_ports
attach_lem links proto_none input n place t real node = absurd (real refl)
attach_lem true proto_udp input n (a, b) t real node =
    let here : same_place (a, b) (a, b) ≡ true = ground arith in
    let self : (input == input) ≡ true = ground arith in
    rw (here, self, node) (refl, refl, refl, refl, refl, refl, (λ q other. rw other refl))
attach_lem true proto_tcp input n (a, b) t real node =
    let here : same_place (a, b) (a, b) ≡ true = ground arith in
    let self : (input == input) ≡ true = ground arith in
    rw (here, self, node) (refl, refl, refl, refl, refl, refl, (λ q other. rw other refl))
attach_lem false proto_udp input n (a, b) t real node =
    let linked = ap (port_behind t) node in
    let here : same_place (a, b) (a, b) ≡ true = ground arith in
    rw (here, node) (refl, refl, refl, refl, linked, refl, (λ q other. rw other refl))
attach_lem false proto_tcp input n (a, b) t real node =
    let linked = ap (port_behind t) node in
    let here : same_place (a, b) (a, b) ≡ true = ground arith in
    rw (here, node) (refl, refl, refl, refl, linked, refl, (λ q other. rw other refl))

-- For any session manager: an input with a node whose port is below 0xFFFF gets the pool of its port
-- and protocol, which is then tied to it as above.
pub attach_input_lem :
    {W : Type 0} (sm : SessionManager W) (links : Bool) (proto : Proto) (input n : ℕ) (w : W)
    → proto ≢ proto_none
    → ((sm.table w).heap.endpoints input).node ≡ some n
    → ((sm.table w).heap.nodes n).port < 0xFFFF
    → (w' : W) × (attach_input sm links proto input w
        ≡ ret ((((sm.table w).heap.nodes n).port, arr_of proto), w'))
      × IsAttached links proto input n
          (((sm.table w).heap.nodes n).port, arr_of proto)
          (sm.table w)
          (sm.table w')
unfolding get_recno_slot
attach_input_lem sm links proto input n w real node low =
    let t = sm.table w in
    let place : ℕ × ℕ = ((t.heap.nodes n).port, arr_of proto) in
    let t' = attach links proto input place t in
    let inside : ltb (t.heap.nodes n).port recno_size ≡ true = ground arith in
    (
      sm.with_table t' w,
      rw (node, inside, two proto real) refl,
      subst (IsAttached links proto input n place t) (sym (sm.table-with_table t' w))
          (attach_lem links proto input n place t real node),
    )
  where
    two : (p : Proto) → p ≢ proto_none → ltb (arr_of p) 2 ≡ true
    two proto_none r = absurd (r refl)
    two proto_udp r = refl
    two proto_tcp r = refl
