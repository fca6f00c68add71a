-- ===== src/Socket/Receive/Rounds.antt =====
-- Rounds of the receiver threads on a ring of receive slots: what the slots hold afterwards.
use dmmr_orbit.Base.{
  ℕ, suc, ◌<◌, ◌==◌, if◌then◌else◌, Bool, Bool-cases, true, false, none, some, inl, inr, List, [],
  ◌∷◌, ◌++◌, Run, ret, length, ◌≡◌, refl, ap, ◌∙◌,
}
use dmmr_orbit.Node.{Node}
use dmmr_orbit.NodeRecv.{NodeRecvManager}
use dmmr_orbit.NodeRecv.Fifo.{IsRing}
use dmmr_orbit.Socket.Receive.{
  Read, received, write_node, tcp_size, tcp_read, tcp_receive_round, Origin, udp_read,
  udp_receive_round, node_at,
}
use dmmr_orbit.Socket.Receive.Slots.{contents, fill, claim}

-- In a ring with room and with no callback, a round of the TCP thread reads into one more slot,
-- behind the others, which keep their nodes. It is the last round after a read of no byte, and
-- otherwise when `run` is off. A read that failed counts as one of 4294967295 bytes.
pub tcp_receive_round_lem :
    {m : NodeRecvManager} {c : ℕ}
    → IsRing m c
    → c < 256
    → (run : Bool) (r : Read)
    → (m' : NodeRecvManager) × (n : Node) × (tcp_receive_round none run r m
        ≡ ret (if tcp_size r == 0 then false else run, m'))
      × IsRing m' (suc c)
      × (m'.next_busy_index ≡ m.next_busy_index)
      × (contents m'.buffer m'.next_busy_index (suc c)
          ≡ contents m.buffer m.next_busy_index c ++ (some (tcp_read r n) ∷ []))
unfolding tcp_receive_round
tcp_receive_round_lem {m} {c} ring room run r =
    let (m1, n, runs, was, ring1, nb, more) = fill ring room (tcp_read r) in
    let m2 = write_node m1 m.next_free_index (tcp_read r) in
    (m2, n, rw (tcp_receive_round, runs) (which (tcp_size r == 0) run m2), ring1, nb, rw nb more)
  where
    which :
        (b run : Bool) (m2 : NodeRecvManager)
        → if◌then◌else◌ {A = Run (Bool × NodeRecvManager)} b (ret (false, m2)) (ret (run, m2))
          ≡ ret (if b then false else run, m2)
    which true run m2 = refl
    which false run m2 = refl

-- In a ring with room and with no callback, a round of the UDP thread that reads a datagram puts it
-- behind the others, with its origin. An empty datagram takes a slot too, and puts what the slot
-- held before behind the others.
pub udp_receive_round_lem :
    {m : NodeRecvManager} {c : ℕ}
    → IsRing m c
    → c < 256
    → (cfg : Node) (run : Bool) (bytes : List ℕ) (from : Origin)
    → (m' : NodeRecvManager) × (n : Node) × (udp_receive_round none cfg run (received bytes) from m
        ≡ ret (run, m'))
      × IsRing m' (suc c)
      × (m'.next_busy_index ≡ m.next_busy_index)
      × (node_at m.buffer m.next_free_index ≡ some n)
      × (contents m'.buffer m'.next_busy_index (suc c)
          ≡ contents m.buffer m.next_busy_index c
            ++ (some (if length bytes == 0 then n else udp_read cfg.fd cfg.family from bytes n)
                ∷ []))
unfolding udp_receive_round
udp_receive_round_lem {m} {c} ring room cfg run bytes from =
    let free = m.next_free_index in
    let read = udp_read cfg.fd cfg.family from bytes in
    let (m1, n, runs, was, ring1, nb, more) = fill ring room read in
    elim (Bool-cases (length bytes == 0)) [
      | inl empty ↦
          let (m1', runs', ring1', nb', more') = claim ring room in
          (
            m1',
            n,
            rw (udp_receive_round, runs', empty) refl,
            ring1',
            nb',
            was,
            rw (nb', empty)
                (more' ∙ ap (λ o. contents m.buffer m.next_busy_index c ++ (o ∷ [])) was),
          )
      | inr some_bytes ↦ (
        write_node m1 free read,
        n,
        rw (udp_receive_round, runs, some_bytes) refl,
        ring1,
        nb,
        was,
        rw (nb, some_bytes) more,
      )
    ]
