-- ===== src/Socket/Receive/Stream.antt =====
-- A stream that the TCP receiver of src/socket/socket_tcp.c reads into its ring of slots, and what
-- `get_buzy_node` of src/node/node_recv_manager.c then takes from it.
use dmmr_orbit.Base.{
  take-length-append, ℕ, zero, suc, ◌+◌, ◌%◌, ◌^◌, ◌<◌, ◌≤◌, ◌==◌, if◌then◌else◌, true, false,
  Option, none, some, List, [], ◌∷◌, ◌++◌, Run, ret, ◌>>=◌, length, map, take, drop, ◌≡◌, refl, sym,
  ap, ◌∙◌, arith,
}
use mathlib.Core.Path.{subst}
use mathlib.Core.List.{append-nil, append_assoc}
use dmmr_orbit.Base.Sort.{All}
use dmmr_orbit.Node.{Node}
use dmmr_orbit.NodeRecv.{NodeRecvManager, get_buzy_node}
use dmmr_orbit.NodeRecv.Fifo.{IsRing}
use dmmr_orbit.Parser.{over}
use dmmr_orbit.Socket.Receive.{received, tcp_size, tcp_read, tcp_receive_round, node_at}
use dmmr_orbit.Socket.Receive.Slots.{contents, take_back}
use dmmr_orbit.Socket.Receive.Rounds.{tcp_receive_round_lem}

-- The payload of a node that is there.
abbrev pub payload : Option Node → List ℕ
payload none = []
payload (some n) = take n.value_size n.value

-- Rounds of the thread, for the pieces that its reads return.
abbrev pub receive_all : List (List ℕ) → NodeRecvManager → Run NodeRecvManager
receive_all [] m = ret m
receive_all (b ∷ bs) m =
    tcp_receive_round none true (received b) m >>= λ (more, m'). receive_all bs m'

-- Calls of `get_buzy_node`, with the payloads of the nodes that they return.
abbrev pub take_all : ℕ → NodeRecvManager → Run (List (List ℕ))
take_all zero m = ret []
take_all (suc k) m = get_buzy_node m >>= λ (slot, m'). elim slot [
  | none ↦ ret []
  | some i ↦ take_all k m' >>= λ rest. ret (payload (node_at m'.buffer i) ∷ rest)
]

-- A piece that is not empty and that a node's size can hold.
abbrev pub IsPiece : List ℕ → Type 0
IsPiece b = (0 < length b) × (length b < 2 ^ 32)

map-append :
    (xs : List (Option Node)) (y : Option Node)
    → map payload (xs ++ (y ∷ [])) ≡ map payload xs ++ (payload y ∷ [])
map-append [] y = refl
map-append (x ∷ xs) y = ap (λ l. payload x ∷ l) (map-append xs y)

receive_all_lem :
    (bs : List (List ℕ)) {m : NodeRecvManager} {c : ℕ}
    → IsRing m c
    → c + length bs ≤ 256
    → All IsPiece bs
    → (m' : NodeRecvManager) × (receive_all bs m ≡ ret m')
      × IsRing m' (c + length bs)
      × (map payload (contents m'.buffer m'.next_busy_index (c + length bs))
          ≡ map payload (contents m.buffer m.next_busy_index c) ++ bs)
receive_all_lem [] {m} {c} ring room each =
    let same : c + 0 ≡ c = omega arith in
    rw same (m, refl, ring, sym (append-nil (map payload (contents m.buffer m.next_busy_index c))))
receive_all_lem (b ∷ bs) {m} {c} ring room ((some_bytes, fits), each) =
    let (m1, n, runs, ring1, nb, more) =
      tcp_receive_round_lem ring (omega arith) true (received b) in
    let (m2, runs', ring2, more') = receive_all_lem bs ring1 (omega arith) each in
    let count : c + suc (length bs) ≡ suc c + length bs = omega arith in
    let size : length b % 2 ^ 32 ≡ length b = omega arith in
    let some_read : (tcp_size (received b) == 0) ≡ false = ground arith in
    let whole : take (length b % 2 ^ 32) (over b n.value) ≡ b =
      ap (λ k. take k (over b n.value)) size ∙ take-length-append b (drop (length b) n.value) in
    let old = contents m.buffer m.next_busy_index c in
    rw count (
      m2,
      ap (λ r. r >>= λ (more, m'). receive_all bs m')
            (runs ∙ ap (λ e. ret (if e then false else true, m1)) some_read)
          ∙ runs',
      ring2,
      more'
          ∙ ap (λ l. l ++ bs)
              (ap (map payload) more
                ∙ map-append old (some (tcp_read (received b) n))
                ∙ ap (λ q. map payload old ++ (q ∷ [])) whole)
          ∙ append_assoc (map payload old) (b ∷ []) bs,
    )

take_all_lem :
    (c : ℕ) {m : NodeRecvManager}
    → IsRing m c
    → take_all c m ≡ ret (map payload (contents m.buffer m.next_busy_index c))
take_all_lem zero ring = refl
take_all_lem (suc c) {m} ring =
    let (m1, runs, ring1, e) = take_back ring in
    rw (runs, take_all_lem c ring1, ap (map payload) e) refl

-- From an empty ring, up to 256 pieces that the TCP thread reads, none of them empty, are taken back
-- by as many calls of `get_buzy_node`, the same bytes in the same order.
pub receive_all-take_all :
    (bs : List (List ℕ)) {m : NodeRecvManager}
    → IsRing m 0
    → length bs ≤ 256
    → All IsPiece bs
    → (receive_all bs m >>= take_all (length bs)) ≡ ret bs
receive_all-take_all bs ring room each =
    let (m', runs, ring', e) = receive_all_lem bs ring (omega arith) each in
    let count : 0 + length bs ≡ length bs = omega arith in
    ap (λ r. r >>= take_all (length bs)) runs
    ∙ take_all_lem (length bs) (subst (λ c. IsRing m' c) count ring')
    ∙ ap ret (ap (λ c. map payload (contents m'.buffer m'.next_busy_index c)) (sym count) ∙ e)
