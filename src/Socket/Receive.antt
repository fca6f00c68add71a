-- ===== src/Socket/Receive.antt =====
-- The receiver threads of src/socket/socket_tcp.c and socket_udp.c, and the callback
-- `on_receive_connection_cb` of dmmr_socket.c that they call.
-- What a read returns is an argument of its round, and so is `run` as the round's last test finds it.
pub mod Slots
pub mod Rounds
pub mod Callback
pub mod Stream
use dmmr_orbit.Base.{
  ℕ, zero, suc, ◌+◌, ◌-◌, ◌%◌, ◌^◌, ◌==◌, if◌then◌else◌, ◌&&◌, Bool, true, false, Option, none,
  some, List, [], ◌∷◌, ◌++◌, Run, ret, fault, hang, ◌>>=◌, get_elem?, set, drop, length,
}
use dmmr_orbit.Base.Int.{ℤ}
use dmmr_orbit.Node.{Node, af_inet}
use dmmr_orbit.NodeRecv.{NodeBuffer, NodeRecvManager, lock, get_free_node, get_buzy_node}
use dmmr_orbit.Parser.{over}
use dmmr_orbit.Socket.{Pool, get_struct_node_buffer}

-- `on_receive_cb`, where it is not null.
abbrev pub Callback : Type 0
Callback = Option (NodeRecvManager → Run NodeRecvManager)

abbrev pub call : Callback → NodeRecvManager → Run NodeRecvManager
call none m = ret m
call (some on_receive_cb) m = on_receive_cb m

-- `readv` and `recvmsg`: the bytes that were read, none of them at the end of a stream, or -1.
pub data Read : Type 0 where
  received : List ℕ → Read
  read_failed : Read

-- A write through the node pointer of a slot.
abbrev pub set_node : List NodeBuffer → ℕ → (Node → Node) → List NodeBuffer
set_node buf i f = elim (get_elem? buf i) [
  | none ↦ buf
  | some b ↦ set buf i (record b { node = f b.node })
]

abbrev pub write_node : NodeRecvManager → ℕ → (Node → Node) → NodeRecvManager
write_node m i f = record m { buffer = set_node m.buffer i f }

-- `n->value_size = readv(…)`: the member is unsigned, so that -1 wraps.
abbrev pub tcp_size : Read → ℕ
tcp_size (received bytes) = length bytes % 2 ^ 32
tcp_size read_failed = 2 ^ 32 - 1

abbrev pub tcp_read : Read → Node → Node
tcp_read (received bytes) n = record n {
  value = over bytes n.value;
  value_size = tcp_size (received bytes);
}
tcp_read read_failed n = record n { value_size = tcp_size read_failed }

-- A round of `tcp_receiver_thread`: whether there is another one, and the manager. The branch on
-- `n->value_size < 0` is never taken.
unfoldable pub tcp_receive_round :
    Callback → Bool → Read → NodeRecvManager → Run (Bool × NodeRecvManager)
tcp_receive_round on_receive run r m = get_free_node m >>= λ (slot, m1). elim slot [
  | none ↦ fault
  | some i ↦
      let m2 = write_node m1 i (tcp_read r) in
      if tcp_size r == 0 then ret (false, m2) else (call on_receive m2 >>= λ m3. ret (run, m3))
]

-- What the thread does at its end, to its endpoint and to its node.
pub data Ending : Type 0 where
  on_close : Ending
  delete_node : Ending

abbrev pub tcp_done : Bool → Bool → List Ending
tcp_done has_close has_node =
    (if has_close then on_close ∷ [] else []) ++ (if has_node then delete_node ∷ [] else [])

-- The thread, for the reads it makes; behind the last of them it waits.
unfoldable pub tcp_receiver_thread :
    Callback
    → Bool
    → Bool
    → List (Read × Bool)
    → NodeRecvManager
    → Run (List Ending × NodeRecvManager)
tcp_receiver_thread on_receive has_close has_node [] m = hang
tcp_receiver_thread on_receive has_close has_node ((r, run) ∷ rs) m =
    tcp_receive_round on_receive run r m >>= λ (more, m').
    let rest = tcp_receiver_thread on_receive has_close has_node rs m' in
    if more then rest else ret (tcp_done has_close has_node, m')

-- What `recvmsg` and the two clocks tell of a datagram besides its bytes.
pub record Origin : Type 0 where
  pub port : ℕ
  pub address : List ℕ
  pub monotonic : Option ℕ
  pub realtime : Option ℕ

abbrev pub or_else : ℕ → Option ℕ → ℕ
or_else old none = old
or_else old (some t) = t

-- The members that a datagram sets; `fd` and `family` are those of `node_cfg`.
abbrev pub udp_read : ℤ → ℕ → Origin → List ℕ → Node → Node
udp_read fd family from bytes n =
    let v4 = family == af_inet in
    record n {
      value = over bytes n.value;
      value_size = length bytes % 2 ^ 32;
      fd = fd;
      family = family;
      port = from.port;
      ipv4 = if v4 then over from.address n.ipv4 else n.ipv4;
      ipv6 = if v4 then n.ipv6 else over from.address n.ipv6;
      arrival = or_else n.arrival from.monotonic;
      deadline = or_else n.deadline from.realtime;
    }

-- A round of `receiver_thread`. Without a free slot it reads nothing.
unfoldable pub udp_receive_round :
    Callback → Node → Bool → Read → Origin → NodeRecvManager → Run (Bool × NodeRecvManager)
udp_receive_round on_receive cfg run r from m = get_free_node m >>= λ (slot, m1). elim slot [
  | none ↦ ret (run, m1)
  | some i ↦ elim r [
    | read_failed ↦ ret (false, m1)
    | received bytes ↦
        if length bytes == 0
        then ret (run, m1)
        else (call on_receive (write_node m1 i (udp_read cfg.fd cfg.family from bytes)) >>= λ m2.
            ret (run, m2))
  ]
]

-- The FIFO of the circle buffer, and the pool of its entries.
pub record Fifo : Type 0 where
  pub entries : List (Option Node)
  pub nbuff : Pool (Option Node)

-- The node in a slot.
abbrev pub node_at : List NodeBuffer → ℕ → Option Node
node_at buf i = elim (get_elem? buf i) [ none ↦ none | some b ↦ some b.node ]

-- The loop of `on_receive_connection_cb`; the fuel counts its rounds. An entry points to the node
-- from the moment it is set; here it holds the node.
unfoldable pub receive_loop :
    ℕ → Option (List (Option Node)) → Fifo → NodeRecvManager → Run (Fifo × NodeRecvManager)
receive_loop zero fresh q nrm = hang
receive_loop (suc fuel) fresh q nrm = get_struct_node_buffer fresh q.nbuff >>= λ (entry, nbuff).
    elim entry [
      | none ↦ ret (record q { nbuff = nbuff }, nrm)
      | some e ↦ get_buzy_node nrm >>= λ (slot, nrm'). elim slot [
        | none ↦ ret (record q { nbuff = nbuff }, nrm')
        | some i ↦
            let n = node_at nrm.buffer i in
            receive_loop fuel fresh
              (record {
                entries = q.entries ++ (n ∷ []);
                nbuff = record nbuff { slots = set nbuff.slots e n };
              })
              nrm'
      ]
    ]

unfoldable pub on_receive_connection_cb :
    ℕ
    → Option (List (Option Node))
    → Fifo
    → Option NodeRecvManager
    → Run (Fifo × Option NodeRecvManager)
on_receive_connection_cb fuel fresh q none = ret (q, none)
on_receive_connection_cb fuel fresh q (some nrm) = do
  locked ← lock nrm
  (q', nrm') ← receive_loop fuel fresh q locked
  ret (q', some (record nrm' { mutex = false }))
