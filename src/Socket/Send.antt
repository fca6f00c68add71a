-- ===== src/Socket/Send.antt =====
-- src/socket/socket_tcp.c, socket_udp.c: which nodes a send hands to the kernel.
use dmmr_orbit.Base.{
  ℕ, zero, suc, ◌≤◌, ◌<◌, ltb, ◌==◌, if◌then◌else◌, Bool-cases, true, false, some, List, [], ◌∷◌,
  length, take, map, ◌≡◌, refl, sym, ap, ◌∙◌, inl, inr, arith, ret,
}
use dmmr_orbit.Base.Int.{ℤ, pos, eof}
use dmmr_orbit.Node.{Node}
use dmmr_orbit.Socket.{
  Iovec, gather, Write, wrote, again, failed, tcp_send_to_client, udp_send_to_client, destination,
}

abbrev pub iovec_of : Node → Iovec
iovec_of n = record { iov_base = n.value; iov_len = n.value_size }

abbrev pub status : Write → ℤ
status sent = elim sent [ wrote count ↦ pos 0 | again ↦ pos 0 | failed ↦ eof ]

gather_lem :
    (siz : ℕ) (ns : List Node) → siz ≤ length ns → gather siz ns ≡ ret (map iovec_of (take siz ns))
unfolding gather
gather_lem zero [] h = refl
gather_lem zero (n ∷ ns) h = refl
gather_lem (suc siz) [] h = ground arith
gather_lem (suc siz) (n ∷ ns) h = rw (gather, gather_lem siz ns (omega arith)) refl

take_short : (i j : ℕ) (ns : List Node) → j ≤ i → take i (take j ns) ≡ take j ns
take_short zero zero [] h = refl
take_short (suc i) zero [] h = refl
take_short zero zero (n ∷ ns) h = refl
take_short (suc i) zero (n ∷ ns) h = refl
take_short zero (suc j) ns h = ground arith
take_short (suc i) (suc j) [] h = refl
take_short (suc i) (suc j) (n ∷ ns) h = ap (λ q. n ∷ q) (take_short i j ns (omega arith))

take_long : (i j : ℕ) (ns : List Node) → i ≤ j → take i (take j ns) ≡ take i ns
take_long zero zero [] h = refl
take_long zero (suc j) [] h = refl
take_long (suc i) zero [] h = refl
take_long (suc i) (suc j) [] h = refl
take_long zero zero (n ∷ ns) h = refl
take_long zero (suc j) (n ∷ ns) h = refl
take_long (suc i) zero (n ∷ ns) h = ground arith
take_long (suc i) (suc j) (n ∷ ns) h = ap (λ q. n ∷ q) (take_long i j ns (omega arith))

gather_six :
    (n_len : ℕ) (ns : List Node)
    → n_len ≤ length ns
    → gather (if ltb 6 n_len then 6 else n_len) ns ≡ ret (map iovec_of (take 6 (take n_len ns)))
gather_six n_len ns h = elim (Bool-cases (ltb 6 n_len)) [
  | inl many ↦ rw many (
      gather_lem 6 ns (ground arith)
      ∙ ap (λ q. ret (map iovec_of q)) (sym (take_long 6 n_len ns (ground arith))))
  | inr few ↦ rw few (
      gather_lem n_len ns h
      ∙ ap (λ q. ret (map iovec_of q)) (sym (take_short 6 n_len ns (ground arith))))
]

-- Of an array of at least `n_len` nodes, the first of which is `n`, a TCP send writes the payloads
-- of the first six of the `n_len` nodes to the descriptor of `n`; the others are not written, and
-- the result is 0 all the same, unless the write failed for good.
pub tcp_send_to_client_lem :
    (n_len : ℕ) (n : Node) (ns : List Node) (sent : Write)
    → 0 < n_len
    → n_len ≤ length (n ∷ ns)
    → tcp_send_to_client true (some (n ∷ ns)) n_len sent
      ≡ ret (status sent, some (n.fd, map iovec_of (take 6 (take n_len (n ∷ ns)))))
unfolding tcp_send_to_client
tcp_send_to_client_lem n_len n ns sent some_nodes h =
    let nonzero : (n_len == 0) ≡ false = ground arith in
    rw (tcp_send_to_client, nonzero, gather_six n_len (n ∷ ns) h) refl

-- A UDP send writes the same payloads in one datagram, to the address of the first node.
pub udp_send_to_client_lem :
    (n_len : ℕ) (n : Node) (ns : List Node) (sent : Write)
    → 0 < n_len
    → n_len ≤ length (n ∷ ns)
    → udp_send_to_client true (some (n ∷ ns)) n_len sent
      ≡ ret (status sent, some (n.fd, destination n, map iovec_of (take 6 (take n_len (n ∷ ns)))))
unfolding udp_send_to_client
udp_send_to_client_lem n_len n ns sent some_nodes h =
    let nonzero : (n_len == 0) ≡ false = ground arith in
    rw (udp_send_to_client, nonzero, gather_six n_len (n ∷ ns) h) refl
