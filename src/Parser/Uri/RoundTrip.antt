-- ===== src/Parser/Uri/RoundTrip.antt =====
-- `parse_protocol_host_port` of src/include/funcs.h: a URI that is put together is taken apart.
use dmmr_orbit.Base.{
  ℕ, zero, suc, ◌+◌, ◌/◌, ◌%◌, ◌^◌, ◌≤◌, ◌<◌, ltb, leb, ◌==◌, Bool-cases, true, false, none, some,
  List, [], ◌∷◌, ◌++◌, ◌≡◌, refl, ap, inl, inr, arith, ret, take, drop, length,
}
use dmmr_orbit.Base.Sort.{All}
use dmmr_orbit.Protocol.{Proto, proto_udp, proto_tcp}
use dmmr_orbit.Parser.{over}
use dmmr_orbit.Parser.Numbers.{digits, decimal-digits}
use dmmr_orbit.Parser.Uri.{
  colon, udp_proto, tcp_proto, strrchr, leading_digits, skip_spaces, signed_port, atoi_unspaced,
  atoi_port, parse_host_port, parse_protocol_host_port,
}

-- The bytes of a digit.
abbrev pub IsDigit : ℕ → Type 0
IsDigit c = (48 ≤ c) × (c ≤ 57)

All-snoc : (xs : List ℕ) (d : ℕ) → All IsDigit xs → IsDigit d → All IsDigit (xs ++ (d ∷ []))
All-snoc [] d h k = (k, tt)
All-snoc (x ∷ xs) d h k = (h.0, All-snoc xs d h.1 k)

digits-All : (fuel n : ℕ) → n ≤ fuel → All IsDigit (digits fuel n)
unfolding digits
digits-All zero n h = ((omega arith, omega arith), tt)
digits-All (suc fuel) n h = elim (Bool-cases (ltb n 10)) [
  | inl short ↦
      let small : n < 10 = ground arith in rw (digits, short) ((omega arith, omega arith), tt)
  | inr long ↦
      let ten : 10 ≤ n = ground arith in
      rw (digits, long)
        (All-snoc (digits fuel (n / 10)) (48 + n % 10) (digits-All fuel (n / 10) (omega arith))
          (omega arith, omega arith))
]

leading_digits-All : (ds : List ℕ) → All IsDigit ds → leading_digits ds ≡ ds
unfolding leading_digits
leading_digits-All [] h = refl
leading_digits-All (d ∷ ds) h =
    let low : leb 48 d ≡ true = ground (arith, h.0.0) in
    let high : leb d 57 ≡ true = ground (arith, h.0.1) in
    rw (leading_digits, low, high) (ap (λ q. d ∷ q) (leading_digits-All ds h.1))

skip_spaces-All : (ds : List ℕ) → All IsDigit ds → skip_spaces ds ≡ ds
unfolding skip_spaces
skip_spaces-All [] h = refl
skip_spaces-All (d ∷ ds) h =
    let low : 48 ≤ d = h.0.0 in
    let blank : (d == 32) ≡ false = ground arith in
    let control : leb d 13 ≡ false = ground arith in
    let nine : leb 9 d ≡ true = ground arith in rw (skip_spaces, blank, nine, control) refl

atoi_unspaced-All : (ds : List ℕ) → All IsDigit ds → atoi_unspaced ds ≡ signed_port false ds
atoi_unspaced-All [] h = refl
atoi_unspaced-All (d ∷ ds) h =
    let low : 48 ≤ d = h.0.0 in
    let minus : (d == 45) ≡ false = ground arith in
    let plus : (d == 43) ≡ false = ground arith in
    rw (atoi_unspaced, minus, plus, leading_digits-All (d ∷ ds) h) refl

pub atoi_port-digits : (n : ℕ) → n < 2 ^ 16 → atoi_port (digits n n) ≡ ret n
unfolding atoi_port
atoi_port-digits n h =
    let all = digits-All n n (omega arith) in
    let small : ltb n (2 ^ 31) ≡ true = ground arith in
    let same : n % 2 ^ 16 ≡ n = omega arith in
    rw (atoi_port, skip_spaces-All (digits n n) all)
      (rw (atoi_unspaced-All (digits n n) all, decimal-digits n n (omega arith), small, same) refl)

strrchr-All : (ds : List ℕ) → All IsDigit ds → strrchr ds colon ≡ none
unfolding strrchr
strrchr-All [] h = refl
strrchr-All (d ∷ ds) h =
    let high : d ≤ 57 = h.0.1 in
    let other : (d == 58) ≡ false = ground arith in rw (strrchr, strrchr-All ds h.1, other) refl

strrchr-append :
    (host ds : List ℕ) → All IsDigit ds → strrchr (host ++ (colon ∷ ds)) colon ≡ some (length host)
unfolding strrchr
strrchr-append [] ds h = rw (strrchr-All ds h) refl
strrchr-append (x ∷ host) ds h = rw (strrchr-append host ds h) refl

take_host : (host t : List ℕ) → take (length host) (host ++ t) ≡ host
take_host [] [] = refl
take_host [] (y ∷ t) = refl
take_host (x ∷ host) t = ap (λ q. x ∷ q) (take_host host t)

drop_host : (host ds : List ℕ) → drop (suc (length host)) (host ++ (colon ∷ ds)) ≡ ds
drop_host [] [] = refl
drop_host [] (d ∷ ds) = refl
drop_host (x ∷ host) ds = drop_host host ds

parse_host_port-append :
    (proto : Proto) (host host_out : List ℕ) (host_size port port_out : ℕ)
    → 0 < length host
    → length host < host_size
    → port < 2 ^ 16
    → parse_host_port proto (host ++ (colon ∷ digits port port)) host_out host_size port_out
      ≡ ret (proto, over (host ++ (0 ∷ [])) host_out, port)
unfolding parse_host_port
parse_host_port-append proto host host_out host_size port port_out some_host fits small =
    let named : (length host == 0) ≡ false = ground arith in
    let room : leb host_size (length host) ≡ false = ground arith in
    rw
      (
        parse_host_port,
        strrchr-append host (digits port port) (digits-All port port (omega arith)),
        named,
        room,
        drop_host host (digits port port),
        atoi_port-digits port small,
        take_host host (colon ∷ digits port port),
      )
      refl

-- A URI of either protocol, a host that is not empty and fits its buffer with a NUL, a colon and a
-- port of 16 bits is parsed into these three, also where the host has colons of its own.
pub parse_protocol_host_port-append :
    (host host_out : List ℕ) (host_size port port_out : ℕ)
    → 0 < length host
    → length host < host_size
    → port < 2 ^ 16
    → (parse_protocol_host_port
          (udp_proto ++ (host ++ (colon ∷ digits port port)))
          host_out
          host_size
          port_out
        ≡ ret (proto_udp, over (host ++ (0 ∷ [])) host_out, port))
      × (parse_protocol_host_port
            (tcp_proto ++ (host ++ (colon ∷ digits port port)))
            host_out
            host_size
            port_out
          ≡ ret (proto_tcp, over (host ++ (0 ∷ [])) host_out, port))
unfolding parse_protocol_host_port
parse_protocol_host_port-append host host_out host_size port port_out some_host fits small =
    let nonzero : (host_size == 0) ≡ false = ground arith in
    (
      rw (parse_protocol_host_port, nonzero)
          (parse_host_port-append proto_udp host host_out host_size port port_out some_host fits
            small),
      rw (parse_protocol_host_port, nonzero)
          (parse_host_port-append proto_tcp host host_out host_size port port_out some_host fits
            small),
    )
