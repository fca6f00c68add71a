-- ===== src/Parser/Uri.antt =====
-- `parse_protocol_host_port` of src/include/funcs.h.
pub mod RoundTrip
use dmmr_orbit.Base.{
  ℕ, zero, suc, ◌+◌, ◌-◌, ◌/◌, ◌%◌, ◌^◌, ◌≤◌, ◌<◌, ltb, leb, ◌==◌, ◌&&◌, ◌||◌, if◌then◌else◌,
  Bool-cases, Bool, true, false, Option, none, some, List, [], ◌∷◌, ◌++◌, ◌≡◌, refl, ap, inl, inr,
  arith, Run, ret, fault, ◌>>=◌, take, drop, length,
}
use dmmr_orbit.Base.Sort.{All}
use dmmr_orbit.Protocol.{Proto, proto_none, proto_udp, proto_tcp}
use dmmr_orbit.Parser.{decimal, over}
use dmmr_orbit.Parser.Numbers.{digits, decimal-digits}

abbrev pub colon : ℕ
colon = 58

-- "UDP/" and "TCP/".
abbrev pub udp_proto : List ℕ
udp_proto = 85 ∷ 68 ∷ 80 ∷ 47 ∷ []

abbrev pub tcp_proto : List ℕ
tcp_proto = 84 ∷ 67 ∷ 80 ∷ 47 ∷ []

-- The text behind a prefix.
unfoldable pub after_prefix : List ℕ → List ℕ → Option (List ℕ)
after_prefix [] input = some input
after_prefix (p ∷ ps) [] = none
after_prefix (p ∷ ps) (c ∷ cs) = let rest = after_prefix ps cs in if p == c then rest else none

-- `strrchr`: the index of the last occurrence.
unfoldable pub strrchr : List ℕ → ℕ → Option ℕ
strrchr [] c = none
strrchr (x ∷ xs) c = elim (strrchr xs c) [
  | some i ↦ some (suc i)
  | none ↦ if x == c then some 0 else none
]

abbrev pub is_digit : ℕ → Bool
is_digit c = leb 48 c && leb c 57

-- The digits at the front of a text, and the text without the white space at its front.
unfoldable pub leading_digits : List ℕ → List ℕ
leading_digits [] = []
leading_digits (c ∷ cs) = let rest = leading_digits cs in if is_digit c then c ∷ rest else []

unfoldable pub skip_spaces : List ℕ → List ℕ
skip_spaces [] = []
skip_spaces (c ∷ cs) =
    let rest = skip_spaces cs in if (c == 32) || (leb 9 c && leb c 13) then rest else c ∷ cs

-- `(uint16_t)atoi(…)` of digits behind a sign; no int can hold a value of 2 ^ 31.
abbrev pub signed_port : Bool → List ℕ → Run ℕ
signed_port negative ds =
    let v = decimal 0 ds in
    if ltb v (2 ^ 31)
    then ret (if negative then (2 ^ 16 - v % 2 ^ 16) % 2 ^ 16 else v % 2 ^ 16)
    else fault

abbrev pub atoi_unspaced : List ℕ → Run ℕ
atoi_unspaced [] = signed_port false []
atoi_unspaced (c ∷ cs) =
    if c == 45
    then signed_port true (leading_digits cs)
    else (if c == 43
        then signed_port false (leading_digits cs)
        else signed_port false (leading_digits (c ∷ cs)))

unfoldable pub atoi_port : List ℕ → Run ℕ
atoi_port text = atoi_unspaced (skip_spaces text)

-- What is left of the call: the protocol, the host's buffer and the port.
abbrev pub Parsed : Type 0
Parsed = Proto × List ℕ × ℕ

-- The text behind the protocol. `host_out` has `host_size` bytes.
unfoldable pub parse_host_port : Proto → List ℕ → List ℕ → ℕ → ℕ → Run Parsed
parse_host_port proto input host_out host_size port_out = elim (strrchr input colon) [
  | none ↦ ret (proto_none, host_out, port_out)
  | some sep ↦
      if sep == 0
      then ret (proto_none, host_out, port_out)
      else (let host_len = if leb host_size sep then host_size - 1 else sep in
          atoi_port (drop (suc sep) input) >>= λ port.
          ret (proto, over (take host_len input ++ (0 ∷ [])) host_out, port))
]

-- No pointer is null.
unfoldable pub parse_protocol_host_port : List ℕ → List ℕ → ℕ → ℕ → Run Parsed
unfolding after_prefix
parse_protocol_host_port input host_out host_size port_out =
    if host_size == 0
    then ret (proto_none, host_out, port_out)
    else elim (after_prefix udp_proto input) [
      | some rest ↦ parse_host_port proto_udp rest host_out host_size port_out
      | none ↦ elim (after_prefix tcp_proto input) [
        | some rest ↦ parse_host_port proto_tcp rest host_out host_size port_out
        | none ↦ ret (proto_none, host_out, port_out)
      ]
    ]
