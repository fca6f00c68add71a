-- ===== src/Socket/Address.antt =====
-- src/socket/include/ip_addr.h: the kind of an address.
-- `inet_pton` is not of the repository: the two tests on it are functions of the text. The text is its
-- bytes before the NUL; `isalnum`, in the C locale, is given a signed char and has no value below 0.
use dmmr_orbit.Base.{
  ℕ, leb, ltb, ◌==◌, ◌<◌, if◌then◌else◌, ◌&&◌, ◌||◌, not, Bool, Bool-cases, true, List, [], ◌∷◌,
  Run, ret, fault, ◌≡◌, refl, inl, inr, arith,
}
use dmmr_orbit.Base.Sort.{All}
use dmmr_orbit.Node.{af_inet, af_inet6, ezp_dns, ezp_invalid}

abbrev pub isalnum : ℕ → Bool
isalnum c = (leb 48 c && leb c 57) || ((leb 65 c && leb c 90) || (leb 97 c && leb c 122))

abbrev pub is_name_byte : ℕ → Bool
is_name_byte c = isalnum c || ((c == 45) || (c == 46))

-- The loop over the text.
unfoldable pub scan_name : List ℕ → Run ℕ
scan_name [] = ret ezp_dns
scan_name (c ∷ cs) =
    let rest = scan_name cs in
    if not (ltb c 128) then fault else if not (is_name_byte c) then ret ezp_invalid else rest

unfoldable pub ezp_address : (List ℕ → Bool) → (List ℕ → Bool) → List ℕ → Run ℕ
unfolding scan_name
ezp_address is_ipv4 is_ipv6 input =
    if is_ipv4 input then ret af_inet else if is_ipv6 input then ret af_inet6 else scan_name input

abbrev pub is_name : List ℕ → Bool
is_name [] = true
is_name (c ∷ cs) = is_name_byte c && is_name cs

scan_name_lem :
    (input : List ℕ)
    → All (λ c. c < 128) input
    → scan_name input ≡ ret (if is_name input then ezp_dns else ezp_invalid)
unfolding scan_name
scan_name_lem [] a = refl
scan_name_lem (c ∷ cs) (small, a) =
    let ascii : ltb c 128 ≡ true = ground arith in
    elim (Bool-cases (is_name_byte c)) [
      | inl named ↦ rw (scan_name, ascii, named) (scan_name_lem cs a)
      | inr other ↦ rw (scan_name, ascii, other) refl
    ]

-- For a text of ASCII bytes that is no address, the result is a name exactly when every byte is a
-- letter, a digit, a dash or a dot; the empty text is a name too.
pub ezp_address_lem :
    (is_ipv4 is_ipv6 : List ℕ → Bool) (input : List ℕ)
    → All (λ c. c < 128) input
    → ezp_address is_ipv4 is_ipv6 input
      ≡ ret (
          if is_ipv4 input
          then af_inet
          else if is_ipv6 input
          then af_inet6
          else if is_name input
          then ezp_dns
          else ezp_invalid)
unfolding ezp_address
ezp_address_lem is_ipv4 is_ipv6 input a = elim (Bool-cases (is_ipv4 input)) [
  | inl v4 ↦ rw (ezp_address, v4) refl
  | inr other ↦ elim (Bool-cases (is_ipv6 input)) [
    | inl v6 ↦ rw (ezp_address, other, v6) refl
    | inr neither ↦ rw (ezp_address, other, neither) (scan_name_lem input a)
  ]
]
