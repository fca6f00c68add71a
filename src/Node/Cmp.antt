-- ===== src/Node/Cmp.antt =====
-- `node_cmp` of src/include/funcs.h.
use dmmr_orbit.Base.{
  ℕ, ◌+◌, ◌<◌, ◌≡◌, ◌↔◌, refl, arith, ◌==◌, if◌then◌else◌, not, get_or, Option, none, some,
}
use dmmr_orbit.Base.Int.{ℤ, pos, negsuc, neg, ltb_ℤ, eqb_ℤ, eqb_ℤ→eq}
use dmmr_orbit.Bytes.Compare.{vcmp, vcmp_iff, vcmp_swap}
use dmmr_orbit.Node.{Node, af_inet, af_inet6}

-- `(a > b) - (a < b)`.
abbrev pub order : ℤ → ℤ → ℤ
order a b = if ltb_ℤ b a then pos 1 else (if ltb_ℤ a b then negsuc 0 else pos 0)

-- `sin_addr` stands at offset 4 of a `sockaddr_in`, `sin6_addr` at offset 8 of a `sockaddr_in6`.
abbrev pub sin_addr : Node → ℕ → ℕ
sin_addr n i = get_or n.ipv4 (4 + i) 0

abbrev pub sin6_addr : Node → ℕ → ℕ
sin6_addr n i = get_or n.ipv6 (8 + i) 0

-- The comparison of the addresses, once the families agree.
unfoldable pub address_cmp : Node → Node → ℤ
address_cmp a b =
    if a.family == af_inet
    then vcmp (sin_addr a) (sin_addr b) 4
    else (if a.family == af_inet6 then vcmp (sin6_addr a) (sin6_addr b) 16 else pos 0)

-- A null pointer is `none`, below every other.
unfoldable pub node_cmp : Option Node → Option Node → ℤ
node_cmp none none = pos 0
node_cmp none (some b) = negsuc 0
node_cmp (some a) none = pos 1
node_cmp (some a) (some b) =
    if not (eqb_ℤ a.fd b.fd)
    then order a.fd b.fd
    else (if not (a.port == b.port)
        then order (pos a.port) (pos b.port)
        else (if not (a.family == b.family)
            then order (pos a.family) (pos b.family)
            else address_cmp a b))

-- Two nodes stand for the same endpoint.
pub record IsSameEndpoint (a b : Node) : Type 0 where
  pub fd : a.fd ≡ b.fd
  pub port : a.port ≡ b.port
  pub family : a.family ≡ b.family
  pub ipv4 : a.family ≡ af_inet → (i : ℕ) → i < 4 → sin_addr a i ≡ sin_addr b i
  pub ipv6 : a.family ≡ af_inet6 → (i : ℕ) → i < 16 → sin6_addr a i ≡ sin6_addr b i

keys_agree :
    (a b : Node)
    → node_cmp (some a) (some b) ≡ pos 0
    → (a.fd ≡ b.fd) × (a.port ≡ b.port) × (a.family ≡ b.family) × (address_cmp a b ≡ pos 0)
unfolding node_cmp
keys_agree a b e = ground (arith, eqb_ℤ→eq a.fd b.fd)

keys_decide :
    (a b : Node)
    → a.fd ≡ b.fd
    → a.port ≡ b.port
    → a.family ≡ b.family
    → address_cmp a b ≡ pos 0
    → node_cmp (some a) (some b) ≡ pos 0
unfolding node_cmp
keys_decide a b e f g h = ground arith

addresses_agree : (a b : Node) → IsSameEndpoint a b → address_cmp a b ≡ pos 0
unfolding address_cmp
addresses_agree a b s = ground (
  arith,
  (λ (f : a.family ≡ af_inet). (vcmp_iff (sin_addr a) (sin_addr b) 4).1 (s.ipv4 f)),
  (λ (f : a.family ≡ af_inet6). (vcmp_iff (sin6_addr a) (sin6_addr b) 16).1 (s.ipv6 f)),
)

-- `node_cmp` of two nodes is zero exactly when they have the same descriptor, port and family and,
-- for IPv4 and IPv6, the same address bytes.
pub node_cmp_iff : (a b : Node) → (node_cmp (some a) (some b) ≡ pos 0) ↔ IsSameEndpoint a b
unfolding address_cmp
node_cmp_iff a b = (same, λ s. keys_decide a b s.fd s.port s.family (addresses_agree a b s))
  where
    same : node_cmp (some a) (some b) ≡ pos 0 → IsSameEndpoint a b
    same e =
        let (fd, port, family, address) = keys_agree a b e in
        record {
          fd = fd;
          port = port;
          family = family;
          ipv4 = λ f. (vcmp_iff (sin_addr a) (sin_addr b) 4).0 (ground arith);
          ipv6 = λ f. (vcmp_iff (sin6_addr a) (sin6_addr b) 16).0 (ground arith);
        }

-- `node_cmp` is antisymmetric, null pointers included: exchanging its arguments negates its result.
pub node_cmp_swap : (a b : Option Node) → node_cmp b a ≡ neg (node_cmp a b)
unfolding node_cmp address_cmp
node_cmp_swap none none = refl
node_cmp_swap none (some b) = refl
node_cmp_swap (some a) none = refl
node_cmp_swap (some a) (some b) =
    ground (arith, vcmp_swap (sin_addr a) (sin_addr b) 4, vcmp_swap (sin6_addr a) (sin6_addr b) 16)
