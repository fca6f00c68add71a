-- ===== src/Node/Tests.antt =====
-- Nodes for the tests, and the comparison of nodes run on them.
use dmmr_orbit.Base.{ℕ, ◌≡◌, ◌↔◌, some, [], ◌∷◌, refl}
use dmmr_orbit.Base.Int.{pos, negsuc}
use dmmr_orbit.Node.{Node, af_inet}
use dmmr_orbit.Node.Cmp.{IsSameEndpoint, node_cmp, node_cmp_iff}

-- An IPv4 node with an arrival time, a deadline and a payload size.
abbrev pub test_node : ℕ → ℕ → ℕ → Node
test_node arrival deadline size = record {
  arrival = arrival;
  deadline = deadline;
  value_size = size;
  port = 8080;
  flags = 0;
  family = af_inet;
  fd = pos 5;
  ipv6 = [];
  ipv4 = 2 ∷ 0 ∷ 31 ∷ 144 ∷ 127 ∷ 0 ∷ 0 ∷ 1 ∷ [];
  value = 1 ∷ 2 ∷ 3 ∷ [];
}

abbrev pub blank_node : Node
blank_node = record {
  arrival = 0;
  deadline = 0;
  value_size = 0;
  port = 0;
  flags = 0;
  family = 0;
  fd = pos 0;
  ipv6 = [];
  ipv4 = [];
  value = [];
}

lower_port : node_cmp (some blank_node) (some (test_node 1 2 3)) ≡ negsuc 0
unfolding node_cmp
lower_port = refl

node_cmp_iff_example :
    (node_cmp (some (test_node 1 2 3)) (some (test_node 4 5 6)) ≡ pos 0)
    ↔ IsSameEndpoint (test_node 1 2 3) (test_node 4 5 6)
node_cmp_iff_example = node_cmp_iff (test_node 1 2 3) (test_node 4 5 6)
