-- ===== src/Session/Size.antt =====
-- src/session/session_connection.c: the sizes that decide when a session sends, and how much.
use dmmr_orbit.Base.{
  ℕ, suc, ◌+◌, ◌%◌, ◌^◌, ◌≤◌, ◌<◌, leb, Bool-cases, List, [], ◌∷◌, length, take, refl, ◌∙◌, ◌≡◌,
  inl, inr, true, arith, ◌↔◌, ◌⊎◌,
}
use dmmr_orbit.Base.Sort.{All}
use dmmr_orbit.Node.{Node, value_output_buffer_size, value_buffer_size}
use dmmr_orbit.Session.{size_loop, get_session_size, burst}

abbrev pub total_size : List Node → ℕ
total_size [] = 0
total_size (n ∷ ns) = n.value_size + total_size ns

-- The payload of a node fits its buffer.
abbrev pub Fits : Node → Type 0
Fits n = n.value_size ≤ value_buffer_size

size_loop-reaches :
    (ns : List Node) (total : ℕ)
    → total < value_output_buffer_size
    → All Fits ns
    → (leb value_output_buffer_size (size_loop value_output_buffer_size total ns) ≡ true)
      ↔ (value_output_buffer_size ≤ total + total_size ns)
unfolding size_loop
size_loop-reaches [] total h f = ground arith
size_loop-reaches (n ∷ ns) total h f =
    let fit : n.value_size ≤ value_buffer_size = f.0 in
    let same : (total + n.value_size) % 2 ^ 16 ≡ total + n.value_size = omega arith in
    elim (Bool-cases (leb value_output_buffer_size (total + n.value_size))) [
      | inl over ↦ rw (size_loop, same, over) (ground arith)
      | inr under ↦
          let ih = size_loop-reaches ns (total + n.value_size) (ground arith) f.1 in
          rw (size_loop, same, under) (ground (arith, ih))
    ]

-- While every payload fits the buffer of its node, the 16-bit sum does not wrap before it reaches
-- the threshold: the size that is returned is at the threshold exactly when the nodes in use hold
-- that much.
pub get_session_size_iff :
    (ns : List Node)
    → All Fits ns
    → (leb value_output_buffer_size (get_session_size value_output_buffer_size ns) ≡ true)
      ↔ (value_output_buffer_size ≤ total_size ns)
unfolding get_session_size
get_session_size_iff ns f =
    let reaches = size_loop-reaches ns 0 (omega arith) f in ground (arith, reaches)

burst-count :
    (ns : List Node) (siz count : ℕ)
    → siz ≤ value_output_buffer_size
    → All Fits ns
    → (k : ℕ) × (burst siz count ns ≡ count + k)
      × (k ≤ length ns)
      × (siz + total_size (take k ns) ≤ value_output_buffer_size + value_buffer_size)
      × ((k ≡ length ns) ⊎ (value_output_buffer_size < siz + total_size (take k ns)))
unfolding burst
burst-count [] siz count h f = (0, ground arith, omega arith, omega arith, inl refl)
burst-count (n ∷ ns) siz count h f =
    let fit : n.value_size ≤ value_buffer_size = f.0 in
    let same : (siz + n.value_size) % 2 ^ 32 ≡ siz + n.value_size = omega arith in
    elim (Bool-cases (leb (siz + n.value_size) value_output_buffer_size)) [
      | inl under ↦
          let (k, e, below, fits, stop) =
            burst-count ns (siz + n.value_size) (count + 1) (ground arith) f.1 in
          (
            suc k,
            rw (burst, same, under, e) (omega arith),
            omega arith,
            omega arith,
            ground (arith, stop),
          )
      | inr over ↦ (1, rw (burst, same, over) refl, omega arith, omega arith, inr (ground arith))
    ]

-- While every payload fits the buffer of its node, a burst takes at most the nodes there are and at
-- most one payload above the threshold, and it stops short of the last node only when it is above
-- the threshold.
pub burst_lem :
    (ns : List Node)
    → All Fits ns
    → (burst 0 0 ns ≤ length ns)
      × (total_size (take (burst 0 0 ns) ns) ≤ value_output_buffer_size + value_buffer_size)
      × ((burst 0 0 ns ≡ length ns)
          ⊎ (value_output_buffer_size < total_size (take (burst 0 0 ns) ns)))
burst_lem ns f =
    let (k, e, below, fits, stop) = burst-count ns 0 0 (omega arith) f in
    let same : burst 0 0 ns ≡ k = e ∙ (omega arith) in
    rw same (below, omega arith, ground (arith, stop))
