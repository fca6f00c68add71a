-- ===== src/Socket/Receive/Slots.antt =====
-- The receive slots of a ring whose nodes are written, as the receiver threads of src/socket do.
use dmmr_orbit.Base.{
  ℕ, zero, suc, ◌+◌, ◌%◌, ◌<◌, Option, Option-cases, none, some, inl, inr, List, [], ◌∷◌, ◌++◌, ret,
  get_elem?, set, get_elem?-set_self, get_elem?-set_ne, length, length-set, ◌≡◌, ◌≢◌, refl, sym, ap,
  ◌∙◌, arith,
}
use dmmr_orbit.Node.{Node}
use dmmr_orbit.NodeRecv.{
  NodeBuffer, NodeRecvManager, status_at, set_status, next, get_free_node, get_buzy_node,
}
use dmmr_orbit.NodeRecv.Fifo.{IsRing, put_room, take_some}
use dmmr_orbit.Socket.Receive.{set_node, write_node, node_at}

-- A member of a slot.
abbrev field : {A : Type 0} → A → (NodeBuffer → A) → List NodeBuffer → ℕ → A
field d g buf j = elim (get_elem? buf j) [ none ↦ d | some b ↦ g b ]

-- A slot that is replaced by one with the same member.
field-set :
    {A : Type 0} (d : A) (g : NodeBuffer → A) (buf : List NodeBuffer) (i j : ℕ) (x y : NodeBuffer)
    → get_elem? buf i ≡ some x
    → g y ≡ g x
    → field d g (set buf i y) j ≡ field d g buf j
field-set d g [] i j x y at e = refl
field-set d g (b ∷ bs) zero zero x y at e =
    e ∙ ap (λ o. elim o [ none ↦ g x | some z ↦ g z ]) (sym at)
field-set d g (b ∷ bs) zero (suc j) x y at e = refl
field-set d g (b ∷ bs) (suc i) zero x y at e = refl
field-set d g (b ∷ bs) (suc i) (suc j) x y at e = field-set d g bs i j x y at e

status_at-set_node :
    (buf : List NodeBuffer) (i j : ℕ) (f : Node → Node)
    → status_at (set_node buf i f) j ≡ status_at buf j
status_at-set_node buf i j f = elim (Option-cases (get_elem? buf i)) [
  | inl out ↦ rw (out, set_node) refl
  | inr (x, at) ↦
      rw (at, set_node)
        (field-set 0 (λ b. b.node_buffer_status) buf i j x (record x { node = f x.node }) at refl)
]

length-set_node :
    (buf : List NodeBuffer) (i : ℕ) (f : Node → Node) → length (set_node buf i f) ≡ length buf
length-set_node buf i f = elim (Option-cases (get_elem? buf i)) [
  | inl out ↦ rw (out, set_node) refl
  | inr (b, at) ↦ rw (at, set_node) (length-set buf i (record b { node = f b.node }))
]

node_at-set_status :
    (buf : List NodeBuffer) (i j v : ℕ) → node_at (set_status buf i v) j ≡ node_at buf j
node_at-set_status buf i j v = elim (Option-cases (get_elem? buf i)) [
  | inl out ↦ rw (out, set_status) refl
  | inr (x, at) ↦
      rw (at, set_status)
        (field-set none (λ b. some b.node) buf i j x (record x { node_buffer_status = v }) at refl)
]

node_at-set_node_self :
    (buf : List NodeBuffer) (i : ℕ) (f : Node → Node)
    → i < length buf
    → (n : Node) × (node_at buf i ≡ some n) × (node_at (set_node buf i f) i ≡ some (f n))
node_at-set_node_self buf i f h = elim (Option-cases (get_elem? buf i)) [
  | inl out ↦ absurd (get_elem?-ne_none buf i h out)
  | inr (x, at) ↦ (
    x.node,
    rw (at, node_at) refl,
    rw (at, set_node)
        (rw (get_elem?-set_self buf i (record x { node = f x.node }) h, node_at) refl),
  )
]
  where
    get_elem?-ne_none : (xs : List NodeBuffer) (k : ℕ) → k < length xs → get_elem? xs k ≢ none
    get_elem?-ne_none [] k h e = absurd (omega arith)
    get_elem?-ne_none (x ∷ xs) zero h e = ground arith
    get_elem?-ne_none (x ∷ xs) (suc k) h e = get_elem?-ne_none xs k (omega arith) e

node_at-set_node_ne :
    (buf : List NodeBuffer) (i j : ℕ) (f : Node → Node)
    → i ≢ j
    → node_at (set_node buf i f) j ≡ node_at buf j
node_at-set_node_ne buf i j f h = elim (Option-cases (get_elem? buf i)) [
  | inl out ↦ rw (out, set_node) refl
  | inr (x, at) ↦
      rw (at, set_node)
        (rw (get_elem?-set_ne buf {i = i} {j = j} (record x { node = f x.node }) h, node_at) refl)
]

-- The nodes in the `c` slots from `b` on.
abbrev pub contents : List NodeBuffer → ℕ → ℕ → List (Option Node)
contents buf b zero = []
contents buf b (suc c) = node_at buf b ∷ contents buf (next b) c

IsRing-write_node :
    (m : NodeRecvManager) (c i : ℕ) (f : Node → Node) → IsRing m c → IsRing (write_node m i f) c
IsRing-write_node m c i f ring = record {
  idle = record {
    unlocked = ring.idle.unlocked;
    size = length-set_node m.buffer i f ∙ ring.idle.size;
    free_index = ring.idle.free_index;
    busy_index = ring.idle.busy_index;
  };
  few = ring.few;
  free_end = ring.free_end;
  used = λ k below.
      rw (status_at-set_node m.buffer i ((m.next_busy_index + k) % 256) f) (ring.used k below);
  unused = λ k from below.
      rw (status_at-set_node m.buffer i ((m.next_busy_index + k) % 256) f)
        (ring.unused k from below);
}

contents-same :
    (c : ℕ) (buf buf' : List NodeBuffer) (b : ℕ)
    → b < 256
    → ((i : ℕ) → i < c → node_at buf' ((b + i) % 256) ≡ node_at buf ((b + i) % 256))
    → contents buf' b c ≡ contents buf b c
contents-same zero buf buf' b h same = refl
contents-same (suc c) buf buf' b h same =
    let start : (b + 0) % 256 ≡ b = omega arith in
    let here : node_at buf' b ≡ node_at buf b =
      ap (node_at buf') (sym start) ∙ same 0 (omega arith) ∙ ap (node_at buf) start in
    let later : (i : ℕ)
        → i < c
        → node_at buf' ((next b + i) % 256) ≡ node_at buf ((next b + i) % 256) =
      λ i l.
        let shift : (next b + i) % 256 ≡ (b + suc i) % 256 = omega arith in
        ap (node_at buf') shift ∙ same (suc i) (omega arith) ∙ ap (node_at buf) (sym shift) in
    rw (here, contents-same c buf buf' (next b) (omega arith) later) refl

contents-snoc :
    (c : ℕ) (buf : List NodeBuffer) (b : ℕ)
    → b < 256
    → contents buf b (suc c) ≡ contents buf b c ++ (node_at buf ((b + c) % 256) ∷ [])
contents-snoc zero buf b h = let same : (b + 0) % 256 ≡ b = omega arith in rw same refl
contents-snoc (suc c) buf b h =
    let shift : (next b + c) % 256 ≡ (b + suc c) % 256 = omega arith in
    ap (λ l. node_at buf b ∷ l) (contents-snoc c buf (next b) (omega arith) ∙ rw shift refl)

-- A slot is taken from the ring and its node is written.
pub fill :
    {m : NodeRecvManager} {c : ℕ}
    → IsRing m c
    → c < 256
    → (f : Node → Node)
    → (m1 : NodeRecvManager) × (n : Node) × (get_free_node m ≡ ret (some m.next_free_index, m1))
      × (node_at m.buffer m.next_free_index ≡ some n)
      × IsRing (write_node m1 m.next_free_index f) (suc c)
      × (m1.next_busy_index ≡ m.next_busy_index)
      × (contents (write_node m1 m.next_free_index f).buffer m.next_busy_index (suc c)
          ≡ contents m.buffer m.next_busy_index c ++ (some (f n) ∷ []))
fill {m} {c} ring room f =
    let (m1, runs, ring1, nb, nf, buf) = put_room ring room in
    let free = m.next_free_index in
    let last = ring.free_end in
    let inside : free < length m1.buffer = omega (arith, ring1.idle.size, ring.idle.free_index) in
    let (n, was, is) = node_at-set_node_self m1.buffer free f inside in
    let kept : (j : ℕ) → node_at m1.buffer j ≡ node_at m.buffer j =
      λ j. ap (λ b. node_at b j) buf ∙ node_at-set_status m.buffer free j 1 in
    let written = set_node m1.buffer free f in
    let others : (i : ℕ)
        → i < c
        → node_at (set_node m1.buffer free f) ((m.next_busy_index + i) % 256)
          ≡ node_at m.buffer ((m.next_busy_index + i) % 256) =
      λ i l.
        node_at-set_node_ne m1.buffer free ((m.next_busy_index + i) % 256) f (λ e. omega arith)
        ∙ kept ((m.next_busy_index + i) % 256) in
    (
      m1,
      n,
      runs,
      sym (kept free) ∙ was,
      IsRing-write_node m1 (suc c) free f ring1,
      nb,
      contents-snoc c (set_node m1.buffer free f) m.next_busy_index ring.idle.busy_index
          ∙ ap (λ l. l ++ (node_at written ((m.next_busy_index + c) % 256) ∷ []))
              (contents-same c m.buffer written m.next_busy_index ring.idle.busy_index others)
          ∙ ap (λ o. contents m.buffer m.next_busy_index c ++ (o ∷ []))
              (ap (node_at written) (sym last) ∙ is),
    )

-- A slot is taken from the ring and its node is left as it is.
pub claim :
    {m : NodeRecvManager} {c : ℕ}
    → IsRing m c
    → c < 256
    → (m1 : NodeRecvManager) × (get_free_node m ≡ ret (some m.next_free_index, m1))
      × IsRing m1 (suc c)
      × (m1.next_busy_index ≡ m.next_busy_index)
      × (contents m1.buffer m.next_busy_index (suc c)
          ≡ contents m.buffer m.next_busy_index c ++ (node_at m.buffer m.next_free_index ∷ []))
claim {m} {c} ring room =
    let (m1, runs, ring1, nb, nf, buf) = put_room ring room in
    let kept : (j : ℕ) → node_at m1.buffer j ≡ node_at m.buffer j =
      λ j. ap (λ b. node_at b j) buf ∙ node_at-set_status m.buffer m.next_free_index j 1 in
    let same =
      contents-same c m.buffer m1.buffer m.next_busy_index ring.idle.busy_index
        (λ i l. kept ((m.next_busy_index + i) % 256)) in
    (
      m1,
      runs,
      ring1,
      nb,
      contents-snoc c m1.buffer m.next_busy_index ring.idle.busy_index
          ∙ ap (λ l. l ++ (node_at m1.buffer ((m.next_busy_index + c) % 256) ∷ [])) same
          ∙ ap (λ o. contents m.buffer m.next_busy_index c ++ (o ∷ []))
              (kept ((m.next_busy_index + c) % 256) ∙ ap (node_at m.buffer) (sym ring.free_end)),
    )

-- A slot is taken back from the ring, with its node.
pub take_back :
    {m : NodeRecvManager} {c : ℕ}
    → IsRing m (suc c)
    → (m1 : NodeRecvManager) × (get_buzy_node m ≡ ret (some m.next_busy_index, m1))
      × IsRing m1 c
      × (contents m.buffer m.next_busy_index (suc c)
          ≡ node_at m1.buffer m.next_busy_index ∷ contents m1.buffer m1.next_busy_index c)
take_back {m} {c} ring =
    let (m1, runs, ring1, nb, nf, buf) = take_some ring in
    let kept : (j : ℕ) → node_at m1.buffer j ≡ node_at m.buffer j =
      λ j. ap (λ b. node_at b j) buf ∙ node_at-set_status m.buffer m.next_busy_index j 0 in
    (
      m1,
      runs,
      ring1,
      rw
          (
            nb,
            kept m.next_busy_index,
            contents-same c m.buffer m1.buffer (next m.next_busy_index) (omega arith)
                (λ i l. kept ((next m.next_busy_index + i) % 256)),
          )
          refl,
    )
