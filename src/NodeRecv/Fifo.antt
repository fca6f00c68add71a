-- ===== src/NodeRecv/Fifo.antt =====
-- Used through its two getters alone, a manager is a bounded queue of slots.
use mathlib.Core.Path.{subst}
use dmmr_orbit.Base.{
  ℕ, zero, suc, ◌+◌, ◌%◌, ◌≤◌, ◌<◌, ◌≡◌, refl, ◌∙◌, ap, arith, Bool-cases, inl, inr, true, false,
  Option, none, some, List, [], ◌∷◌, ◌++◌, Run, ret, ◌>>=◌, ◌==◌, not, if◌then◌else◌, length,
  ℕ_discrete,
}
use dmmr_orbit.NodeRecv.{
  NodeRecvManager, status_at, set_status, next, is_free, is_busy, take_free, take_busy,
  get_free_node, get_buzy_node,
}
use dmmr_orbit.NodeRecv.Search.{FindsFirst, search_hit}
use dmmr_orbit.NodeRecv.Slots.{
  IsIdle, length-set_status, status_at-set_status, get_free_node_runs, get_buzy_node_runs,
}

-- The busy slots are the `c` slots from `next_busy_index` on, going round.
pub record IsRing (m : NodeRecvManager) (c : ℕ) : Type 0 where
  pub idle : IsIdle m
  pub few : c ≤ 256
  pub free_end : m.next_free_index ≡ (m.next_busy_index + c) % 256
  pub used : (i : ℕ) → i < c → is_free (status_at m.buffer ((m.next_busy_index + i) % 256)) ≡ false
  pub unused :
      (i : ℕ)
      → c ≤ i
      → i < 256
      → is_free (status_at m.buffer ((m.next_busy_index + i) % 256)) ≡ true

pub data Op : Type 0 where
  -- A call of `get_free_node`.
  put : Op
  -- A call of `get_buzy_node`.
  take : Op

-- A queue of at most 256 slot numbers; `free` is the number that the next `put` hands out.
unfoldable pub run_queue : ℕ → List ℕ → List Op → List (Option ℕ)
run_queue free q [] = []
run_queue free q (put ∷ ops) =
    let grown = run_queue (next free) (q ++ (free ∷ [])) ops in
    let same = run_queue free q ops in if length q == 256 then none ∷ same else some free ∷ grown
run_queue free [] (take ∷ ops) = none ∷ run_queue free [] ops
run_queue free (slot ∷ q) (take ∷ ops) = some slot ∷ run_queue free q ops

-- The calls in order on a manager, with what each returns.
pub run_manager : NodeRecvManager → List Op → Run (List (Option ℕ))
run_manager m [] = ret []
run_manager m (put ∷ ops) = do
  (slot, m') ← get_free_node m
  rest ← run_manager m' ops
  ret (slot ∷ rest)
run_manager m (take ∷ ops) = do
  (slot, m') ← get_buzy_node m
  rest ← run_manager m' ops
  ret (slot ∷ rest)

-- The `c` slot numbers from `b` on.
abbrev pub slots_from : ℕ → ℕ → List ℕ
slots_from b zero = []
slots_from b (suc c) = b ∷ slots_from (next b) c

length-slots_from : (b c : ℕ) → length (slots_from b c) ≡ c
length-slots_from b zero = refl
length-slots_from b (suc c) = ap suc (length-slots_from (next b) c)

slots_from-suc : (b c : ℕ) → b < 256 → slots_from b (suc c) ≡ slots_from b c ++ ((b + c) % 256 ∷ [])
slots_from-suc b zero lt = ap (λ (k : ℕ). k ∷ []) (omega arith)
slots_from-suc b (suc c) lt = ap (◌∷◌ b) (
    slots_from-suc (next b) c (omega arith)
    ∙ ap (λ (k : ℕ). slots_from (next b) c ++ (k ∷ [])) (omega arith))

-- Where every slot fails a getter's test, the getter returns a null pointer and changes nothing.
relock : (m : NodeRecvManager) → m.mutex ≡ false → record m { mutex = false } ≡ m
relock m e = ground arith

pub put_full : {m : NodeRecvManager} → IsRing m 256 → get_free_node m ≡ ret (none, m)
unfolding take_free
put_full {m} ring = let (r, runs, found) = get_free_node_runs ring.idle in full r runs found
  where
    full :
        (r : Option ℕ)
        → get_free_node m ≡ ret (take_free (record m { mutex = true }) r)
        → FindsFirst is_free m.buffer m.next_free_index 0 r
        → get_free_node m ≡ ret (none, m)
    full none runs all = runs ∙ ap (λ k. ret (none, k)) (relock m ring.idle.unlocked)
    full (some p) runs (j, lo, hi, at, hit, before) = absurd (ground (arith, place, ring.used j hi))
      where
        place : is_free (status_at m.buffer ((m.next_busy_index + j) % 256)) ≡ true
        place =
            let e : (m.next_free_index + j) % 256 ≡ (m.next_busy_index + j) % 256 =
              omega (arith, ring.free_end, ring.idle.busy_index) in
            rw e at hit

take_empty : {m : NodeRecvManager} → IsRing m 0 → get_buzy_node m ≡ ret (none, m)
unfolding take_busy
take_empty {m} ring = let (r, runs, found) = get_buzy_node_runs ring.idle in empty r runs found
  where
    empty :
        (r : Option ℕ)
        → get_buzy_node m ≡ ret (take_busy (record m { mutex = true }) r)
        → FindsFirst is_busy m.buffer m.next_busy_index 0 r
        → get_buzy_node m ≡ ret (none, m)
    empty none runs all = runs ∙ ap (λ k. ret (none, k)) (relock m ring.idle.unlocked)
    empty (some p) runs (j, lo, hi, at, hit, before) =
        absurd (ground (arith, hit, ring.unused j (omega arith) hi))

pub put_room :
    {m : NodeRecvManager} {c : ℕ}
    → IsRing m c
    → c < 256
    → (m' : NodeRecvManager) × (get_free_node m ≡ ret (some m.next_free_index, m'))
      × IsRing m' (suc c)
      × (m'.next_busy_index ≡ m.next_busy_index)
      × (m'.next_free_index ≡ next m.next_free_index)
      × (m'.buffer ≡ set_status m.buffer m.next_free_index 1)
unfolding get_free_node take_free
put_room {m} {c} ring lt = (
  after,
  rw (ring.idle.unlocked, search_hit is_free 255 m.buffer nf nf free),
  still,
  refl,
  refl,
  refl,
)
  where
    nf : ℕ
    nf = m.next_free_index

    nb : ℕ
    nb = m.next_busy_index

    after : NodeRecvManager
    after = record m { buffer = set_status m.buffer nf 1; next_free_index = next nf; mutex = false }

    free : is_free (status_at m.buffer nf) ≡ true
    free = rw ring.free_end (ring.unused c (omega arith) lt)

    status : (j : ℕ) → status_at after.buffer j ≡ (if nf == j then 1 else status_at m.buffer j)
    status j = status_at-set_status m.buffer nf j 1 (omega (arith, ring.idle))

    used_at : (i : ℕ) → i < suc c → is_free (status_at after.buffer ((nb + i) % 256)) ≡ false
    used_at i small = rw (status ((nb + i) % 256)) (elim (Bool-cases (nf == (nb + i) % 256)) [
      | inl here ↦ rw here refl
      | inr other ↦ rw other (ring.used i (ground (arith, ring.free_end)))
    ])

    unused_at :
        (i : ℕ) → suc c ≤ i → i < 256 → is_free (status_at after.buffer ((nb + i) % 256)) ≡ true
    unused_at i big small = rw (status ((nb + i) % 256)) (elim (Bool-cases (nf == (nb + i) % 256)) [
      | inl here ↦ absurd (ground (arith, ring.free_end, ring.idle.busy_index))
      | inr other ↦ rw other (ring.unused i (omega arith) small)
    ])

    still : IsRing after (suc c)
    still = record {
      idle = record {
        unlocked = refl;
        size = length-set_status m.buffer nf 1 ∙ ring.idle.size;
        free_index = omega arith;
        busy_index = ring.idle.busy_index;
      };
      few = lt;
      free_end = omega (arith, ring.free_end);
      used = λ i small. used_at i small;
      unused = λ i big small. unused_at i big small;
    }

pub take_some :
    {m : NodeRecvManager} {c : ℕ}
    → IsRing m (suc c)
    → (m' : NodeRecvManager) × (get_buzy_node m ≡ ret (some m.next_busy_index, m'))
      × IsRing m' c
      × (m'.next_busy_index ≡ next m.next_busy_index)
      × (m'.next_free_index ≡ m.next_free_index)
      × (m'.buffer ≡ set_status m.buffer m.next_busy_index 0)
unfolding get_buzy_node take_busy
take_some {m} {c} ring = (
  after,
  rw (ring.idle.unlocked, search_hit is_busy 255 m.buffer nb nb busy),
  still,
  refl,
  refl,
  refl,
)
  where
    nb : ℕ
    nb = m.next_busy_index

    after : NodeRecvManager
    after = record m { buffer = set_status m.buffer nb 0; next_busy_index = next nb; mutex = false }

    busy : is_busy (status_at m.buffer nb) ≡ true
    busy =
        let e : (nb + 0) % 256 ≡ nb = omega (arith, ring.idle) in
        ap not (rw e at (ring.used 0 (omega arith)))

    status : (j : ℕ) → status_at after.buffer j ≡ (if nb == j then 0 else status_at m.buffer j)
    status j = status_at-set_status m.buffer nb j 0 (omega (arith, ring.idle))

    shift : (i : ℕ) → (next nb + i) % 256 ≡ (nb + suc i) % 256
    shift i = omega arith

    used_at : (i : ℕ) → i < c → is_free (status_at after.buffer ((next nb + i) % 256)) ≡ false
    used_at i small =
        rw (shift i, status ((nb + suc i) % 256))
          (elim (Bool-cases (nb == (nb + suc i) % 256)) [
            | inl here ↦ absurd (ground (arith, ring.few, ring.idle.busy_index))
            | inr other ↦ rw other (ring.used (suc i) (omega arith))
          ])

    unused_at :
        (i : ℕ) → c ≤ i → i < 256 → is_free (status_at after.buffer ((next nb + i) % 256)) ≡ true
    unused_at i big small =
        rw (shift i, status ((nb + suc i) % 256))
          (elim (Bool-cases (nb == (nb + suc i) % 256)) [
            | inl here ↦ rw here refl
            | inr other ↦
                rw other (ring.unused (suc i) (omega arith) (ground (arith, ring.idle.busy_index)))
          ])

    still : IsRing after c
    still = record {
      idle = record {
        unlocked = refl;
        size = length-set_status m.buffer nb 0 ∙ ring.idle.size;
        free_index = ring.idle.free_index;
        busy_index = omega arith;
      };
      few = omega (arith, ring.few);
      free_end = omega (arith, ring.free_end);
      used = λ i small. used_at i small;
      unused = λ i big small. unused_at i big small;
    }

-- No sequence of calls of the two getters tells a manager whose busy slots are the `c` slots from
-- `next_busy_index` on from a queue of at most 256 slot numbers: slots come back in the order in
-- which they were handed out, a null pointer answers a `put` exactly at 256 slots and a `take`
-- exactly at none, and no call hangs.
pub run_refines :
    (ops : List Op) (c : ℕ) {m : NodeRecvManager}
    → IsRing m c
    → run_manager m ops ≡ ret (run_queue m.next_free_index (slots_from m.next_busy_index c) ops)
unfolding run_manager run_queue
run_refines [] c ring = refl
run_refines (put ∷ ops) c {m} ring = elim (ℕ_discrete c 256) [
  | yes full ↦ rw (at_limit full, put_full (subst (IsRing m) full ring), run_refines ops c ring)
  | no room ↦
      let (m', runs, ring', busy, free, buf) = put_room ring (omega (arith, ring.few)) in
      rw (below_limit room, runs, run_refines ops (suc c) ring', busy, free)
        (ap (λ q. ret (some m.next_free_index ∷ run_queue (next m.next_free_index) q ops)) grown)
]
  where
    at_limit : c ≡ 256 → (length (slots_from m.next_busy_index c) == 256) ≡ true
    at_limit full = ground (arith, length-slots_from m.next_busy_index c)

    below_limit : ¬ (c ≡ 256) → (length (slots_from m.next_busy_index c) == 256) ≡ false
    below_limit room = ground (arith, length-slots_from m.next_busy_index c)

    grown :
        slots_from m.next_busy_index (suc c)
        ≡ slots_from m.next_busy_index c ++ (m.next_free_index ∷ [])
    grown = rw ring.free_end (slots_from-suc m.next_busy_index c ring.idle.busy_index)
run_refines (take ∷ ops) zero {m} ring = rw (take_empty ring, run_refines ops 0 ring)
run_refines (take ∷ ops) (suc c) {m} ring =
    let (m', runs, ring', busy, free, buf) = take_some ring in
    rw (runs, run_refines ops c ring', busy, free)
