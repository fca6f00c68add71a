-- ===== src/Session/Follow/Lag.antt =====
-- src/session/session_connection.c with src/circle_buffer/dmmr_circle_buffer.c: what a session that
-- keeps up with the buffer's cursor reads.
use native.Mathlib.Nat.{mod-eq_of_lt}
use dmmr_orbit.Base.{
  ℕ, zero, suc, ◌+◌, ◌-◌, ◌%◌, ◌<◌, ◌≡◌, ◌≢◌, refl, sym, ap, ◌∙◌, arith, inl, inr, Option, none,
  some, List, [], ◌∷◌, map, Run, ret, hang, ◌>>=◌, length, length-set, get_elem?, get_elem?-set_ne,
  get_elem?-lt, set,
}
use dmmr_orbit.Node.{Node}
use dmmr_orbit.CircleBuffer.{Position, slot, NodeFifoBuffer, CircleBuffer, drain_batch}
use dmmr_orbit.CircleBuffer.Cursor.{place_zero, place_suc, place_below}
use dmmr_orbit.CircleBuffer.Worker.{IsPlaced, HasCopies, drain_batch_lem}
use dmmr_orbit.Session.{SessionConnectionPool}
use dmmr_orbit.Session.Follow.{Layout, node_at_cursor, session_move}
use dmmr_orbit.Session.Follow.Move.{session_move_lem}

-- The nodes at the places from `i` on, `k` of them.
unfoldable pub nodes_from : ℕ → List Node → ℕ → ℕ → List (Option Node)
nodes_from n slots i zero = []
nodes_from n slots i (suc k) = get_elem? slots i ∷ nodes_from n slots ((i + 1) % (n - 1)) k

next_ne : (m i t : ℕ) → i < m → t + 1 < m → (i + 1 + t) % m ≢ i
next_ne m i t below few = grind (arith, mod-eq_of_lt {n = i + 1 + t} {m = m})

nodes_from-set :
    (n : ℕ) (slots : List Node) (i : ℕ) (v : Node) (p k : ℕ)
    → p + 1 < n
    → ((t : ℕ) → t < k → (p + t) % (n - 1) ≢ i)
    → nodes_from n (set slots i v) p k ≡ nodes_from n slots p k
unfolding nodes_from
nodes_from-set n slots i v p zero lt apart = refl
nodes_from-set n slots i v p (suc k) lt apart =
    let here : i ≢ p = λ (e : i ≡ p). apart 0 (omega arith) (place_zero n p lt ∙ sym e) in
    rw
      (
        nodes_from,
        get_elem?-set_ne slots v here,
        nodes_from-set n slots i v ((p + 1) % (n - 1)) k (place_below n p lt)
            (λ t few e. apart (suc t) (omega arith) (sym (place_suc n p t) ∙ e)),
      )
      refl

place_zero_lem : (n j : ℕ) {i : ℕ} → (j + 1) % (n - 1) ≡ i → j ≡ i → (j + 1 + 0) % (n - 1) ≡ j
place_zero_lem n j behind same = ap (λ t. t % (n - 1)) (omega arith) ∙ behind ∙ sym same

-- The session moves and reads, then the buffer's thread stores one entry and moves, for each entry.
unfoldable pub lockstep :
    Layout
    → (ℕ → Run Node)
    → CircleBuffer
    → SessionConnectionPool
    → List NodeFifoBuffer
    → Run (List Node)
lockstep l copied c conn [] = ret []
lockstep l copied c conn (e ∷ es) = session_move l c conn >>= λ moved. elim moved [
  | none ↦ hang
  | some conn' ↦ node_at_cursor c.slots conn'.cursor >>= λ here.
      drain_batch copied c.circle_buffer_size (e ∷ []) c.cursor c.slots >>= λ (cursor, slots).
      lockstep l copied (record c { cursor = cursor; slots = slots }) conn' es >>= λ seen.
      ret (here ∷ seen)
]

lockstep_step :
    (l : Layout) (copied : ℕ → Run Node) (c : CircleBuffer) (conn conn' : SessionConnectionPool)
    (e : NodeFifoBuffer) (es : List NodeFifoBuffer) (here : Node) (cursor : Position)
    (slots seen : List Node)
    → session_move l c conn ≡ ret (some conn')
    → node_at_cursor c.slots conn'.cursor ≡ ret here
    → drain_batch copied c.circle_buffer_size (e ∷ []) c.cursor c.slots ≡ ret (cursor, slots)
    → lockstep l copied (record c { cursor = cursor; slots = slots }) conn' es ≡ ret seen
    → lockstep l copied c conn (e ∷ es) ≡ ret (here ∷ seen)
unfolding lockstep
lockstep_step l copied c conn conn' e es here cursor slots seen moves reads stores runs =
    rw (lockstep, moves, reads, stores, runs) refl

-- A session starts directly behind the buffer's cursor, in a ring of at least three slots, and for each
-- of at most `n - 1` entries, whose copies return, first the session moves and reads and then the
-- buffer's thread stores the entry. Then the test of the wait never holds it back, and it reads the
-- nodes that the slots held before: none of the entries stored meanwhile.
pub lockstep_lem :
    (l : Layout) (copied : ℕ → Run Node) (node_at : ℕ → Node) (c : CircleBuffer)
    (conn : SessionConnectionPool) (i j : ℕ) (es : List NodeFifoBuffer)
    → 0 < l.stride
    → 2 < c.circle_buffer_size
    → IsPlaced c i
    → conn.cursor ≡ some (slot j)
    → j + 1 < c.circle_buffer_size
    → (j + 1) % (c.circle_buffer_size - 1) ≡ i
    → length es < c.circle_buffer_size
    → HasCopies copied node_at es
    → (seen : List Node) × (lockstep l copied c conn es ≡ ret seen)
      × (map some seen ≡ nodes_from c.circle_buffer_size c.slots i (length es))
unfolding lockstep nodes_from node_at_cursor
lockstep_lem l copied node_at c conn i j [] wide three placed at inner behind lap copies =
    ([], refl, refl)
lockstep_lem l copied node_at c conn i j (e ∷ es) wide three placed at inner behind lap copies =
    let n = c.circle_buffer_size in
    let i' = (i + 1) % (n - 1) in
    let slots' = set c.slots i (node_at e.address_of_n) in
    let c' : CircleBuffer = record c { cursor = slot i'; slots = slots' } in
    let conn' : SessionConnectionPool = record conn { cursor = some (slot ((j + 1) % (n - 1))) } in
    let under : i + 1 < n = placed.inner in
    let (x, read) = get_elem?-lt c.slots i (omega (arith, placed.size)) in
    let reads : node_at_cursor c.slots (some (slot i)) ≡ ret x = rw (node_at_cursor, read) refl in
    let placed' : IsPlaced c' i' = record {
      at = refl;
      inner = place_below n i under;
      size = length-set c.slots i (node_at e.address_of_n) ∙ placed.size;
    } in
    let far : (t : ℕ) → t < length es → (i' + t) % (n - 1) ≢ i = λ t few same.
      next_ne (n - 1) i t (omega arith) (omega arith)
        (ap (λ (k : ℕ). k % (n - 1)) (omega arith) ∙ sym (place_suc n i t) ∙ same) in
    elim (session_move_lem l c conn i j wide placed at inner) [
      | inl (same, waits) ↦
          absurd (next_ne (n - 1) j 0 (omega arith) (omega arith) (place_zero_lem n j behind same))
      | inr (apart, moves, below) ↦
          let (seen, runs, old) =
            lockstep_lem l copied node_at c' conn' i' i es wide three placed'
              (ap (λ (k : ℕ). some (slot k)) behind) under refl (omega arith) copies.1 in
          (
            x ∷ seen,
            lockstep_step l copied c conn conn' e es x (slot i') slots' seen moves
                (ap (λ (k : ℕ). node_at_cursor c.slots (some (slot k))) behind ∙ reads)
                (ap (λ p. drain_batch copied n (e ∷ []) p c.slots) placed.at
                  ∙ drain_batch_lem copied node_at n (e ∷ []) i c.slots (copies.0, tt) under
                      placed.size)
                runs,
            rw (nodes_from, read)
                (ap (λ t. some x ∷ t)
                  (old
                    ∙ nodes_from-set n c.slots i (node_at e.address_of_n) i' (length es)
                        (place_below n i under) far)),
          )
    ]
