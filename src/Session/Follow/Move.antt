-- ===== src/Session/Follow/Move.antt =====
-- src/session/session_connection.c: where the wait and the move of a session's thread lead.
use dmmr_orbit.Base.{
  ℕ, ◌+◌, ◌-◌, ◌*◌, ◌%◌, ◌<◌, ◌≡◌, ◌≢◌, ◌⊎◌, refl, ap, ◌∙◌, arith, inl, inr, Bool-cases, false,
  none, some, ret, ◌>>=◌, ℕ_discrete,
}
use dmmr_orbit.CircleBuffer.{slot, CircleBuffer, is_behind, is_behind_cursor, iterate}
use dmmr_orbit.CircleBuffer.Cursor.{
  is_behind_iff, foward_current_node_lem, iterate-foward, place_below,
}
use dmmr_orbit.CircleBuffer.Worker.{IsPlaced}
use dmmr_orbit.Session.{SessionConnectionPool}
use dmmr_orbit.Session.Follow.{Layout, session_move}

iterate_slot :
    (n i : ℕ) → i + 1 < n → iterate n (some (slot i)) ≡ ret (some (slot ((i + 1) % (n - 1))))
iterate_slot n i lt =
    iterate-foward n (slot i) (omega arith)
    ∙ ap (λ r. r >>= λ next. ret (some next)) (foward_current_node_lem n i lt)

-- A session at slot `j`, where the buffer's cursor is at slot `i`: the test of the wait returns, and
-- keeps the session waiting exactly when it is at the buffer's own slot. Otherwise the session moves to
-- the next slot, with the last one of the array left out.
pub session_move_lem :
    (l : Layout) (c : CircleBuffer) (conn : SessionConnectionPool) (i j : ℕ)
    → 0 < l.stride
    → IsPlaced c i
    → conn.cursor ≡ some (slot j)
    → j + 1 < c.circle_buffer_size
    → ((j ≡ i) × (session_move l c conn ≡ ret none))
      ⊎ ((j ≢ i)
          × (session_move l c conn
              ≡ ret (
                  some
                    (record conn { cursor = some (slot ((j + 1) % (c.circle_buffer_size - 1))) })))
          × ((j + 1) % (c.circle_buffer_size - 1) + 1 < c.circle_buffer_size))
unfolding session_move is_behind_cursor
session_move_lem l c conn i j wide placed at inner =
    let n = c.circle_buffer_size in
    let test =
      is_behind l.base (l.base + n * l.stride) (l.base + j * l.stride) (l.base + i * l.stride) in
    let (to, from) =
      is_behind_iff l.base l.stride n j i wide (omega arith) (omega (arith, placed.inner)) in
    let same : test ≡ false → j ≡ i = λ (on : test ≡ false). elim (ℕ_discrete j i) [
      | yes e ↦ e
      | no apart ↦ absurd (cc (from apart))
    ] in
    elim (Bool-cases test) [
      | inl behind ↦ inr (
        to behind,
        rw (session_move, at, placed.at, behind, iterate_slot n j inner) refl,
        place_below n j inner,
      )
      | inr on ↦ inl (same on, rw (session_move, at, placed.at, on) refl)
    ]
