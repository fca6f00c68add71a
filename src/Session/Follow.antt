-- ===== src/Session/Follow.antt =====
-- src/session/session_connection.c with src/circle_buffer/dmmr_circle_buffer.c: how the thread of a
-- session follows the cursor of the circle buffer.
-- A turn is a round of `session_worker` at its own cursor; between the turns the thread tests
-- `is_behind_cursor` until it holds and then moves on.
pub mod Lag
pub mod Move
pub mod Steps
pub mod Tracked
mod Tests
use dmmr_orbit.Base.{
  ℕ, ◌+◌, ◌*◌, if◌then◌else◌, Bool, Option, none, some, List, Run, ret, fault, ◌>>=◌, get_elem?,
}
use mathlib.Core.Option
use dmmr_orbit.Node.{Node}
use dmmr_orbit.Protocol.{Heap}
use dmmr_orbit.CircleBuffer.{Position, slot, head, CircleBuffer, is_behind_cursor, iterate}
use dmmr_orbit.Session.{SessionConnectionPool, Sent, session_round}

-- Where the array of slots begins, how many bytes a slot has, and where the queue's head stands.
pub record Layout : Type 0 where
  pub base : ℕ
  pub stride : ℕ
  pub head_at : ℕ

abbrev pub address : Layout → Position → ℕ
address l (slot i) = l.base + i * l.stride
address l head = l.head_at

-- `conn->cursor->n`.
unfoldable pub node_at_cursor : List Node → Option Position → Run Node
node_at_cursor slots none = fault
node_at_cursor slots (some head) = fault
node_at_cursor slots (some (slot i)) = elim (get_elem? slots i) [ none ↦ fault | some n ↦ ret n ]

-- A round of `session_worker` up to its wait, during which no other thread changes the pool: the source
-- works on the pool and its count also outside the mutex. `none` ends the thread.
unfoldable pub session_turn :
    Heap
    → Bool
    → Option (List Node)
    → CircleBuffer
    → SessionConnectionPool
    → Run (Option (SessionConnectionPool × List Sent))
unfolding node_at_cursor session_round
session_turn h has_snd_cb fresh c conn =
    session_round h has_snd_cb fresh (node_at_cursor c.slots conn.cursor) conn

-- One test of the wait, and the move when it holds; `none` waits on.
unfoldable pub session_move :
    Layout → CircleBuffer → SessionConnectionPool → Run (Option SessionConnectionPool)
unfolding is_behind_cursor iterate
session_move l c conn =
    is_behind_cursor l.base (l.base + c.circle_buffer_size * l.stride)
      (Option.map (address l) conn.cursor) (address l c.cursor)
    >>= λ behind.
        if behind
        then (iterate c.circle_buffer_size conn.cursor >>= λ next.
            ret (some (record conn { cursor = next })))
        else ret none
