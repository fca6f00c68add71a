-- ===== src/Session/Follow/Steps.antt =====
-- src/session/session_connection.c with src/circle_buffer/dmmr_circle_buffer.c: the thread of a
-- session, the thread of the buffer, and those that fill the FIFO and flush the pool, in any order.
use dmmr_orbit.Base.{
  ℕ, ◌+◌, ◌^◌, ◌≤◌, ◌<◌, ◌≡◌, Bool, true, false, some, List, ◌++◌, ret, length, replicate,
}
use dmmr_orbit.Node.{Node}
use dmmr_orbit.Protocol.{Heap}
use dmmr_orbit.CircleBuffer.{slot, NodeFifoBuffer, CircleBuffer, fifo_worker_round}
use dmmr_orbit.CircleBuffer.Worker.{IsPlaced}
use dmmr_orbit.Session.{SessionConnectionPool, Sent}
use dmmr_orbit.Session.Worker.{IsFit, IsReadable}
use dmmr_orbit.Session.Follow.{Layout, session_turn, session_move}

-- The session and the buffer that it follows; `in_wait` is true behind a turn.
pub record Follower : Type 0 where
  pub conn : SessionConnectionPool
  pub buffer : CircleBuffer
  pub in_wait : Bool

pub data Step (l : Layout) (h : Heap) : Follower → Follower → Type 0 where
  -- A receiver puts entries behind the FIFO.
  queued :
      {s : Follower} (es : List NodeFifoBuffer)
      → Step l h s (record s { buffer = record s.buffer { fifo = s.buffer.fifo ++ es } })
  -- A round of `fifo_worker`.
  stored :
      {s : Follower} {c : CircleBuffer} (node_at : ℕ → Node)
      → fifo_worker_round (λ a. ret (node_at a)) s.buffer ≡ ret c
      → Step l h s (record s { buffer = c })
  -- A turn as one step, without a flush inside it, whose realloc succeeds, in a pool of fewer than 2 ^ 31 nodes.
  turned :
      {s : Follower} {conn : SessionConnectionPool} (has_snd_cb : Bool) (new : List Node)
      (sent : List Sent)
      → s.in_wait ≡ false
      → s.conn.pool_size < 2 ^ 31
      → s.conn.pool_size ≤ length new
      → IsReadable h s.conn.session
      → session_turn h has_snd_cb (some new) s.buffer s.conn ≡ ret (some (conn, sent))
      → Step l h s (record s { conn = conn; in_wait = true })
  -- A test that holds, and the move.
  moved :
      {s : Follower} {conn : SessionConnectionPool}
      → s.in_wait ≡ true
      → session_move l s.buffer s.conn ≡ ret (some conn)
      → Step l h s (record s { conn = conn; in_wait = false })
  -- `sched_trigger_snd` of the scheduler.
  flushed :
      {s : Follower} (blank : Node)
      → Step l h s (record s {
        conn = record s.conn { pool_count = 0; pool = some (replicate s.conn.pool_size blank) };
      })

pub data Reach (l : Layout) (h : Heap) (s : Follower) : Follower → Type 0 where
  begin : Reach l h s s
  next : {t u : Follower} → Reach l h s t → Step l h t u → Reach l h s u

-- Both cursors are at slots, neither at the array's last one, and the pool has its size.
pub record IsTracked (s : Follower) : Type 0 where
  pub writer : ℕ
  pub reader : ℕ
  pub placed : IsPlaced s.buffer writer
  pub at : s.conn.cursor ≡ some (slot reader)
  pub inner : reader + 1 < s.buffer.circle_buffer_size
  pub fit : IsFit s.conn
