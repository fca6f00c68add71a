-- ===== src/Session/Follow/Tracked.antt =====
-- src/session/session_connection.c with src/circle_buffer/dmmr_circle_buffer.c: the cursors stay in the
-- array and no step faults, in every order of whole turns, moves and rounds.
use mathlib.Core.Path.{subst}
use dmmr_orbit.Base.{
  ap, ℕ, ◌+◌, ◌-◌, ◌%◌, ◌^◌, ◌≤◌, ◌<◌, ◌≡◌, refl, sym, ◌∙◌, arith, inl, inr, Bool, true, false,
  Option, none, some, List, ret, OnRet, length, length-replicate, get_elem?-lt, replicate,
}
use dmmr_orbit.Node.{Node}
use dmmr_orbit.Protocol.{Heap}
use dmmr_orbit.CircleBuffer.{CircleBuffer, fifo_worker_round}
use dmmr_orbit.CircleBuffer.Worker.{
  grown, total-HasCopies, after_round-IsPlaced, fifo_worker_round_runs,
}
use dmmr_orbit.Session.{SessionConnectionPool, Sent, session_round}
use dmmr_orbit.Session.Worker.{IsFit, IsReadable, session_round-IsFit}
use dmmr_orbit.Session.Follow.{Layout, node_at_cursor, session_turn, session_move}
use dmmr_orbit.Session.Follow.Move.{session_move_lem}
use dmmr_orbit.Session.Follow.Steps.{
  Follower, Step, queued, stored, turned, moved, flushed, Reach, begin, next, IsTracked,
}

-- A turn from a tracked state reads a node of the array and keeps the pool in order.
session_turn-IsFit :
    (h : Heap) (has_snd_cb : Bool) (new : List Node) (s : Follower)
    → IsTracked s
    → s.conn.pool_size < 2 ^ 31
    → s.conn.pool_size ≤ length new
    → IsReadable h s.conn.session
    → (conn : SessionConnectionPool) × (sent : List Sent) × (session_turn h has_snd_cb
          (some new)
          s.buffer
          s.conn
        ≡ ret (some (conn, sent)))
      × IsFit conn
      × (conn.cursor ≡ s.conn.cursor)
unfolding session_turn node_at_cursor
session_turn-IsFit h has_snd_cb new s t small more readable =
    let (here, read) =
      get_elem?-lt s.buffer.slots t.reader (omega (arith, t.inner, t.placed.size)) in
    let (conn, sent, runs, fit, kept) =
      session_round-IsFit h has_snd_cb new here s.conn t.fit small more readable in
    let reads : node_at_cursor s.buffer.slots s.conn.cursor ≡ ret here =
      rw t.at (rw (node_at_cursor, read) refl) in
    (conn, sent, ap (λ r. session_round h has_snd_cb (some new) r s.conn) reads ∙ runs, fit, kept)

abbrev Turned : Follower → Option (SessionConnectionPool × List Sent) → Type 0
Turned s none = Unit {0}
Turned s (some (conn, sent)) = IsTracked (record s { conn = conn; in_wait = true })

abbrev Moved : Follower → Option SessionConnectionPool → Type 0
Moved s none = Unit {0}
Moved s (some conn) = IsTracked (record s { conn = conn; in_wait = false })

session_turn-IsTracked :
    (h : Heap) (has_snd_cb : Bool) (new : List Node) (s : Follower)
    → IsTracked s
    → s.conn.pool_size < 2 ^ 31
    → s.conn.pool_size ≤ length new
    → IsReadable h s.conn.session
    → OnRet (Turned s) (session_turn h has_snd_cb (some new) s.buffer s.conn)
session_turn-IsTracked h has_snd_cb new s t small more readable =
    let (conn, sent, runs, fit, kept) =
      session_turn-IsFit h has_snd_cb new s t small more readable in
    subst (OnRet (Turned s)) (sym runs) (record {
      writer = t.writer;
      reader = t.reader;
      placed = t.placed;
      at = kept ∙ t.at;
      inner = t.inner;
      fit = fit;
    })

session_move-IsTracked :
    (l : Layout) (s : Follower)
    → 0 < l.stride
    → IsTracked s
    → OnRet (Moved s) (session_move l s.buffer s.conn)
session_move-IsTracked l s wide t =
    elim (session_move_lem l s.buffer s.conn t.writer t.reader wide t.placed t.at t.inner) [
      | inl (same, runs) ↦ subst (OnRet (Moved s)) (sym runs) tt
      | inr (apart, runs, below) ↦ subst (OnRet (Moved s)) (sym runs) (record {
        writer = t.writer;
        reader = (t.reader + 1) % (s.buffer.circle_buffer_size - 1);
        placed = t.placed;
        at = refl;
        inner = below;
        fit = t.fit;
      })
    ]

abbrev Stored : Follower → CircleBuffer → Type 0
Stored s c = IsTracked (record s { buffer = c })

fifo_worker_round-IsTracked :
    (node_at : ℕ → Node) (s : Follower)
    → IsTracked s
    → OnRet (Stored s) (fifo_worker_round (λ a. ret (node_at a)) s.buffer)
fifo_worker_round-IsTracked node_at s t =
    subst (OnRet (Stored s))
      (sym (
        fifo_worker_round_runs (λ a. ret (node_at a)) node_at (total-HasCopies node_at _) t.placed))
      (record {
        writer = (t.writer + length (grown s.buffer)) % (s.buffer.circle_buffer_size - 1);
        reader = t.reader;
        placed = after_round-IsPlaced node_at t.placed;
        at = t.at;
        inner = t.inner;
        fit = t.fit;
      })

Step-IsTracked :
    {l : Layout} {h : Heap} {s s' : Follower}
    → 0 < l.stride
    → Step l h s s'
    → IsTracked s
    → IsTracked s'
Step-IsTracked {s} wide (queued es) t = record {
  writer = t.writer;
  reader = t.reader;
  placed = record { at = t.placed.at; inner = t.placed.inner; size = t.placed.size };
  at = t.at;
  inner = t.inner;
  fit = t.fit;
}
Step-IsTracked {s} wide (stored node_at e) t =
    subst (OnRet (Stored s)) e (fifo_worker_round-IsTracked node_at s t)
Step-IsTracked {h} {s} wide (turned has_snd_cb new sent w small more readable e) t =
    subst (OnRet (Turned s)) e (session_turn-IsTracked h has_snd_cb new s t small more readable)
Step-IsTracked {l} {s} wide (moved w e) t =
    subst (OnRet (Moved s)) e (session_move-IsTracked l s wide t)
Step-IsTracked {s} wide (flushed blank) t =
    let (v, at, size, some_room, below) = t.fit in
    record {
      writer = t.writer;
      reader = t.reader;
      placed = t.placed;
      at = t.at;
      inner = t.inner;
      fit = (
        replicate s.conn.pool_size blank,
        refl,
        length-replicate s.conn.pool_size blank,
        some_room,
        omega arith,
      );
    }

pub Reach-IsTracked :
    {l : Layout} {h : Heap} {s s' : Follower}
    → 0 < l.stride
    → IsTracked s
    → Reach l h s s'
    → IsTracked s'
Reach-IsTracked wide t begin = t
Reach-IsTracked wide t (next r step) = Step-IsTracked wide step (Reach-IsTracked wide t r)

move-runs :
    (l : Layout) (s : Follower)
    → 0 < l.stride
    → IsTracked s
    → (m : Option SessionConnectionPool) × (session_move l s.buffer s.conn ≡ ret m)
move-runs l s wide t =
    elim (session_move_lem l s.buffer s.conn t.writer t.reader wide t.placed t.at t.inner) [
      | inl (same, runs) ↦ (none, runs)
      | inr (apart, runs, below) ↦ (some _, runs)
    ]

-- From a state in which both cursors are at slots of the array, neither at its last one, and the
-- session's pool has its size, with the nodes in use in it: in whatever order entries come, the
-- buffer's thread makes its rounds, the session turns and moves and the scheduler flushes the pool, no
-- access leaves the arrays, as long as no flush comes within a turn. In the state reached a round of the buffer and the test of the wait with its
-- move return, and so does a turn whose realloc succeeds in a pool of fewer than 2 ^ 31 nodes, of an
-- endpoint whose copies can be read.
pub Reach-runs :
    {l : Layout} {h : Heap} {s s' : Follower} (node_at : ℕ → Node) (has_snd_cb : Bool)
    (new : List Node)
    → 0 < l.stride
    → IsTracked s
    → Reach l h s s'
    → s'.conn.pool_size < 2 ^ 31
    → s'.conn.pool_size ≤ length new
    → IsReadable h s'.conn.session
    → ((c : CircleBuffer) × (fifo_worker_round (λ a. ret (node_at a)) s'.buffer ≡ ret c))
      × ((m : Option SessionConnectionPool) × (session_move l s'.buffer s'.conn ≡ ret m))
      × ((conn : SessionConnectionPool) × (sent : List Sent) × (session_turn h has_snd_cb
              (some new)
              s'.buffer
              s'.conn
            ≡ ret (some (conn, sent))))
Reach-runs {l} {h} {s'} node_at has_snd_cb new wide t reach small more readable =
    let t' = Reach-IsTracked wide t reach in
    let (conn, sent, runs, fit, kept) =
      session_turn-IsFit h has_snd_cb new s' t' small more readable in
    (
      (
        _,
        fifo_worker_round_runs (λ a. ret (node_at a)) node_at (total-HasCopies node_at _) t'.placed,
      ),
      move-runs l s' wide t',
      (conn, sent, runs),
    )
