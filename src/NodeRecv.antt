-- ===== src/NodeRecv.antt =====
-- src/node/node_recv_manager.c: the 256 receive slots of a connection, handed out by
-- `get_free_node` and taken back by `get_buzy_node`.
-- The mutex is a flag. Locking one that is locked never returns, as for a default POSIX mutex that
-- the caller already holds.
pub mod Search
pub mod Slots
pub mod Fifo
pub mod Init
pub mod Tests
use dmmr_orbit.Base.{
  ℕ, zero, suc, ◌+◌, ◌%◌, ◌<◌, ltb, leb, ◌==◌, if◌then◌else◌, not, ◌&&◌, Bool, true, false, Option,
  none, some, List, [], ◌∷◌, Run, ret, fault, hang, ◌>>=◌, ◌>>◌, get_elem?, set, replicate, drop,
}
use dmmr_orbit.Base.Int.{ℤ, pos, negsuc, eof}
use dmmr_orbit.Node.{Node}

-- `struct node_buffer`.
pub record NodeBuffer : Type 0 where
  pub node_buffer_status : ℕ
  pub node : Node

-- `struct node_recv_manager`.
pub record NodeRecvManager : Type 0 where
  pub next_free_index : ℕ
  pub next_busy_index : ℕ
  pub mutex : Bool
  pub buffer : List NodeBuffer

-- The status of a slot. The array has 256 slots and an index is a `uint8_t`, so the case of a read
-- out of range is never taken.
abbrev pub status_at : List NodeBuffer → ℕ → ℕ
status_at buf i = elim (get_elem? buf i) [ none ↦ 0 | some b ↦ b.node_buffer_status ]

-- `p->node_buffer_status = v` at a slot.
abbrev pub set_status : List NodeBuffer → ℕ → ℕ → List NodeBuffer
set_status buf i v = elim (get_elem? buf i) [
  | none ↦ buf
  | some b ↦ set buf i (record b { node_buffer_status = v })
]

abbrev pub lock : NodeRecvManager → Run NodeRecvManager
lock m = if m.mutex then hang else ret (record m { mutex = true })

-- `(current + 1) & 0xFF`.
abbrev pub next : ℕ → ℕ
next current = (current + 1) % 256

-- The `do … while (current != start)` of both getters: the first slot from `current` on, going
-- round, whose status passes the test. `none` means that the loop came back to `start`.
unfoldable pub search : (ℕ → Bool) → ℕ → List NodeBuffer → ℕ → ℕ → Run (Option ℕ)
search wanted zero buf start current = hang
search wanted (suc fuel) buf start current =
    let rest = search wanted fuel buf start (next current) in
    if wanted (status_at buf current)
    then ret (some current)
    else (if next current == start then ret none else rest)

abbrev pub is_free : ℕ → Bool
is_free status = status == 0

abbrev pub is_busy : ℕ → Bool
is_busy status = not (status == 0)

-- What `get_free_node` does once the search is over: `pos` out, and the unlocked manager.
unfoldable pub take_free : NodeRecvManager → Option ℕ → Option ℕ × NodeRecvManager
take_free m none = (none, record m { mutex = false })
take_free m (some current) = (
  some current,
  record m {
    buffer = set_status m.buffer current 1;
    next_free_index = next current;
    mutex = false;
  },
)

-- The position stands for the pointer `&(p->node)` that is returned. Both pointers are not null.
unfoldable pub get_free_node : NodeRecvManager → Run (Option ℕ × NodeRecvManager)
unfolding search take_free
get_free_node input = do
  m ← lock input
  found ← search is_free 256 m.buffer m.next_free_index m.next_free_index
  ret (take_free m found)

unfoldable pub take_busy : NodeRecvManager → Option ℕ → Option ℕ × NodeRecvManager
take_busy m none = (none, record m { mutex = false })
take_busy m (some current) = (
  some current,
  record m {
    buffer = set_status m.buffer current 0;
    next_busy_index = next current;
    mutex = false;
  },
)

unfoldable pub get_buzy_node : NodeRecvManager → Run (Option ℕ × NodeRecvManager)
unfolding search take_busy
get_buzy_node input = do
  m ← lock input
  found ← search is_busy 256 m.buffer m.next_busy_index m.next_busy_index
  ret (take_busy m found)

-- `pos < 0x100` always holds of a `uint8_t`. The function returns a null pointer.
unfoldable pub recicle_node : Option NodeRecvManager → ℕ → Run (Option NodeRecvManager)
recicle_node none slot = ret none
recicle_node (some input) slot =
    if not (slot == 0) && ltb slot 0x100
    then (do
      m ← lock input
      ret (some (record m { buffer = set_status m.buffer slot 0; mutex = false })))
    else ret (some input)

count_busy : List NodeBuffer → ℕ
count_busy [] = 0
count_busy (b ∷ bs) = (if b.node_buffer_status == 0 then 0 else 1) + count_busy bs

-- The mutex is not taken.
unfoldable pub count_node : Option NodeRecvManager → ℕ
unfolding count_busy
count_node none = 0
count_node (some input) = count_busy input.buffer

clear_all : List NodeBuffer → List NodeBuffer
clear_all [] = []
clear_all (b ∷ bs) = record b { node_buffer_status = 0 } ∷ clear_all bs

unfoldable pub init_node_recv_manager : Option NodeRecvManager → ℤ × Option NodeRecvManager
unfolding clear_all
init_node_recv_manager none = (eof, none)
init_node_recv_manager (some input) = (
  pos 0,
  some (record {
    next_free_index = 0;
    next_busy_index = 0;
    mutex = false;
    buffer = clear_all input.buffer;
  }),
)

-- The first busy node of the slots from `*pos` on, with its index; `256` when there is none.
first_busy : List NodeBuffer → ℕ → Option Node × ℕ
first_busy [] i = (none, i)
first_busy (b ∷ bs) i =
    let rest = first_busy bs (i + 1) in if b.node_buffer_status == 0 then rest else (some b.node, i)

-- The copy that goes to `output`, the node that `get_buzy_node` returns at the end, `*pos` and the
-- manager. No pointer is null, and `*pos < 0x100` always holds of a `uint8_t`.
unfoldable pub copy_buffer :
    NodeRecvManager → ℕ → Run (Option Node × Option ℕ × ℕ × NodeRecvManager)
unfolding first_busy get_buzy_node
copy_buffer manager at = do
  (found, m) ← get_buzy_node manager
  let (output, i) = first_busy (drop at manager.buffer) at
  ret (output, found, elim found [ none ↦ (i + 1) % 0x100 | some slot ↦ slot ], m)

-- The memory of the manager is cleared.
unfoldable pub stop_node_recv_manager : Node → Option NodeRecvManager → Option NodeRecvManager
stop_node_recv_manager zeroed none = none
stop_node_recv_manager zeroed (some input) = some (record {
  next_free_index = 0;
  next_busy_index = 0;
  mutex = false;
  buffer = replicate 256 (record { node_buffer_status = 0; node = zeroed });
})
