-- ===== src/CircleBuffer.antt =====
-- src/circle_buffer/dmmr_circle_buffer.c: the ring of node slots behind a cursor, and the thread
-- that fills it from the FIFO of received nodes.
-- A slot is its index in the array; the CIRCLEQ links the slots in the order of the array, with
-- the queue's head behind the last one. A node that is somewhere in memory is `node_at` of its
-- address.
pub mod Cursor
pub mod Worker
pub mod Size
mod Tests
use dmmr_orbit.Base.{
  ℕ, zero, suc, ◌+◌, ◌-◌, ◌*◌, ltb, ◌==◌, if◌then◌else◌, Bool, true, false, Option, none, some,
  List, [], ◌∷◌, ◌++◌, Run, ret, fault, hang, ◌>>=◌, ◌>>◌, set, take, drop, length, replicate,
}
use dmmr_orbit.Base.Int.{ℤ, pos, eof}
use dmmr_orbit.Base.Codes.{codes}
use dmmr_orbit.Exception.{LogCall, construct}
use dmmr_orbit.Node.{Node}

-- What a CIRCLEQ pointer can be: an element, or the head of the queue.
pub data Position : Type 0 where
  slot : ℕ → Position
  head : Position

-- `struct node_fifo_buffer`: where its member `n` stands, and the node that `n` points to.
pub record NodeFifoBuffer : Type 0 where
  pub address_of_n : ℕ
  pub n : ℕ

-- The static state of the file. `batch` is what lies between `batch` and `b` in `fifo_worker`.
pub record CircleBuffer : Type 0 where
  pub circle_buffer_size : ℕ
  pub cursor : Position
  pub slots : List Node
  pub fifo : List NodeFifoBuffer
  pub batch : List NodeFifoBuffer
  pub run : Bool

-- `CIRCLEQ_NEXT` in a queue of `n` elements. The head is no element and has no link.
unfoldable pub circleq_next : ℕ → Position → Run Position
circleq_next n head = fault
circleq_next n (slot i) = ret (if (i + 1) == n then head else slot (i + 1))

abbrev pub is_last : ℕ → Position → Bool
is_last n head = false
is_last n (slot i) = (i + 1) == n

unfoldable pub foward_current_node : ℕ → Position → Run Position
unfolding circleq_next
foward_current_node n cursor = do
  next ← circleq_next n cursor
  ret (if is_last n next then slot 0 else next)

-- A null cursor or an empty queue gives a null pointer.
unfoldable pub iterate : ℕ → Option Position → Run (Option Position)
unfolding circleq_next
iterate n none = ret none
iterate n (some cursor) =
    if n == 0
    then ret none
    else circleq_next n cursor >>= λ next. ret (some (if is_last n next then slot 0 else next))

-- The exported function calls itself, not `__get_current_node`; the fuel counts the calls.
unfoldable pub get_current_node : ℕ → Run (Option Position)
get_current_node zero = hang
get_current_node (suc fuel) = get_current_node fuel

-- `a`, `b`, `base` and `end` are addresses: of `cur`, of the cursor, and of the array's two ends.
unfoldable pub is_behind : ℕ → ℕ → ℕ → ℕ → Bool
is_behind base end a b =
    if a == b
    then false
    else (if ltb a b then ltb (b - a) (end - base) else ltb (end - a + (b - base)) (end - base))

-- Without a `cur` the function runs off its end with no value.
unfoldable pub is_behind_cursor : ℕ → ℕ → Option ℕ → ℕ → Run Bool
unfolding is_behind
is_behind_cursor base end none b = fault
is_behind_cursor base end (some a) b = ret (is_behind base end a b)

abbrev pub max_batch : ℕ
max_batch = 0x400

-- Stores a node at the cursor: the head of the queue is no node slot.
unfoldable pub store_at : Position → Node → List Node → Run (List Node)
store_at head v slots = fault
store_at (slot i) v slots = if ltb i (length slots) then ret (set slots i v) else fault

-- The `do … while (++batch_ptr < b)`: the `sizeof(struct node)` bytes copied are those that begin
-- at the member `n`, since `&(*batch_ptr)->n` is the address of the pointer. An entry is smaller than
-- a node: `copied` says of an address what these bytes are, and faults where they run out of the
-- memory that the entry lies in.
unfoldable pub drain_batch :
    (ℕ → Run Node) → ℕ → List NodeFifoBuffer → Position → List Node → Run (Position × List Node)
drain_batch copied n [] cursor slots = ret (cursor, slots)
drain_batch copied n (e ∷ es) cursor slots = copied e.address_of_n >>= λ v.
    store_at cursor v slots >>= λ slots'.
    foward_current_node n cursor >>= λ cursor'. drain_batch copied n es cursor' slots'

-- One round of `fifo_worker` once its wait has ended with `run` set. `b` is not reset between the
-- rounds.
unfoldable pub fifo_worker_round : (ℕ → Run Node) → CircleBuffer → Run CircleBuffer
unfolding drain_batch
fifo_worker_round copied c =
    let room = max_batch - length c.batch in
    let batch = c.batch ++ take room c.fifo in
    drain_batch copied c.circle_buffer_size batch c.cursor c.slots >>= λ (cursor, slots).
    ret (record c { fifo = drop room c.fifo; batch = batch; cursor = cursor; slots = slots })

-- `start`, after `new_circle_buffer`. `buffer` is what calloc returned, with every slot zeroed.
-- A size of zero still inserts the slot at the array's end. Whether the thread was made is not read.
unfoldable pub start : ℕ → Option Node → Run (ℤ × Option CircleBuffer)
start size none = ret (pos 0, none)
start size (some zeroed) =
    if size == 0
    then fault
    else ret (
      pos 0,
      some (record {
        circle_buffer_size = size;
        cursor = slot 0;
        slots = replicate size zeroed;
        fifo = [];
        batch = [];
        run = true;
      }),
    )

-- `stop`, where `has_this` says whether there is a buffer: the slots are freed. `join` is what the join
-- of the thread does: the thread was started detached, and for such a one POSIX leaves it undefined.
unfoldable pub stop : Run (Unit {0}) → Bool → Option CircleBuffer → Run (Option CircleBuffer)
stop join has_this c = if has_this then join >> ret none else ret c

unfoldable pub new_circle_buffer : Bool → Bool → Bool × List LogCall
unfolding construct
new_circle_buffer has_cfg allocated = construct has_cfg allocated (codes "Circle buffer criado")
