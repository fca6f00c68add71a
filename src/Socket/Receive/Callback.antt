-- ===== src/Socket/Receive/Callback.antt =====
-- `on_receive_connection_cb` of src/socket/dmmr_socket.c: it holds the mutex that `get_buzy_node`
-- takes, and its first entry of a new pool has no node.
use dmmr_orbit.Base.{
  ℕ, suc, true, false, Option, none, some, List, [], Run, Run-cases, ret, fault, hang, ◌>>=◌, ◌≡◌,
  refl, inl, inr,
}
use dmmr_orbit.Node.{Node}
use dmmr_orbit.NodeRecv.{NodeRecvManager, get_buzy_node}
use dmmr_orbit.Socket.{Pool, get_struct_node_buffer, find_free_entry, new_nbuff}
use dmmr_orbit.Socket.Receive.{Fifo, receive_loop, on_receive_connection_cb}

get_buzy_node-locked : (m : NodeRecvManager) → get_buzy_node (record m { mutex = true }) ≡ hang
unfolding get_buzy_node
get_buzy_node-locked m = refl

-- The call from what `get_struct_node_buffer` gave: with no entry it returns, and with one it never does.
abbrev pub without_node :
    Fifo → NodeRecvManager → Option ℕ × Pool (Option Node) → Run (Fifo × Option NodeRecvManager)
without_node q m (none, nbuff) = ret (record q { nbuff = nbuff }, some m)
without_node q m (some e, nbuff) = hang

-- On a manager that nobody holds, however many rounds the call may take: when `get_struct_node_buffer`
-- gives an entry, the call never returns; when it gives none, the call returns with the entries of the
-- FIFO and the manager as they were, and the pool of entries as that call left it; and when it faults
-- or does not return, so does the call.
pub on_receive_connection_cb_lem :
    (fuel : ℕ) (fresh : Option (List (Option Node))) (q : Fifo) (m : NodeRecvManager)
    → m.mutex ≡ false
    → on_receive_connection_cb (suc fuel) fresh q (some m)
      ≡ (get_struct_node_buffer fresh q.nbuff >>= without_node q m)
unfolding on_receive_connection_cb receive_loop
on_receive_connection_cb_lem fuel fresh q m e =
    elim (Run-cases (get_struct_node_buffer fresh q.nbuff)) [
      | inl ((none, nbuff), got) ↦ rw (e, receive_loop, got) refl
      | inl ((some i, nbuff), got) ↦ rw (e, receive_loop, got, get_buzy_node-locked m) refl
      | inr (inl got) ↦ rw (e, receive_loop, got) refl
      | inr (inr got) ↦ rw (e, receive_loop, got) refl
    ]

-- On the entries that a new socket has, the call reads the null node of the first.
pub on_receive_connection_cb_faults :
    (fuel : ℕ) (fresh : Option (List (Option Node))) (m : NodeRecvManager)
    → m.mutex ≡ false
    → on_receive_connection_cb
        (suc fuel)
        fresh
        (record { entries = []; nbuff = new_nbuff })
        (some m)
      ≡ fault
unfolding on_receive_connection_cb receive_loop get_struct_node_buffer find_free_entry
on_receive_connection_cb_faults fuel fresh m e = rw e refl
