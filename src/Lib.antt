-- ===== src/Lib.antt =====
-- DMMR-Orbit, a relay that receives datagrams and streams into fixed slots, collects the nodes of
-- each session and sends them on in bursts under a deadline. This library models the C code of the
-- repository and proves what its parts do, and where they fail.
--
-- Parts, and how they interact. A receiver thread takes a free slot of its connection's receive
-- manager, reads into it, and a callback takes the slots back and queues them in a FIFO. The circle
-- buffer's worker stores the FIFO's nodes at a cursor; each session's thread follows with a cursor
-- of its own, keeps the nodes of its endpoint in a pool, and hands a burst to the dispatcher when
-- the pool holds enough. The scheduler keeps a slot per session, sorted by deadline, and flushes the
-- pools whose deadline has come. The trunk plugin's callbacks tie an accepted or connected endpoint
-- to the session of its port, through the session manager. Every part logs to a ring of lines that a
-- thread empties. The server creates all of this in order and undoes it on failure; main runs it in
-- the foreground until a signal, or starts the daemon.
--
-- Files.
-- - Base and below it: shared names; C integers (Base/Int); bits of a word (Base/Bits); stable
--   insertion (Base/Sort); `Run`, the outcome of a C call (Base/Outcome): a value, undefined
--   behaviour, or a call that never returns.
-- - Bytes: `__vcpy`, `__bcpy`, `__mset`, `__vcmp` of src/include/funcs.h, which src/include repeats
--   in headers of their own. Memory is a function from addresses to bytes.
-- - Node: `struct node` (src/include/structs.h) and `node_cmp` (Node/Cmp).
-- - NodeRecv: src/node/node_recv_manager.c. `get_free_node`, `get_buzy_node` and the others are
--   functions of the same names on a manager of 256 slots; Fifo has the abstract queue.
-- - Checksum: the CRC-32 of src/include/crc.h, with the bitwise reference in Checksum/Table.
-- - Text: `__vlen` of src/include/funcs.h and `strlcpy` of src/utils/strlcpy.c.
-- - Log: src/log/rb_log.c. `thread_round` is one round of `rb_log_thread_func`, `drain` the loop
--   over its batches, which `rb_log_flush` has too; Log/Ring has the abstract queue, Log/Steps the
--   steps in any order.
-- - Parser: the token handler of src/parser/console.c with `unquote_string` of
--   src/include/unquote_string.h, and in Parser/Uri `parse_protocol_host_port` of
--   src/include/funcs.h. Parser/Scanner has the rules of src/parser/scanner.l, from which flex
--   generates the scanner. Parser/Reload is src/parser/dmmr_parser.c over src/parser/console.c, with
--   the checksum of Checksum (`run_console` is `console_run` of the source); Parser/Reload/Text has
--   the whole way from the bytes of a file to the configuration.
-- - CircleBuffer: src/circle_buffer/dmmr_circle_buffer.c. A slot is its index; `fifo_worker_round`
--   is one turn of `fifo_worker`; CircleBuffer/Size has `calc_buffer`.
-- - Protocol: the accessors of `union protocol_base_cb` in src/include/funcs.h, and the copies of
--   src/include/maps (Protocol/Maps).
-- - Session: src/session/session_connection.c. `process_session_node` is the function of that name;
--   `session_round` is a round of `session_worker` up to its wait, and `grow` the head of the round.
--   Session/Worker follows the bounds of the pool through a round. Session/Follow is the thread
--   between its rounds, where it waits for the circle buffer's cursor and moves its own.
-- - Scheduler: src/scheduler/dmmr_scheduler.c. `reorder_pass` and `check_and_send_pass` are one pass
--   of each thread, taken under the mutex; the slot operations have the names of the source.
--   Scheduler/Steps puts them in any order as whole steps; `write_connection` is the half of
--   `sched_insert` outside the mutex.
-- - Server: src/server/dmmr_server.c with `run_foreground` of src/main.c, whose loop runs over the
--   rounds that it is given. Server/Boot is `server_start` over the components' own functions, where
--   Server itself has only what they return, and Server/Boot/Serve the foreground server over them.
--   Server/Boot keeps the uses of the log in their order: openings, pushes, shutdowns and flushes.
--   Server/Daemon is src/daemon/dmmr_daemon.c, Server/Main the rest of src/main.c.
-- - Exception: src/log/include/rb_exceptions.h and rb_trycatch.h. A throw is a value; `construct` is
--   the body that the constructors of the components share.
-- - Sleep: `nsleep_us` of src/include/dmmr_sleep.h.
-- - Socket: src/socket. The pools and the sends are in Socket, the start and the connection of a TCP
--   service in Socket/Tcp, the receiving threads with `on_receive_connection_cb` in Socket/Receive,
--   the accepting thread in Socket/Accept, the start of an endpoint with `dns2ipaddr` in
--   Socket/Service, what `struct dmmr_socket` offers by URI in Socket/Dispatch, the stops and
--   deletions in Socket/Stop, and `ezp_address` in Socket/Address.
-- - Plugin: src/plugin/dmmr_trunk_plugin.c. The callbacks for UDP and TCP differ in the protocol
--   alone and are one function each, over an interface of the session manager.
-- - SessionManager: src/session/dmmr_session_connection_manager.c, which fills that interface.
--
-- Bounds and fuel. `search_place` runs on fuel: the index of the key, which is the length of the
-- range it searches, and each step shortens the range. The searches of the receive manager run over
-- 256 slots. `digits` and `line_digits`, the printed forms of a number, have the number as fuel.
-- `word_loop` of `__vlen` takes a word each round, and `drain` of the log a batch of up to 16 lines:
-- 16 rounds empty the ring. `scan` has the length of the text, since every match has a byte or more.
-- `receive_loop` counts its rounds, and what is shown of it holds for every number.
-- `get_current_node` has the number of its own calls as fuel, and no number is enough. All other
-- loops are structural. Unsigned arithmetic that can wrap is written with its modulus.
--
-- Not modelled. What system calls, allocation, the resolver and thread creation return is an
-- argument. The interleaving of threads inside a critical section is excluded by the mutexes; a call
-- that locks a mutex which is held never returns. `rb_log_flush`, which takes no mutex, is one step
-- of the log. So are two stretches that the source runs without its mutex: a session's turn, which
-- works on its pool and count, and the search of `get_scheduler_connection`; the orders in which
-- another thread comes between their parts are left out. What the join of a detached thread does, and
-- the copy of a node from the memory of a FIFO entry, are arguments: the copy may fault. Whether the
-- log's thread stands at its test when the log is shut down is an argument too. Signals are those that come within a round. Not modelled are `daemon_stop`, which is
-- one system call, and the setters and functions of the sources that are empty or return a constant.
pub mod Base
pub mod Bytes
pub mod Checksum
pub mod CircleBuffer
pub mod Exception
pub mod Log
pub mod Node
pub mod NodeRecv
pub mod Parser
pub mod Plugin
pub mod Protocol
pub mod Scheduler
pub mod Server
pub mod Session
pub mod SessionManager
pub mod Sleep
pub mod Socket
pub mod Text
