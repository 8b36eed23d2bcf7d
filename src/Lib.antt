-- ===== src/Lib.antt =====
-- A model of the QMT bridge: the gateway with its order store, the wire framing of its TCP protocol,
-- the client of one account, and the coordinator that lets several strategies trade on one account.
--
-- The parts of the program, and the files that model them:
--
-- - 网关/order_correlation.py, class `OrderCorrelationStore`: the SQLite tables that say which client
--   order, which asynchronous request and which event the gateway has seen. Correlation/Rows has the
--   four tables as lists of rows in rowid order, in one record `Store`. Each method is a function of
--   the same name: `reserve`, `release_reservation`, `get`, `update_stage` in Correlation/Orders; the
--   effect requests in Correlation/Effects; `release_unstarted_order`, `release_unstarted_cancel` and
--   the pending responses in Correlation/Pending; the deduplication of events in Correlation/Events;
--   `cleanup_completed` in Correlation/Cleanup; `resolve`, `pending`, `recent` and
--   `qmt_correlation_value` in Correlation/Lookup. Correlation/Steps is the relation of the SQL
--   statements that a method may run, Correlation/Runs has sequences of calls, and
--   Correlation/OrderReach and Correlation/EffectReach tie the two together.
-- - 外置策略API/qmt_local_api/protocol.py: `encode_frame` and `FrameDecoder`, in Protocol/Frame. A byte
--   is a number; the decoder's state is its buffer.
-- - 外置策略API/qmt_local_api/coordinator.py, class `AccountCoordinator`: Coordinator/Rows has the five
--   tables and the constructor's settings; Coordinator/Identifiers, Stages and Strategies have the
--   helpers and the registration of strategies; Coordinator/Orders and Cancels have `submit_order`
--   and `request_cancel` up to the call of the Gateway, and what follows the call; Coordinator/Events
--   has `_on_gateway_event`; Coordinator/Outbox has what strategies poll and acknowledge;
--   Coordinator/Gateway has readiness, reconciliation, the halt flag and `submit_order` whole.
--   Coordinator/Limits, Resubmit, Once, Duplicates, Stored, Found, Finality, Acknowledged, Delivery
--   and Polls have what is proved of these, each under the name of what it is about, and
--   Coordinator/Kept what a run keeps if its statements do. Coordinator/Runs has sequences of
--   transactions; the two halves of a submission are calls of their own there, since the lock is not
--   held while the Gateway is called.
-- - 网关/bounded_io.py: `BoundedExecutorLane`, in Gateway/Lanes, with the calls that its executor has.
-- - 网关/bigqmt_gateway_proxy.py: the counters, reservations and caches of `AccountRuntime` in
--   Gateway/Runtime and Gateway/Replies, each method as a function of the same name. Gateway/Tasks
--   has the tasks of the effectful branch of `dispatch` as a step relation, Gateway/Held and Returns
--   what they hold and have to give back, Gateway/Grants what a grant changes, and Gateway/Leaks and
--   Returned what follows. Gateway/Cache has what the cache of replies keeps, Gateway/Rotation has
--   `next_response_fallback_ids`, and Gateway/Pending the runs of the pending responses.
--   Gateway/Confirm has `broadcast_confirmed` with what answers it, and Gateway/Confirmed who may.
--   Gateway/Helper has the part of `FileQueueHelperClient` that writes a command and awaits its
--   response, and `known_not_enqueued` of `handle_new`. Gateway/Submit puts these,
--   `_begin_effect_dispatch` and the methods of the order store together, as the steps of one
--   request; Gateway/Barrier, Barred and Published have its proofs. Gateway/Outcome has what
--   `handle_new` replies of an order that was just placed, and of a stored one.
-- - 外置策略API/qmt_local_api/query_broker.py and dispatcher.py: Client/Broker and Client/Dispatcher.
--   Client/Answers, Callbacks and Order have what is proved of them.
-- - 外置策略API/qmt_local_api/config.py: `ConnectionConfig.validate`, in Client/Settings; Client/Accepted
--   says what it accepts.
-- - 外置策略API/qmt_local_api/client.py: Client/Delivery has the disposal of inbound messages and the
--   acknowledgements, over the sets of Client/Sets; Client/Connect has `_connect_once`; Client/Runs
--   has the poll thread, the dispatcher's worker and the calling program as one step relation.
--   Client/Interleaved has the poll thread and the worker once more, with a step for each region
--   under the lock of the deliveries. Client/Flight, Dispatches, Placed, Arranged and Once, Handled
--   and Acked, and Identity and Checked have the invariants.
--
-- The gateway uses the order store: a command is written behind the registry's transition from
-- PREPARED to DISPATCHING, and Gateway/Submit runs the store's own methods. The client sends frames
-- of the protocol to the gateway and the coordinator sits on a client; those two meetings go over
-- sockets and are not modelled.
--
-- How the code is modelled: a method is a function from the state to a result and a state, where a
-- result is a value or an exception class (Prelude/Methods). `with self._transaction()` is
-- `transaction`, which restores the state on an exception. SQL statements are the functions of Table:
-- a row is found, updated and deleted by a Boolean test, and an INSERT puts its row last. Times are
-- numbers that the caller gives, since the code only copies and compares them. Where threads or tasks
-- interleave, each region under a lock is one step, and a run is any sequence of steps; Client/Runs
-- is coarser, and runs the disposal of one message whole. What the operating system, the helper or a
-- callback does is an argument of the step. Prices and amounts of the coordinator are natural
-- numbers, where the code has floats: sums are exact here and rounded there, so that nothing is
-- claimed here of the sum of the stored amounts over a run. What is no positive finite number is a
-- constructor of its own.
--
-- Parameters: `ipaddress.ip_address`, `json.dumps` and `json.loads` (for the framing, with the law
-- that they read back), SHA-256, the hash of an intent and of a message, and the local calendar day.
-- SQLite itself is not a parameter: its statements are written out.
--
-- Fuel: `drain` runs the loop of the decoder on as much fuel as the buffer is long, and every round
-- takes five bytes at least; `seen_chunks` has one round for each value, and every round takes one at
-- least; `decimal` has one round more than its number, and a number has no more digits than that;
-- `wait_response` has the rounds before the deadline as a list.
--
-- Not modelled: the cancellation of a task of the gateway, and the work of `AccountRuntime.__init__`
-- on the rows that a restart finds (the steps of a request contain its releases); a handler that
-- raises what is no `Exception` is a step of Client/Interleaved and has no result of `dispatch_now`.
-- Further: threads and locks as such, the file system, the lock file of `WriterLease`, the migration
-- of old database files, and the parts of the program that are input and output: the gateway's
-- sockets, its search for request files and its polling, the directory watcher, the helper inside
-- QMT, the client's transport, the tools, and the examples.
pub mod Prelude
pub mod Table
pub mod Correlation
pub mod Protocol
pub mod Coordinator
pub mod Gateway
pub mod Client
mod Examples
