-- ===== src/Coordinator/Finality.antt =====
-- What a run of the coordinator (外置策略API/qmt_local_api/coordinator.py) leaves of one command.
use qmt_python_tcp.Prelude.{ℕ, List}
use qmt_python_tcp.Coordinator.Rows.{Command, Database, Settings}
use qmt_python_tcp.Coordinator.Runs.{Call, run}
use qmt_python_tcp.Coordinator.Kept.{run-P}
use qmt_python_tcp.Coordinator.Stored.{
  Stores, strategies-Stores, outbox-Stores, save_msg_id-Stores, mark_row-Stores, take_event-Stores,
  persist_order-Stores, persist_cancel-Stores,
}

module _ (settings : Settings) (command : ℕ) (r : Command) where
  -- Where a row stands under an id, and every row under that id is `r` or a later state of it: after
  -- every sequence of calls, with any events between them and any errors, a row still stands under
  -- the id, and every one has the strategy, the order key, the intent hash and the client order id of
  -- `r`, and the stage of `r` if that is terminal.
  pub run-Stores :
      (calls : List (ℕ × Call)) (s : Database)
      → Stores settings command r s
      → Stores settings command r (run settings calls s)
  run-Stores = run-P settings (Stores settings command r) (record {
    strategies = strategies-Stores settings command r;
    outbox = outbox-Stores settings command r;
    saved = save_msg_id-Stores settings command r;
    marked = mark_row-Stores settings command r;
    taken = take_event-Stores settings command r;
    ordered = persist_order-Stores settings command r;
    cancelled = persist_cancel-Stores settings command r;
  })
