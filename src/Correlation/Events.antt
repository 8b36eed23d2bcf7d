-- ===== src/Correlation/Events.antt =====
-- Event deduplication in `OrderCorrelationStore` (网关/order_correlation.py).
use qmt_python_tcp.Prelude.{
  ℕ, zero, suc, ◌-◌, String, Bool, true, false, List, [], ◌∷◌, ◌++◌, map, ◌&&◌, ◌||◌, ◌=t=◌,
  is_empty, if◌then◌else◌, ltb, Action, Result, value_error, pure, gets, modify, transaction, lift,
  ◌>>=◌, ◌>>◌, ok, err, any, is_one_of, length, take, drop,
}
use qmt_python_tcp.Table.{insert_row}
use qmt_python_tcp.Correlation.Rows.{EventRow, Store, has_event, next_rowid}

-- MAX_EVENT_BATCH_SIZE
abbrev pub max_event_batch : ℕ
max_event_batch = 4096

-- EVENT_QUERY_CHUNK_SIZE
abbrev pub event_query_chunk : ℕ
event_query_chunk = 400

unfoldable pub event_seen : String → String → Store → Bool
event_seen account event s =
    if is_empty event then false else any (has_event account event) s.events

-- The loop of `_normalize_event_ids`. `seen` holds what `result` holds.
unfoldable pub normalize_from : List String → List String → Result (List String)
normalize_from result [] = ok result
normalize_from result (raw ∷ raws) = elim (is_empty raw || is_one_of raw result) [
  | true ↦ normalize_from result raws
  | false ↦ elim (ltb max_event_batch (length (result ++ raw ∷ []))) [
    | true ↦ err value_error
    | false ↦ normalize_from (result ++ raw ∷ []) raws
  ]
]

unfoldable pub normalize_event_ids : List String → Result (List String)
unfolding normalize_from
normalize_event_ids ids = normalize_from [] ids

-- `SELECT event_id ... WHERE account_id=? AND event_id IN (chunk)`
unfoldable pub seen_in_chunk : String → List String → List EventRow → List String
seen_in_chunk account chunk [] = []
seen_in_chunk account chunk (row ∷ rows) =
    let rest = seen_in_chunk account chunk rows in
    if row.account_id =t= account && is_one_of row.event_id chunk then row.event_id ∷ rest else rest

-- One query for each chunk; every round takes at least one value, so `length values` rounds do.
unfoldable pub seen_chunks : ℕ → String → List String → List EventRow → List String
unfolding seen_in_chunk
seen_chunks zero account values rows = []
seen_chunks (suc fuel) account [] rows = []
seen_chunks (suc fuel) account (v ∷ values) rows =
    seen_in_chunk account (take event_query_chunk (v ∷ values)) rows
    ++ seen_chunks fuel account (drop event_query_chunk (v ∷ values)) rows

unfoldable pub events_seen_many : String → List String → Action Store (List String)
unfolding normalize_event_ids seen_chunks
events_seen_many account ids = do
  values ← lift (normalize_event_ids ids)
  gets (λ s. seen_chunks (length values) account values s.events)

unfoldable pub new_event : ℕ → String → String → ℕ → EventRow
new_event now account event rowid = record {
  rowid = rowid;
  account_id = account;
  event_id = event;
  created_at = now;
}

-- INSERT OR IGNORE
unfoldable pub insert_event : ℕ → String → String → List EventRow → List EventRow
unfolding new_event insert_row next_rowid
insert_event now account event rows =
    if any (has_event account event) rows
    then rows
    else insert_row
        (new_event now account event (next_rowid (map (λ (r : EventRow). r.rowid) rows))) rows

-- `executemany`
unfoldable pub insert_events : ℕ → String → List String → List EventRow → List EventRow
unfolding insert_event
insert_events now account [] rows = rows
insert_events now account (v ∷ vs) rows =
    insert_events now account vs (insert_event now account v rows)

-- `total_changes` grows by the number of rows that were inserted.
unfoldable pub mark_events : ℕ → String → List String → Action Store ℕ
unfolding normalize_event_ids insert_events
mark_events now account ids = do
  values ← lift (normalize_event_ids ids)
  transaction (do
    before ← gets (λ s. length s.events)
    modify (λ s. record s { events = insert_events now account values s.events })
    gets (λ s. length s.events - before))

unfoldable pub mark_event : ℕ → String → String → Action Store (Unit {0})
unfolding mark_events
mark_event now account event =
    if is_empty event then pure tt else (mark_events now account (event ∷ []) >>= λ _. pure tt)
