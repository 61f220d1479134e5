-- ===== src/Ops/Events/Examples.antt =====
-- A client comes back while events are published.
use catnap.Common.{ℕ, ltb, String, ◌≡◌, refl, List, [], ◌∷◌, ◌++◌, none, some, keep, arith, pos}
use catnap.Ops.Events.{
  StoredOpsEvent, Published, inserted, sent, EventLog, publish_event_with_ts, publish_all, number,
  min_replay_id_since, get_ops_stream,
}
use catnap.Ops.Events.Stream.{added, sent_events, stream_exact}

abbrev note : String → Published
note data_json = record { event = "ops.log"; data_json = data_json; ts = "2026-01-01T10:00:00Z" }

abbrev before : EventLog
before =
    publish_all (record { rows = []; last_id = 0; unsent = none; received = none })
      (inserted (note "a") ∷ sent ∷ inserted (note "b") ∷ sent ∷ [])

abbrev event : ℕ → String → StoredOpsEvent
event id data_json = record {
  id = id;
  event = "ops.log";
  data_json = data_json;
  ts = "2026-01-01T10:00:00Z";
}

-- "c" is inserted before the events are read and sent after the subscription: it comes twice.
stream_exact_example :
    let opened =
      get_ops_stream before "2026-01-01T09:00:00Z"
        (number (pos 1))
        []
        (inserted (note "c") ∷ [])
        [] in
    let done = publish_all opened.1 (sent ∷ inserted (note "d") ∷ []) in
    (received : List StoredOpsEvent) × (done.received ≡ some received)
    × (received ++ (event 4 "d" ∷ []) ≡ event 3 "c" ∷ event 4 "d" ∷ [])
    × (keep (λ e. ltb 1 e.id) done.rows ≡ sent_events opened.0 ++ (event 4 "d" ∷ []))
unfolding publish_event_with_ts min_replay_id_since added get_ops_stream
stream_exact_example =
    stream_exact before "2026-01-01T09:00:00Z" 1 [] (inserted (note "c") ∷ []) []
      (sent ∷ inserted (note "d") ∷ []) refl (omega arith) refl (omega arith)
