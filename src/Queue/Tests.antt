-- ===== src/Queue/Tests.antt =====
-- Histories of core/src/queue.ts on a small queue: an item is sent, refused, tried again, delivered.
use watchup_v3_packages.Prelude.{
  ℕ, zero, suc, ◌+◌, ◌*◌, ◌≤◌, ◌≡◌, refl, Bool, true, false, List, [], ◌∷◌, All, arith, Option,
  none, some, map, length,
}
use watchup_v3_packages.Utf8.{units}
use watchup_v3_packages.Json.{Json, number, object, end, field}
use watchup_v3_packages.Types.{errors, traces, events, all_kinds, Chunk, SendResult}
use watchup_v3_packages.Queue.State.{
  Options, Queue, Drain, new_queue, Env, pending_count, retrying_count, max_retry_chunks,
}
use watchup_v3_packages.Queue.Drain.{no_result, backoff, trim, earliest, cut}
use watchup_v3_packages.Queue.Calls.{
  was_paused, Event, enqueued, flushed, answered, timed_out, plain_flush, run, snapshot, restore,
  due_now, shutdown_loop,
}
use watchup_v3_packages.Queue.Balance.{Keeps, balance}
use watchup_v3_packages.Queue.Balance.Steps.{brought_by, run-Keeps}
use watchup_v3_packages.Queue.Sound.{IsSound}
use watchup_v3_packages.Queue.Sound.Steps.{run-IsSound}
use watchup_v3_packages.Queue.Sent.Attempts.{Restores, Sends, run-Sends}
use watchup_v3_packages.Queue.Delivery.{HasDelivered, answers_of, round_chunks, flush_delivers}
use watchup_v3_packages.Queue.Flight.{requests, run-requests}
use watchup_v3_packages.Queue.Retry.{backoff_bounds, report_dropped, trim_newest}
use watchup_v3_packages.Queue.Snapshot.{snapshot-restore}
use watchup_v3_packages.Queue.Paused.Round.{sent_chunks, tried, pause_in_drain}
use watchup_v3_packages.Queue.Shutdown.{quiet_round, shutdown_paused}

abbrev test_options : Options
test_options = record {
  max_bytes = 4000;
  max_items = 2;
  max_queue_items = 3;
  max_attempts = 2;
  base_backoff_ms = 1000;
  max_backoff_ms = 30_000;
  error_flush_threshold = 9;
  auto_flush = false;
}

abbrev test_env : Env
test_env = record {
  now = 100;
  random = 5;
  batch_id = units "b1";
  sent_at = units "now";
  base = record {
    sdk = record { name = units "web"; version = units "1.0" };
    environment = none;
    release = none;
    project_id = none;
  };
}

abbrev test_item : Option Json
test_item = some (object (field (units "a") (number (units "1")) end))

abbrev answer : Bool → ℕ → SendResult
answer ok status = record {
  ok = ok;
  status = some status;
  code = none;
  retry_after_ms = none;
  error = none;
}

-- Three items, a flush, an answer 503, the retry timer, and an answer 202.
abbrev test_events : List (Env × Event)
test_events =
    (test_env, enqueued errors test_item)
    ∷ (test_env, enqueued traces test_item)
    ∷ (test_env, enqueued events test_item)
    ∷ (test_env, flushed plain_flush)
    ∷ (test_env, answered (answer false 503))
    ∷ (test_env, timed_out)
    ∷ (test_env, answered (answer true 202))
    ∷ []

run-Keeps_example :
    Keeps
      (balance (new_queue test_options) + brought_by test_events)
      (run test_events (new_queue test_options))
run-Keeps_example = run-Keeps test_events (new_queue test_options)

run-IsSound_example : IsSound test_options (run test_events (new_queue test_options)).0
run-IsSound_example = run-IsSound test_options test_events

test_events_restore_none : All (λ e. Restores test_options e.1) test_events
test_events_restore_none = (tt, (tt, (tt, (tt, (tt, (tt, (tt, tt)))))))

run-Sends_example :
    All (Sends test_options) (run test_events (new_queue test_options)).1
    × (requests (run test_events (new_queue test_options)).1 ≤ 2 * 3)
run-Sends_example = run-Sends test_options test_events test_events_restore_none

abbrev waiting_chunk : Chunk
waiting_chunk = record {
  idempotency_key = units "wu_b0_0";
  body = units "{}";
  bytes = 2;
  counts = all_kinds 1;
  attempts = 1;
  next_attempt_at = 150;
}

-- One chunk waits, and nothing is pending.
abbrev waiting_queue : Queue
waiting_queue = record {
  options = test_options;
  pending = all_kinds [];
  pending_bytes = 0;
  retry = waiting_chunk ∷ [];
  drain = none;
  rerun = false;
  force_next = false;
  overflow = all_kinds 0;
  retry_timer = false;
  retry_timer_at = 0;
  interval = false;
  stopped = false;
  paused = false;
  delivered = 4;
}

abbrev good_answers : List (Env × SendResult)
good_answers = (test_env, answer true 202) ∷ []

one_chunk : length good_answers ≡ length (round_chunks test_env none waiting_queue)
unfolding cut
one_chunk = refl

flush_delivers_example :
    HasDelivered
      (4 + (retrying_count waiting_queue + pending_count waiting_queue))
      (run
        ((test_env, flushed (record { force = true; max_bytes = none })) ∷ answers_of good_answers)
        waiting_queue).0
flush_delivers_example =
    flush_delivers test_env none waiting_queue good_answers refl refl (refl, tt) one_chunk

backoff_bounds_example :
    (2000 ≤ 2 * backoff test_options 7 2 none) × (backoff test_options 7 2 none ≤ 2000)
backoff_bounds_example = backoff_bounds test_options 7 2 (omega arith)

abbrev copies : ℕ → List Chunk
copies zero = []
copies (suc n) = waiting_chunk ∷ copies n

trim_newest_example :
    ((trim (copies 52)).retry ≡ copies 50)
    × (length (trim (copies 52)).retry ≤ max_retry_chunks)
    × ((trim (copies 52)).dropped ≡ 2)
    × ((trim (copies 52)).effects
        ≡ report_dropped waiting_chunk ∷ report_dropped waiting_chunk ∷ [])
trim_newest_example = trim_newest (copies 52)

snapshot-restore_example :
    snapshot (restore test_env (some (snapshot waiting_queue)) (new_queue test_options))
    ≡ record (snapshot waiting_queue) { retry = map (due_now 100) (waiting_chunk ∷ []) }
snapshot-restore_example = snapshot-restore test_env test_options waiting_queue (omega arith)

abbrev paused_queue : Queue
paused_queue = record waiting_queue { paused = true }

earliest_due : earliest waiting_chunk [] ≤ 200
unfolding earliest
earliest_due = omega arith

-- Two rounds at 100, and one at 900, after the deadline.
abbrev test_times : List (Env × Env)
test_times =
    (test_env, test_env)
    ∷ (test_env, test_env)
    ∷ (record test_env { now = 900 }, record test_env { now = 900 })
    ∷ []

shutdown_paused_example :
    shutdown_loop 200 (map quiet_round test_times) paused_queue ≡ (paused_queue, false)
shutdown_paused_example =
    shutdown_paused test_times 200 paused_queue waiting_chunk [] refl refl earliest_due

-- A drain with one request in flight and one chunk to go.
abbrev test_drain : Drain
test_drain = record {
  result = no_result;
  in_flight = waiting_chunk;
  todo = waiting_chunk ∷ [];
  max_bytes = none;
}

abbrev draining_queue : Queue
draining_queue = record (new_queue test_options) { drain = some test_drain }

pause_in_drain_example :
    let o =
      run
        ((test_env, was_paused) ∷ answers_of ((test_env, answer false 503) ∷ []))
        draining_queue in
    (sent_chunks o.1 ≡ tried waiting_chunk ∷ []) × (o.0.paused ≡ true)
unfolding new_queue
pause_in_drain_example =
    pause_in_drain test_env ((test_env, answer false 503) ∷ []) test_drain draining_queue refl refl

run-requests_example : requests (run test_events (new_queue test_options)).1 ≤ 1 + 2
run-requests_example = run-requests test_options test_events
