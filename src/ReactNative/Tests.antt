-- ===== src/ReactNative/Tests.antt =====
-- Small runs of react-native/src/client.ts: a launch, an hour without a network, and what is stored.
use watchup_v3_packages.Prelude.{
  ℕ, ◌≤◌, ◌≡◌, refl, true, false, List, [], ◌∷◌, arith, Option, none, some, All, map,
}
use watchup_v3_packages.Utf8.{Str, units, decimal}
use watchup_v3_packages.Json.{Json, end}
use watchup_v3_packages.Types.{Chunk, all_kinds}
use watchup_v3_packages.Queue.State.{pending_count, Queue, resolve_options, new_queue}
use watchup_v3_packages.Queue.Calls.{snapshot, restore, due_now}
use watchup_v3_packages.Queue.Sound.{pending_size}
use watchup_v3_packages.Queue.Paused.{IsNotResumed}
use watchup_v3_packages.Queue.Flight.{requests}
use watchup_v3_packages.ReactNative.Config.{NativeOptions, resolve_native, native_queue_options}
use watchup_v3_packages.ReactNative.Client.{
  no_text, NativeClient, new_native, NativeCall, persist_now,
}
use watchup_v3_packages.ReactNative.Steps.{
  NativeEvent, app_tracked, screen_set, was_found, app_flushed, persisted, app_shut_down, network,
  native_run,
}
use watchup_v3_packages.ReactNative.Refines.{queue_effects, Resumes}
use watchup_v3_packages.ReactNative.Delivery.{
  native_run-bound, native_offline, stored_after, persist_now-restored,
}

abbrev test_clean : Json → Option Json
test_clean j = some j

abbrev test_ms : ℕ → ℕ → Str
test_ms start now = decimal now

abbrev test_options : NativeOptions
test_options = record {
  api_key = units "wup_live_x";
  base_url = none;
  redact_keys = none;
  debug_mode = none;
  environment = none;
  release = none;
  service = none;
  flush_interval = none;
  max_batch_size = some 2;
  max_queue_size = some 3;
  auto_capture = record { errors = none; unhandled_rejections = none };
  logging = record {
    enabled = none;
    capture_console = none;
    include_device_context = none;
    min_level = none;
  };
  has_storage = true;
}

abbrev test_queue : Queue
test_queue = new_queue (resolve_options (native_queue_options (resolve_native test_options)))

abbrev test_client : NativeClient
test_client = record {
  config = resolve_native test_options;
  session_id = units "s1";
  queue = test_queue;
  has_storage = true;
  user = none;
  screen = none;
  persist_timer = false;
  online = true;
  closed = false;
  in_console_capture = false;
  captured = [];
}

abbrev test_call : NativeCall
test_call = record {
  env = record {
    now = 100;
    random = 5;
    batch_id = units "b1";
    sent_at = units "now";
    base = record {
      sdk = record { name = units "rn"; version = units "1.0" };
      environment = none;
      release = none;
      project_id = none;
    };
  };
  iso_now = units "now";
  device = end;
}

-- A launch with nothing stored, a screen, an event, the network lost, a flush, and the end.
abbrev test_events : List (NativeCall × NativeEvent)
test_events =
    (test_call, was_found no_text)
    ∷ (test_call, screen_set (units "Home") none)
    ∷ (test_call, app_tracked (units "opened") end)
    ∷ (test_call, network false true)
    ∷ (test_call, app_flushed)
    ∷ (test_call, app_shut_down)
    ∷ (test_call, persisted)
    ∷ []

native_run-bound_example :
    let q = (native_run test_clean test_ms test_events test_client).0.queue in
    (pending_count q ≤ 3) × (q.pending_bytes ≡ pending_size q.pending)
unfolding new_native
native_run-bound_example =
    native_run-bound test_clean test_ms test_options (units "s1") [] test_client test_events refl

abbrev offline_client : NativeClient
offline_client = record test_client { online = false; queue = record test_queue { paused = true } }

test_events_away : All (λ e. Resumes IsNotResumed e.1) test_events
test_events_away = (tt, (tt, (tt, (tt, (tt, (tt, (tt, tt)))))))

native_offline_example :
    requests (queue_effects (native_run test_clean test_ms test_events offline_client).1) ≡ 0
unfolding new_queue
native_offline_example =
    native_offline test_clean test_ms offline_client test_events refl refl test_events_away

abbrev test_chunk : Chunk
test_chunk = record {
  idempotency_key = units "wu_b0_0";
  body = units "{}";
  bytes = 2;
  counts = all_kinds 1;
  attempts = 1;
  next_attempt_at = 150;
}

-- A client with a chunk that waits for another attempt.
abbrev waiting_client : NativeClient
waiting_client = record test_client { queue = record test_queue { retry = test_chunk ∷ [] } }

persist_now-restored_example :
    let options = resolve_options (native_queue_options (resolve_native test_options)) in
    snapshot
      (restore test_call.env (stored_after (persist_now waiting_client).1 none) (new_queue options))
    ≡ record (snapshot waiting_client.queue) {
      retry = map (due_now test_call.env.now) waiting_client.queue.retry;
    }
unfolding new_queue
persist_now-restored_example =
    persist_now-restored test_call.env
      (resolve_options (native_queue_options (resolve_native test_options))) waiting_client none
      refl (omega arith)
