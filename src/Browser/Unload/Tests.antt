-- ===== src/Browser/Unload/Tests.antt =====
-- A page that is left with two chunks waiting, of which the browser takes the first.
use watchup_v3_packages.Prelude.{
  ℕ, ◌+◌, ◌≤◌, ◌≡◌, refl, Bool, true, false, List, [], ◌∷◌, ◌++◌, ◌==◌, arith, Option, none, some,
  map, All, any, sum_of,
}
use watchup_v3_packages.Utf8.{Str, units}
use watchup_v3_packages.Json.{string}
use watchup_v3_packages.Types.{all_kinds, Chunk}
use watchup_v3_packages.Queue.State.{Options, Queue, Env, new_queue}
use watchup_v3_packages.Queue.Drain.{cut}
use watchup_v3_packages.Browser.WebQueue.{WebQueue}
use watchup_v3_packages.Browser.Unsent.{
  Stored, Entry, Storage, has_key, total_bytes, max_stored_bytes, read,
}
use watchup_v3_packages.Browser.Unsent.Laws.{entry_of, IsWorking}
use watchup_v3_packages.Browser.Unload.{unload}
use watchup_v3_packages.Browser.Unload.Laws.{
  refused, refused_by, is_report, chunk_bytes, unload_keeps,
}

abbrev entries_of : Option (List Stored) → Option (List Entry)
entries_of none = none
entries_of (some list) = some (map entry_of list)

abbrev test_storage : Storage (Option (List Stored))
test_storage = record {
  get_item = λ s. some (entries_of s);
  set_item = λ list s. some (some list);
  remove_item = λ s. some none;
}

test_storage-IsWorking : IsWorking test_storage
test_storage-IsWorking = record {
  set_get = λ list s. (some list, refl, refl);
  remove_get = λ s. (none, refl, refl);
}

abbrev test_answers : ℕ → Bool
test_answers n = n == 0

abbrev test_chunk : Str → Chunk
test_chunk key = record {
  idempotency_key = key;
  body = units "{}";
  bytes = 2;
  counts = all_kinds 1;
  attempts = 1;
  next_attempt_at = 0;
}

abbrev test_options : Options
test_options = record {
  max_bytes = 4000;
  max_items = 2;
  max_queue_items = 3;
  max_attempts = 2;
  base_backoff_ms = 1000;
  max_backoff_ms = 30_000;
  error_flush_threshold = 9;
  auto_flush = false;
}

abbrev test_queue : Queue
test_queue = record (new_queue test_options) {
  retry = test_chunk (units "wu_a_0") ∷ test_chunk (units "wu_a_1") ∷ [];
}

abbrev test_env : Env
test_env = record {
  now = 100;
  random = 5;
  batch_id = units "b1";
  sent_at = units "now";
  base = record {
    sdk = record { name = units "web"; version = units "1.0" };
    environment = none;
    release = none;
    project_id = none;
  };
}

abbrev test_web : WebQueue
test_web = record {
  project_id = none;
  max_items = 10;
  views = record { payload = string (units "/"); bytes = 3 } ∷ [];
}

test_room :
    total_bytes (read test_storage none)
      + chunk_bytes (test_queue.retry ++ cut test_env 61_440 test_queue)
    ≤ max_stored_bytes
unfolding read cut new_queue
test_room = omega arith

unload_keeps_example :
    let r = unload test_storage test_answers test_env test_queue test_web none in
    let turned_down =
      refused_by test_answers 0 (test_queue.retry ++ cut test_env 61_440 test_queue) in
    All (λ c. any (has_key c.idempotency_key) (read test_storage r.2) ≡ true) turned_down
    × (refused r.3 ≡ turned_down)
    × All
        (λ d. any (has_key d.idempotency_key) (read test_storage r.2) ≡ true)
        (read test_storage none)
    × (sum_of is_report r.3 ≡ 0)
unload_keeps_example =
    unload_keeps test_storage test_storage-IsWorking test_answers test_env test_queue test_web none
      test_room
