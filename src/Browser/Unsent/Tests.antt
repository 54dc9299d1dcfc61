-- ===== src/Browser/Unsent/Tests.antt =====
-- browser/src/unsent.ts on a storage that holds a list, and on one that refuses every write.
use watchup_v3_packages.Prelude.{◌≡◌, refl, true, List, [], ◌∷◌, arith, Option, none, some, map}
use watchup_v3_packages.Utf8.{Str, units}
use watchup_v3_packages.Types.{all_kinds, Chunk}
use watchup_v3_packages.Browser.Unsent.{Stored, Entry, Storage, read, save_unsent}
use watchup_v3_packages.Browser.Unsent.Laws.{
  entry_of, IsWorking, IsSaved, save_unsent-IsSaved, save_unsent_blocked,
}

abbrev entries_of : Option (List Stored) → Option (List Entry)
entries_of none = none
entries_of (some list) = some (map entry_of list)

abbrev test_storage : Storage (Option (List Stored))
test_storage = record {
  get_item = λ s. some (entries_of s);
  set_item = λ list s. some (some list);
  remove_item = λ s. some none;
}

test_storage-IsWorking : IsWorking test_storage
test_storage-IsWorking = record {
  set_get = λ list s. (some list, refl, refl);
  remove_get = λ s. (none, refl, refl);
}

abbrev full_storage : Storage (Option (List Stored))
full_storage = record {
  get_item = λ s. some (entries_of s);
  set_item = λ list s. none;
  remove_item = λ s. none;
}

abbrev test_chunk : Str → Chunk
test_chunk key = record {
  idempotency_key = key;
  body = units "{}";
  bytes = 2;
  counts = all_kinds 1;
  attempts = 1;
  next_attempt_at = 0;
}

abbrev test_stored : Option (List Stored)
test_stored = some (
    record {
      idempotency_key = units "wu_a_0";
      body = units "{}";
      bytes = 2;
      counts = all_kinds 1;
      attempts = 0;
    }
    ∷ [])

save_unsent-IsSaved_example :
    IsSaved
      (test_chunk (units "wu_b_0"))
      (read test_storage test_stored)
      (read test_storage (save_unsent test_storage (test_chunk (units "wu_b_0")) test_stored).0)
      (save_unsent test_storage (test_chunk (units "wu_b_0")) test_stored).1
save_unsent-IsSaved_example =
    save_unsent-IsSaved test_storage test_storage-IsWorking (test_chunk (units "wu_b_0"))
      test_stored

full_storage_refuses :
    (list : List Stored) (t : Option (List Stored)) → full_storage.set_item list t ≡ none
full_storage_refuses list t = refl

save_unsent_blocked_example :
    ((save_unsent full_storage (test_chunk (units "wu_b_0")) test_stored).0 ≡ test_stored)
    × ((save_unsent full_storage (test_chunk (units "wu_b_0")) test_stored).1 ≡ true)
save_unsent_blocked_example =
    save_unsent_blocked full_storage (test_chunk (units "wu_b_0")) test_stored full_storage_refuses
      (omega arith)
