-- ===== src/Chunker/Tests.antt =====
-- The chunks of core/src/chunker.ts for a few small items.
use watchup_v3_packages.Prelude.{refl, List, [], ◌∷◌, All, arith, none, some}
use watchup_v3_packages.Utf8.{units, is_pair, lone_width, utf8_byte_length}
use watchup_v3_packages.Types.{Kind, errors, events, PerKind, EnvelopeBase, PreparedItem}
use watchup_v3_packages.Chunker.{ChunkLimits, build_chunks}
use watchup_v3_packages.Chunker.Plan.{IsMeasured, IsChunking}
use watchup_v3_packages.Chunker.Split.{build_chunks-IsChunking}
use watchup_v3_packages.Chunker.Bytes.{IsBatchId, IsSendable, build_chunks-IsSendable}

abbrev test_base : EnvelopeBase
test_base = record {
  sdk = record { name = units "web"; version = units "1.0" };
  environment = some (units "prod");
  release = none;
  project_id = none;
}

abbrev test_limits : ChunkLimits
test_limits = record { max_bytes = 230; max_items = 2 }

abbrev test_item : Kind → PreparedItem
test_item kind = record { kind = kind; json = units "{\"a\":1}"; bytes = 7 }

abbrev test_pending : PerKind (List PreparedItem)
test_pending = record {
  errors = test_item errors ∷ test_item errors ∷ test_item errors ∷ [];
  traces = [];
  events = test_item events ∷ [];
}

test_errors-IsMeasured : All IsMeasured test_pending.errors
unfolding utf8_byte_length is_pair lone_width
test_errors-IsMeasured = (refl, (refl, (refl, tt)))

test_events-IsMeasured : All IsMeasured test_pending.events
unfolding utf8_byte_length is_pair lone_width
test_events-IsMeasured = (refl, tt)

test_id-IsBatchId : IsBatchId (units "b1")
test_id-IsBatchId = ((omega arith, (omega arith, tt)), omega arith)

build_chunks-IsChunking_example :
    IsChunking test_base test_limits
      (units "b1")
      (units "now")
      5
      test_pending
      (build_chunks test_base test_limits (units "b1") (units "now") 5 test_pending)
build_chunks-IsChunking_example =
    build_chunks-IsChunking test_base test_limits (units "b1") (units "now") 5 test_pending
      (omega arith) test_errors-IsMeasured tt test_events-IsMeasured

build_chunks-IsSendable_example :
    All
      (IsSendable test_limits)
      (build_chunks test_base test_limits (units "b1") (units "now") 5 test_pending)
build_chunks-IsSendable_example =
    build_chunks-IsSendable test_base test_limits (units "b1") (units "now") 5 test_pending
      (omega arith) test_id-IsBatchId (omega arith) test_errors-IsMeasured tt test_events-IsMeasured
