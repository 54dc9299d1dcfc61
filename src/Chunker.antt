-- ===== src/Chunker.antt =====
-- core/src/chunker.ts: pending items become the bodies of requests.
pub mod Plan
mod Groups
pub mod Split
pub mod Bytes
pub mod Count
pub mod Each
mod Tests
use watchup_v3_packages.Prelude.{
  ℕ, ◌+◌, ◌++◌, ◌==◌, ◌&&◌, ◌||◌, not, Bool, true, false, List, [], ◌∷◌, ltb, if◌then◌else◌, length,
  drop, Option, none, some,
}
use watchup_v3_packages.Utf8.{Str, units, decimal, utf8_byte_length}
use watchup_v3_packages.Json.{string, object, Fields, end, field, stringify}
use watchup_v3_packages.Types.{
  Kind, errors, traces, events, PerKind, get, put, all_kinds, EnvelopeBase, PreparedItem, Chunk,
}

pub record ChunkLimits : Type 0 where
  pub max_bytes : ℕ
  pub max_items : ℕ

abbrev pub errors_part : Str
errors_part = units "{\"errors\":["

abbrev pub traces_part : Str
traces_part = units "],\"traces\":["

abbrev pub events_part : Str
events_part = units "],\"events\":["

abbrev pub last_part : Str
last_part = units "],"

-- `PREFIX_PARTS.join('').length`
abbrev pub fixed_bytes : ℕ
fixed_bytes = length (errors_part ++ (traces_part ++ (events_part ++ last_part)))

-- A property that is `undefined` is not serialized.
abbrev optional : Str → Option Str → Fields → Fields
optional key none rest = rest
optional key (some value) rest = field key (string value) rest

-- The fields that the spread of `base` puts in front of `rest`.
abbrev base_fields : EnvelopeBase → Fields → Fields
base_fields base rest =
    field (units "sdk")
      (object (
        field (units "name") (string base.sdk.name)
          (field (units "version") (string base.sdk.version) end)))
      (optional (units "environment") base.environment (
        optional (units "release") base.release
          (optional (units "project_id") base.project_id rest)))

unfoldable pub tail : EnvelopeBase → Str → Str → Str
unfolding stringify
tail base key sent_at = drop 1 (
    stringify (
      object (
        base_fields base (
          field (units "idempotency_key") (string key)
            (field (units "sent_at") (string sent_at) end)))))

-- `wu_${'0'.repeat(36)}_999999`
abbrev pub worst_key : Str
worst_key = units "wu_000000000000000000000000000000000000_999999"

unfoldable pub envelope_overhead : EnvelopeBase → Str → ℕ
envelope_overhead base sent_at = fixed_bytes + utf8_byte_length (tail base worst_key sent_at)

unfoldable pub idempotency_key : Str → ℕ → Str
idempotency_key batch_id index = units "wu_" ++ (batch_id ++ (0x5f ∷ decimal index))

-- `texts.join(',')`
abbrev pub join : List Str → Str
join [] = []
join (s ∷ []) = s
join (s ∷ t ∷ more) = s ++ (0x2c ∷ join (t ∷ more))

unfoldable pub assemble_body : PerKind (List Str) → EnvelopeBase → Str → Str → Str
assemble_body groups base key sent_at =
    errors_part
    ++ (join groups.errors
        ++ (traces_part
            ++ (join groups.traces
                ++ (events_part ++ (join groups.events ++ (last_part ++ tail base key sent_at))))))

-- The variables that the two loops and `close` share.
pub record Builder : Type 0 where
  pub chunks : List Chunk
  pub groups : PerKind (List Str)
  pub bytes : ℕ
  pub count : ℕ

abbrev pub is_empty {ℓ} : {A : Type ℓ} → List A → Bool
is_empty [] = true
is_empty (x ∷ xs) = false

-- `groups[kind].length ? 1 : 0`
abbrev pub comma : List Str → ℕ
comma [] = 0
comma (s ∷ ss) = 1

abbrev pub counts_of : PerKind (List Str) → PerKind ℕ
counts_of g = record {
  errors = length g.errors;
  traces = length g.traces;
  events = length g.events;
}

module _ (base : EnvelopeBase) (limits : ChunkLimits) (batch_id sent_at : Str) (now : ℕ) where
  abbrev pub chunk_of : ℕ → PerKind (List Str) → Chunk
  chunk_of index groups =
      let key = idempotency_key batch_id index in
      let body = assemble_body groups base key sent_at in
      record {
        idempotency_key = key;
        body = body;
        bytes = utf8_byte_length body;
        counts = counts_of groups;
        attempts = 0;
        next_attempt_at = now;
      }

  abbrev pub fresh_builder : List Chunk → Builder
  fresh_builder chunks = record {
    chunks = chunks;
    groups = all_kinds [];
    bytes = envelope_overhead base sent_at;
    count = 0;
  }

  unfoldable pub close : Builder → Builder
  close b =
      if b.count == 0
      then b
      else fresh_builder (b.chunks ++ chunk_of (length b.chunks) b.groups ∷ [])

  -- The guard before an item is pushed: the open group has no room for it.
  abbrev pub is_full : Kind → PreparedItem → Builder → Bool
  is_full kind item b =
      let added = item.bytes + comma (get kind b.groups) in
      not (b.count == 0)
      && (ltb limits.max_bytes (b.bytes + added) || ltb limits.max_items (b.count + 1))

  unfoldable pub make_room : Kind → PreparedItem → Builder → Builder
  make_room kind item b = if is_full kind item b then close b else b

  unfoldable pub push_item : Kind → PreparedItem → Builder → Builder
  push_item kind item b =
      let pushed = get kind b.groups ++ item.json ∷ [] in
      record b {
        groups = put kind pushed b.groups;
        bytes = b.bytes + (item.bytes + (if ltb 1 (length pushed) then 1 else 0));
        count = b.count + 1;
      }

  unfoldable pub close_oversized : Builder → Builder
  close_oversized b = if ltb limits.max_bytes b.bytes then close b else b

  unfoldable pub add_item : Kind → PreparedItem → Builder → Builder
  add_item kind item b = close_oversized (push_item kind item (make_room kind item b))

  unfoldable pub add_items : Kind → List PreparedItem → Builder → Builder
  add_items kind [] b = b
  add_items kind (item ∷ items) b = add_items kind items (add_item kind item b)

  unfoldable pub build_chunks : PerKind (List PreparedItem) → List Chunk
  build_chunks pending =
      (close (
        add_items events pending.events (
          add_items traces pending.traces
            (add_items errors pending.errors (fresh_builder []))))).chunks
