-- ===== src/Chunker/Bytes.antt =====
-- The bodies of core/src/chunker.ts in bytes: what the builder counts bounds what is sent.
use watchup_v3_packages.Prelude.{
  ℕ, suc, ◌+◌, ◌≤◌, ◌<◌, ◌≡◌, refl, sym, ap, subst, ◌⊎◌, inl, inr, List, [], ◌∷◌, ◌++◌, length, All,
  arith, append_assoc, length-append, All-append, All-weaken, Option, none, some,
}
use watchup_v3_packages.Utf8.{Str, units, utf8_byte_length, decimal}
use watchup_v3_packages.Utf8.Append.{
  IsDigit, decimal-IsDigit, decimal-bound, StartsPlain, utf8_byte_length-append,
  utf8_byte_length_of_ascii_append, utf8_byte_length_of_ascii_cons,
}
use watchup_v3_packages.Json.{string, Fields, end, field, stringify, stringify_fields}
use watchup_v3_packages.Json.Bytes.{
  IsPlain, quote_bytes_of_plain, fields_bytes, stringify_fields_bytes, NoLonger, no_longer,
  NoLonger-le, NoLonger-field,
}
use watchup_v3_packages.Types.{Kind, PerKind, EnvelopeBase, PreparedItem, Chunk}
use watchup_v3_packages.Chunker.{
  ChunkLimits, errors_part, traces_part, events_part, last_part, fixed_bytes, optional, base_fields,
  tail, worst_key, envelope_overhead, idempotency_key, join, assemble_body, chunk_of, build_chunks,
}
use watchup_v3_packages.Chunker.Plan.{
  Groups, tag, sequence, sequences, size, array_bytes, payload, IsMeasured, texts, pending_texts,
  Fits, render,
}
use watchup_v3_packages.Chunker.Count.{items_in, total}
use watchup_v3_packages.Chunker.Split.{build_chunks-IsChunking}

-- Joined texts in front of an ASCII character.
join_bytes :
    (ss : List Str) (t : Str)
    → StartsPlain t
    → utf8_byte_length (join ss ++ t) ≡ array_bytes ss + utf8_byte_length t
join_bytes [] t h = omega arith
join_bytes (s ∷ []) t h = omega (arith, utf8_byte_length-append s t h)
join_bytes (s ∷ u ∷ more) t h = rw (append_assoc s (0x2c ∷ join (u ∷ more)) t) (
    omega (
      arith,
      utf8_byte_length-append s (0x2c ∷ (join (u ∷ more) ++ t)) refl,
      utf8_byte_length_of_ascii_cons 0x2c (join (u ∷ more) ++ t) (omega arith),
      join_bytes (u ∷ more) t h,
    ))

-- A body is the fixed text, the items with their commas, and the tail.
pub assemble_body_bytes :
    (g : Groups) (base : EnvelopeBase) (key sent_at : Str)
    → utf8_byte_length (assemble_body g base key sent_at)
      ≡ fixed_bytes + payload g + utf8_byte_length (tail base key sent_at)
unfolding assemble_body
assemble_body_bytes g base key sent_at =
    let ending = last_part ++ tail base key sent_at in
    let from_events = events_part ++ (join g.events ++ ending) in
    let from_traces = traces_part ++ (join g.traces ++ from_events) in
    omega (
      arith,
      utf8_byte_length_of_ascii_append errors_part (join g.errors ++ from_traces) (omega arith),
      join_bytes g.errors from_traces refl,
      utf8_byte_length_of_ascii_append traces_part (join g.traces ++ from_events) (omega arith),
      join_bytes g.traces from_events refl,
      utf8_byte_length_of_ascii_append events_part (join g.events ++ ending) (omega arith),
      join_bytes g.events ending refl,
      utf8_byte_length_of_ascii_append last_part (tail base key sent_at) (omega arith),
    )

abbrev tail_fields : EnvelopeBase → Str → Str → Fields
tail_fields base key sent_at =
    base_fields base
      (field (units "idempotency_key") (string key) (field (units "sent_at") (string sent_at) end))

tail_bytes :
    (base : EnvelopeBase) (key sent_at : Str)
    → utf8_byte_length (tail base key sent_at) ≡ fields_bytes (tail_fields base key sent_at) + 1
unfolding tail utf8_byte_length
tail_bytes base key sent_at =
    let fs = tail_fields base key sent_at in
    omega (
      arith,
      utf8_byte_length-append (stringify_fields fs) (0x7d ∷ []) refl,
      utf8_byte_length_of_ascii_append (0x7d ∷ []) [] (omega arith),
      stringify_fields_bytes fs,
    )

NoLonger-optional :
    (k : Str) (o : Option Str) {fs gs : Fields}
    → NoLonger fs gs
    → NoLonger (optional k o fs) (optional k o gs)
NoLonger-optional k none h = h
NoLonger-optional k (some s) h = NoLonger-field k (string s) h

-- Keys are sent unescaped, and `worst_key` has 46 characters.
abbrev pub IsKey : Str → Type 0
IsKey key = All IsPlain key × (length key ≤ 46)

pub tail-le :
    (base : EnvelopeBase) (key sent_at : Str)
    → IsKey key
    → utf8_byte_length (tail base key sent_at) ≤ utf8_byte_length (tail base worst_key sent_at)
unfolding fields_bytes stringify
tail-le base key sent_at (plain, short) = omega (
  arith,
  tail_bytes base key sent_at,
  tail_bytes base worst_key sent_at,
  NoLonger-le (
      NoLonger-field (units "sdk") _ (
        NoLonger-optional (units "environment") base.environment (
          NoLonger-optional (units "release") base.release
            (NoLonger-optional (units "project_id") base.project_id keys)))),
)
  where
    ends : Fields
    ends = field (units "sent_at") (string sent_at) end

    keys :
        NoLonger
          (field (units "idempotency_key") (string key) ends)
          (field (units "idempotency_key") (string worst_key) ends)
    keys = no_longer (
        omega (arith, quote_bytes_of_plain key plain, quote_bytes_of_plain worst_key (omega arith)))

-- The batch identifier is a UUID: plain, and of 36 characters at most.
abbrev pub IsBatchId : Str → Type 0
IsBatchId batch_id = All IsPlain batch_id × (length batch_id ≤ 36)

pub idempotency_key-IsKey :
    (batch_id : Str) (index : ℕ)
    → IsBatchId batch_id
    → index < 1_000_000
    → IsKey (idempotency_key batch_id index)
unfolding idempotency_key
idempotency_key-IsKey batch_id index (plain, short) h =
    let digits : All IsPlain (decimal index) =
      All-weaken (λ c (d : IsDigit c). omega arith) (decimal index) (decimal-IsDigit index) in
    let rest = All-append IsPlain batch_id (0x5f ∷ decimal index) plain (omega arith, digits) in
    (
      (omega arith, (omega arith, (omega arith, rest))),
      omega (
        arith,
        length-append batch_id (0x5f ∷ decimal index),
        decimal-bound 5 index (omega arith),
      ),
    )

-- Within the limit, or a single item.
abbrev pub IsSendable : ChunkLimits → Chunk → Type 0
IsSendable limits c =
    (c.bytes ≡ utf8_byte_length c.body)
    × (1 ≤ items_in c)
    × (items_in c ≤ limits.max_items)
    × ((c.bytes ≤ limits.max_bytes) ⊎ (items_in c ≡ 1))

length-tag : (k : Kind) (ss : List Str) → length (tag k ss) ≡ length ss
length-tag k [] = refl
length-tag k (s ∷ ss) = ap suc (length-tag k ss)

length-texts : (items : List PreparedItem) → length (texts items) ≡ length items
length-texts [] = refl
length-texts (x ∷ xs) = ap suc (length-texts xs)

length-sequence : (g : Groups) → length (sequence g) ≡ size g
length-sequence g = omega (
  arith,
  length-append (tag Kind.errors g.errors) (tag Kind.traces g.traces ++ tag Kind.events g.events),
  length-append (tag Kind.traces g.traces) (tag Kind.events g.events),
  length-tag Kind.errors g.errors,
  length-tag Kind.traces g.traces,
  length-tag Kind.events g.events,
)

module _ (base : EnvelopeBase) (limits : ChunkLimits) (batch_id sent_at : Str) (now : ℕ) where
  length-le-sequences :
      (gs : List Groups)
      → All (Fits base limits batch_id sent_at now) gs
      → length gs ≤ length (sequences gs)
  length-le-sequences [] h = omega arith
  length-le-sequences (g ∷ gs) h = omega (
    arith,
    length-append (sequence g) (sequences gs),
    length-sequence g,
    length-le-sequences gs h.1,
    h.0.0,
  )

  chunk_of-IsSendable :
      (i : ℕ) (g : Groups)
      → IsBatchId batch_id
      → i < 1_000_000
      → Fits base limits batch_id sent_at now g
      → IsSendable limits (chunk_of base limits batch_id sent_at now i g)
  unfolding envelope_overhead
  chunk_of-IsSendable i g id few (some_items, not_many, small) =
      let key = idempotency_key batch_id i in
      let body = assemble_body_bytes g base key sent_at in
      let ending = tail-le base key sent_at (idempotency_key-IsKey batch_id i id few) in
      (
        refl,
        some_items,
        not_many,
        elim small [ inl fit ↦ inl (omega (arith, body, ending, fit)) | inr one ↦ inr one ],
      )

  render-IsSendable :
      (i : ℕ) (gs : List Groups)
      → IsBatchId batch_id
      → i + length gs ≤ 1_000_000
      → All (Fits base limits batch_id sent_at now) gs
      → All (IsSendable limits) (render base limits batch_id sent_at now i gs)
  render-IsSendable i [] id few h = tt
  render-IsSendable i (g ∷ gs) id few h = (
    chunk_of-IsSendable i g id (omega arith) h.0,
    render-IsSendable (i + 1) gs id (omega arith) h.1,
  )

  -- Where every pending item carries the byte count of its text, a chunk may hold an item, the
  -- batch identifier is plain text of at most 36 characters and at most a million items are
  -- pending: each chunk's `bytes` is the UTF-8 size of its body, it holds between 1 and
  -- `maxItems` items, and its body is within `maxBytes` unless it holds a single item.
  pub build_chunks-IsSendable :
      (pending : PerKind (List PreparedItem))
      → 1 ≤ limits.max_items
      → IsBatchId batch_id
      → total pending ≤ 1_000_000
      → All IsMeasured pending.errors
      → All IsMeasured pending.traces
      → All IsMeasured pending.events
      → All (IsSendable limits) (build_chunks base limits batch_id sent_at now pending)
  build_chunks-IsSendable pending one id few he ht hv =
      let plan = build_chunks-IsChunking base limits batch_id sent_at now pending one he ht hv in
      subst (All (IsSendable limits)) (sym plan.rendered) (
        render-IsSendable 0 plan.groups id
          (omega (
            arith,
            length-le-sequences plan.groups plan.fitting,
            ap length plan.ordered,
            length-sequence (pending_texts pending),
            length-texts pending.errors,
            length-texts pending.traces,
            length-texts pending.events,
          ))
          plan.fitting)
