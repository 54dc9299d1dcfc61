-- ===== src/Chunker/Count.antt =====
-- `buildChunks` of core/src/chunker.ts loses no item and makes none up, whatever its limits.
use watchup_v3_packages.Prelude.{
  ℕ, suc, ◌+◌, ◌≤◌, ◌≡◌, false, length-append, refl, inl, inr, List, [], ◌∷◌, arith, length, sum_of,
  sum_of-append, Bool-cases, ltb, ◌==◌,
}
use watchup_v3_packages.Utf8.{Str}
use watchup_v3_packages.Types.{
  Kind, errors, traces, events, PerKind, EnvelopeBase, PreparedItem, Chunk,
}
use watchup_v3_packages.Chunker.{
  ChunkLimits, Builder, chunk_of, fresh_builder, close, is_full, make_room, push_item,
  close_oversized, add_item, add_items, build_chunks,
}
use watchup_v3_packages.Chunker.Plan.{size}
use watchup_v3_packages.Chunker.Groups.{size-put}

abbrev pub items_in : Chunk → ℕ
items_in c = c.counts.errors + c.counts.traces + c.counts.events

abbrev pub total : PerKind (List PreparedItem) → ℕ
total p = length p.errors + length p.traces + length p.events

-- All that a builder has consumed, with its item counter right.
record Holds (n : ℕ) (b : Builder) : Type 0 where
  counted : b.count ≡ size b.groups
  kept : sum_of items_in b.chunks + b.count ≡ n
  few : length b.chunks + b.count ≤ n

some_of : (n : ℕ) → (n == 0) ≡ false → 1 ≤ n
some_of n h = ground (arith, h)

module _ (base : EnvelopeBase) (limits : ChunkLimits) (batch_id sent_at : Str) (now : ℕ) where
  close-Holds :
      (n : ℕ) (b : Builder)
      → Holds n b
      → Holds n (close base limits batch_id sent_at now b)
        × ((close base limits batch_id sent_at now b).count ≡ 0)
  unfolding close
  close-Holds n b h = elim (Bool-cases (b.count == 0)) [
    | inl none_open ↦ rw none_open (h, ground arith)
    | inr open_items ↦ rw open_items (
      record {
        counted = refl;
        kept = omega (
          arith,
          sum_of-append items_in b.chunks
              (chunk_of base limits batch_id sent_at now (length b.chunks) b.groups ∷ []),
          h.counted,
          h.kept,
        );
        few = omega (
          arith,
          length-append b.chunks
              (chunk_of base limits batch_id sent_at now (length b.chunks) b.groups ∷ []),
          h.few,
          some_of (b.count) open_items,
        );
      },
      refl,
    )
  ]

  make_room-Holds :
      (k : Kind) (item : PreparedItem) (n : ℕ) (b : Builder)
      → Holds n b
      → Holds n (make_room base limits batch_id sent_at now k item b)
  unfolding make_room
  make_room-Holds k item n b h =
      elim (Bool-cases (is_full base limits batch_id sent_at now k item b)) [
        | inl full ↦ rw full (close-Holds n b h).0
        | inr open_room ↦ rw open_room h
      ]

  push_item-Holds :
      (k : Kind) (item : PreparedItem) (n : ℕ) (b : Builder)
      → Holds n b
      → Holds (n + 1) (push_item base limits batch_id sent_at now k item b)
  unfolding push_item
  push_item-Holds k item n b h = record {
    counted = omega (arith, size-put k item.json b.groups, h.counted);
    kept = omega (arith, h.kept);
    few = omega (arith, h.few);
  }

  add_item-Holds :
      (k : Kind) (item : PreparedItem) (n : ℕ) (b : Builder)
      → Holds n b
      → Holds (n + 1) (add_item base limits batch_id sent_at now k item b)
  unfolding add_item close_oversized
  add_item-Holds k item n b h =
      let roomy = make_room base limits batch_id sent_at now k item b in
      let pushed = push_item base limits batch_id sent_at now k item roomy in
      let v = push_item-Holds k item n roomy (make_room-Holds k item n b h) in
      elim (Bool-cases (ltb limits.max_bytes pushed.bytes)) [
        | inl over ↦ rw over (close-Holds (n + 1) pushed v).0
        | inr fit ↦ rw fit v
      ]

  add_items-Holds :
      (k : Kind) (items : List PreparedItem) (n : ℕ) (b : Builder)
      → Holds n b
      → Holds (n + length items) (add_items base limits batch_id sent_at now k items b)
  unfolding add_items
  add_items-Holds k [] n b h = let e : n + 0 ≡ n = omega arith in rw e h
  add_items-Holds k (item ∷ items) n b h =
      let e : n + suc (length items) ≡ n + 1 + length items = omega arith in
      rw e (add_items-Holds k items (n + 1) _ (add_item-Holds k item n b h))

  abbrev all_added : PerKind (List PreparedItem) → Builder
  all_added pending = add_items base limits batch_id sent_at now events pending.events (
      add_items base limits batch_id sent_at now traces pending.traces (
        add_items base limits batch_id sent_at now errors pending.errors
          (fresh_builder base limits batch_id sent_at now [])))

  built-Holds :
      (pending : PerKind (List PreparedItem))
      → Holds
          (0 + length pending.errors + length pending.traces + length pending.events)
          (close base limits batch_id sent_at now (all_added pending))
        × ((close base limits batch_id sent_at now (all_added pending)).count ≡ 0)
  built-Holds pending =
      let start : Holds 0 (fresh_builder base limits batch_id sent_at now []) = record {
        counted = refl;
        kept = refl;
        few = omega arith;
      } in
      close-Holds _ _ (
        add_items-Holds events pending.events _ _ (
          add_items-Holds traces pending.traces _ _
            (add_items-Holds errors pending.errors 0 _ start)))

  -- Every pending item is in exactly one chunk's counts.
  pub build_chunks-total :
      (pending : PerKind (List PreparedItem))
      → sum_of items_in (build_chunks base limits batch_id sent_at now pending) ≡ total pending
  unfolding build_chunks
  build_chunks-total pending = let done = built-Holds pending in omega (arith, done.0.kept, done.1)

  -- There are no more chunks than items.
  pub length-build_chunks :
      (pending : PerKind (List PreparedItem))
      → length (build_chunks base limits batch_id sent_at now pending) ≤ total pending
  unfolding build_chunks
  length-build_chunks pending = let done = built-Holds pending in omega (arith, done.0.few, done.1)
