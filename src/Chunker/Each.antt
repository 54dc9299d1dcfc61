-- ===== src/Chunker/Each.antt =====
-- What holds of each chunk that core/src/chunker.ts makes.
use watchup_v3_packages.Prelude.{
  ℕ, inl, inr, List, [], ◌∷◌, Bool-cases, ltb, ◌==◌, All, All-append, length,
}
use watchup_v3_packages.Utf8.{Str}
use watchup_v3_packages.Types.{
  Kind, errors, traces, events, PerKind, EnvelopeBase, PreparedItem, Chunk,
}
use watchup_v3_packages.Chunker.{
  ChunkLimits, Builder, chunk_of, fresh_builder, close, is_full, make_room, push_item,
  close_oversized, add_item, add_items, build_chunks,
}

module _ (base : EnvelopeBase) (limits : ChunkLimits) (batch_id sent_at : Str) (now : ℕ)
    (P : Chunk → Type 0)
    (made : (i : ℕ) (groups : PerKind (List Str))
      → P (chunk_of base limits batch_id sent_at now i groups)) where
  close-Each :
      (b : Builder) → All P b.chunks → All P (close base limits batch_id sent_at now b).chunks
  unfolding close
  close-Each b h = elim (Bool-cases (b.count == 0)) [
    | inl empty ↦ rw empty h
    | inr open_group ↦
        rw open_group (All-append P b.chunks _ h (made (length b.chunks) b.groups, tt))
  ]

  make_room-Each :
      (k : Kind) (item : PreparedItem) (b : Builder)
      → All P b.chunks
      → All P (make_room base limits batch_id sent_at now k item b).chunks
  unfolding make_room
  make_room-Each k item b h =
      elim (Bool-cases (is_full base limits batch_id sent_at now k item b)) [
        | inl full ↦ rw full (close-Each b h)
        | inr roomy ↦ rw roomy h
      ]

  add_item-Each :
      (k : Kind) (item : PreparedItem) (b : Builder)
      → All P b.chunks
      → All P (add_item base limits batch_id sent_at now k item b).chunks
  unfolding add_item close_oversized push_item
  add_item-Each k item b h =
      let roomy = make_room base limits batch_id sent_at now k item b in
      let pushed = push_item base limits batch_id sent_at now k item roomy in
      elim (Bool-cases (ltb limits.max_bytes pushed.bytes)) [
        | inl over ↦ rw over (close-Each pushed (make_room-Each k item b h))
        | inr fit ↦ rw fit (make_room-Each k item b h)
      ]

  add_items-Each :
      (k : Kind) (items : List PreparedItem) (b : Builder)
      → All P b.chunks
      → All P (add_items base limits batch_id sent_at now k items b).chunks
  unfolding add_items
  add_items-Each k [] b h = h
  add_items-Each k (item ∷ items) b h = add_items-Each k items _ (add_item-Each k item b h)

  pub build_chunks-Each :
      (pending : PerKind (List PreparedItem))
      → All P (build_chunks base limits batch_id sent_at now pending)
  unfolding build_chunks
  build_chunks-Each pending = close-Each _ (
      add_items-Each events pending.events _ (
        add_items-Each traces pending.traces _ (
          add_items-Each errors pending.errors (fresh_builder base limits batch_id sent_at now [])
            tt)))
