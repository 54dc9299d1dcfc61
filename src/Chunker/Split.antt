-- ===== src/Chunker/Split.antt =====
-- `buildChunks` of core/src/chunker.ts meets its plan.
use watchup_v3_packages.Prelude.{
  ℕ, suc, ◌+◌, ◌≤◌, ◌≡◌, refl, sym, ap, ◌∙◌, ◌⊎◌, inl, inr, List, [], ◌∷◌, ◌++◌, length, All, arith,
  append_assoc, append-nil, All-append, Bool-cases, ◌==◌, ltb,
}
use watchup_v3_packages.Utf8.{Str}
use watchup_v3_packages.Types.{
  Kind, errors, traces, events, PerKind, get, EnvelopeBase, PreparedItem,
}
use watchup_v3_packages.Chunker.{
  ChunkLimits, Builder, comma, envelope_overhead, chunk_of, fresh_builder, close, is_full,
  make_room, push_item, close_oversized, add_item, add_items, build_chunks,
}
use watchup_v3_packages.Chunker.Plan.{
  Groups, tag, sequence, sequences, size, payload, IsMeasured, texts, pending_texts, Fits, render,
  IsChunking,
}
use watchup_v3_packages.Chunker.Groups.{
  UpTo, sequences-append, sequence-put, payload-put, size-put, UpTo-put, UpTo-nil, comma_of_push,
  sequence-nil,
}

module _ (base : EnvelopeBase) (limits : ChunkLimits) (batch_id sent_at : Str) (now : ℕ) where
  render-append :
      (i : ℕ) (gs hs : List Groups)
      → render base limits batch_id sent_at now i (gs ++ hs)
        ≡ render base limits batch_id sent_at now i gs
          ++ render base limits batch_id sent_at now (i + length gs) hs
  render-append i [] hs = let e : i + 0 ≡ i = omega arith in rw e
  render-append i (g ∷ gs) hs =
      let e : i + 1 + length gs ≡ i + suc (length gs) = omega arith in
      rw (render-append (i + 1) gs hs, e)

  length-render :
      (i : ℕ) (gs : List Groups) → length (render base limits batch_id sent_at now i gs) ≡ length gs
  length-render i [] = refl
  length-render i (g ∷ gs) = ap suc (length-render (i + 1) gs)

  -- The loops' invariant, when `done` has been consumed and items of `kind` are being added.
  record IsBuilt (kind : Kind) (done : List (Kind × Str)) (b : Builder) : Type 0 where
    closed : List Groups
    rendered : b.chunks ≡ render base limits batch_id sent_at now 0 closed
    ordered : sequences closed ++ sequence b.groups ≡ done
    fitting : All (Fits base limits batch_id sent_at now) closed
    up_to : UpTo kind b.groups
    counted : b.count ≡ size b.groups
    measured : b.bytes ≡ envelope_overhead base sent_at + payload b.groups
    few : b.count ≤ limits.max_items
    small : (b.bytes ≤ limits.max_bytes) ⊎ (b.count ≤ 1)

  -- There is room for the item in the open group.
  abbrev HasRoom : Kind → PreparedItem → Builder → Type 0
  HasRoom kind item b =
      (b.count ≡ 0)
      ⊎ ((b.bytes + (item.bytes + comma (get kind b.groups)) ≤ limits.max_bytes)
          × (b.count + 1 ≤ limits.max_items))

  close_count : (b : Builder) → (close base limits batch_id sent_at now b).count ≡ 0
  unfolding close
  close_count b = ground arith

  make_room-HasRoom :
      (kind : Kind) (item : PreparedItem) (b : Builder)
      → HasRoom kind item (make_room base limits batch_id sent_at now kind item b)
  unfolding make_room
  make_room-HasRoom kind item b =
      elim (Bool-cases (is_full base limits batch_id sent_at now kind item b)) [
        | inl full ↦ rw full (inl (close_count b))
        | inr open_room ↦ rw open_room (ground arith)
      ]

  module _ {kind : Kind} {done : List (Kind × Str)} where
    fresh-IsBuilt :
        (b : Builder) (v : IsBuilt kind done b)
        → 1 ≤ b.count
        → IsBuilt kind done (
            fresh_builder base limits batch_id sent_at now (
              b.chunks
              ++ chunk_of base limits batch_id sent_at now (length b.chunks) b.groups ∷ []))
    fresh-IsBuilt b v some_items = record {
      closed = v.closed ++ b.groups ∷ [];
      rendered =
          let i : length b.chunks ≡ 0 + length v.closed =
            omega (arith, ap length v.rendered, length-render 0 v.closed) in
          rw (i, v.rendered) (sym (render-append 0 v.closed (b.groups ∷ [])));
      ordered = rw (sequences-append v.closed (b.groups ∷ [])) (simp append-nil v.ordered);
      fitting = All-append _ v.closed (b.groups ∷ []) v.fitting (
        (
          omega (arith, v.counted),
          omega (arith, v.counted, v.few),
          elim v.small [
            | inl fit ↦ inl (omega (arith, v.measured))
            | inr one ↦ inr (omega (arith, v.counted))
          ],
        ),
        tt,
      );
      up_to = UpTo-nil kind;
      counted = refl;
      measured = omega arith;
      few = omega arith;
      small = inr (omega arith);
    }

    close-IsBuilt :
        (b : Builder)
        → IsBuilt kind done b
        → IsBuilt kind done (close base limits batch_id sent_at now b)
    unfolding close
    close-IsBuilt b v = elim (Bool-cases (b.count == 0)) [
      | inl none_open ↦ rw none_open v
      | inr open_items ↦ rw open_items (fresh-IsBuilt b v (ground arith))
    ]

    make_room-IsBuilt :
        (item : PreparedItem) (b : Builder)
        → IsBuilt kind done b
        → IsBuilt kind done (make_room base limits batch_id sent_at now kind item b)
    unfolding make_room
    make_room-IsBuilt item b v =
        elim (Bool-cases (is_full base limits batch_id sent_at now kind item b)) [
          | inl full ↦ rw full (close-IsBuilt b v)
          | inr open_room ↦ rw open_room v
        ]

    push_item-IsBuilt :
        (item : PreparedItem) (b : Builder)
        → 1 ≤ limits.max_items
        → IsMeasured item
        → HasRoom kind item b
        → IsBuilt kind done b
        → IsBuilt kind
            (done ++ (kind, item.json) ∷ [])
            (push_item base limits batch_id sent_at now kind item b)
    unfolding push_item
    push_item-IsBuilt item b one bytes room v = record {
      closed = v.closed;
      rendered = v.rendered;
      ordered = rw (sequence-put kind item.json b.groups v.up_to, ← append_assoc, v.ordered) refl;
      fitting = v.fitting;
      up_to = UpTo-put kind _ b.groups v.up_to;
      counted = omega (arith, size-put kind item.json b.groups, v.counted);
      measured =
          rw (comma_of_push item.json (get kind b.groups))
            (omega (arith, payload-put kind item.json b.groups, v.measured));
      few = omega (arith, v.few);
      small = rw (comma_of_push item.json (get kind b.groups)) (omega arith);
    }

    close_oversized-IsBuilt :
        (b : Builder)
        → IsBuilt kind done b
        → IsBuilt kind done (close_oversized base limits batch_id sent_at now b)
    unfolding close_oversized
    close_oversized-IsBuilt b v = elim (Bool-cases (ltb limits.max_bytes b.bytes)) [
      | inl over ↦ rw over (close-IsBuilt b v)
      | inr fit ↦ rw fit v
    ]

  module _ (kind : Kind) (one : 1 ≤ limits.max_items) where
    add_item-IsBuilt :
        {done : List (Kind × Str)} (item : PreparedItem) (b : Builder)
        → IsMeasured item
        → IsBuilt kind done b
        → IsBuilt kind
            (done ++ (kind, item.json) ∷ [])
            (add_item base limits batch_id sent_at now kind item b)
    unfolding add_item
    add_item-IsBuilt item b bytes v = close_oversized-IsBuilt _ (
        push_item-IsBuilt item _ one bytes (make_room-HasRoom kind item b)
          (make_room-IsBuilt item b v))

    add_items-IsBuilt :
        (items : List PreparedItem) (b : Builder) {done : List (Kind × Str)}
        → All IsMeasured items
        → IsBuilt kind done b
        → IsBuilt kind
            (done ++ tag kind (texts items))
            (add_items base limits batch_id sent_at now kind items b)
    unfolding add_items
    add_items-IsBuilt [] b h v = rw append-nil v
    add_items-IsBuilt (item ∷ items) b {done} h v =
        rw (← append_assoc done ((kind, item.json) ∷ []) (tag kind (texts items))) (
          add_items-IsBuilt items (add_item base limits batch_id sent_at now kind item b) h.1
            (add_item-IsBuilt item b h.0 v))

  -- Moving on to a later kind.
  weaken :
      (k l : Kind) {done : List (Kind × Str)} (b : Builder)
      → (UpTo k b.groups → UpTo l b.groups)
      → IsBuilt k done b
      → IsBuilt l done b
  weaken k l b w v = record {
    closed = v.closed;
    rendered = v.rendered;
    ordered = v.ordered;
    fitting = v.fitting;
    up_to = w v.up_to;
    counted = v.counted;
    measured = v.measured;
    few = v.few;
    small = v.small;
  }

  start-IsBuilt : IsBuilt errors [] (fresh_builder base limits batch_id sent_at now [])
  start-IsBuilt = record {
    closed = [];
    rendered = refl;
    ordered = refl;
    fitting = tt;
    up_to = (refl, refl);
    counted = refl;
    measured = omega arith;
    few = omega arith;
    small = inr (omega arith);
  }

  -- A builder with nothing open has rendered all that it consumed.
  IsChunking-of_closed :
      (pending : PerKind (List PreparedItem)) (b : Builder)
      → b.count ≡ 0
      → IsBuilt events (sequence (pending_texts pending)) b
      → IsChunking base limits batch_id sent_at now pending b.chunks
  IsChunking-of_closed pending b none_open v = record {
    groups = v.closed;
    rendered = v.rendered;
    ordered =
        sym (append-nil (sequences v.closed))
        ∙ ap (◌++◌ (sequences v.closed)) (sym (sequence-nil b.groups (omega (arith, v.counted))))
        ∙ v.ordered;
    fitting = v.fitting;
  }

  -- Where every pending item carries the byte count of its text and a chunk may hold an item,
  -- the chunks are the bodies of a list of groups whose items, in order, are all the pending
  -- errors, then the traces, then the events; each group holds an item, at most `maxItems`, and
  -- at most `maxBytes` bytes with the envelope unless it holds a single item.
  pub build_chunks-IsChunking :
      (pending : PerKind (List PreparedItem))
      → 1 ≤ limits.max_items
      → All IsMeasured pending.errors
      → All IsMeasured pending.traces
      → All IsMeasured pending.events
      → IsChunking base limits batch_id sent_at now pending
          (build_chunks base limits batch_id sent_at now pending)
  unfolding build_chunks
  build_chunks-IsChunking pending one he ht hv =
      let after_errors = add_items-IsBuilt errors one pending.errors _ he start-IsBuilt in
      let after_traces =
        add_items-IsBuilt traces one pending.traces _ ht
          (weaken errors traces _ (λ u. u.1) after_errors) in
      let after_events =
        add_items-IsBuilt events one pending.events _ hv
          (weaken traces events _ (λ u. tt) after_traces) in
      IsChunking-of_closed pending _ (close_count _) (
        close-IsBuilt _ (
          rw
            (append_assoc (tag errors (texts pending.errors)) (tag traces (texts pending.traces))
              (tag events (texts pending.events)))
            at after_events))
