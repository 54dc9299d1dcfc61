-- ===== src/Queue/Snapshot.antt =====
-- `snapshot` and `restore` of core/src/queue.ts belong together.
use watchup_v3_packages.Prelude.{
  suc, ◌-◌, ◌≤◌, ◌≡◌, refl, ap, ◌∙◌, List, [], ◌∷◌, arith, some, map, length, append-nil,
}
use watchup_v3_packages.Utf8.{Str}
use watchup_v3_packages.Types.{Kind, errors, traces, events, PreparedItem}
use watchup_v3_packages.Chunker.Plan.{texts}
use watchup_v3_packages.Queue.State.{Options, Queue, new_queue, Env, pending_count}
use watchup_v3_packages.Queue.Bound.{shed, enforce_bound}
use watchup_v3_packages.Queue.Calls.{
  snapshot, restored_items, restore_kind, due_now, merge_snapshot, restore,
}

enforce_within : (q : Queue) → pending_count q ≤ q.options.max_queue_items → enforce_bound q ≡ q
unfolding enforce_bound shed
enforce_within q h =
    let no_excess : pending_count q - q.options.max_queue_items ≡ 0 = omega (arith, h) in
    ap
      (λ n.
        let e = shed events n q in
        let t = shed traces e.excess e.queue in (shed errors t.excess t.queue).queue)
      no_excess

texts-restored : (k : Kind) (ss : List Str) → texts (restored_items k ss) ≡ ss
texts-restored k [] = refl
texts-restored k (s ∷ ss) = ap (◌∷◌ s) (texts-restored k ss)

length-texts :
    (k : Kind) (items : List PreparedItem) → length (restored_items k (texts items)) ≡ length items
length-texts k [] = refl
length-texts k (i ∷ items) = ap suc (length-texts k items)

merged_count :
    (env : Env) (options : Options) (q : Queue)
    → pending_count q ≤ options.max_queue_items
    → pending_count (merge_snapshot env.now (snapshot q) (new_queue options))
      ≤ (merge_snapshot env.now (snapshot q) (new_queue options)).options.max_queue_items
unfolding snapshot merge_snapshot restore_kind new_queue
merged_count env options q h = simp (append-nil) (
    omega (
      arith,
      h,
      length-texts errors q.pending.errors,
      length-texts traces q.pending.traces,
      length-texts events q.pending.events,
    ))

merged_lem :
    (env : Env) (options : Options) (q : Queue)
    → snapshot (merge_snapshot env.now (snapshot q) (new_queue options))
      ≡ record (snapshot q) { retry = map (due_now env.now) q.retry }
unfolding snapshot merge_snapshot restore_kind new_queue
merged_lem env options q = simp (append-nil, texts-restored)

-- A queue filled from a snapshot of `q` has in its own snapshot the same pending texts by kind, in
-- the same order, and the same chunks, which are now due, if the bound of the new queue
-- allows the number of items.
pub snapshot-restore :
    (env : Env) (options : Options) (q : Queue)
    → pending_count q ≤ options.max_queue_items
    → snapshot (restore env (some (snapshot q)) (new_queue options))
      ≡ record (snapshot q) { retry = map (due_now env.now) q.retry }
unfolding snapshot restore merge_snapshot restore_kind new_queue
snapshot-restore env options q h =
    let merged = merge_snapshot env.now (snapshot q) (new_queue options) in
    ap snapshot (enforce_within merged (merged_count env options q h)) ∙ merged_lem env options q
