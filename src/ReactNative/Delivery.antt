-- ===== src/ReactNative/Delivery.antt =====
-- react-native/src/client.ts: what the queue of a client keeps, sends while offline, and gets back from
-- the storage.
use watchup_v3_packages.Prelude.{
  ℕ, ◌≤◌, ◌≡◌, refl, sym, ap, subst, ◌∙◌, inl, inr, true, List, [], ◌∷◌, Option, none, some,
  Bool-cases, if◌then◌else◌, All, &&_true, map, arith,
}
use watchup_v3_packages.Utf8.{Str}
use watchup_v3_packages.Json.{Json}
use watchup_v3_packages.Types.{Chunk}
use watchup_v3_packages.Chunker.Plan.{texts}
use watchup_v3_packages.Queue.State.{
  or_default, Options, Queue, Env, resolve_options, new_queue, pending_count,
}
use watchup_v3_packages.Queue.Calls.{Event, run, QueueSnapshot, snapshot, restore, due_now}
use watchup_v3_packages.Queue.Sound.{IsSound, pending_size}
use watchup_v3_packages.Queue.Sound.Steps.{run-IsSound}
use watchup_v3_packages.Queue.Snapshot.{snapshot-restore}
use watchup_v3_packages.Queue.Paused.{IsNotResumed, run-Holds}
use watchup_v3_packages.Queue.Flight.{requests}
use watchup_v3_packages.Payload.{is_empty_text}
use watchup_v3_packages.ReactNative.Config.{NativeOptions, resolve_native, native_queue_options}
use watchup_v3_packages.ReactNative.Client.{
  NativeClient, new_native, NativeCall, NativeEffect, item_set, item_removed, forwarded,
  persist_armed, persist_cleared, no_items, is_empty_snapshot, stored_as, persist_now,
}
use watchup_v3_packages.ReactNative.Steps.{NativeEvent, network, native_run}
use watchup_v3_packages.ReactNative.Refines.{queue_effects, Resumes}
use watchup_v3_packages.ReactNative.Laws.{native_run-Asks}

abbrev IsNewNative : NativeOptions → Option NativeClient → Type 0
IsNewNative options none = Unit
IsNewNative options (some c) =
    c.queue ≡ new_queue (resolve_options (native_queue_options (resolve_native options)))

new_native-IsNewNative :
    (options : NativeOptions) (session_id : Str) (captured : List ℕ)
    → IsNewNative options (new_native options session_id captured)
unfolding new_native
new_native-IsNewNative options session_id captured =
    elim (Bool-cases (is_empty_text options.api_key)) [ inl e ↦ rw e tt | inr e ↦ rw e refl ]

abbrev AnyEvent : Event → Type 0
AnyEvent e = Unit

each-Resumes : (e : NativeEvent) → Resumes AnyEvent e
each-Resumes (network true true) = tt
each-Resumes other = tt

any-Resumes : (es : List (NativeCall × NativeEvent)) → All (λ e. Resumes AnyEvent e.1) es
any-Resumes [] = tt
any-Resumes ((call, e) ∷ es) = (each-Resumes e, any-Resumes es)

-- Whatever happens to a new client, snapshots of any content restored into it included, its queue
-- holds at most the `maxQueueSize` of the options, or 1000 if there is none, and its byte counter is the
-- sum of the items' sizes.
pub native_run-bound :
    (clean : Json → Option Json) (ms_text : ℕ → ℕ → Str) (options : NativeOptions)
    (session_id : Str) (captured : List ℕ) (c : NativeClient) (es : List (NativeCall × NativeEvent))
    → new_native options session_id captured ≡ some c
    → let q = (native_run clean ms_text es c).0.queue in
      (pending_count q ≤ or_default options.max_queue_size 1000)
      × (q.pending_bytes ≡ pending_size q.pending)
unfolding resolve_native resolve_options
native_run-bound clean ms_text options session_id captured c es made =
    let o = resolve_options (native_queue_options (resolve_native options)) in
    let a = native_run-Asks AnyEvent (λ e h. tt) clean ms_text es c (any-Resumes es) in
    let e = subst (IsNewNative options) made (new_native-IsNewNative options session_id captured) in
    let fine =
      subst (λ r. IsSound o r.0) a.same_out
        (subst (λ q. IsSound o (run a.events q).0) (sym e) (run-IsSound o a.events)) in
    (fine.bounded, fine.counted)

-- While the network is away, a client whose queue is paused with no request in flight sends nothing,
-- whatever is captured, flushed, restored or shut down.
pub native_offline :
    (clean : Json → Option Json) (ms_text : ℕ → ℕ → Str) (c : NativeClient)
    (es : List (NativeCall × NativeEvent))
    → c.queue.paused ≡ true
    → c.queue.drain ≡ none
    → All (λ e. Resumes IsNotResumed e.1) es
    → requests (queue_effects (native_run clean ms_text es c).1) ≡ 0
native_offline clean ms_text c es p d away =
    let a = native_run-Asks IsNotResumed (λ e h. h) clean ms_text es c away in
    subst (λ r. requests r.1 ≡ 0) a.same_out (run-Holds a.events c.queue a.allowed d p).0

-- What the storage holds after the calls.
unfoldable pub stored_after : List NativeEffect → Option QueueSnapshot → Option QueueSnapshot
stored_after [] old = old
stored_after (item_set s ∷ es) old = stored_after es (some s)
stored_after (item_removed ∷ es) old = stored_after es none
stored_after (forwarded e ∷ es) old = stored_after es old
stored_after (persist_armed ∷ es) old = stored_after es old
stored_after (persist_cleared ∷ es) old = stored_after es old

abbrev pub wanted : QueueSnapshot → Option QueueSnapshot
wanted s = if is_empty_snapshot s then none else some s

stored_lem :
    (s : QueueSnapshot) (old : Option QueueSnapshot)
    → stored_after (stored_as s ∷ []) old ≡ wanted s
unfolding stored_after
stored_lem s old = elim (Bool-cases (is_empty_snapshot s)) [ inl e ↦ rw e refl | inr e ↦ rw e refl ]

persist_now-stored :
    (c : NativeClient) (old : Option QueueSnapshot)
    → c.has_storage ≡ true
    → stored_after (persist_now c).1 old ≡ wanted (snapshot c.queue)
unfolding persist_now stored_after
persist_now-stored c old h = elim (Bool-cases c.persist_timer) [
  | inl e ↦ simp (h, e, stored_after, stored_lem (snapshot c.queue) old)
  | inr e ↦ simp (h, e, stored_lem (snapshot c.queue) old)
]

no_items_lem : {A : Type 0} (xs : List A) → no_items xs ≡ true → xs ≡ []
no_items_lem [] h = refl
no_items_lem (x ∷ xs) h = ground (arith, h)

abbrev snapshot_of : List Str → List Str → List Str → List Chunk → QueueSnapshot
snapshot_of errors traces events retry = record {
  version = 1;
  pending = record { errors = errors; traces = traces; events = events };
  retry = retry;
}

empty_snapshot :
    (f : Chunk → Chunk) (errors traces events : List Str) (retry : List Chunk)
    → is_empty_snapshot (snapshot_of errors traces events retry) ≡ true
    → snapshot_of [] [] [] [] ≡ snapshot_of errors traces events (map f retry)
empty_snapshot f errors traces events retry h =
    let a = &&_true _ _ h in
    let b = &&_true _ _ a.0 in
    let c = &&_true _ _ b.0 in
    rw
      (
        no_items_lem retry c.0,
        no_items_lem errors c.1,
        no_items_lem traces b.1,
        no_items_lem events a.1,
      )
      refl

nothing_restored :
    (env : Env) (options : Options) (q : Queue)
    → is_empty_snapshot (snapshot q) ≡ true
    → snapshot (restore env none (new_queue options))
      ≡ record (snapshot q) { retry = map (due_now env.now) q.retry }
unfolding snapshot restore new_queue
nothing_restored env options q e =
    empty_snapshot (due_now env.now) (texts q.pending.errors) (texts q.pending.traces)
      (texts q.pending.events) q.retry e

wanted-restored :
    (env : Env) (options : Options) (q : Queue)
    → pending_count q ≤ options.max_queue_items
    → snapshot (restore env (wanted (snapshot q)) (new_queue options))
      ≡ record (snapshot q) { retry = map (due_now env.now) q.retry }
wanted-restored env options q h = elim (Bool-cases (is_empty_snapshot (snapshot q))) [
  | inl e ↦ rw e (nothing_restored env options q e)
  | inr e ↦ rw e (snapshot-restore env options q h)
]

-- What `persistNow` leaves in the storage, restored by a new client at the next launch, gives back the
-- same pending items in their order and the same chunks, which are then due; so it is also when there
-- is nothing to keep and the stored text is removed, whatever was stored before.
pub persist_now-restored :
    (env : Env) (options : Options) (c : NativeClient) (old : Option QueueSnapshot)
    → c.has_storage ≡ true
    → pending_count c.queue ≤ options.max_queue_items
    → snapshot (restore env (stored_after (persist_now c).1 old) (new_queue options))
      ≡ record (snapshot c.queue) { retry = map (due_now env.now) c.queue.retry }
persist_now-restored env options c old h fits =
    ap (λ o. snapshot (restore env o (new_queue options))) (persist_now-stored c old h)
    ∙ wanted-restored env options c.queue fits
