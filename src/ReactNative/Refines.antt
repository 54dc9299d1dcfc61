-- ===== src/ReactNative/Refines.antt =====
-- react-native/src/client.ts: a client uses its queue only through the queue's operations.
use watchup_v3_packages.Prelude.{
  ℕ, ◌≡◌, refl, sym, ap, subst, ◌∙◌, inl, inr, Bool, true, false, not, List, [], ◌∷◌, ◌++◌, Option,
  Bool-cases, if◌then◌else◌, ◌||◌,
}
use watchup_v3_packages.Utf8.{Str}
use watchup_v3_packages.Json.{Json, Fields, object}
use watchup_v3_packages.Types.{Kind}
use watchup_v3_packages.Queue.State.{Queue, Env, Effect, changed, Out, done}
use watchup_v3_packages.Queue.Drain.{flush}
use watchup_v3_packages.Queue.Calls.{
  Event, enqueued, flushed, was_stopped, resumed, plain_flush, enqueue, step, stop, begin_shutdown,
  QueueSnapshot, snapshot,
}
use watchup_v3_packages.Queue.Asks.{Asks, done-Asks, step-Asks, chain-Asks, begin_shutdown-Asks}
use watchup_v3_packages.Queue.Paused.{IsNotResumed}
use watchup_v3_packages.ReactNative.Client.{
  NativeClient, NativeCall, NativeEffect, forwarded, persist_armed, persist_cleared, item_removed,
  item_set, NativeDone, unaltered, then_native, schedule_persist, on_change, react,
  with_native_queue, clear_persist_timer, is_empty_snapshot, stored_as, put_stored, persist_now,
  flush_native, shutdown_native,
}
use watchup_v3_packages.ReactNative.Capture.{submit_native}
use watchup_v3_packages.ReactNative.Steps.{NativeEvent, network}

-- The effects of the queue among those of the client.
unfoldable pub queue_effects : List NativeEffect → List Effect
queue_effects [] = []
queue_effects (forwarded e ∷ es) = e ∷ queue_effects es
queue_effects (persist_armed ∷ es) = queue_effects es
queue_effects (persist_cleared ∷ es) = queue_effects es
queue_effects (item_removed ∷ es) = queue_effects es
queue_effects (item_set s ∷ es) = queue_effects es

queue_effects-append :
    (xs ys : List NativeEffect) → queue_effects (xs ++ ys) ≡ queue_effects xs ++ queue_effects ys
unfolding queue_effects
queue_effects-append [] ys = refl
queue_effects-append (forwarded e ∷ es) ys = ap (λ r. e ∷ r) (queue_effects-append es ys)
queue_effects-append (persist_armed ∷ es) ys = queue_effects-append es ys
queue_effects-append (persist_cleared ∷ es) ys = queue_effects-append es ys
queue_effects-append (item_removed ∷ es) ys = queue_effects-append es ys
queue_effects-append (item_set s ∷ es) ys = queue_effects-append es ys

abbrev pub native_out : NativeDone → Out
native_out d = (d.0.queue, queue_effects d.1)

-- A part that leaves the queue alone.
abbrev IsAside : NativeClient → NativeDone → Type 0
IsAside c d = native_out d ≡ done c.queue

schedule_persist-IsAside : (c : NativeClient) → IsAside c (schedule_persist c)
unfolding schedule_persist queue_effects
schedule_persist-IsAside c = elim (Bool-cases (not c.has_storage || c.persist_timer)) [
  | inl e ↦ rw e refl
  | inr e ↦ rw e refl
]

on_change-IsAside : (e : Effect) (c : NativeClient) → IsAside c (on_change e c)
unfolding queue_effects
on_change-IsAside changed c = schedule_persist-IsAside c
on_change-IsAside other c = refl

-- What the client does on the queue's effects keeps the queue and forwards the effects in order.
react_out : (es : List Effect) (c : NativeClient) → native_out (react es c) ≡ (c.queue, es)
unfolding react queue_effects
react_out [] c = refl
react_out (e ∷ es) c =
    let aside = on_change-IsAside e c in
    ap (λ r. (((react es (on_change e c).0).0).queue, e ∷ r))
      (queue_effects-append (on_change e c).1 (react es (on_change e c).0).1)
    ∙ ap (λ o. (o.0, e ∷ (queue_effects (on_change e c).1 ++ o.1))) (react_out es (on_change e c).0)
    ∙ ap (λ o. (o.0, e ∷ (o.1 ++ es))) aside

module _ {P : Event → Type 0} where
  pub out-Asks :
      (q : Queue) (o : Out) (d : NativeDone)
      → native_out d ≡ o
      → Asks P q o
      → Asks P q (native_out d)
  out-Asks q o d e a = subst (Asks P q) (sym e) a

  pub with_native_queue-Asks :
      (q : Queue) (c : NativeClient) (o : Out)
      → Asks P q o
      → Asks P q (native_out (with_native_queue c o))
  with_native_queue-Asks q c o a =
      out-Asks q o (with_native_queue c o) (react_out o.1 (record c { queue = o.0 })) a

  pub unaltered-Asks : (c : NativeClient) → Asks P c.queue (native_out (unaltered c))
  unfolding queue_effects
  unaltered-Asks c = done-Asks c.queue

  pub then_native-Asks :
      (q : Queue) (d : NativeDone) (f : NativeClient → NativeDone)
      → Asks P q (native_out d)
      → Asks P d.0.queue (native_out (f d.0))
      → Asks P q (native_out (then_native d f))
  then_native-Asks q d f a b =
      subst (λ r. Asks P q ((f d.0).0.queue, r)) (sym (queue_effects-append d.1 (f d.0).1))
        (chain-Asks q (native_out d) (native_out (f d.0)) a b)

  aside-Asks : (c : NativeClient) (d : NativeDone) → IsAside c d → Asks P c.queue (native_out d)
  aside-Asks c d e = out-Asks c.queue (done c.queue) d e (done-Asks c.queue)

  -- A part under a test.
  pub either-Asks :
      (b : Bool) (q : Queue) (d e : NativeDone)
      → Asks P q (native_out d)
      → Asks P q (native_out e)
      → Asks P q (native_out (if b then d else e))
  either-Asks true q d e x y = x
  either-Asks false q d e x y = y

persist_timer-IsAside : (c : NativeClient) → IsAside c (clear_persist_timer c)
unfolding queue_effects
persist_timer-IsAside c = elim (Bool-cases c.persist_timer) [
  | inl e ↦ simp (e, queue_effects) refl
  | inr e ↦ simp (e, queue_effects) refl
]

stored-IsAside : (c : NativeClient) (s : QueueSnapshot) → IsAside c (c, stored_as s ∷ [])
unfolding queue_effects
stored-IsAside c s = elim (Bool-cases (is_empty_snapshot s)) [
  | inl e ↦ rw e refl
  | inr e ↦ rw e refl
]

-- An event that brings the network back resumes the queue.
abbrev pub Resumes : (Event → Type 0) → NativeEvent → Type 0
Resumes P (network true true) = P resumed
Resumes P other = Unit

module _ (P : Event → Type 0) (others : (e : Event) → IsNotResumed e → P e) where
  pub persist_now-Asks : (c : NativeClient) → Asks P c.queue (native_out (persist_now c))
  unfolding persist_now
  persist_now-Asks c =
      let cleared = clear_persist_timer c in
      either-Asks c.has_storage c.queue (then_native cleared put_stored) (unaltered c)
        (then_native-Asks c.queue cleared put_stored
          (aside-Asks c cleared (persist_timer-IsAside c))
          (aside-Asks cleared.0 (put_stored cleared.0)
            (stored-IsAside cleared.0 (snapshot cleared.0.queue))))
        (unaltered-Asks c)

  pub flush_native-Asks :
      (env : Env) (c : NativeClient) → Asks P c.queue (native_out (flush_native env c))
  unfolding flush_native step
  flush_native-Asks env c =
      with_native_queue-Asks c.queue c (flush env plain_flush c.queue)
        (step-Asks env (flushed plain_flush) c.queue (others (flushed plain_flush) tt))

  pub shutdown_native-Asks :
      (env : Env) (c : NativeClient) → Asks P c.queue (native_out (shutdown_native env c))
  unfolding shutdown_native step
  shutdown_native-Asks env c =
      let shut = record c { closed = true } in
      either-Asks c.closed c.queue (unaltered c)
        (if c.online
          then with_native_queue shut (begin_shutdown env c.queue)
          else with_native_queue shut (stop c.queue))
        (unaltered-Asks c)
        (either-Asks c.online c.queue (with_native_queue shut (begin_shutdown env c.queue))
          (with_native_queue shut (stop c.queue))
          (with_native_queue-Asks c.queue shut (begin_shutdown env c.queue) (
            begin_shutdown-Asks env c.queue (others was_stopped tt)
              (others (flushed plain_flush) tt)))
          (with_native_queue-Asks c.queue shut (stop c.queue)
            (step-Asks env was_stopped c.queue (others was_stopped tt))))

  pub submit_native-Asks :
      (clean : Json → Option Json) (ms_text : ℕ → ℕ → Str) (call : NativeCall) (kind : Kind)
      (payload : Fields) (c : NativeClient)
      → Asks P c.queue (native_out (submit_native clean ms_text call kind payload c))
  unfolding submit_native step
  submit_native-Asks clean ms_text call kind payload c =
      let item = clean (object payload) in
      with_native_queue-Asks c.queue c (enqueue call.env kind item c.queue)
        (step-Asks call.env (enqueued kind item) c.queue (others (enqueued kind item) tt))
