-- ===== src/Queue/Asks.antt =====
-- What the clients ask of the queue of core/src/queue.ts: histories of its own operations.
use watchup_v3_packages.Prelude.{
  ◌≡◌, refl, sym, ap, ◌∙◌, List, [], ◌∷◌, ◌++◌, append-nil, append_assoc, All,
}
use watchup_v3_packages.Queue.State.{Queue, Env, Out, ◌⨟◌, done}
use watchup_v3_packages.Queue.Calls.{
  Event, flushed, was_stopped, plain_flush, step, run, begin_shutdown,
}

-- `o` is what some history of the queue's own operations, each of them with `P`, makes of `q`.
pub record Asks (P : Event → Type 0) (q : Queue) (o : Out) : Type 0 where
  pub events : List (Env × Event)
  pub allowed : All (λ e. P e.1) events
  pub same_out : run events q ≡ o

run-append : (es fs : List (Env × Event)) (q : Queue) → run (es ++ fs) q ≡ run es q ⨟ run fs
unfolding run
run-append [] fs q = refl
run-append ((env, e) ∷ es) fs q =
    ap (λ o. step env e q ⨟ (λ r. o)) (run-append es fs (step env e q).0)
    ∙ ap (λ effects. ((run fs (run es (step env e q).0).0).0, effects))
        (sym (
          append_assoc (step env e q).1 (run es (step env e q).0).1
            (run fs (run es (step env e q).0).0).1))

All-append :
    (P : Event → Type 0) (es fs : List (Env × Event))
    → All (λ e. P e.1) es
    → All (λ e. P e.1) fs
    → All (λ e. P e.1) (es ++ fs)
All-append P [] fs h k = k
All-append P (e ∷ es) fs h k = (h.0, All-append P es fs h.1 k)

pub done-Asks : {P : Event → Type 0} (q : Queue) → Asks P q (done q)
unfolding run
done-Asks q = record { events = []; allowed = tt; same_out = refl }

pub step-Asks :
    {P : Event → Type 0} (env : Env) (e : Event) (q : Queue) → P e → Asks P q (step env e q)
unfolding run
step-Asks env e q h = record {
  events = (env, e) ∷ [];
  allowed = (h, tt);
  same_out = ap (λ effects. ((step env e q).0, effects)) (append-nil (step env e q).1);
}

pub chain-Asks :
    {P : Event → Type 0} (q : Queue) (o r : Out)
    → Asks P q o
    → Asks P o.0 r
    → Asks P q (r.0, o.1 ++ r.1)
chain-Asks q o r a b = record {
  events = a.events ++ b.events;
  allowed = All-append _ a.events b.events a.allowed b.allowed;
  same_out =
      run-append a.events b.events q
      ∙ ap (λ p. p ⨟ run b.events) a.same_out
      ∙ ap (λ p. (p.0, o.1 ++ p.1)) b.same_out;
}

pub begin_shutdown-Asks :
    {P : Event → Type 0} (env : Env) (q : Queue)
    → P was_stopped
    → P (flushed plain_flush)
    → Asks P q (begin_shutdown env q)
unfolding begin_shutdown step
begin_shutdown-Asks env q s f =
    let a = step-Asks env was_stopped q s in
    let b = step-Asks env (flushed plain_flush) (step env was_stopped q).0 f in
    chain-Asks q (step env was_stopped q) _ a b
