-- ===== src/Queue/Delivery/Answers.antt =====
-- The drain loop of core/src/queue.ts when every request is accepted.
use watchup_v3_packages.Prelude.{
  ℕ, suc, ◌+◌, ◌≡◌, refl, sym, ap, subst, ◌∙◌, inl, inr, true, false, List, [], ◌∷◌, arith,
  Bool-cases, Option, none, some, map, length, sum_of, All, if◌then◌else◌,
}
use watchup_v3_packages.Types.{Chunk, SendResult, FlushResult}
use watchup_v3_packages.Chunker.Count.{items_in}
use watchup_v3_packages.Queue.State.{Queue, Drain, Env, ◌⨟◌, pending_count}
use watchup_v3_packages.Queue.Drain.{
  schedule_from, schedule_retry, start_send, finish, send_all, begin_round, conclude, another_round,
  advance, settle_drain, settle_idle, settle,
}
use watchup_v3_packages.Queue.Calls.{Event, answered, step, run}

-- Nothing waits behind the drain loop.
pub record IsQuiet (q : Queue) : Type 0 where
  pub calm : q.rerun ≡ false
  pub none_waiting : q.retry ≡ []
  pub none_pending : pending_count q ≡ 0

-- The queue has delivered `n` items and is empty.
pub record HasDelivered (n : ℕ) (q : Queue) : Type 0 where
  pub idle : q.drain ≡ none
  pub none_waiting : q.retry ≡ []
  pub none_pending : pending_count q ≡ 0
  pub count : q.delivered ≡ n

abbrev pub answers_of : List (Env × SendResult) → List (Env × Event)
answers_of = map (λ a. (a.0, answered a.1))

abbrev after_ok : Chunk → FlushResult → FlushResult
after_ok c result = record result {
  accepted = result.accepted + 1;
  delivered_items = result.delivered_items + items_in c;
}

conclude_ok :
    (env : Env) (res : SendResult) (c : Chunk) (result : FlushResult) (q : Queue)
    → res.ok ≡ true
    → conclude env res c result q ≡ record {
      queue = record q { delivered = q.delivered + items_in c };
      result = after_ok c result;
      effects = [];
    }
unfolding conclude
conclude_ok env res c result q ok = rw ok refl

settle_ok :
    (env : Env) (res : SendResult) (d : Drain) (q : Queue)
    → q.drain ≡ some d
    → res.ok ≡ true
    → settle env res q
      ≡ advance env d.max_bytes
          (after_ok d.in_flight d.result)
          d.todo
          (record q { delivered = q.delivered + items_in d.in_flight })
unfolding settle settle_idle settle_drain
settle_ok env res d q e ok =
    ap (λ o. settle_idle env res o q) e
    ∙ ap (λ r. (r.queue, r.effects) ⨟ advance env d.max_bytes r.result d.todo)
        (conclude_ok env res d.in_flight d.result q ok)

from_none : (env : Env) (q : Queue) → (schedule_from env [] q).0 ≡ q
unfolding schedule_from
from_none env q = refl

schedule_none : (env : Env) (q : Queue) → q.retry ≡ [] → (schedule_retry env q).0 ≡ q
unfolding schedule_retry
schedule_none env q e = elim (Bool-cases q.stopped) [
  | inl halted ↦ simp halted
  | inr going ↦ simp going (ap (λ cs. (schedule_from env cs q).0) e ∙ from_none env q)
]

finish_quiet :
    (env : Env) (result : FlushResult) (q : Queue)
    → q.retry ≡ []
    → (finish env result q).0 ≡ record q { drain = none }
unfolding finish
finish_quiet env result q e = schedule_none env (record q { drain = none }) e

another_round_quiet :
    (env : Env) (m : Option ℕ) (result : FlushResult) (q : Queue)
    → IsQuiet q
    → (another_round env m result q).0 ≡ record q { drain = none }
unfolding another_round
another_round_quiet env m result q v =
    ap (λ b. (if b then begin_round env m result q else finish env result q).0) v.calm
    ∙ finish_quiet env result q v.none_waiting

-- The queue after a good answer, by the chunks that remain.
after_answer : Drain → List Chunk → Queue → Queue
after_answer d [] q = record q { delivered = q.delivered + items_in d.in_flight; drain = none }
after_answer d (c ∷ todo) q = record q {
  delivered = q.delivered + items_in d.in_flight;
  drain = some (record {
    result = after_ok d.in_flight d.result;
    in_flight = record c { attempts = c.attempts + 1 };
    todo = todo;
    max_bytes = d.max_bytes;
  });
}

advance_quiet :
    (env : Env) (d : Drain) (todo : List Chunk) (q : Queue)
    → IsQuiet q
    → (advance env d.max_bytes
        (after_ok d.in_flight d.result)
        todo
        (record q { delivered = q.delivered + items_in d.in_flight })).0
      ≡ after_answer d todo q
unfolding advance after_answer start_send
advance_quiet env d [] q v =
    another_round_quiet env d.max_bytes _ _
      (record { calm = v.calm; none_waiting = v.none_waiting; none_pending = v.none_pending })
advance_quiet env d (c ∷ todo) q v = refl

settle_quiet :
    (env : Env) (res : SendResult) (d : Drain) (todo : List Chunk) (q : Queue)
    → q.drain ≡ some d
    → d.todo ≡ todo
    → IsQuiet q
    → res.ok ≡ true
    → (settle env res q).0 ≡ after_answer d todo q
settle_quiet env res d todo q e t v ok =
    let q' = record q { delivered = q.delivered + items_in d.in_flight } in
    ap (λ o. o.0) (settle_ok env res d q e ok)
    ∙ ap (λ cs. (advance env d.max_bytes (after_ok d.in_flight d.result) cs q').0) t
    ∙ advance_quiet env d todo q v

-- The rest of a drain loop whose remaining answers are all good.
drain_delivers :
    (todo : List Chunk) (d : Drain) (q : Queue) (answers : List (Env × SendResult))
    → q.drain ≡ some d
    → d.todo ≡ todo
    → IsQuiet q
    → All (λ a. a.1.ok ≡ true) answers
    → length answers ≡ suc (length todo)
    → HasDelivered
        (q.delivered + items_in d.in_flight + sum_of items_in todo)
        (run (answers_of answers) q).0
unfolding run step after_answer
drain_delivers todo d q [] e t v h n = ground arith
drain_delivers [] d q (a ∷ []) e t v h n =
    subst (HasDelivered _) (sym (settle_quiet a.0 a.1 d [] q e t v h.0)) (record {
      idle = refl;
      none_waiting = v.none_waiting;
      none_pending = v.none_pending;
      count = omega arith;
    })
drain_delivers [] d q (a ∷ b ∷ answers) e t v h n = ground arith
drain_delivers (c ∷ todo) d q (a ∷ answers) e t v h n =
    let total_eq : q.delivered + items_in d.in_flight + items_in c + sum_of items_in todo
        ≡ q.delivered + items_in d.in_flight + sum_of items_in (c ∷ todo) =
      omega arith in
    subst
      (λ q'.
        HasDelivered (q.delivered + items_in d.in_flight + sum_of items_in (c ∷ todo))
          (run (answers_of answers) q').0)
      (sym (settle_quiet a.0 a.1 d (c ∷ todo) q e t v h.0))
      (subst (λ k. HasDelivered k (run (answers_of answers) (after_answer d (c ∷ todo) q)).0)
        total_eq
        (drain_delivers todo _ (after_answer d (c ∷ todo) q) answers refl refl
          (record { calm = v.calm; none_waiting = v.none_waiting; none_pending = v.none_pending })
          h.1 (omega (arith, n))))

-- The same from the chunks of a round on.
pub send_all_delivers :
    (env : Env) (m : Option ℕ) (result : FlushResult) (cs : List Chunk) (q : Queue)
    (answers : List (Env × SendResult))
    → q.drain ≡ none
    → IsQuiet q
    → All (λ a. a.1.ok ≡ true) answers
    → length answers ≡ length cs
    → HasDelivered
        (q.delivered + sum_of items_in cs)
        (run (answers_of answers) (send_all env m result cs q).0).0
unfolding send_all start_send run
send_all_delivers env m result [] q [] e v h n =
    subst (HasDelivered _) (sym (finish_quiet env result q v.none_waiting)) (record {
      idle = refl;
      none_waiting = v.none_waiting;
      none_pending = v.none_pending;
      count = omega arith;
    })
send_all_delivers env m result [] q (a ∷ answers) e v h n = ground arith
send_all_delivers env m result (c ∷ cs) q answers e v h n =
    let shape : q.delivered + items_in c + sum_of items_in cs
        ≡ q.delivered + sum_of items_in (c ∷ cs) =
      omega arith in
    subst (λ k. HasDelivered k (run (answers_of answers) (send_all env m result (c ∷ cs) q).0).0)
      shape
      (drain_delivers cs _ _ answers refl refl
        (record { calm = v.calm; none_waiting = v.none_waiting; none_pending = v.none_pending }) h
        n)
