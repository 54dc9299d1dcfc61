-- ===== src/Queue/Delivery.antt =====
-- What a flush of core/src/queue.ts achieves when every request is accepted.
mod Answers
pub use Answers.*
use watchup_v3_packages.Prelude.{
  ℕ, suc, ◌+◌, ◌≡◌, refl, sym, ap, subst, ◌∙◌, inl, inr, Bool, true, false, List, [], ◌∷◌, ◌++◌,
  arith, Bool-cases, ◌==◌, Option, none, some, keep_if, not, leb→le, map, length, sum_of,
  sum_of-append, All, if◌then◌else◌,
}
use watchup_v3_packages.Types.{Chunk, SendResult, FlushResult}
use watchup_v3_packages.Chunker.Count.{items_in, total}
use watchup_v3_packages.Queue.State.{
  Queue, Drain, Env, settled, Out, ◌⨟◌, emit, or_default, pending_count, retrying_count,
}
use watchup_v3_packages.Queue.Bound.{overflow_count, report_overflow}
use watchup_v3_packages.Queue.Drain.{
  schedule_from, schedule_retry, cut, take_pending, start_send, finish, is_idle, is_due, send_all,
  send_due, begin_round, FlushOptions, flush_idle, flush, conclude, another_round, advance,
  settle_drain, settle_idle, settle, no_result,
}
use watchup_v3_packages.Queue.Calls.{Event, answered, flushed, step, run}
use watchup_v3_packages.Queue.Balance.{cut-total}

-- All chunks are due when the flush is forced.
forced_due : (now : ℕ) (cs : List Chunk) → keep_if (is_due true now) cs ≡ cs
forced_due now [] = refl
forced_due now (c ∷ cs) = ap (◌∷◌ c) (forced_due now cs)

forced_later : (now : ℕ) (cs : List Chunk) → keep_if (λ c. not (is_due true now c)) cs ≡ []
forced_later now [] = refl
forced_later now (c ∷ cs) = forced_later now cs

take_pending-IsQuiet : (q : Queue) → q.rerun ≡ false → q.retry ≡ [] → IsQuiet (take_pending q)
unfolding take_pending
take_pending-IsQuiet q r e = elim (Bool-cases (is_idle q)) [
  | inl idle ↦ simp idle (record {
    calm = r;
    none_waiting = e;
    none_pending = omega (arith, leb→le (pending_count q) 0 idle);
  })
  | inr busy ↦ simp busy (record { calm = r; none_waiting = e; none_pending = refl })
]

take_pending_count : (q : Queue) → total (take_pending q).pending ≡ 0
unfolding take_pending
take_pending_count q = elim (Bool-cases (is_idle q)) [
  | inl idle ↦ simp idle (omega (arith, leb→le (pending_count q) 0 idle))
  | inr busy ↦ simp busy
]

take_pending_rest :
    (q : Queue) → ((take_pending q).drain ≡ q.drain) × ((take_pending q).delivered ≡ q.delivered)
unfolding take_pending
take_pending_rest q = ground arith

-- The chunks of a forced round: those that wait, then the pending items.
abbrev pub round_chunks : Env → Option ℕ → Queue → List Chunk
round_chunks env m q = q.retry ++ cut env (or_default m q.options.max_bytes) q

cut_items :
    (env : Env) (m : Option ℕ) (q : Queue)
    → sum_of items_in (round_chunks env m q) ≡ retrying_count q + pending_count q
unfolding retrying_count
cut_items env m q =
    let limit = or_default m q.options.max_bytes in
    omega (
      arith,
      sum_of-append items_in q.retry (cut env limit q),
      cut-total env limit q,
      take_pending_count q,
    )

send_due_delivers :
    (env : Env) (m : Option ℕ) (result : FlushResult) (q : Queue)
    (answers : List (Env × SendResult))
    → q.drain ≡ none
    → q.rerun ≡ false
    → All (λ a. a.1.ok ≡ true) answers
    → length answers ≡ length (round_chunks env m q)
    → HasDelivered
        (q.delivered + (retrying_count q + pending_count q))
        (run (answers_of answers) (send_due env true m result q).0).0
unfolding send_due
send_due_delivers env m result q answers e r h n =
    let emptied = take_pending (record q { retry = [] }) in
    let rest = take_pending_rest (record q { retry = [] }) in
    let sent =
      send_all_delivers env m result (round_chunks env m q) emptied answers (rest.0 ∙ e)
        (take_pending-IsQuiet (record q { retry = [] }) r refl) h n in
    subst (λ k. HasDelivered k (run (answers_of answers) (send_due env true m result q).0).0)
      (omega (arith, rest.1, cut_items env m q))
      (subst
        (λ later.
          HasDelivered (emptied.delivered + sum_of items_in (round_chunks env m q))
            (run (answers_of answers)
              (send_all env m result
                (keep_if (is_due true env.now) q.retry
                  ++ cut env (or_default m q.options.max_bytes) q)
                (take_pending (record q { retry = later }))).0).0)
        (sym (forced_later env.now q.retry))
        (subst
          (λ due.
            HasDelivered (emptied.delivered + sum_of items_in (round_chunks env m q))
              (run (answers_of answers)
                (send_all env m result (due ++ cut env (or_default m q.options.max_bytes) q)
                  emptied).0).0)
          (sym (forced_due env.now q.retry)) sent))

-- Reporting an overflow changes nothing but the overflow counters.
report_overflow_same :
    (q : Queue) → (report_overflow q).0 ≡ record q { overflow = (report_overflow q).0.overflow }
unfolding report_overflow
report_overflow_same q = elim (Bool-cases (overflow_count q == 0)) [
  | inl clear ↦ simp clear
  | inr over ↦ simp over
]

begin_round_delivers :
    (env : Env) (m : Option ℕ) (result : FlushResult) (q : Queue)
    (answers : List (Env × SendResult))
    → q.drain ≡ none
    → q.force_next ≡ true
    → All (λ a. a.1.ok ≡ true) answers
    → length answers ≡ length (round_chunks env m q)
    → HasDelivered
        (q.delivered + (retrying_count q + pending_count q))
        (run (answers_of answers) (begin_round env m result q).0).0
unfolding begin_round cut retrying_count
begin_round_delivers env m result q answers e f h n =
    let q' = record q { rerun = false; force_next = false } in
    let goal : Bool → Queue → Type 0 = λ force r.
      HasDelivered (q.delivered + (retrying_count q + pending_count q))
        (run (answers_of answers) (send_due env force m result r).0).0 in
    subst (λ b. goal b (report_overflow q').0) (sym f)
      (subst (goal true) (sym (report_overflow_same q')) (
        send_due_delivers env m result (record q' { overflow = (report_overflow q').0.overflow })
          answers e refl h n))

-- On a queue that is not paused and sends nothing else, a forced flush whose requests are all
-- accepted, one answer for each waiting chunk and each chunk cut from the pending items, ends
-- idle and empty, and has delivered every item that was pending or waiting.
pub flush_delivers :
    (env : Env) (m : Option ℕ) (q : Queue) (answers : List (Env × SendResult))
    → q.drain ≡ none
    → q.paused ≡ false
    → All (λ a. a.1.ok ≡ true) answers
    → length answers ≡ length (round_chunks env m q)
    → HasDelivered
        (q.delivered + (retrying_count q + pending_count q))
        (run ((env, flushed (record { force = true; max_bytes = m })) ∷ answers_of answers) q).0
unfolding run step flush flush_idle cut retrying_count
flush_delivers env m q answers e p h n =
    let opts : FlushOptions = record { force = true; max_bytes = m } in
    let end_state : Out → Type 0 = λ o.
      HasDelivered (q.delivered + (retrying_count q + pending_count q))
        (run (answers_of answers) o.0).0 in
    subst (λ b. end_state (if b then emit (settled no_result) q else flush_idle env opts q.drain q))
      (sym p)
      (subst (λ o. end_state (flush_idle env opts o q)) (sym e)
        (begin_round_delivers env m no_result (record q { force_next = true }) answers e refl h n))
