-- ===== src/Queue/Paused/Round.antt =====
-- A round of core/src/queue.ts that is running when `pause` is called.
use watchup_v3_packages.Prelude.{
  ◌+◌, ◌≡◌, refl, ap, ◌∙◌, true, List, [], ◌∷◌, ◌++◌, arith, some, length, map,
}
use watchup_v3_packages.Types.{Chunk, SendResult, FlushResult}
use watchup_v3_packages.Queue.State.{Queue, Drain, Env, sent, ◌⨟◌, Effect}
use watchup_v3_packages.Queue.Drain.{
  settle, settle_idle, settle_drain, advance, start_send, conclude, trim, keep_for_retry, backoff,
}
use watchup_v3_packages.Queue.Calls.{pause, was_paused, step, run}
use watchup_v3_packages.Queue.Delivery.{answers_of}

-- The chunks of the requests among the effects, in order.
abbrev pub sent_chunks : List Effect → List Chunk
sent_chunks [] = []
sent_chunks (sent c ∷ effects) = c ∷ sent_chunks effects
sent_chunks (other ∷ effects) = sent_chunks effects

sent_chunks-append :
    (xs ys : List Effect) → sent_chunks (xs ++ ys) ≡ sent_chunks xs ++ sent_chunks ys
sent_chunks-append [] ys = refl
sent_chunks-append (sent c ∷ xs) ys = ap (◌∷◌ c) (sent_chunks-append xs ys)
sent_chunks-append (other ∷ xs) ys = sent_chunks-append xs ys

trim-sent_chunks : (cs : List Chunk) → sent_chunks (trim cs).effects ≡ []
unfolding trim
trim-sent_chunks [] = refl
trim-sent_chunks (c ∷ cs) = ground (arith, trim-sent_chunks cs)

conclude-sent_chunks :
    (env : Env) (res : SendResult) (c : Chunk) (result : FlushResult) (q : Queue)
    → (sent_chunks (conclude env res c result q).effects ≡ [])
      × ((conclude env res c result q).queue.paused ≡ q.paused)
unfolding conclude keep_for_retry
conclude-sent_chunks env res c result q =
    let at = env.now + backoff q.options env.random c.attempts res.retry_after_ms in
    let trimmed = trim-sent_chunks (q.retry ++ record c { next_attempt_at = at } ∷ []) in
    (ground (arith, trimmed), ground arith)

-- A chunk as it goes out.
abbrev pub tried : Chunk → Chunk
tried c = record c { attempts = c.attempts + 1 }

-- The queue after an answer, when the round goes on with `c`.
abbrev next_state : Env → SendResult → Drain → Chunk → List Chunk → Queue → Queue
next_state env res d c todo q =
    let r = conclude env res d.in_flight d.result q in
    record r.queue {
      drain =
          some (record {
            result = r.result;
            in_flight = tried c;
            todo = todo;
            max_bytes = d.max_bytes;
          });
    }

settle_next :
    (env : Env) (res : SendResult) (d : Drain) (c : Chunk) (todo : List Chunk) (q : Queue)
    → q.drain ≡ some d
    → d.todo ≡ c ∷ todo
    → settle env res q ≡ (
      next_state env res d c todo q,
      (conclude env res d.in_flight d.result q).effects ++ sent (tried c) ∷ [],
    )
unfolding settle settle_idle settle_drain advance start_send
settle_next env res d c todo q e f =
    let r = conclude env res d.in_flight d.result q in
    ap (λ o. settle_idle env res o q) e
    ∙ ap (λ cs. (r.queue, r.effects) ⨟ advance env d.max_bytes r.result cs) f

answers_send :
    (todo : List Chunk) (answers : List (Env × SendResult)) (d : Drain) (q : Queue)
    → q.drain ≡ some d
    → d.todo ≡ todo
    → q.paused ≡ true
    → length answers ≡ length todo
    → (sent_chunks (run (answers_of answers) q).1 ≡ map tried todo)
      × ((run (answers_of answers) q).0.paused ≡ true)
unfolding run step
answers_send [] [] d q e f p h = (refl, p)
answers_send [] (a ∷ answers) d q e f p h = ground arith
answers_send (c ∷ todo) [] d q e f p h = ground arith
answers_send (c ∷ todo) (a ∷ answers) d q e f p h =
    let next = settle_next a.0 a.1 d c todo q e f in
    let r = conclude a.0 a.1 d.in_flight d.result q in
    let calm = conclude-sent_chunks a.0 a.1 d.in_flight d.result q in
    let q' = next_state a.0 a.1 d c todo q in
    let rest =
      answers_send todo answers
        (record { result = r.result; in_flight = tried c; todo = todo; max_bytes = d.max_bytes }) q'
        refl refl (calm.1 ∙ p) (omega (arith, h)) in
    (
      ap (λ o. sent_chunks (o.1 ++ (run (answers_of answers) o.0).1)) next
          ∙ sent_chunks-append (r.effects ++ sent (tried c) ∷ []) (run (answers_of answers) q').1
          ∙ ap (λ cs. cs ++ sent_chunks (run (answers_of answers) q').1)
              (sent_chunks-append r.effects (sent (tried c) ∷ [])
                ∙ ap (λ cs. cs ++ tried c ∷ []) calm.0)
          ∙ ap (◌∷◌ (tried c)) rest.0,
      ap (λ o. (run (answers_of answers) o.0).0.paused) next ∙ rest.1,
    )

-- A drain loop that is running goes on when the queue is paused: with as many answers as it has
-- chunks left to send, whatever the answers are, it sends each of these chunks, in order, and the
-- queue is paused all the same.
pub pause_in_drain :
    (env : Env) (answers : List (Env × SendResult)) (d : Drain) (q : Queue)
    → q.drain ≡ some d
    → length answers ≡ length d.todo
    → (sent_chunks (run ((env, was_paused) ∷ answers_of answers) q).1 ≡ map tried d.todo)
      × ((run ((env, was_paused) ∷ answers_of answers) q).0.paused ≡ true)
unfolding run step pause
pause_in_drain env answers d q e h =
    answers_send d.todo answers d (record q { paused = true }) e refl refl h
