-- ===== src/Queue/Shutdown.antt =====
-- The loop of `shutdown` in core/src/queue.ts: flush, then leave or wait for the next retry.
use watchup_v3_packages.Prelude.{
  ℕ, Bool, ◌-◌, ◌≤◌, ◌≡◌, refl, ap, ◌∙◌, true, false, List, [], ◌∷◌, arith, if◌then◌else◌, map,
}
use watchup_v3_packages.Types.{Chunk}
use watchup_v3_packages.Queue.State.{Queue, Env, emit, settled}
use watchup_v3_packages.Queue.Drain.{FlushOptions, earliest, flush, flush_idle, no_result}
use watchup_v3_packages.Queue.Calls.{
  wait, wait_for_retry, after_flush, plain_flush, run, Round, left_or, shutdown_loop,
}

-- A paused queue keeps its state in `flush`.
flush_paused :
    (env : Env) (opts : FlushOptions) (q : Queue) → q.paused ≡ true → (flush env opts q).0 ≡ q
unfolding flush
flush_paused env opts q p =
    ap (λ b. (if b then emit (settled no_result) q else flush_idle env opts q.drain q).0) p

wait_waits :
    (now deadline : ℕ) (c : Chunk) (cs : List Chunk)
    → earliest c cs ≤ deadline
    → wait_for_retry now deadline (c ∷ cs) ≡ wait (earliest c cs - now)
unfolding wait_for_retry
wait_waits now deadline c cs h = ground (arith, h)

after_waits :
    (now deadline : ℕ) (q : Queue) (c : Chunk) (cs : List Chunk)
    → q.retry ≡ c ∷ cs
    → earliest c cs ≤ deadline
    → after_flush now deadline q ≡ wait (earliest c cs - now)
unfolding after_flush
after_waits now deadline q c cs r h =
    ap (wait_for_retry now deadline) r ∙ wait_waits now deadline c cs h

-- A round in which nothing else happens: it begins and is over at any two times.
abbrev pub quiet_round : Env × Env → Round
quiet_round times = record { begun = times.0; between = []; over = times.1 }

-- The loop of `shutdown` on a paused queue with a retry that is due by the deadline: as long as
-- nothing else happens it is not left in any number of rounds, at whatever times they are, past
-- the deadline too, and the queue is as it was.
pub shutdown_paused :
    (times : List (Env × Env)) (deadline : ℕ) (q : Queue) (c : Chunk) (cs : List Chunk)
    → q.paused ≡ true
    → q.retry ≡ c ∷ cs
    → earliest c cs ≤ deadline
    → shutdown_loop deadline (map quiet_round times) q ≡ (q, false)
unfolding shutdown_loop left_or run
shutdown_paused [] deadline q c cs p r h = refl
shutdown_paused (t ∷ times) deadline q c cs p r h =
    let rest : Queue → Queue × Bool = shutdown_loop deadline (map quiet_round times) in
    ap (λ q'. left_or (after_flush t.1.now deadline q') q' (rest q'))
      (flush_paused t.0 plain_flush q p)
    ∙ ap (λ a. left_or a q (rest q)) (after_waits t.1.now deadline q c cs r h)
    ∙ shutdown_paused times deadline q c cs p r h
