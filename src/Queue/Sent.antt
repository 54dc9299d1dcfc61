-- ===== src/Queue/Sent.antt =====
-- What every request of core/src/queue.ts has in common, from what every fresh chunk has and what a
-- failed attempt keeps.
pub mod Steps
pub mod Attempts
use watchup_v3_packages.Prelude.{
  ℕ, zero, suc, ◌+◌, ◌≡◌, refl, sym, subst, ◌∙◌, inl, inr, Bool, true, false, List, [], ◌∷◌, ◌++◌,
  arith, Bool-cases, list_cases, Option, none, some, keep_if, not, ltb, leb, ◌==◌, if◌then◌else◌,
  map, All, All-append, All-keep_if, length,
}
use watchup_v3_packages.Types.{
  Kind, errors, traces, events, get, put, Chunk, SendResult, FlushResult,
}
use watchup_v3_packages.Queue.State.{
  Options, Queue, Drain, Env, Effect, diagnose, sent, settled, changed, Out, ◌⨟◌, done, emit,
  or_default, max_retry_chunks,
}
use watchup_v3_packages.Queue.Bound.{shed, enforce_bound, report_overflow}
use watchup_v3_packages.Queue.Drain.{
  arm_timer, schedule_from, earliest, schedule_retry, cut, backoff, take_pending, start_send,
  finish, is_due, send_all, send_due, begin_round, FlushOptions, flush_idle, flush, trim,
  is_rejected, keep_for_retry, conclude, another_round, advance, settle_drain, settle_idle, settle,
  no_result, Concluded,
}

-- What holds of a chunk between its attempts (`Waits`) and of a chunk as it is sent (`Goes`).
pub record Rules (options : Options) (Waits Goes : Chunk → Type 0) : Type 0 where
  pub fresh : (env : Env) (m : ℕ) (q : Queue) → q.options ≡ options → All Waits (cut env m q)
  pub tried : (c : Chunk) → Waits c → Goes (record c { attempts = c.attempts + 1 })
  pub again :
      (c : Chunk) (at : ℕ)
      → Goes c
      → leb options.max_attempts c.attempts ≡ false
      → Waits (record c { next_attempt_at = at })

module _ {options : Options} {Waits Goes : Chunk → Type 0} (rules : Rules options Waits Goes) where
  abbrev pub InDrain : Option Drain → Type 0
  InDrain none = Unit
  InDrain (some d) = Goes d.in_flight × All Waits d.todo

  pub record IsKept (q : Queue) : Type 0 where
    pub fixed : q.options ≡ options
    pub waiting : All Waits q.retry
    pub draining : InDrain q.drain

  abbrev pub SentWell : Effect → Type 0
  SentWell (sent c) = Goes c
  SentWell other = Unit

  abbrev pub IsFine : Out → Type 0
  IsFine o = IsKept o.0 × All SentWell o.1

  pub IsFine-⨟ :
      (o : Out) (f : Queue → Out)
      → IsFine o
      → ((q : Queue) → IsKept q → IsFine (f q))
      → IsFine (o ⨟ f)
  IsFine-⨟ o f h k = let r = k o.0 h.0 in (r.0, All-append SentWell o.1 (f o.0).1 h.1 r.1)

  report_overflow-IsFine : (q : Queue) → IsKept q → IsFine (report_overflow q)
  unfolding report_overflow
  report_overflow-IsFine q v = ground arith

  arm_timer-IsFine : (env : Env) (next : ℕ) (q : Queue) → IsKept q → IsFine (arm_timer env next q)
  unfolding arm_timer
  arm_timer-IsFine env next q v = ground arith

  schedule_from-IsFine :
      (env : Env) (cs : List Chunk) (q : Queue) → IsKept q → IsFine (schedule_from env cs q)
  unfolding schedule_from
  schedule_from-IsFine env [] q v = (v, tt)
  schedule_from-IsFine env (c ∷ cs) q v = ground (arith, arm_timer-IsFine env (earliest c cs) q v)

  schedule_retry-IsFine : (env : Env) (q : Queue) → IsKept q → IsFine (schedule_retry env q)
  unfolding schedule_retry
  schedule_retry-IsFine env q v = ground (arith, schedule_from-IsFine env q.retry q v)

  shed-IsKept : (k : Kind) (n : ℕ) (q : Queue) → IsKept q → IsKept (shed k n q).queue
  unfolding shed
  shed-IsKept k zero q v = v
  shed-IsKept k (suc n) q v = elim (list_cases (get k q.pending)) [
    | inl e ↦ rw (e, shed) v
    | inr (item, rest, e) ↦
        rw (e, shed)
          (shed-IsKept k n _
            (record { fixed = v.fixed; waiting = v.waiting; draining = v.draining }))
  ]

  pub enforce_bound-IsKept : (q : Queue) → IsKept q → IsKept (enforce_bound q)
  unfolding enforce_bound
  enforce_bound-IsKept q v =
      shed-IsKept errors _ _ (shed-IsKept traces _ _ (shed-IsKept events _ q v))

  finish-IsFine :
      (env : Env) (result : FlushResult) (q : Queue)
      → q.options ≡ options
      → All Waits q.retry
      → IsFine (finish env result q)
  unfolding finish
  finish-IsFine env result q e w =
      IsFine-⨟ (schedule_retry env (record q { drain = none })) (emit (settled result))
        (schedule_retry-IsFine env _ (record { fixed = e; waiting = w; draining = tt }))
        (λ q' v. (v, (tt, tt)))

  start_send-IsFine :
      (m : Option ℕ) (result : FlushResult) (c : Chunk) (todo : List Chunk) (q : Queue)
      → q.options ≡ options
      → All Waits q.retry
      → Waits c
      → All Waits todo
      → IsFine (start_send m result c todo q)
  unfolding start_send
  start_send-IsFine m result c todo q e w hc ht =
      (record { fixed = e; waiting = w; draining = (rules.tried c hc, ht) }, (rules.tried c hc, tt))

  send_all-IsFine :
      (env : Env) (m : Option ℕ) (result : FlushResult) (cs : List Chunk) (q : Queue)
      → q.options ≡ options
      → All Waits q.retry
      → All Waits cs
      → IsFine (send_all env m result cs q)
  unfolding send_all
  send_all-IsFine env m result [] q e w h = finish-IsFine env result q e w
  send_all-IsFine env m result (c ∷ cs) q e w h = start_send-IsFine m result c cs q e w h.0 h.1

  take_pending_options : (q : Queue) → (take_pending q).options ≡ q.options
  unfolding take_pending
  take_pending_options q = ground arith

  take_pending_waiting : (q : Queue) → All Waits q.retry → All Waits (take_pending q).retry
  unfolding take_pending
  take_pending_waiting q w = ground arith

  send_due-IsFine :
      (env : Env) (force : Bool) (m : Option ℕ) (result : FlushResult) (q : Queue)
      → q.options ≡ options
      → All Waits q.retry
      → IsFine (send_due env force m result q)
  unfolding send_due
  send_due-IsFine env force m result q e w =
      let later = keep_if (λ c. not (is_due force env.now c)) q.retry in
      let due = keep_if (is_due force env.now) q.retry in
      let fresh = cut env (or_default m q.options.max_bytes) q in
      send_all-IsFine env m result (due ++ fresh) _
        (take_pending_options (record q { retry = later }) ∙ e)
        (take_pending_waiting (record q { retry = later })
          (All-keep_if Waits (λ c. not (is_due force env.now c)) q.retry w))
        (All-append Waits due fresh (All-keep_if Waits (is_due force env.now) q.retry w)
          (rules.fresh env _ q e))

  report_overflow_retry :
      (q : Queue)
      → ((report_overflow q).0.options ≡ q.options) × ((report_overflow q).0.retry ≡ q.retry)
  unfolding report_overflow
  report_overflow_retry q = ground arith

  report_overflow_sent : (q : Queue) → All SentWell (report_overflow q).1
  unfolding report_overflow
  report_overflow_sent q = ground arith

  begin_round-IsFine :
      (env : Env) (m : Option ℕ) (result : FlushResult) (q : Queue)
      → q.options ≡ options
      → All Waits q.retry
      → IsFine (begin_round env m result q)
  unfolding begin_round
  begin_round-IsFine env m result q e w =
      let q' = record q { rerun = false; force_next = false } in
      let r = report_overflow_retry q' in
      let sent =
        send_due-IsFine env q.force_next m result (report_overflow q').0 (r.0 ∙ e)
          (subst (All Waits) (sym r.1) w) in
      (sent.0, All-append SentWell (report_overflow q').1 _ (report_overflow_sent q') sent.1)

  flush_idle-IsFine :
      (env : Env) (opts : FlushOptions) (o : Option Drain) (q : Queue)
      → IsKept q
      → IsFine (flush_idle env opts o q)
  unfolding flush_idle
  flush_idle-IsFine env opts (some d) q v =
      (record { fixed = v.fixed; waiting = v.waiting; draining = v.draining }, tt)
  flush_idle-IsFine env opts none q v =
      begin_round-IsFine env opts.max_bytes no_result _ v.fixed v.waiting

  pub flush-IsFine :
      (env : Env) (opts : FlushOptions) (q : Queue) → IsKept q → IsFine (flush env opts q)
  unfolding flush
  flush-IsFine env opts q v = ground (arith, flush_idle-IsFine env opts q.drain q v)

  trim_waiting : (cs : List Chunk) → All Waits cs → All Waits (trim cs).retry
  unfolding trim
  trim_waiting [] w = tt
  trim_waiting (c ∷ cs) w = ground (arith, trim_waiting cs w.1)

  trim_sent : (cs : List Chunk) → All SentWell (trim cs).effects
  unfolding trim
  trim_sent [] = tt
  trim_sent (c ∷ cs) = ground (arith, trim_sent cs)

  -- What an answer leaves, without the drain loop's chunks.
  record IsLeft (r : Concluded) : Type 0 where
    fixed : r.queue.options ≡ options
    waiting : All Waits r.queue.retry
    well : All SentWell r.effects

  keep_for_retry-IsLeft :
      (env : Env) (res : SendResult) (c : Chunk) (result : FlushResult) (q : Queue)
      → q.options ≡ options
      → All Waits q.retry
      → Goes c
      → leb q.options.max_attempts c.attempts ≡ false
      → IsLeft (keep_for_retry env res c result q)
  unfolding keep_for_retry
  keep_for_retry-IsLeft env res c result q e w g h =
      let at = env.now + backoff q.options env.random c.attempts res.retry_after_ms in
      let waiting = record c { next_attempt_at = at } in
      let again = rules.again c at g (subst (λ o. leb o.max_attempts c.attempts ≡ false) e h) in
      record {
        fixed = e;
        waiting =
            trim_waiting (q.retry ++ waiting ∷ [])
              (All-append Waits q.retry (waiting ∷ []) w (again, tt));
        well = (tt, trim_sent (q.retry ++ waiting ∷ []));
      }

  conclude-IsLeft :
      (env : Env) (res : SendResult) (c : Chunk) (result : FlushResult) (q : Queue)
      → q.options ≡ options
      → All Waits q.retry
      → Goes c
      → IsLeft (conclude env res c result q)
  unfolding conclude
  conclude-IsLeft env res c result q e w g = elim (Bool-cases res.ok) [
    | inl ok ↦ rw ok (record { fixed = e; waiting = w; well = tt })
    | inr failed ↦ elim (Bool-cases (is_rejected res.status)) [
      | inl rejected ↦ rw (failed, rejected) (record { fixed = e; waiting = w; well = (tt, tt) })
      | inr retryable ↦ elim (Bool-cases (leb q.options.max_attempts c.attempts)) [
        | inl spent ↦
            simp (failed, retryable, spent) (record { fixed = e; waiting = w; well = (tt, tt) })
        | inr more ↦
            simp (failed, retryable, more) (keep_for_retry-IsLeft env res c result q e w g more)
      ]
    ]
  ]

  another_round-IsFine :
      (env : Env) (m : Option ℕ) (result : FlushResult) (q : Queue)
      → q.options ≡ options
      → All Waits q.retry
      → IsFine (another_round env m result q)
  unfolding another_round
  another_round-IsFine env m result q e w = elim (Bool-cases q.rerun) [
    | inl again ↦ simp again (begin_round-IsFine env m result q e w)
    | inr last ↦ simp last (finish-IsFine env result q e w)
  ]

  advance-IsFine :
      (env : Env) (m : Option ℕ) (result : FlushResult) (todo : List Chunk) (q : Queue)
      → q.options ≡ options
      → All Waits q.retry
      → All Waits todo
      → IsFine (advance env m result todo q)
  unfolding advance
  advance-IsFine env m result (c ∷ todo) q e w h = start_send-IsFine m result c todo q e w h.0 h.1
  advance-IsFine env m result [] q e w h =
      let r = another_round-IsFine env m result q e w in (r.0, (tt, r.1))

  settle_drain-IsFine :
      (env : Env) (res : SendResult) (d : Drain) (q : Queue)
      → IsKept q
      → InDrain (some d)
      → IsFine (settle_drain env res d q)
  unfolding settle_drain
  settle_drain-IsFine env res d q v g =
      let r = conclude-IsLeft env res d.in_flight d.result q v.fixed v.waiting g.0 in
      let more =
        advance-IsFine env d.max_bytes (conclude env res d.in_flight d.result q).result d.todo _
          r.fixed r.waiting g.1 in
      (more.0, All-append SentWell _ _ r.well more.1)

  pub settle_idle-IsFine :
      (env : Env) (res : SendResult) (o : Option Drain) (q : Queue)
      → IsKept q
      → InDrain o
      → IsFine (settle_idle env res o q)
  unfolding settle_idle
  settle_idle-IsFine env res none q v g = (v, tt)
  settle_idle-IsFine env res (some d) q v g = settle_drain-IsFine env res d q v g
