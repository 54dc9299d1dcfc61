-- ===== src/Queue/Credit/Rounds.antt =====
-- The requests of the drain loop of core/src/queue.ts against the credits that it uses up.
use watchup_v3_packages.Prelude.{
  ℕ, ◌+◌, ◌-◌, ◌≤◌, ◌<◌, ◌≡◌, refl, ap, inl, inr, Bool, false, List, [], ◌∷◌, ◌++◌, arith, length,
  sum_of, sum_of-append, Bool-cases, Option, none, some, keep_if, not, leb, All, leb→lt,
}
use watchup_v3_packages.Types.{Chunk, SendResult, FlushResult}
use watchup_v3_packages.Chunker.{ChunkLimits}
use watchup_v3_packages.Chunker.Count.{items_in, total, length-build_chunks}
use watchup_v3_packages.Chunker.Each.{build_chunks-Each}
use watchup_v3_packages.Queue.State.{Queue, Drain, Env, settled, or_default}
use watchup_v3_packages.Queue.Bound.{report_overflow}
use watchup_v3_packages.Queue.Drain.{
  flush_idle, schedule_retry, is_idle, send_due, cut, backoff, take_pending, start_send, finish,
  is_due, send_all, begin_round, FlushOptions, flush, trim, keep_for_retry, conclude, advance,
  settle_drain, settle_idle, another_round, is_rejected, no_result,
}
use watchup_v3_packages.Queue.Flight.{
  is_sent, report_overflow-requests, schedule_retry-IsStill, conclude-requests,
}
use watchup_v3_packages.Queue.Credit.{
  worth, worth-add, worth_mono, worth_one, worth_nil, credit, drain_credit, credits, free, Spends,
  credits-report_overflow, credits-schedule_retry,
}

module _ (m : ℕ) where
  finish-Spends :
      (env : Env) (result : FlushResult) (q : Queue) → Spends m (free m q) (finish env result q)
  unfolding finish
  finish-Spends env result q =
      let alone = record q { drain = none } in
      omega (
        arith,
        (schedule_retry-IsStill env alone).0,
        credits-schedule_retry m env alone,
        sum_of-append is_sent (schedule_retry env alone).1 (settled result ∷ []),
      )

  start_send-Spends :
      (o : Option ℕ) (result : FlushResult) (c : Chunk) (todo : List Chunk) (q : Queue)
      → Spends m (free m q + sum_of (credit m) (c ∷ todo)) (start_send o result c todo q)
  unfolding start_send credits
  start_send-Spends o result c todo q = omega arith

  send_all-Spends :
      (env : Env) (o : Option ℕ) (result : FlushResult) (cs : List Chunk) (q : Queue)
      → Spends m (free m q + sum_of (credit m) cs) (send_all env o result cs q)
  unfolding send_all
  send_all-Spends env o result [] q = omega (arith, finish-Spends env result q)
  send_all-Spends env o result (c ∷ cs) q = start_send-Spends o result c cs q

  keep_if-credit :
      (p : Chunk → Bool) (cs : List Chunk)
      → sum_of (credit m) (keep_if p cs) + sum_of (credit m) (keep_if (λ c. not (p c)) cs)
        ≡ sum_of (credit m) cs
  keep_if-credit p [] = refl
  keep_if-credit p (c ∷ cs) = elim (Bool-cases (p c)) [
    | inl hit ↦ rw (hit, keep_if) (omega (arith, keep_if-credit p cs))
    | inr miss ↦ rw (miss, keep_if) (omega (arith, keep_if-credit p cs))
  ]

  fresh_credit :
      (cs : List Chunk)
      → 1 ≤ m
      → All (λ c. c.attempts ≡ 0) cs
      → sum_of (credit m) cs ≤ worth m (length cs)
  unfolding worth
  fresh_credit [] one h = omega arith
  fresh_credit (c ∷ cs) one h =
      omega (arith, fresh_credit cs one h.1, h.0, worth-add m 1 (length cs), worth_one m, one)

  -- The chunks that are cut have no more credit than the items had.
  cut_credit :
      (env : Env) (limit : ℕ) (q : Queue)
      → 1 ≤ m
      → sum_of (credit m) (cut env limit q) + worth m (total (take_pending q).pending)
        ≤ worth m (total q.pending)
  unfolding cut take_pending
  cut_credit env limit q one = elim (Bool-cases (is_idle q)) [
    | inl idle ↦ rw idle (omega arith)
    | inr busy ↦ rw busy (
        let limits : ChunkLimits = record { max_bytes = limit; max_items = q.options.max_items } in
        omega (
          arith,
          worth_nil m,
          fresh_credit _ one (
              build_chunks-Each env.base limits env.batch_id env.sent_at env.now
                (λ c. c.attempts ≡ 0) (λ i groups. refl) q.pending),
          worth_mono m _ _
              (length-build_chunks env.base limits env.batch_id env.sent_at env.now q.pending),
        ))
  ]

  taken_free :
      (q : Queue) (cs : List Chunk)
      → free m (take_pending (record q { retry = cs }))
          + worth m (total q.pending)
          + sum_of (credit m) q.retry
        ≡ free m q + sum_of (credit m) cs + worth m (total (take_pending q).pending)
  unfolding take_pending credits
  taken_free q cs = ground arith

  send_due-Spends :
      (env : Env) (force : Bool) (o : Option ℕ) (result : FlushResult) (q : Queue)
      → 1 ≤ m
      → Spends m (free m q) (send_due env force o result q)
  unfolding send_due
  send_due-Spends env force o result q one =
      let due = keep_if (is_due force env.now) q.retry in
      let later = keep_if (λ c. not (is_due force env.now c)) q.retry in
      let limit = or_default o q.options.max_bytes in
      omega (
        arith,
        send_all-Spends env o result (due ++ cut env limit q)
            (take_pending (record q { retry = later })),
        sum_of-append (credit m) due (cut env limit q),
        keep_if-credit (is_due force env.now) q.retry,
        cut_credit env limit q one,
        taken_free q later,
      )

  begin_round-Spends :
      (env : Env) (o : Option ℕ) (result : FlushResult) (q : Queue)
      → 1 ≤ m
      → Spends m (free m q) (begin_round env o result q)
  unfolding begin_round credits
  begin_round-Spends env o result q one =
      let q' = record q { rerun = false; force_next = false } in
      let reported = report_overflow q' in
      omega (
        arith,
        report_overflow-requests q',
        credits-report_overflow m q',
        send_due-Spends env q.force_next o result reported.0 one,
        sum_of-append is_sent reported.1 (send_due env q.force_next o result reported.0).1,
      )

  trim-credit : (cs : List Chunk) → sum_of (credit m) (trim cs).retry ≤ sum_of (credit m) cs
  unfolding trim
  trim-credit [] = omega arith
  trim-credit (c ∷ cs) = ground (arith, trim-credit cs)

  keep_for_retry-free :
      (env : Env) (res : SendResult) (c : Chunk) (result : FlushResult) (q : Queue)
      → c.attempts < m
      → free m (keep_for_retry env res c result q).queue ≤ free m q + (m - c.attempts)
  unfolding keep_for_retry credits
  keep_for_retry-free env res c result q more =
      let waiting = record c {
        next_attempt_at = env.now + backoff q.options env.random c.attempts res.retry_after_ms;
      } in
      omega (
        arith,
        more,
        trim-credit (q.retry ++ waiting ∷ []),
        sum_of-append (credit m) q.retry (waiting ∷ []),
      )

  delivered_free : (q : Queue) (n more : ℕ) → free m (record q { delivered = n }) ≤ free m q + more
  unfolding credits
  delivered_free q n more = omega arith

  conclude-free :
      (env : Env) (res : SendResult) (c : Chunk) (result : FlushResult) (q : Queue)
      → q.options.max_attempts ≤ m
      → free m (conclude env res c result q).queue ≤ free m q + (m - c.attempts)
  unfolding conclude
  conclude-free env res c result q h = elim (Bool-cases res.ok) [
    | inl ok ↦ rw ok (delivered_free q (q.delivered + items_in c) (m - c.attempts))
    | inr failed ↦ elim (Bool-cases (is_rejected res.status)) [
      | inl rejected ↦ rw (failed, rejected) (omega arith)
      | inr retryable ↦ elim (Bool-cases (leb q.options.max_attempts c.attempts)) [
        | inl spent ↦ simp (failed, retryable, spent) (omega arith)
        | inr more ↦
            simp (failed, retryable, more)
              (keep_for_retry-free env res c result q
                (omega (arith, h, leb→lt q.options.max_attempts c.attempts more)))
      ]
    ]
  ]

  another_round-Spends :
      (env : Env) (o : Option ℕ) (result : FlushResult) (q : Queue)
      → 1 ≤ m
      → Spends m (free m q) (another_round env o result q)
  unfolding another_round credits
  another_round-Spends env o result q one = elim (Bool-cases q.rerun) [
    | inl again ↦ simp again (begin_round-Spends env o result q one)
    | inr last ↦ simp last (finish-Spends env result q)
  ]

  advance-Spends :
      (env : Env) (o : Option ℕ) (result : FlushResult) (todo : List Chunk) (q : Queue)
      → 1 ≤ m
      → Spends m (free m q + sum_of (credit m) todo) (advance env o result todo q)
  unfolding advance
  advance-Spends env o result (c ∷ todo) q one = start_send-Spends o result c todo q
  advance-Spends env o result [] q one = omega (arith, another_round-Spends env o result q one)

  credits_split : (q : Queue) → credits m q ≡ free m q + drain_credit m q.drain
  unfolding credits
  credits_split q = omega arith

  pub settle_idle-Spends :
      (env : Env) (res : SendResult) (o : Option Drain) (q : Queue)
      → 1 ≤ m
      → q.options.max_attempts ≤ m
      → q.drain ≡ o
      → Spends m (credits m q) (settle_idle env res o q)
  unfolding settle_idle settle_drain
  settle_idle-Spends env res none q one h e = omega arith
  settle_idle-Spends env res (some d) q one h e =
      let r = conclude env res d.in_flight d.result q in
      omega (
        arith,
        credits_split q,
        ap (drain_credit m) e,
        conclude-requests env res d.in_flight d.result q,
        conclude-free env res d.in_flight d.result q h,
        advance-Spends env d.max_bytes r.result d.todo r.queue one,
        sum_of-append is_sent r.effects (advance env d.max_bytes r.result d.todo r.queue).1,
      )

  flush_idle-Spends :
      (env : Env) (opts : FlushOptions) (o : Option Drain) (q : Queue)
      → 1 ≤ m
      → q.drain ≡ o
      → Spends m (credits m q) (flush_idle env opts o q)
  unfolding flush_idle credits
  flush_idle-Spends env opts (some d) q one e = omega arith
  flush_idle-Spends env opts none q one e = omega (
    arith,
    ap (drain_credit m) e,
    begin_round-Spends env opts.max_bytes no_result (record q { force_next = opts.force }) one,
  )

  pub flush-Spends :
      (env : Env) (opts : FlushOptions) (q : Queue)
      → 1 ≤ m
      → Spends m (credits m q) (flush env opts q)
  unfolding flush
  flush-Spends env opts q one = ground (arith, flush_idle-Spends env opts q.drain q one refl)
