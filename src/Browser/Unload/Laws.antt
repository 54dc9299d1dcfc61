-- ===== src/Browser/Unload/Laws.antt =====
-- browser/src/watchup.ts: no chunk is lost when a page is left and the storage has room.
use watchup_v3_packages.Prelude.{
  append-nil, if◌then◌else◌, ◌&&◌, leb, ℕ, ◌+◌, ◌≤◌, ◌≡◌, refl, sym, ap, subst, ◌∙◌, inl, inr, Bool,
  true, false, List, [], ◌∷◌, ◌++◌, arith, All, All-weaken, Bool-cases, any, sum_of, sum_of-append,
  same, same_refl, same_iff, ◌||◌, ◌&&◌, leb, length,
}
use watchup_v3_packages.Utf8.{Str}
use watchup_v3_packages.Types.{Chunk}
use watchup_v3_packages.Queue.State.{Effect, changed, took, timer_cancelled, emit, done, Queue, Env}
use watchup_v3_packages.Queue.Drain.{cut}
use watchup_v3_packages.Queue.Calls.{take_all}
use watchup_v3_packages.Browser.WebQueue.{beacon_max_bytes, WebQueue, Batch, drain}
use watchup_v3_packages.Browser.Unsent.{
  max_stored_bytes, Stored, Storage, has_key, without, total_bytes, shift_over, stored_of, read,
  saved_list, save_unsent,
}
use watchup_v3_packages.Browser.Unsent.Laws.{IsWorking, read-write, any-last, save_unsent-IsSaved}
use watchup_v3_packages.Browser.Unload.{
  UnloadEffect, beaconed, fetched, reported, web_beaconed, web_fetched, send_webs,
  send_web_on_unload, batch_body, report_unless, beacon_chunk, keep_chunk, unload_chunk,
  unload_chunks, taken_chunks, unload,
}

-- The chunks that the browser did not take, and the number of reports.
unfoldable pub refused : List UnloadEffect → List Chunk
refused [] = []
refused (fetched c ∷ es) = c ∷ refused es
refused (e ∷ es) = refused es

-- The chunks that the beacon does not take, from the answers of the browser; `n` is the first's number.
unfoldable pub refused_by : (ℕ → Bool) → ℕ → List Chunk → List Chunk
refused_by answers n [] = []
refused_by answers n (c ∷ cs) =
    let rest = refused_by answers (n + 1) cs in
    if leb c.bytes 61_440 && answers n then rest else c ∷ rest

refused_by-cons :
    (answers : ℕ → Bool) (n : ℕ) (c : Chunk) (cs : List Chunk)
    → refused_by answers n (c ∷ []) ++ refused_by answers (n + 1) cs ≡ refused_by answers n (c ∷ cs)
unfolding refused_by
refused_by-cons answers n c cs = elim (Bool-cases (leb c.bytes 61_440 && answers n)) [
  | inl given ↦ rw given refl
  | inr other ↦ rw other refl
]

kept_refuses_none : (b : Bool) (c : Chunk) → refused (report_unless b c) ≡ []
unfolding refused
kept_refuses_none true c = refl
kept_refuses_none false c = refl

taken_chunks-timer :
    (b : Bool) (q : Queue) (es : List Effect)
    → taken_chunks ((if b then emit timer_cancelled q else done q).1 ++ es) ≡ taken_chunks es
unfolding taken_chunks
taken_chunks-timer true q es = refl
taken_chunks-timer false q es = refl

taken_chunks-take_all :
    (env : Env) (q : Queue)
    → taken_chunks (take_all env beacon_max_bytes q).1 ≡ q.retry ++ cut env 61_440 q
unfolding take_all taken_chunks
taken_chunks-take_all env q =
    let chunks = q.retry ++ cut env 61_440 q in
    taken_chunks-timer q.retry_timer q (changed ∷ took chunks ∷ []) ∙ append-nil chunks

abbrev pub is_report : UnloadEffect → ℕ
is_report (reported n) = 1
is_report other = 0

abbrev pub chunk_bytes : List Chunk → ℕ
chunk_bytes = sum_of (λ c. c.bytes)

without_bytes : (key : Str) (list : List Stored) → total_bytes (without key list) ≤ total_bytes list
without_bytes key [] = omega arith
without_bytes key (c ∷ list) = ground (arith, without_bytes key list)

shift_over_fits :
    (list : List Stored)
    → total_bytes list ≤ max_stored_bytes
    → shift_over (total_bytes list) list ≡ list
unfolding shift_over
shift_over_fits [] h = refl
shift_over_fits (c ∷ list) h = ground (arith, h)

-- A key that is stored stays stored when a chunk is put behind the others.
any-behind :
    (key : Str) (c : Chunk) (list : List Stored)
    → any (has_key key) list ≡ true
    → any (has_key key) (without c.idempotency_key list ++ stored_of c ∷ []) ≡ true
any-behind key c [] h = ground (arith, h)
any-behind key c (d ∷ list) h = elim (Bool-cases (same d.idempotency_key key)) [
  | inl k ↦ elim (Bool-cases (same d.idempotency_key c.idempotency_key)) [
    | inl e ↦
        let own = (same_iff c.idempotency_key key).1 (
          sym ((same_iff d.idempotency_key c.idempotency_key).0 e)
          ∙ (same_iff d.idempotency_key key).0 k) in
        ground (arith, e, any-last (has_key key) (without c.idempotency_key list) (stored_of c) own)
    | inr e ↦ ground (arith, e, k)
  ]
  | inr k ↦
      let tail : any (has_key key) list ≡ true = ground (arith, k, h) in
      let later = any-behind key c list tail in
      elim (Bool-cases (same d.idempotency_key c.idempotency_key)) [
        | inl e ↦ ground (arith, e, later)
        | inr e ↦ ground (arith, e, k, later)
      ]
]

any_more :
    (d : Stored) (key : Str) (list : List Stored)
    → any (has_key key) list ≡ true
    → any (has_key key) (d ∷ list) ≡ true
any_more d key list h = ground (arith, h)

own_keys : (list : List Stored) → All (λ d. any (has_key d.idempotency_key) list ≡ true) list
own_keys [] = tt
own_keys (d ∷ list) = (
  ap (λ b. b || any (has_key d.idempotency_key) list) (same_refl d.idempotency_key),
  All-weaken
      (λ e (h : any (has_key e.idempotency_key) list ≡ true). any_more d e.idempotency_key list h)
      list (own_keys list),
)

module _ {S : Type 0} (storage : Storage S) (working : IsWorking storage) (answers : ℕ → Bool) where
  -- While the storage has room, `saveUnsent` puts the chunk behind the others.
  read-save_unsent :
      (c : Chunk) (s : S)
      → total_bytes (read storage s) + c.bytes ≤ max_stored_bytes
      → read storage (save_unsent storage c s).0
        ≡ without c.idempotency_key (read storage s) ++ stored_of c ∷ []
  unfolding save_unsent saved_list
  read-save_unsent c s fits =
      let list = without c.idempotency_key (read storage s) ++ stored_of c ∷ [] in
      read-write storage working (saved_list storage c s) s
      ∙ shift_over_fits list (
          omega (
            arith,
            fits,
            without_bytes c.idempotency_key (read storage s),
            sum_of-append (λ d. d.bytes) (without c.idempotency_key (read storage s))
                (stored_of c ∷ []),
          ))

  -- What one chunk does: the stored bytes grow by no more than its own, what is stored stays stored,
  -- and the chunk itself is stored unless the browser took it.
  record IsKept (c : Chunk) (s : S) (o : S × List UnloadEffect) : Type 0 where
    room : total_bytes (read storage o.0) ≤ total_bytes (read storage s) + c.bytes
    stays :
        (key : Str)
        → any (has_key key) (read storage s) ≡ true
        → any (has_key key) (read storage o.0) ≡ true
    silent : sum_of is_report o.1 ≡ 0
    stored : All (λ d. any (has_key d.idempotency_key) (read storage o.0) ≡ true) (refused o.1)

  save_unsent-stored :
      (c : Chunk) (s : S)
      → total_bytes (read storage s) + c.bytes ≤ max_stored_bytes
      → any (has_key c.idempotency_key) (read storage (save_unsent storage c s).0) ≡ true
  save_unsent-stored c s fits =
      ap (any (has_key c.idempotency_key)) (read-save_unsent c s fits)
      ∙ any-last (has_key c.idempotency_key) (without c.idempotency_key (read storage s))
          (stored_of c) (same_refl c.idempotency_key)

  keep_chunk-IsKept :
      (c : Chunk) (s : S)
      → total_bytes (read storage s) + c.bytes ≤ max_stored_bytes
      → IsKept c s (keep_chunk storage answers c s)
  unfolding refused
  keep_chunk-IsKept c s fits =
      let after = read-save_unsent c s fits in
      let small : c.bytes ≤ max_stored_bytes = omega (arith, fits) in
      let yes = (save_unsent-IsSaved storage working c s).result_iff.1 small in
      record {
        room = omega (
          arith,
          ap total_bytes after,
          without_bytes c.idempotency_key (read storage s),
          sum_of-append (λ d. d.bytes) (without c.idempotency_key (read storage s))
              (stored_of c ∷ []),
        );
        stays = λ key h. ap (any (has_key key)) after ∙ any-behind key c (read storage s) h;
        silent = omega (arith, ap (λ b. sum_of is_report (report_unless b c)) yes);
        stored = (
          save_unsent-stored c s fits,
          subst
              (λ b.
                All
                  (λ d.
                    any (has_key d.idempotency_key) (read storage (save_unsent storage c s).0)
                    ≡ true)
                  (refused (report_unless b c)))
              (sym yes) tt,
        );
      }

  unload_chunk-IsKept :
      (n : ℕ) (c : Chunk) (s : S)
      → total_bytes (read storage s) + c.bytes ≤ max_stored_bytes
      → IsKept c s (unload_chunk storage answers n c s)
  unfolding unload_chunk refused
  unload_chunk-IsKept n c s fits = elim (Bool-cases (beacon_chunk storage answers n c)) [
    | inl took_it ↦
        rw took_it (record { room = omega arith; stays = λ key h. h; silent = refl; stored = tt })
    | inr refused_it ↦ rw refused_it (keep_chunk-IsKept c s fits)
  ]

  refused-append : (xs ys : List UnloadEffect) → refused (xs ++ ys) ≡ refused xs ++ refused ys
  unfolding refused
  refused-append [] ys = refl
  refused-append (fetched c ∷ xs) ys = ap (λ r. c ∷ r) (refused-append xs ys)
  refused-append (beaconed c ∷ xs) ys = refused-append xs ys
  refused-append (reported n ∷ xs) ys = refused-append xs ys
  refused-append (web_beaconed body ∷ xs) ys = refused-append xs ys
  refused-append (web_fetched body ∷ xs) ys = refused-append xs ys

  All-both : (P : Chunk → Type 0) (xs ys : List Chunk) → All P xs → All P ys → All P (xs ++ ys)
  All-both P [] ys h k = k
  All-both P (x ∷ xs) ys h k = (h.0, All-both P xs ys h.1 k)

  -- The chunks of a whole unload, together.
  record AreKept (cs : List Chunk) (s : S) (o : S × List UnloadEffect) : Type 0 where
    stays :
        (key : Str)
        → any (has_key key) (read storage s) ≡ true
        → any (has_key key) (read storage o.0) ≡ true
    silent : sum_of is_report o.1 ≡ 0
    stored : All (λ d. any (has_key d.idempotency_key) (read storage o.0) ≡ true) (refused o.1)

  unload_chunks-AreKept :
      (n : ℕ) (cs : List Chunk) (s : S)
      → total_bytes (read storage s) + chunk_bytes cs ≤ max_stored_bytes
      → AreKept cs s (unload_chunks storage answers n cs s)
  unfolding unload_chunks refused
  unload_chunks-AreKept n [] s fits = record { stays = λ key h. h; silent = refl; stored = tt }
  unload_chunks-AreKept n (c ∷ cs) s fits =
      let first = unload_chunk storage answers n c s in
      let rest = unload_chunks storage answers (n + 1) cs first.0 in
      let a = unload_chunk-IsKept n c s (omega (arith, fits)) in
      let b = unload_chunks-AreKept (n + 1) cs first.0 (omega (arith, fits, a.room)) in
      let IsIn : Chunk → Type 0 =
        λ d. any (has_key d.idempotency_key) (read storage rest.0) ≡ true in
      record {
        stays = λ key h. b.stays key (a.stays key h);
        silent = omega (arith, a.silent, b.silent, sum_of-append is_report first.1 rest.1);
        stored = subst (All IsIn) (sym (refused-append first.1 rest.1)) (
            All-both IsIn (refused first.1) (refused rest.1)
              (All-weaken (λ d h. b.stays d.idempotency_key h) (refused first.1) a.stored)
              b.stored);
      }

  -- The batches of page views refuse and report nothing here.
  send_webs-silent :
      (n : ℕ) (bs : List Batch)
      → (refused (send_webs storage answers n bs) ≡ [])
        × (sum_of is_report (send_webs storage answers n bs) ≡ 0)
  unfolding send_webs send_web_on_unload refused
  send_webs-silent n [] = (refl, refl)
  send_webs-silent n (b ∷ bs) =
      let later = send_webs-silent (n + 1) bs in
      elim (Bool-cases (leb (length (batch_body b)) beacon_max_bytes && answers n)) [
        | inl e ↦ rw (e, refused) (later.0, omega (arith, later.1))
        | inr e ↦ rw (e, refused) (later.0, omega (arith, later.1))
      ]

  refused-unload_chunk :
      (n : ℕ) (c : Chunk) (s : S)
      → refused (unload_chunk storage answers n c s).1 ≡ refused_by answers n (c ∷ [])
  unfolding unload_chunk refused refused_by
  refused-unload_chunk n c s = elim (Bool-cases (beacon_chunk storage answers n c)) [
    | inl given ↦ rw given refl
    | inr other ↦ rw other (ap (λ r. c ∷ r) (kept_refuses_none (save_unsent storage c s).1 c))
  ]

  refused-unload_chunks :
      (n : ℕ) (cs : List Chunk) (s : S)
      → refused (unload_chunks storage answers n cs s).1 ≡ refused_by answers n cs
  unfolding unload_chunks refused refused_by
  refused-unload_chunks n [] s = refl
  refused-unload_chunks n (c ∷ cs) s =
      let first = unload_chunk storage answers n c s in
      refused-append first.1 (unload_chunks storage answers (n + 1) cs first.0).1
      ∙ ap (λ r. r ++ refused (unload_chunks storage answers (n + 1) cs first.0).1)
          (refused-unload_chunk n c s)
      ∙ ap (λ r. refused_by answers n (c ∷ []) ++ r) (refused-unload_chunks (n + 1) cs first.0)
      ∙ refused_by-cons answers n c cs

  -- When a page is left and the local storage works and has room for the chunks that wait and those
  -- that the pending items make: each of them that is over the beacon's 61440 bytes or to which
  -- the browser's sendBeacon says no is stored for the next page, and these are the ones sent with
  -- fetch; what was stored before is stored still; and nothing is reported as undelivered.
  pub unload_keeps :
      (env : Env) (q : Queue) (web : WebQueue) (s : S)
      → total_bytes (read storage s) + chunk_bytes (q.retry ++ cut env 61_440 q) ≤ max_stored_bytes
      → let r = unload storage answers env q web s in
        let turned_down = refused_by answers 0 (q.retry ++ cut env 61_440 q) in
        All (λ c. any (has_key c.idempotency_key) (read storage r.2) ≡ true) turned_down
        × (refused r.3 ≡ turned_down)
        × All (λ d. any (has_key d.idempotency_key) (read storage r.2) ≡ true) (read storage s)
        × (sum_of is_report r.3 ≡ 0)
  unfolding unload
  unload_keeps env q web s fits =
      let chunks = taken_chunks (take_all env beacon_max_bytes q).1 in
      let same_chunks = taken_chunks-take_all env q in
      let k = unload_chunks-AreKept 0 chunks s (omega (arith, fits, ap chunk_bytes same_chunks)) in
      let r = unload_chunks storage answers 0 chunks s in
      let webs = send_webs storage answers (length chunks) (drain web).1 in
      let silent = send_webs-silent (length chunks) (drain web).1 in
      let IsIn : Chunk → Type 0 = λ c. any (has_key c.idempotency_key) (read storage r.0) ≡ true in
      let told = refused-unload_chunks 0 chunks s ∙ ap (refused_by answers 0) same_chunks in
      (
        subst (All IsIn) told k.stored,
        refused-append r.1 webs
            ∙ ap (λ x. refused r.1 ++ x) silent.0
            ∙ append-nil (refused r.1)
            ∙ told,
        All-weaken (λ d h. k.stays d.idempotency_key h) (read storage s)
            (own_keys (read storage s)),
        omega (arith, k.silent, silent.1, sum_of-append is_report r.1 webs),
      )
