-- ===== src/Browser/WebQueue/Batches.antt =====
-- What the batches of browser/src/web-queue.ts hold, and how many views wait.
use watchup_v3_packages.Prelude.{
  ℕ, ◌+◌, ◌-◌, ◌≤◌, ◌<◌, ◌≡◌, refl, sym, ap, subst, ◌∙◌, ◌⊎◌, inl, inr, true, false, List, [], ◌∷◌,
  ◌++◌, arith, ltb, ◌==◌, Bool-cases, length, length-append, map, sum_of, sum_of-append, All,
  All-append, append_assoc, append-nil, drop, ltb→le,
}
use watchup_v3_packages.Utf8.{utf8_byte_length}
use watchup_v3_packages.Json.{Json, stringify}
use watchup_v3_packages.Browser.WebQueue.{
  max_queued_views, beacon_max_bytes, envelope_bytes, View, WebQueue, batch, batch_project, view_of,
  bounded, add, Filling, is_full, make_room, put_view, fill, last_batch, drain,
}

abbrev pub view_bytes : Json → ℕ
view_bytes payload = utf8_byte_length (stringify payload) + 1

-- The allowance, and each payload with its comma.
abbrev pub batch_bytes : List Json → ℕ
batch_bytes web = envelope_bytes + sum_of view_bytes web

abbrev pub joined : List (List Json) → List Json
joined [] = []
joined (web ∷ more) = web ++ joined more

joined-append : (a b : List (List Json)) → joined (a ++ b) ≡ joined a ++ joined b
joined-append [] b = refl
joined-append (web ∷ a) b = ap (◌++◌ web) (joined-append a b) ∙ sym (append_assoc web _ _)

-- Not empty, within the count, and within the byte budget unless it is a single view.
abbrev pub FitsBeacon : ℕ → List Json → Type 0
FitsBeacon max_items web =
    (1 ≤ length web)
    × (length web ≤ max_items)
    × ((batch_bytes web ≤ beacon_max_bytes) ⊎ (length web ≡ 1))

abbrev pub IsView : View → Type 0
IsView view = view.bytes ≡ utf8_byte_length (stringify view.payload)

-- The loop has filled the batches from `seen`.
record IsFilled (max_items : ℕ) (seen : List Json) (f : Filling) : Type 0 where
  kept : joined f.batches ++ f.current ≡ seen
  fitting : All (FitsBeacon max_items) f.batches
  counted : f.bytes ≡ batch_bytes f.current
  few : length f.current ≤ max_items
  small : (f.bytes ≤ beacon_max_bytes) ⊎ (length f.current ≤ 1)

nil_of : (list : List Json) → length list ≡ 0 → list ≡ []
nil_of [] h = refl
nil_of (c ∷ list) h = ground arith

module _ (max_items : ℕ) (one : 1 ≤ max_items) where
  -- A batch that is not empty fits.
  current-FitsBeacon :
      (seen : List Json) (f : Filling)
      → IsFilled max_items seen f
      → (length f.current == 0) ≡ false
      → FitsBeacon max_items f.current
  current-FitsBeacon seen f v h =
      let some_view : 1 ≤ length f.current = ground arith in
      (
        some_view,
        v.few,
        elim v.small [
          | inl fits ↦ inl (omega (arith, fits, v.counted))
          | inr single ↦ inr (omega (arith, single, some_view))
        ],
      )

  room_lem :
      (view : View) (f : Filling)
      → is_full max_items view f ≡ false
      → (length f.current ≡ 0)
        ⊎ ((f.bytes + view.bytes + 1 ≤ beacon_max_bytes) × (length f.current < max_items))
  room_lem view f h = ground arith

  full_lem :
      (view : View) (f : Filling)
      → is_full max_items view f ≡ true
      → (length f.current == 0) ≡ false
  full_lem view f h = ground arith

  closed_kept :
      (f : Filling) → joined (f.batches ++ f.current ∷ []) ++ [] ≡ joined f.batches ++ f.current
  closed_kept f =
      append-nil _
      ∙ joined-append f.batches (f.current ∷ [])
      ∙ ap (◌++◌ (joined f.batches)) (append-nil f.current)

  make_room-IsFilled :
      (seen : List Json) (view : View) (f : Filling)
      → IsFilled max_items seen f
      → let r = make_room max_items view f in
        IsFilled max_items seen r
        × ((length r.current ≡ 0)
            ⊎ ((r.bytes + view.bytes + 1 ≤ beacon_max_bytes) × (length r.current < max_items)))
  unfolding make_room
  make_room-IsFilled seen view f v = elim (Bool-cases (is_full max_items view f)) [
    | inl full ↦ rw full (
      record {
        kept = closed_kept f ∙ v.kept;
        fitting =
            All-append (FitsBeacon max_items) f.batches (f.current ∷ []) v.fitting
              (current-FitsBeacon seen f v (full_lem view f full), tt);
        counted = refl;
        few = omega arith;
        small = inl (omega arith);
      },
      inl refl,
    )
    | inr room ↦ rw room (v, room_lem view f room)
  ]

  put_view-IsFilled :
      (seen : List Json) (view : View) (f : Filling)
      → IsView view
      → IsFilled max_items seen f
      → ((length f.current ≡ 0)
          ⊎ ((f.bytes + view.bytes + 1 ≤ beacon_max_bytes) × (length f.current < max_items)))
      → IsFilled max_items (seen ++ view.payload ∷ []) (put_view view f)
  unfolding put_view
  put_view-IsFilled seen view f m v room = record {
    kept =
        sym (append_assoc (joined f.batches) f.current (view.payload ∷ []))
        ∙ ap (λ l. l ++ view.payload ∷ []) v.kept;
    fitting = v.fitting;
    counted = omega (arith, v.counted, m, sum_of-append view_bytes f.current (view.payload ∷ []));
    few = elim room [
      | inl empty ↦ omega (arith, empty, one, length-append f.current (view.payload ∷ []))
      | inr fits ↦ omega (arith, fits.1, length-append f.current (view.payload ∷ []))
    ];
    small = elim room [
      | inl empty ↦ inr (omega (arith, empty, length-append f.current (view.payload ∷ [])))
      | inr fits ↦ inl (omega (arith, fits.0))
    ];
  }

  fill-IsFilled :
      (seen : List Json) (views : List View) (f : Filling)
      → All IsView views
      → IsFilled max_items seen f
      → IsFilled max_items (seen ++ map (λ v. v.payload) views) (fill max_items views f)
  unfolding fill
  fill-IsFilled seen [] f m v = rw (append-nil seen) v
  fill-IsFilled seen (view ∷ views) f m v =
      let roomy = make_room-IsFilled seen view f v in
      subst (λ l. IsFilled max_items l (fill max_items (view ∷ views) f))
        (append_assoc seen (view.payload ∷ []) (map (λ v. v.payload) views))
        (fill-IsFilled (seen ++ view.payload ∷ []) views _ m.1
          (put_view-IsFilled seen view _ m.0 roomy.0 roomy.1))

  empty_kept :
      (f : Filling)
      → (length f.current == 0) ≡ true
      → joined f.batches ≡ joined f.batches ++ f.current
  empty_kept f h =
      sym (append-nil _) ∙ ap (◌++◌ (joined f.batches)) (sym (nil_of f.current (ground arith)))

  last_batch-FitsBeacon :
      (seen : List Json) (f : Filling)
      → IsFilled max_items seen f
      → (joined (last_batch f) ≡ seen) × All (FitsBeacon max_items) (last_batch f)
  unfolding last_batch
  last_batch-FitsBeacon seen f v = elim (Bool-cases (length f.current == 0)) [
    | inl empty ↦ rw empty (empty_kept f empty ∙ v.kept, v.fitting)
    | inr open_batch ↦ rw open_batch (
      sym (append-nil _) ∙ closed_kept f ∙ v.kept,
      All-append (FitsBeacon max_items) f.batches (f.current ∷ []) v.fitting
          (current-FitsBeacon seen f v open_batch, tt),
    )
  ]

module _ (q : WebQueue) where
  webs_of : (l : List (List Json)) → map (λ b. b.web) (map (batch q) l) ≡ l
  unfolding batch
  webs_of [] = refl
  webs_of (web ∷ l) = ap (◌∷◌ web) (webs_of l)

  batches_fit :
      (l : List (List Json))
      → All (FitsBeacon q.max_items) l
      → All
          (λ b. FitsBeacon q.max_items b.web × (b.project_id ≡ batch_project q.project_id))
          (map (batch q) l)
  unfolding batch
  batches_fit [] h = tt
  batches_fit (web ∷ l) h = ((h.0, refl), batches_fit l h.1)

-- Where a batch may hold a view and each view carries its size, `drain` empties the queue, and its
-- batches hold all the views in order; each holds a view and at most `maxItems`, and its views
-- with their commas and the allowance of 64 bytes are within the beacon budget, unless it holds a
-- single view; each names the queue's project.
pub drain_lem :
    (q : WebQueue)
    → 1 ≤ q.max_items
    → All IsView q.views
    → ((drain q).0.views ≡ [])
      × (joined (map (λ b. b.web) (drain q).1) ≡ map (λ v. v.payload) q.views)
      × All
          (λ b. FitsBeacon q.max_items b.web × (b.project_id ≡ batch_project q.project_id))
          (drain q).1
unfolding drain
drain_lem q one measured =
    let start : IsFilled q.max_items []
        (record { batches = []; current = []; bytes = envelope_bytes }) =
      record {
        kept = refl;
        fitting = tt;
        counted = refl;
        few = omega arith;
        small = inl (omega arith);
      } in
    let r =
      last_batch-FitsBeacon q.max_items one _ _
        (fill-IsFilled q.max_items one [] q.views _ measured start) in
    (refl, ap joined (webs_of q _) ∙ r.0, batches_fit q _ r.1)

-- A queue of page views is well formed if it holds at most 500, each with its size.
pub record IsWebQueue (q : WebQueue) : Type 0 where
  pub few : length q.views ≤ max_queued_views
  pub measured : All IsView q.views

length-drop_one : (views : List View) → length (drop 1 views) ≡ length views - 1
length-drop_one [] = omega arith
length-drop_one (v ∷ views) = omega arith

drop_one-All : (views : List View) → All IsView views → All IsView (drop 1 views)
drop_one-All [] h = tt
drop_one-All (v ∷ views) h = h.1

bounded_lem :
    (views : List View)
    → length views ≤ max_queued_views + 1
    → All IsView views
    → (length (bounded views) ≤ max_queued_views) × All IsView (bounded views)
unfolding bounded
bounded_lem views h m = elim (Bool-cases (ltb max_queued_views (length views))) [
  | inl over ↦ rw over (omega (arith, h, length-drop_one views), drop_one-All views m)
  | inr fit ↦ rw fit (omega (arith, ltb→le max_queued_views (length views) fit), m)
]

-- `add` keeps a queue well formed: at most 500 views wait, and each carries the size of its text.
pub add-IsWebQueue : (payload : Json) (q : WebQueue) → IsWebQueue q → IsWebQueue (add payload q).0
unfolding add
add-IsWebQueue payload q v =
    let views = q.views ++ view_of payload ∷ [] in
    let r =
      bounded_lem views (omega (arith, v.few, length-append q.views (view_of payload ∷ [])))
        (All-append IsView q.views (view_of payload ∷ []) v.measured (refl, tt)) in
    record { few = r.0; measured = r.1 }
