-- ===== src/Browser/Unsent/Laws.antt =====
-- What browser/src/unsent.ts keeps, forgets and gives back.
use watchup_v3_packages.Prelude.{
  ◌+◌, ◌-◌, ◌≤◌, ◌<◌, ◌≡◌, ◌≢◌, refl, sym, ap, ◌∙◌, ◌↔◌, ◌⊎◌, inl, inr, Bool, true, not, List, [],
  ◌∷◌, ◌++◌, arith, none, some, ltb, ◌==◌, Bool-cases, any, keep_if, map, length, sum_of-append,
  same_refl, ltb→lt, ltb→le, ==_iff,
}
use watchup_v3_packages.Utf8.{Str}
use watchup_v3_packages.Types.{Chunk}
use watchup_v3_packages.Browser.Unsent.{
  max_stored_bytes, Stored, Entry, Storage, accept, accept_all, has_key, without, total_bytes,
  shift_over, stored_of, read, write, saved_list, save_unsent, forget_unsent, take_unsent,
}

abbrev pub entry_of : Stored → Entry
entry_of c = record {
  idempotency_key = some c.idempotency_key;
  body = some c.body;
  bytes = c.bytes;
  counts = c.counts;
  attempts = c.attempts;
}

-- A storage that is neither full nor blocked: what is set is what is read back.
pub record IsWorking {S : Type 0} (storage : Storage S) : Type 0 where
  pub set_get :
      (list : List Stored) (s : S)
      → (t : S) × (storage.set_item list s ≡ some t)
        × (storage.get_item t ≡ some (some (map entry_of list)))
  pub remove_get :
      (s : S) → (t : S) × (storage.remove_item s ≡ some t) × (storage.get_item t ≡ some none)

accept_all-entries : (list : List Stored) → accept_all (map entry_of list) ≡ list
unfolding accept_all accept
accept_all-entries [] = refl
accept_all-entries (c ∷ list) = ap (◌∷◌ c) (accept_all-entries list)

shift_over_bound :
    (list : List Stored) → total_bytes (shift_over (total_bytes list) list) ≤ max_stored_bytes
unfolding shift_over
shift_over_bound [] = omega arith
shift_over_bound (c ∷ list) =
    elim (Bool-cases (ltb max_stored_bytes (c.bytes + total_bytes list))) [
      | inl over ↦
          let rest : c.bytes + total_bytes list - c.bytes ≡ total_bytes list = omega arith in
          rw (over, rest) (shift_over_bound list)
      | inr fit ↦ rw fit (omega (arith, ltb→le max_stored_bytes (c.bytes + total_bytes list) fit))
    ]

-- No chunk was cut, or the last one that was cut would not have fitted.
abbrev pub IsTight : List Stored → List Stored → Type 0
IsTight cut rest =
    (cut ≡ [])
    ⊎ ((older : List Stored) × (x : Stored) × (cut ≡ older ++ x ∷ [])
        × (max_stored_bytes < x.bytes + total_bytes rest))

-- `after` is the longest end of `list ++ c ∷ []` within the bound.
pub record KeepsEnd (list : List Stored) (c : Stored) (after : List Stored) : Type 0 where
  pub small : c.bytes ≤ max_stored_bytes
  pub cut : List Stored
  pub kept : List Stored
  pub parts : list ≡ cut ++ kept
  pub stored : after ≡ kept ++ c ∷ []
  pub tight : IsTight cut after

IsTight-more :
    (d : Stored) (cut kept list rest : List Stored) (c : Stored)
    → list ≡ cut ++ kept
    → rest ≡ kept ++ c ∷ []
    → max_stored_bytes < d.bytes + total_bytes (list ++ c ∷ [])
    → IsTight cut rest
    → IsTight (d ∷ cut) rest
IsTight-more d cut kept list rest c e f over (inl h) =
    let same_total : total_bytes rest ≡ total_bytes (list ++ c ∷ []) =
      ap total_bytes (f ∙ ap (λ l. l ++ c ∷ []) (sym (e ∙ ap (λ l. l ++ kept) h))) in
    inr ([], d, ap (◌∷◌ d) h, omega (arith, over, same_total))
IsTight-more d cut kept list rest c e f over (inr (older, x, h, bound)) =
    inr (d ∷ older, x, ap (◌∷◌ d) h, bound)

-- The last element stays exactly if it is within the bound by itself.
shift_over_last :
    (list : List Stored) (c : Stored)
    → KeepsEnd list c (shift_over (total_bytes (list ++ c ∷ [])) (list ++ c ∷ []))
      ⊎ ((max_stored_bytes < c.bytes)
          × (shift_over (total_bytes (list ++ c ∷ [])) (list ++ c ∷ []) ≡ []))
unfolding shift_over
shift_over_last [] c = elim (Bool-cases (ltb max_stored_bytes (c.bytes + 0))) [
  | inl over ↦ inr (omega (arith, ltb→lt max_stored_bytes (c.bytes + 0) over), rw over refl)
  | inr fit ↦ inl (record {
    small = omega (arith, ltb→le max_stored_bytes (c.bytes + 0) fit);
    cut = [];
    kept = [];
    parts = refl;
    stored = rw fit refl;
    tight = inl refl;
  })
]
shift_over_last (d ∷ list) c =
    let all = total_bytes (list ++ c ∷ []) in
    elim (Bool-cases (ltb max_stored_bytes (d.bytes + all))) [
      | inl over ↦
          let rest : d.bytes + all - d.bytes ≡ all = omega arith in
          elim (shift_over_last list c) [
            | inl keeps ↦
                rw (over, rest)
                  (inl (record {
                    small = keeps.small;
                    cut = d ∷ keeps.cut;
                    kept = keeps.kept;
                    parts = ap (◌∷◌ d) keeps.parts;
                    stored = keeps.stored;
                    tight =
                        IsTight-more d keeps.cut keeps.kept list _ c keeps.parts keeps.stored
                          (ltb→lt max_stored_bytes (d.bytes + all) over) keeps.tight;
                  }))
            | inr drops ↦ inr (drops.0, rw (over, rest) drops.1)
          ]
      | inr fit ↦ inl (record {
        small = omega (
          arith,
          ltb→le max_stored_bytes (d.bytes + all) fit,
          sum_of-append (λ s. s.bytes) list (c ∷ []),
        );
        cut = [];
        kept = d ∷ list;
        parts = refl;
        stored = rw fit refl;
        tight = inl refl;
      })
    ]

-- What `saveUnsent` does to the stored list.
pub record IsSaved (chunk : Chunk) (before after : List Stored) (result : Bool) : Type 0 where
  pub bounded : total_bytes after ≤ max_stored_bytes
  pub result_iff : (result ≡ true) ↔ (chunk.bytes ≤ max_stored_bytes)
  pub newest :
      KeepsEnd (without chunk.idempotency_key before) (stored_of chunk) after
      ⊎ ((max_stored_bytes < chunk.bytes) × (after ≡ []))

pub any-last :
    (p : Stored → Bool) (list : List Stored) (c : Stored)
    → p c ≡ true
    → any p (list ++ c ∷ []) ≡ true
any-last p [] c h = ground arith
any-last p (d ∷ list) c h = ground (arith, any-last p list c h)

nil_of : (list : List Stored) → length list ≡ 0 → list ≡ []
nil_of [] h = refl
nil_of (c ∷ list) h = ground arith

length-keep_if : (p : Stored → Bool) (list : List Stored) → length (keep_if p list) ≤ length list
length-keep_if p [] = omega arith
length-keep_if p (c ∷ list) = ground (arith, length-keep_if p list)

keep_if-whole :
    (p : Stored → Bool) (list : List Stored)
    → length (keep_if p list) ≡ length list
    → keep_if p list ≡ list
keep_if-whole p [] h = refl
keep_if-whole p (c ∷ list) h = ground (arith, length-keep_if p list, keep_if-whole p list)

absurd_any {ℓ} :
    {A : Type ℓ} (key : Str) (list : List Stored) → list ≡ [] → any (has_key key) list ≡ true → A
absurd_any key [] e h = cc
absurd_any key (c ∷ list) e h = cc

saved_lem :
    (chunk : Chunk) (before : List Stored)
    → let list = without chunk.idempotency_key before ++ stored_of chunk ∷ [] in
      let after = shift_over (total_bytes list) list in
      IsSaved chunk before after (any (has_key chunk.idempotency_key) after)
saved_lem chunk before =
    let others = without chunk.idempotency_key before in
    let list = others ++ stored_of chunk ∷ [] in
    let key = chunk.idempotency_key in
    elim (shift_over_last others (stored_of chunk)) [
      | inl keeps ↦ record {
        bounded = shift_over_bound list;
        result_iff = (
          (λ h. keeps.small),
          (λ h.
              ap (any (has_key key)) keeps.stored
              ∙ any-last (has_key key) keeps.kept (stored_of chunk) (same_refl key)),
        );
        newest = inl keeps;
      }
      | inr drops ↦ record {
        bounded = shift_over_bound list;
        result_iff = ((λ h. absurd_any key _ drops.1 h), (λ h. ground (arith, drops.0)));
        newest = inr drops;
      }
    ]

module _ {S : Type 0} (storage : Storage S) (working : IsWorking storage) where
  read-none : (s : S) → storage.get_item s ≡ some none → read storage s ≡ []
  unfolding read
  read-none s e = rw (e, read) refl

  read-some :
      (s : S) (list : List Entry)
      → storage.get_item s ≡ some (some list)
      → read storage s ≡ accept_all list
  unfolding read
  read-some s list e = rw (e, read) refl

  pub read-write : (list : List Stored) (s : S) → read storage (write storage list s) ≡ list
  unfolding write
  read-write [] s = let t = working.remove_get s in rw t.1 (read-none t.0 t.2)
  read-write (c ∷ list) s =
      let t = working.set_get (c ∷ list) s in
      rw t.1 (read-some t.0 (map entry_of (c ∷ list)) t.2 ∙ accept_all-entries (c ∷ list))

  -- In a storage that works, `saveUnsent` leaves at most 256 KiB, and it returns true exactly if the
  -- chunk is within that by itself. Then the chunk is stored behind the newest of the other chunks,
  -- as many of them as fit, without an older copy of it; otherwise nothing is stored.
  pub save_unsent-IsSaved :
      (chunk : Chunk) (s : S)
      → let r = save_unsent storage chunk s in IsSaved chunk (read storage s) (read storage r.0) r.1
  unfolding save_unsent saved_list
  save_unsent-IsSaved chunk s =
      rw (read-write (saved_list storage chunk s) s) (saved_lem chunk (read storage s))

  -- `forgetUnsent` removes the chunks of one key and leaves the others in order.
  pub read-forget_unsent :
      (key : Str) (s : S)
      → read storage (forget_unsent storage key s) ≡ without key (read storage s)
  unfolding forget_unsent
  read-forget_unsent key s =
      let list = read storage s in
      elim (Bool-cases (length (without key list) == length list)) [
        | inl kept ↦
            rw kept (sym (keep_if-whole (λ c. not (has_key key c)) list ((==_iff _ _).0 kept)))
        | inr fewer ↦ rw fewer (read-write (without key list) s)
      ]

  -- In a storage that works, `takeUnsent` returns all that was stored and leaves nothing.
  pub take_unsent_all :
      (s : S)
      → ((take_unsent storage s).1 ≡ read storage s) × (read storage (take_unsent storage s).0 ≡ [])
  unfolding take_unsent
  take_unsent_all s = (
    refl,
    elim (Bool-cases (length (read storage s) == 0)) [
      | inl empty ↦ rw empty (nil_of (read storage s) ((==_iff _ _).0 empty))
      | inr stored ↦ rw stored (read-write [] s)
    ],
  )

write_refused :
    {S : Type 0} (storage : Storage S)
    → ((list : List Stored) (t : S) → storage.set_item list t ≡ none)
    → (list : List Stored) (s : S) → (list ≢ [])
    → write storage list s ≡ s
unfolding write
write_refused storage refused [] s h = elim (h refl) [ ]
write_refused storage refused (c ∷ list) s h = rw (refused (c ∷ list) s) refl

nonempty :
    (chunk : Chunk) (list : List Stored)
    → any (has_key chunk.idempotency_key) list ≡ true
    → list ≢ []
nonempty chunk list h e = absurd_any chunk.idempotency_key list e h

-- In a storage that refuses every write `saveUnsent` stores nothing, and still returns true for a
-- chunk within 256 KiB.
pub save_unsent_blocked :
    {S : Type 0} (storage : Storage S) (chunk : Chunk) (s : S)
    → ((list : List Stored) (t : S) → storage.set_item list t ≡ none)
    → chunk.bytes ≤ max_stored_bytes
    → ((save_unsent storage chunk s).0 ≡ s) × ((save_unsent storage chunk s).1 ≡ true)
unfolding save_unsent saved_list
save_unsent_blocked storage chunk s refused small =
    let r = saved_lem chunk (read storage s) in
    let sent = r.result_iff.1 small in
    (write_refused storage refused (saved_list storage chunk s) s (nonempty chunk _ sent), sent)
