-- ===== src/Truncate/Laws.antt =====
-- What `fitItem` of core/src/truncate.ts may change, and what it reports.
use watchup_v3_packages.Prelude.{
  ℕ, ◌<◌, ◌≤◌, ◌≡◌, ◌≢◌, refl, ap, ◌∙◌, ◌↔◌, inl, inr, true, false, arith, any, leb, none, some,
  Bool-cases, same, same_iff, same_refl, ltb→lt, lt→ltb, leb→lt,
}
use watchup_v3_packages.Utf8.{Str, utf8_byte_length}
use watchup_v3_packages.Json.{bool, object, Fields, stringify}
use watchup_v3_packages.Json.Access.{
  get_field, set_field, delete_field, get_field-set_field, delete_field-set_field,
}
use watchup_v3_packages.Truncate.{
  truncated_key, Progress, measure, step_one, step_two, step_three, clear_mark, FitResult, fit_item,
}
use watchup_v3_packages.Truncate.Edits.{
  editable, Edits, done, Edits-untouched, Edits-others, capped, capped-Edits, step_two-Edits,
  step_three-Edits,
}

mark_not_editable : any (same truncated_key) editable ≡ false
unfolding same
mark_not_editable = refl

not_same : (s t : Str) → s ≢ t → same s t ≡ false
not_same s t h = elim (Bool-cases (same s t)) [
  | inl hit ↦ absurd (h ((same_iff s t).0 hit))
  | inr miss ↦ miss
]

-- What `fitItem` returns for an item that does not carry the mark already.
pub record IsFit (item : Fields) (budget : ℕ) (r : FitResult) : Type 0 where
  pub serialized : r.json ≡ stringify (object r.item)
  pub measured : r.bytes ≡ utf8_byte_length r.json
  pub oversized_iff : (r.oversized ≡ true) ↔ (budget < r.bytes)
  pub untouched : (r.truncated ≡ false) → r.item ≡ item
  pub fits_untouched : measure item ≤ budget → r.truncated ≡ false
  pub marked : (r.truncated ≡ true) → get_field truncated_key r.item ≡ some (bool true)
  pub others :
      (j : Str)
      → truncated_key ≢ j
      → any (same j) editable ≡ false
      → get_field j r.item ≡ get_field j item

module _ (item : Fields) (budget : ℕ) (unmarked : get_field truncated_key item ≡ none) where
  abbrev first : Progress
  first = step_one item

  abbrev last : Progress
  last = step_three budget (step_two item budget first)

  last-Edits : Edits first last
  last-Edits = step_three-Edits budget first _ (step_two-Edits item budget first first done)

  first_untouched : first.truncated ≡ false → first.out ≡ set_field truncated_key (bool true) item
  unfolding step_one
  first_untouched h =
      ap (set_field truncated_key (bool true)) (Edits-untouched (capped-Edits item) h).0

  first_others :
      (j : Str)
      → truncated_key ≢ j
      → any (same j) editable ≡ false
      → get_field j first.out ≡ get_field j item
  unfolding step_one
  first_others j not_mark other =
      get_field-set_field j truncated_key (bool true) (capped item).out
      ∙ rw (not_same truncated_key j not_mark) (Edits-others j other (capped-Edits item))

  last_marked : get_field truncated_key last.out ≡ some (bool true)
  unfolding step_one
  last_marked =
      Edits-others truncated_key mark_not_editable last-Edits
      ∙ get_field-set_field truncated_key truncated_key (bool true) (capped item).out
      ∙ rw (same_refl truncated_key) refl

  clear_mark_untouched : last.truncated ≡ false → clear_mark last ≡ item
  unfolding clear_mark
  clear_mark_untouched h =
      let (same_out, before) = Edits-untouched last-Edits h in
      rw h (
        ap (delete_field truncated_key) (same_out ∙ first_untouched before)
        ∙ delete_field-set_field truncated_key (bool true) item unmarked)

  clear_mark_marked :
      last.truncated ≡ true → get_field truncated_key (clear_mark last) ≡ some (bool true)
  unfolding clear_mark
  clear_mark_marked h = rw h last_marked

  clear_mark_others :
      (j : Str)
      → truncated_key ≢ j
      → any (same j) editable ≡ false
      → get_field j (clear_mark last) ≡ get_field j item
  unfolding clear_mark
  clear_mark_others j not_mark other = elim (Bool-cases last.truncated) [
    | inl cut ↦ rw cut (Edits-others j other last-Edits ∙ first_others j not_mark other)
    | inr whole ↦ ap (get_field j) (clear_mark_untouched whole)
  ]

  -- For an item without the mark: `json` is the text of the returned item and `bytes` its UTF-8
  -- size; `oversized` is set exactly when that exceeds the budget; an item that fits is returned
  -- with `truncated` false; whenever `truncated` is false the item is returned as it came, and
  -- otherwise it carries the mark; and every field but the mark, `message`, `stack` and the three
  -- metadata bags keeps its value.
  pub fit_item-IsFit : IsFit item budget (fit_item item budget)
  unfolding fit_item measure
  fit_item-IsFit = elim (Bool-cases (leb (measure item) budget)) [
    | inl fit ↦ rw fit (record {
      serialized = refl;
      measured = refl;
      oversized_iff = (ltb→lt _ _, lt→ltb _ _);
      untouched = λ _. refl;
      fits_untouched = λ _. refl;
      marked = λ h. cc;
      others = λ j _ _. refl;
    })
    | inr over ↦ rw over (record {
      serialized = refl;
      measured = refl;
      oversized_iff = (ltb→lt _ _, lt→ltb _ _);
      untouched = clear_mark_untouched;
      fits_untouched = λ h. absurd (omega (arith, leb→lt _ _ over));
      marked = clear_mark_marked;
      others = clear_mark_others;
    })
  ]
