-- ===== src/Truncate/Tests.antt =====
-- core/src/truncate.ts at a small item that does not fit.
use watchup_v3_packages.Prelude.{◌≡◌, refl, none, same}
use watchup_v3_packages.Utf8.{units}
use watchup_v3_packages.Json.{string, object, number, Fields, end, field}
use watchup_v3_packages.Json.Access.{get_field}
use watchup_v3_packages.Truncate.{truncated_key, fit_item}
use watchup_v3_packages.Truncate.Laws.{IsFit, fit_item-IsFit}

-- A bag of more than ten bytes.
abbrev test_fields : Fields
test_fields =
    field (units "message") (string (units "boom"))
      (field (units "meta") (object (field (units "user") (number (units "7")) end)) end)

test_fields_unmarked : get_field truncated_key test_fields ≡ none
unfolding get_field same
test_fields_unmarked = refl

fit_item-IsFit_example : IsFit test_fields 10 (fit_item test_fields 10)
fit_item-IsFit_example = fit_item-IsFit test_fields 10 test_fields_unmarked
