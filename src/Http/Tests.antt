-- ===== src/Http/Tests.antt =====
-- core/src/http.ts on a platform that knows one number.
use watchup_v3_packages.Prelude.{◌≡◌, refl, none, some, pos, if◌then◌else◌, same}
use watchup_v3_packages.Utf8.{units}
use watchup_v3_packages.Http.{Platform, retry_after_text, parse_retry_after}

abbrev test_platform : Platform
test_platform = record {
  to_number = λ value. if same value (units "7") then some (pos 7) else none;
  date_parse = λ value. none;
  json_parse = λ body. none;
}

seven_seconds : parse_retry_after test_platform (some (units "7")) 0 ≡ some 7000
unfolding parse_retry_after retry_after_text same
seven_seconds = refl
