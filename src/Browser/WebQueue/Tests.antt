-- ===== src/Browser/WebQueue/Tests.antt =====
-- browser/src/web-queue.ts with three views and two to a batch.
use watchup_v3_packages.Prelude.{◌≡◌, refl, [], ◌∷◌, All, arith, some, map}
use watchup_v3_packages.Utf8.{units}
use watchup_v3_packages.Json.{Json, string, object, end, field}
use watchup_v3_packages.Browser.WebQueue.{WebQueue, view_of, batch_project, drain}
use watchup_v3_packages.Browser.WebQueue.Batches.{IsView, FitsBeacon, joined, IsWebQueue, drain_lem}

abbrev test_view : Json
test_view = object (field (units "path") (string (units "/")) end)

abbrev test_web_queue : WebQueue
test_web_queue = record {
  project_id = some (units "p");
  max_items = 2;
  views = view_of test_view ∷ view_of test_view ∷ view_of test_view ∷ [];
}

test_views-IsView : All IsView test_web_queue.views
test_views-IsView = (refl, (refl, (refl, tt)))

drain_lem_example :
    ((drain test_web_queue).0.views ≡ [])
    × (joined (map (λ b. b.web) (drain test_web_queue).1) ≡ test_view ∷ test_view ∷ test_view ∷ [])
    × All
        (λ b. FitsBeacon 2 b.web × (b.project_id ≡ batch_project (some (units "p"))))
        (drain test_web_queue).1
drain_lem_example = drain_lem test_web_queue (omega arith) test_views-IsView

test_web_queue-IsWebQueue : IsWebQueue test_web_queue
test_web_queue-IsWebQueue = record { few = omega arith; measured = test_views-IsView }
