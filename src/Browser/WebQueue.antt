-- ===== src/Browser/WebQueue.antt =====
-- browser/src/web-queue.ts: page views become batches below the beacon's byte budget.
pub mod Batches
mod Tests
use watchup_v3_packages.Prelude.{
  ℕ, suc, ◌+◌, ◌++◌, ◌==◌, ◌||◌, ◌&&◌, not, Bool, true, false, List, [], ◌∷◌, leb, ltb, drop,
  if◌then◌else◌, Option, none, some, length, map,
}
use watchup_v3_packages.Utf8.{Str, utf8_byte_length}
use watchup_v3_packages.Json.{Json, stringify}

abbrev pub max_queued_views : ℕ
max_queued_views = 500

abbrev pub beacon_max_bytes : ℕ
beacon_max_bytes = 61_440

-- The allowance for a batch's envelope.
abbrev pub envelope_bytes : ℕ
envelope_bytes = 64

pub record View : Type 0 where
  pub payload : Json
  pub bytes : ℕ

pub record WebQueue : Type 0 where
  pub project_id : Option Str
  pub max_items : ℕ
  pub views : List View

-- `WebAnalyticsBatch`; an empty project identifier counts as none.
pub record Batch : Type 0 where
  pub web : List Json
  pub project_id : Option Str

unfoldable pub batch_project : Option Str → Option Str
batch_project none = none
batch_project (some []) = none
batch_project (some (c ∷ s)) = some (c ∷ s)

unfoldable pub batch : WebQueue → List Json → Batch
batch q web = record { web = web; project_id = batch_project q.project_id }

abbrev pub view_of : Json → View
view_of payload = record { payload = payload; bytes = utf8_byte_length (stringify payload) }

-- `if (this.views.length > MAX_QUEUED_VIEWS) this.views.shift()`
unfoldable pub bounded : List View → List View
bounded views = if ltb max_queued_views (length views) then drop 1 views else views

unfoldable pub add : Json → WebQueue → WebQueue × Bool
add payload q =
    let views = bounded (q.views ++ view_of payload ∷ []) in
    (record q { views = views }, leb q.max_items (length views))

unfoldable pub size : WebQueue → ℕ
size q = length q.views

-- The variables of the loop of `drain`.
pub record Filling : Type 0 where
  pub batches : List (List Json)
  pub current : List Json
  pub bytes : ℕ

abbrev pub is_full : ℕ → View → Filling → Bool
is_full max_items view f =
    not (length f.current == 0)
    && (ltb beacon_max_bytes (f.bytes + view.bytes + 1) || leb max_items (length f.current))

unfoldable pub make_room : ℕ → View → Filling → Filling
make_room max_items view f =
    if is_full max_items view f
    then record { batches = f.batches ++ f.current ∷ []; current = []; bytes = envelope_bytes }
    else f

unfoldable pub put_view : View → Filling → Filling
put_view view f = record {
  batches = f.batches;
  current = f.current ++ view.payload ∷ [];
  bytes = f.bytes + (view.bytes + 1);
}

unfoldable pub fill : ℕ → List View → Filling → Filling
fill max_items [] f = f
fill max_items (view ∷ views) f = fill max_items views (put_view view (make_room max_items view f))

unfoldable pub last_batch : Filling → List (List Json)
last_batch f = if length f.current == 0 then f.batches else f.batches ++ f.current ∷ []

unfoldable pub drain : WebQueue → WebQueue × List Batch
drain q =
    let f =
      fill q.max_items q.views (record { batches = []; current = []; bytes = envelope_bytes }) in
    (record q { views = [] }, map (batch q) (last_batch f))
