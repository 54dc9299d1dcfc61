-- ===== src/React/Registry.antt =====
-- react/src/registry.ts: one client for each key, counted, and shut down some time after the last
-- release.
pub mod Laws
mod Tests
use watchup_v3_packages.Prelude.{
  ℕ, suc, ◌+◌, ◌-◌, ◌++◌, ◌==◌, ◌||◌, ◌&&◌, not, Bool, true, false, List, [], ◌∷◌, ltb,
  if◌then◌else◌, Option, none, some, any, same, keep_if,
}
use watchup_v3_packages.Utf8.{Str}

-- The key of the options, `${apiKey}|${baseUrl ?? ''}`.
abbrev pub or_blank : Option Str → Str
or_blank none = []
or_blank (some s) = s

unfoldable pub key_of : Str → Option Str → Str
key_of api_key base_url = api_key ++ (b'|' ∷ or_blank base_url)

-- Each client is made for one entry, so one number stands for both. `refs` and `pending` are the
-- fields of the entry objects, which a timer still holds when the map has lost them; `closed` is the
-- client's `isClosed`.
pub record Registry : Type 0 where
  pub entries : List (Str × ℕ)
  pub refs : ℕ → ℕ
  pub pending : ℕ → Bool
  pub closed : ℕ → Bool
  pub next : ℕ

abbrev pub update {ℓ} : {A : Type ℓ} → (ℕ → A) → ℕ → A → ℕ → A
update f c a d = if d == c then a else f d

unfoldable pub get_entry : Str → List (Str × ℕ) → Option ℕ
get_entry key [] = none
get_entry key ((k, c) ∷ es) = if same k key then some c else get_entry key es

-- `Map.set`: in place, or behind the others.
unfoldable pub set_entry : Str → ℕ → List (Str × ℕ) → List (Str × ℕ)
set_entry key c [] = (key, c) ∷ []
set_entry key c ((k, d) ∷ es) =
    let rest = set_entry key c es in if same k key then (k, c) ∷ es else (k, d) ∷ rest

abbrev pub delete_entry : Str → List (Str × ℕ) → List (Str × ℕ)
delete_entry key = keep_if (λ e. not (same e.0 key))

unfoldable pub make_client : Str → Registry → Registry × ℕ
make_client key r = (
  record r {
    entries = set_entry key r.next r.entries;
    refs = update r.refs r.next 0;
    pending = update r.pending r.next false;
    closed = update r.closed r.next false;
    next = r.next + 1;
  },
  r.next,
)

acquire_found : Option ℕ → Str → Registry → Registry × ℕ
acquire_found none key r = make_client key r
acquire_found (some c) key r = if not (r.closed c) then (r, c) else make_client key r

unfoldable pub acquire_client : Str → Registry → Registry × ℕ
unfolding acquire_found
acquire_client key r = acquire_found (get_entry key r.entries) key r

-- The body of the loop of `retainClient`, and the loop over the entries.
unfoldable pub retain_entry : ℕ → Registry → Registry
retain_entry c r = record r {
  refs = update r.refs c (r.refs c + 1);
  pending = update r.pending c false;
}

unfoldable pub retain_loop : ℕ → List (Str × ℕ) → Registry → Registry
retain_loop c [] r = r
retain_loop c ((k, d) ∷ es) r = retain_loop c es (if d == c then retain_entry c r else r)

unfoldable pub retain_client : ℕ → Registry → Registry
retain_client c r = retain_loop c r.entries r

-- The same of `releaseClient`. The loop ends with the first entry of the client, since a client has
-- one; `Math.max(0, refs - 1)` is the subtraction of natural numbers.
unfoldable pub release_entry : ℕ → Registry → Registry
release_entry c r =
    let refs = update r.refs c (r.refs c - 1) in
    if ltb 0 (r.refs c - 1) || r.pending c
    then record r { refs = refs }
    else record r { refs = refs; pending = update r.pending c true }

unfoldable pub release_loop : ℕ → List (Str × ℕ) → Registry → Registry
release_loop c [] r = r
release_loop c ((k, d) ∷ es) r =
    let later = release_loop c es r in if d == c then release_entry c r else later

unfoldable pub release_client : ℕ → Registry → Registry
release_client c r = release_loop c r.entries r

-- The timer that `releaseClient` set for client `c` under `key` runs out.
unfoldable pub timer_fires : Str → ℕ → Registry → Registry
timer_fires key c r =
    if ltb 0 (r.refs c)
    then r
    else record r { entries = delete_entry key r.entries; closed = update r.closed c true }

-- What can happen: the calls, a timer, and the shutdown of a client by somebody else.
pub data Event : Type 0 where
  acquired : Str → Event
  retained released was_closed : ℕ → Event
  timed_out : Str → ℕ → Event

unfoldable pub step : Event → Registry → Registry
step (acquired key) r = (acquire_client key r).0
step (retained c) r = retain_client c r
step (released c) r = release_client c r
step (was_closed c) r = record r { closed = update r.closed c true }
step (timed_out key c) r = timer_fires key c r

unfoldable pub run : List Event → Registry → Registry
run [] r = r
run (e ∷ es) r = run es (step e r)

unfoldable pub empty_registry : Registry
empty_registry = record {
  entries = [];
  refs = λ c. 0;
  pending = λ c. false;
  closed = λ c. false;
  next = 0;
}
