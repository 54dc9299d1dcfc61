-- ===== src/React/Registry/Tests.antt =====
-- react/src/registry.ts on small registries.
use watchup_v3_packages.Prelude.{◌≡◌, refl, true, false, List, [], ◌∷◌, none, some, same}
use watchup_v3_packages.Utf8.{units}
use watchup_v3_packages.React.Registry.{
  Registry, get_entry, acquire_client, acquire_found, make_client, set_entry, retain_client,
  retain_loop, retain_entry, release_client, release_loop, release_entry, step, timer_fires, Event,
  acquired, retained, released, was_closed, run, empty_registry,
}
use watchup_v3_packages.React.Registry.Laws.{
  IsQuiet, acquire_client_shared, run-IsQuiet, timer_fires_replaced,
}

-- A client is released and closed by somebody else, and its key goes to a second client.
abbrev replaced_events : List Event
replaced_events =
    acquired (units "k")
    ∷ retained 0
    ∷ released 0
    ∷ was_closed 0
    ∷ acquired (units "k")
    ∷ retained 1
    ∷ []

abbrev replaced : Registry
replaced = run replaced_events empty_registry

run-IsQuiet_example : IsQuiet (run replaced_events empty_registry)
run-IsQuiet_example = run-IsQuiet replaced_events

acquire_client_shared_example :
    ((acquire_client (units "k") replaced).0.closed (acquire_client (units "k") replaced).1 ≡ false)
    × (acquire_client (units "k") (acquire_client (units "k") replaced).0
        ≡ acquire_client (units "k") replaced)
acquire_client_shared_example = acquire_client_shared (units "k") replaced

replaced_idle : (replaced.refs 0 ≡ 0) × (replaced.pending 0 ≡ true) × (replaced.refs 1 ≡ 1)
unfolding run step acquire_client acquire_found make_client get_entry set_entry retain_client
    retain_loop retain_entry release_client release_loop release_entry empty_registry same
replaced_idle = (refl, refl, refl)

replaced_known : get_entry (units "k") replaced.entries ≡ some 1
unfolding run step acquire_client acquire_found make_client get_entry set_entry retain_client
    retain_loop retain_entry release_client release_loop release_entry empty_registry same
replaced_known = refl

timer_fires_replaced_example :
    (get_entry (units "k") (timer_fires (units "k") 0 replaced).entries ≡ none)
    × ((timer_fires (units "k") 0 replaced).refs 1 ≡ replaced.refs 1)
    × ((acquire_client (units "k") (timer_fires (units "k") 0 replaced)).1 ≡ replaced.next)
timer_fires_replaced_example =
    timer_fires_replaced (units "k") 0 1 replaced replaced_idle.0 replaced_known
