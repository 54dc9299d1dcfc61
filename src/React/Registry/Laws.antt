-- ===== src/React/Registry/Laws.antt =====
-- How clients of react/src/registry.ts are shared, kept and shut down.
use watchup_v3_packages.Prelude.{
  ℕ, ◌≡◌, refl, sym, ap, subst, ◌∙◌, inl, inr, true, false, not, List, [], ◌∷◌, arith, Option, none,
  some, ltb, ◌==◌, ==_iff, Bool-cases, same_refl, if◌then◌else◌,
}
use watchup_v3_packages.Utf8.{Str}
use watchup_v3_packages.React.Registry.{
  Registry, update, get_entry, set_entry, delete_entry, make_client, acquire_found, acquire_client,
  retain_entry, retain_loop, retain_client, release_entry, release_loop, release_client,
  timer_fires, Event, acquired, retained, released, timed_out, was_closed, step, run,
  empty_registry,
}

get_entry-set_entry :
    (key : Str) (c : ℕ) (es : List (Str × ℕ)) → get_entry key (set_entry key c es) ≡ some c
unfolding get_entry set_entry
get_entry-set_entry key c [] = ground (arith, same_refl key)
get_entry-set_entry key c ((k, d) ∷ es) = ground (arith, get_entry-set_entry key c es)

update_eq {ℓ} : {A : Type ℓ} (f : ℕ → A) (c : ℕ) (a : A) → update f c a c ≡ a
update_eq f c a = rw ((==_iff c c).1 refl) refl

new_open : (r : Registry) → update r.closed r.next false r.next ≡ false
new_open r = update_eq r.closed r.next false

found_shared :
    (c : ℕ) (key : Str) (r : Registry) → r.closed c ≡ false → acquire_found (some c) key r ≡ (r, c)
unfolding acquire_found
found_shared c key r h = rw h refl

acquire_found_again :
    (o : Option ℕ) (key : Str) (r : Registry)
    → get_entry key r.entries ≡ o
    → let a = acquire_found o key r in
      (get_entry key a.0.entries ≡ some a.1) × (a.0.closed a.1 ≡ false)
unfolding acquire_found make_client
acquire_found_again none key r e = (get_entry-set_entry key r.next r.entries, new_open r)
acquire_found_again (some c) key r e = elim (Bool-cases (r.closed c)) [
  | inl shut ↦ simp shut (get_entry-set_entry key r.next r.entries, new_open r)
  | inr live ↦ simp live (e, refl)
]

-- Acquiring a key gives a client that is not closed, and acquiring it again gives the same client
-- and changes nothing.
pub acquire_client_shared :
    (key : Str) (r : Registry)
    → let a = acquire_client key r in (a.0.closed a.1 ≡ false) × (acquire_client key a.0 ≡ a)
unfolding acquire_client
acquire_client_shared key r =
    let a = acquire_found (get_entry key r.entries) key r in
    let again = acquire_found_again (get_entry key r.entries) key r refl in
    (again.1, ap (λ o. acquire_found o key a.0) again.0 ∙ found_shared a.1 key a.0 again.1)

-- A timer that `retainClient` has not cleared belongs to a client that nobody retains.
abbrev pub IsQuiet : Registry → Type 0
IsQuiet r = (c : ℕ) → r.pending c ≡ true → r.refs c ≡ 0

retain_entry-IsQuiet : (c : ℕ) (r : Registry) → IsQuiet r → IsQuiet (retain_entry c r)
unfolding retain_entry
retain_entry-IsQuiet c r v d h = ground (arith, v d)

retain_loop-IsQuiet :
    (c : ℕ) (es : List (Str × ℕ)) (r : Registry) → IsQuiet r → IsQuiet (retain_loop c es r)
unfolding retain_loop
retain_loop-IsQuiet c [] r v = v
retain_loop-IsQuiet c ((k, d) ∷ es) r v = elim (Bool-cases (d == c)) [
  | inl hit ↦
      subst (λ b. IsQuiet (retain_loop c es (if b then retain_entry c r else r))) (sym hit)
        (retain_loop-IsQuiet c es (retain_entry c r) (retain_entry-IsQuiet c r v))
  | inr miss ↦
      subst (λ b. IsQuiet (retain_loop c es (if b then retain_entry c r else r))) (sym miss)
        (retain_loop-IsQuiet c es r v)
]

release_entry-IsQuiet : (c : ℕ) (r : Registry) → IsQuiet r → IsQuiet (release_entry c r)
unfolding release_entry
release_entry-IsQuiet c r v d h = ground (arith, v d, v c)

release_loop-IsQuiet :
    (c : ℕ) (es : List (Str × ℕ)) (r : Registry) → IsQuiet r → IsQuiet (release_loop c es r)
unfolding release_loop
release_loop-IsQuiet c [] r v = v
release_loop-IsQuiet c ((k, d) ∷ es) r v = elim (Bool-cases (d == c)) [
  | inl hit ↦
      subst (λ b. IsQuiet (if b then release_entry c r else release_loop c es r)) (sym hit)
        (release_entry-IsQuiet c r v)
  | inr miss ↦
      subst (λ b. IsQuiet (if b then release_entry c r else release_loop c es r)) (sym miss)
        (release_loop-IsQuiet c es r v)
]

make_client-IsQuiet : (key : Str) (r : Registry) → IsQuiet r → IsQuiet (make_client key r).0
unfolding make_client
make_client-IsQuiet key r v d h = ground (arith, v d)

acquire_found-IsQuiet :
    (o : Option ℕ) (key : Str) (r : Registry) → IsQuiet r → IsQuiet (acquire_found o key r).0
unfolding acquire_found
acquire_found-IsQuiet none key r v = make_client-IsQuiet key r v
acquire_found-IsQuiet (some c) key r v = elim (Bool-cases (r.closed c)) [
  | inl shut ↦
      subst (λ b. IsQuiet (if not b then (r, c) else make_client key r).0) (sym shut)
        (make_client-IsQuiet key r v)
  | inr live ↦ subst (λ b. IsQuiet (if not b then (r, c) else make_client key r).0) (sym live) v
]

step-IsQuiet : (e : Event) (r : Registry) → IsQuiet r → IsQuiet (step e r)
unfolding step acquire_client retain_client release_client timer_fires
step-IsQuiet (acquired key) r v = acquire_found-IsQuiet (get_entry key r.entries) key r v
step-IsQuiet (retained c) r v = retain_loop-IsQuiet c r.entries r v
step-IsQuiet (released c) r v = release_loop-IsQuiet c r.entries r v
step-IsQuiet (timed_out key c) r v = ground (arith, v)
step-IsQuiet (was_closed c) r v = v

run-IsQuiet_from : (es : List Event) (r : Registry) → IsQuiet r → IsQuiet (run es r)
unfolding run
run-IsQuiet_from [] r v = v
run-IsQuiet_from (e ∷ es) r v = run-IsQuiet_from es (step e r) (step-IsQuiet e r v)

-- After any history of an empty registry, a shutdown timer that has not been cleared belongs to a
-- client that nobody retains.
pub run-IsQuiet : (es : List Event) → IsQuiet (run es empty_registry)
unfolding empty_registry
run-IsQuiet es = run-IsQuiet_from es _ (λ c h. cc)

get_entry-delete_entry :
    (key : Str) (es : List (Str × ℕ)) → get_entry key (delete_entry key es) ≡ none
unfolding get_entry
get_entry-delete_entry key [] = refl
get_entry-delete_entry key ((k, d) ∷ es) = ground (arith, get_entry-delete_entry key es)

abbrev fired : Str → ℕ → Registry → Registry
fired key c r = record r { entries = delete_entry key r.entries; closed = update r.closed c true }

timer_fires_idle :
    (key : Str) (c : ℕ) (r : Registry) → r.refs c ≡ 0 → timer_fires key c r ≡ fired key c r
unfolding timer_fires
timer_fires_idle key c r idle = ap (λ n. if ltb 0 n then r else fired key c r) idle

acquire_client-missing :
    (key : Str) (r : Registry) → get_entry key r.entries ≡ none → (acquire_client key r).1 ≡ r.next
unfolding acquire_client acquire_found make_client
acquire_client-missing key r e = ap (λ o. (acquire_found o key r).1) e

-- If the timer of an unretained client runs out after its key was given to another client, that
-- one loses its entry, however often it is retained, and acquiring the key makes a third client.
pub timer_fires_replaced :
    (key : Str) (old new : ℕ) (r : Registry)
    → r.refs old ≡ 0
    → get_entry key r.entries ≡ some new
    → let t = timer_fires key old r in
      (get_entry key t.entries ≡ none)
      × (t.refs new ≡ r.refs new)
      × ((acquire_client key t).1 ≡ r.next)
timer_fires_replaced key old new r idle known =
    let gone = get_entry-delete_entry key r.entries in
    rw (timer_fires_idle key old r idle)
      (gone, refl, acquire_client-missing key (fired key old r) gone)
