-- ===== src/Node/Users.antt =====
-- node/src/watchup.ts: whose user and whose request a capture names.
use watchup_v3_packages.Prelude.{
  ℕ, ◌≡◌, ◌≢◌, refl, ap, ◌∙◌, sym, inl, inr, Bool, true, false, Option, none, some, Bool-cases,
  Option-cases, ◌==◌, ==_iff, same, if◌then◌else◌, [], ◌∷◌,
}
use watchup_v3_packages.Utf8.{Str, units}
use watchup_v3_packages.Json.{Json, string, Fields, field}
use watchup_v3_packages.Json.Access.{get_field}
use watchup_v3_packages.Payload.{spread, join_fields, if_text, if_defined, or_other, Thrown}
use watchup_v3_packages.Payload.Spread.{
  last_field, override, override-none, get_field-spread, last_field-join_fields,
}
use watchup_v3_packages.Node.Context.{Scope}
use watchup_v3_packages.Node.Client.{
  Client, Call, put_user, set_user, clear_user, scope_user, current_user, base_context,
  scope_fields,
}
use watchup_v3_packages.Node.Payloads.{ErrorContext, error_context}

if_user : (b : Bool) (s t : Scope) → (if b then s else t).user ≡ (if b then s.user else t.user)
if_user true s t = refl
if_user false s t = refl

-- The user of a scope after another user is put in a scope.
scope_user-put_user :
    (user : Option Fields) (p q : ℕ) (c : Client)
    → scope_user (some q) (put_user user (some p) c)
      ≡ (if q == p then user else scope_user (some q) c)
unfolding put_user
scope_user-put_user user p q c = if_user (q == p) (record (c.scopes p) { user = user }) (c.scopes q)

own_user :
    (user : Option Fields) (p : ℕ) (c : Client)
    → scope_user (some p) (put_user user (some p) c) ≡ user
own_user user p c = scope_user-put_user user p p c ∙ rw ((==_iff p p).1 refl) refl

other_user :
    (user : Option Fields) (p : ℕ) (other : Option ℕ) (c : Client)
    → other ≢ some p
    → scope_user other (put_user user (some p) c) ≡ scope_user other c
other_user user p none c apart = refl
other_user user p (some q) c apart = elim (Bool-cases (q == p)) [
  | inl e ↦ elim (apart (ap some ((==_iff q p).0 e))) [ ]
  | inr e ↦ scope_user-put_user user p q c ∙ rw e refl
]

-- The default user stays when a request's user changes.
global_stays :
    (user : Option Fields) (p : ℕ) (c : Client)
    → (put_user user (some p) c).global_user ≡ c.global_user
unfolding put_user
global_stays user p c = refl

-- A user that is set while a request runs is the user of what that request captures, and changes
-- the user of no other request and not the user outside of requests.
pub set_user_isolated :
    (call other : Call) (user : Fields) (p : ℕ) (c : Client)
    → call.scope ≡ some p
    → other.scope ≢ some p
    → (current_user call (set_user call user c) ≡ some user)
      × (current_user other (set_user call user c) ≡ current_user other c)
unfolding current_user set_user
set_user_isolated call other user p c inside apart = rw inside (
  ap (λ u. or_other u (put_user (some user) (some p) c).global_user) (own_user (some user) p c),
  ap (λ u. or_other u (put_user (some user) (some p) c).global_user)
        (other_user (some user) p other.scope c apart)
      ∙ ap (or_other (scope_user other.scope c)) (global_stays (some user) p c),
)

-- After `clearUser` in a request, the request has no user of its own, so that what it captures has
-- the default user, if there is one; other requests keep theirs.
pub clear_user_falls_back :
    (call other : Call) (p : ℕ) (c : Client)
    → call.scope ≡ some p
    → other.scope ≢ some p
    → (scope_user call.scope (clear_user call c) ≡ none)
      × (current_user call (clear_user call c) ≡ c.global_user)
      × (current_user other (clear_user call c) ≡ current_user other c)
unfolding current_user clear_user
clear_user_falls_back call other p c inside apart = rw inside (
  own_user none p c,
  ap (λ u. or_other u (put_user none (some p) c).global_user) (own_user none p c)
      ∙ global_stays none p c,
  ap (λ u. or_other u (put_user none (some p) c).global_user)
        (other_user none p other.scope c apart)
      ∙ ap (or_other (scope_user other.scope c)) (global_stays none p c),
)

-- A field that is there only under its own name.
last_field-if_text :
    (key k : Str) (text : Option Str) → same k key ≡ false → last_field key (if_text k text) ≡ none
unfolding last_field
last_field-if_text key k none other = refl
last_field-if_text key k (some []) other = refl
last_field-if_text key k (some (c ∷ s)) other = rw other refl

last_field-if_defined :
    (key k : Str) (x : Option Json) → same k key ≡ false → last_field key (if_defined k x) ≡ none
unfolding last_field
last_field-if_defined key k none other = refl
last_field-if_defined key k (some x) other = rw other refl

-- The last value of a key in a list that ends with a field that may not be there.
last_source :
    (scope : Option ℕ) (c : Client) → last_field (units "source") (scope_fields scope c) ≡ none
unfolding last_field same
last_source none c = refl
last_source (some p) c =
    rw
      (
        last_field-if_text (units "source") (units "trace_id") (c.scopes p).trace_id refl,
        last_field,
      )
      refl

base_rest :
    (key : Str) (scope : Option ℕ) (c : Client)
    → same (units "service") key ≡ false
    → last_field key
        (join_fields (if_text (units "service") c.config.service) (scope_fields scope c))
      ≡ last_field key (scope_fields scope c)
base_rest key scope c other =
    last_field-join_fields key (if_text (units "service") c.config.service) (scope_fields scope c)
    ∙ ap (override (last_field key (scope_fields scope c)))
        (last_field-if_text key (units "service") c.config.service other)
    ∙ sym (override-none (last_field key (scope_fields scope c)))

last_or : Str → Str → Json → Option Json → Option Json
last_or key k x (some later) = some later
last_or key k x none = if same k key then some x else none

last_field_lem :
    (key k : Str) (x : Json) (fs : Fields)
    → last_field key (field k x fs) ≡ last_or key k x (last_field key fs)
unfolding last_field last_or
last_field_lem key k x fs = elim (Option-cases (last_field key fs)) [
  | inl e ↦ rw (e, last_field) refl
  | inr (later, e) ↦ rw (e, last_field) refl
]

base_source :
    (scope : Option ℕ) (c : Client)
    → last_field (units "source") (base_context scope c) ≡ some (string (units "server"))
unfolding base_context same last_or
base_source scope c =
    last_field_lem (units "source") (units "source") (string (units "server")) _
    ∙ ap (last_or (units "source") (units "source") (string (units "server")))
        (base_rest (units "source") scope c refl ∙ last_source scope c)

last_request :
    (p : ℕ) (c : Client)
    → last_field (units "request_id") (scope_fields (some p) c)
      ≡ some (string (c.scopes p).request_id)
unfolding same last_or
last_request p c =
    last_field_lem (units "request_id") (units "request_id") (string (c.scopes p).request_id) _
    ∙ ap (last_or (units "request_id") (units "request_id") (string (c.scopes p).request_id))
        (last_field-if_text (units "request_id") (units "trace_id") (c.scopes p).trace_id refl)

base_request :
    (p : ℕ) (c : Client)
    → last_field (units "request_id") (base_context (some p) c)
      ≡ some (string (c.scopes p).request_id)
unfolding base_context same last_or
base_request p c =
    last_field_lem (units "request_id") (units "source") (string (units "server")) _
    ∙ ap (last_or (units "request_id") (units "source") (string (units "server")))
        (base_rest (units "request_id") (some p) c refl ∙ last_request p c)

-- A field of an error's context, other than its cause.
error_field :
    (key : Str) (scope : Option ℕ) (thrown : Thrown) (context : ErrorContext) (c : Client)
    → same (units "cause") key ≡ false
    → get_field key (error_context scope thrown context c)
      ≡ override (last_field key (base_context scope c)) (get_field key context.rest)
unfolding error_context
error_field key scope thrown context c other =
    get_field-spread key (spread context.rest (base_context scope c))
      (if_defined (units "cause") thrown.cause)
    ∙ rw (last_field-if_defined key (units "cause") thrown.cause other)
        (get_field-spread key context.rest (base_context scope c))

-- A captured error has the source `server` and the identifier of its request, whatever fields the
-- caller adds under these names.
pub error_context_names :
    (p : ℕ) (thrown : Thrown) (context : ErrorContext) (c : Client)
    → (get_field (units "source") (error_context (some p) thrown context c)
        ≡ some (string (units "server")))
      × (get_field (units "request_id") (error_context (some p) thrown context c)
          ≡ some (string (c.scopes p).request_id))
unfolding same
error_context_names p thrown context c =
    let a = error_field (units "source") (some p) thrown context c refl in
    let b = error_field (units "request_id") (some p) thrown context c refl in
    (
      a ∙ ap (λ v. override v (get_field (units "source") context.rest)) (base_source (some p) c),
      b ∙ ap (λ v. override v (get_field (units "request_id") context.rest)) (base_request p c),
    )
