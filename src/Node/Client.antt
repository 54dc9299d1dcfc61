-- ===== src/Node/Client.antt =====
-- node/src/watchup.ts: the state of the client, its options, users, flags and lifecycle.
use watchup_v3_packages.Node.Config.{Config, WatchupOptions, queue_options, resolve_config}
use watchup_v3_packages.Prelude.{
  ℕ, ◌^◌, ◌==◌, ◌||◌, ◌&&◌, Bool, true, false, List, [], ◌∷◌, ltb, leb, if◌then◌else◌, Option, none,
  some, same,
}
use watchup_v3_packages.Utf8.{Str, units}
use watchup_v3_packages.Json.{Json, number, string, Fields, end, field}
use watchup_v3_packages.Json.Access.{get_field}
use watchup_v3_packages.Flags.{
  FlagContext, FeatureFlag, FlagStore, new_store, is_enabled as store_is_enabled,
  get_variant as store_get_variant, replace, FlagsBody, parse_flags_response,
}
use watchup_v3_packages.Queue.State.{resolve_options, Queue, new_queue, Env, Effect, Out}
use watchup_v3_packages.Queue.Drain.{flush as queue_flush}
use watchup_v3_packages.Queue.Calls.{plain_flush, start, begin_shutdown}
use watchup_v3_packages.Payload.{join_fields, if_text, or_other, or_value, is_empty_text}
use watchup_v3_packages.Node.Context.{Scope}

-- `scopes` holds the request contexts, which the code shares by reference; `captured` the error
-- objects that any client has reported.
pub record Client : Type 0 where
  pub config : Config
  pub queue : Queue
  pub flags : FlagStore
  pub global_user : Option Fields
  pub closed : Bool
  pub in_console_capture : Bool
  pub scopes : ℕ → Scope
  pub captured : List ℕ

-- The constructor throws without a key. The hooks on the console, on signals and on unhandled errors
-- are the process's, and call the methods below.
unfoldable pub new_client : Option Str → WatchupOptions → (ℕ → Scope) → List ℕ → Option Client
new_client node_env options scopes captured =
    let config = resolve_config node_env options in
    if is_empty_text options.api_key
    then none
    else some (record {
      config = config;
      queue = (start config.flush_interval (new_queue (resolve_options (queue_options config)))).0;
      flags = new_store none;
      global_user = none;
      closed = false;
      in_console_capture = false;
      scopes = scopes;
      captured = captured;
    })

-- What one call sees: `requestContext.getStore()`, the platform as the queue sees it, the time as an
-- ISO text, and `process.version` and its like.
pub record Call : Type 0 where
  pub scope : Option ℕ
  pub env : Env
  pub iso_now : Str
  pub runtime : Fields

abbrev pub Done : Type 0
Done = Client × List Effect

abbrev pub unchanged : Client → Done
unchanged c = (c, [])

abbrev pub update_scope : (ℕ → Scope) → ℕ → Scope → ℕ → Scope
update_scope scopes p s q = if q == p then s else scopes q

-- `setUser` and `clearUser` differ in the user that they leave.
unfoldable pub put_user : Option Fields → Option ℕ → Client → Client
put_user user none c = record c { global_user = user }
put_user user (some p) c = record c {
  scopes = update_scope c.scopes p (record (c.scopes p) { user = user });
}

unfoldable pub set_user : Call → Fields → Client → Client
set_user call user c = put_user (some user) call.scope c

unfoldable pub clear_user : Call → Client → Client
clear_user call c = put_user none call.scope c

-- The context argument of `runWithContext`; `none` is a field that is not there.
pub record GivenScope : Type 0 where
  pub request_id : Option Str
  pub trace_id : Option Str
  pub method : Option Str
  pub route : Option Str
  pub user : Option (Option Fields)

-- `runWithContext` up to the call of its function, which runs with the new context, at a place `p` that
-- no other context has.
unfoldable pub run_with_context : GivenScope → Str → ℕ → Client → Client
run_with_context given fresh_id p c = record c {
  scopes = update_scope c.scopes p (record {
    request_id = or_value given.request_id fresh_id;
    trace_id = given.trace_id;
    method = given.method;
    route = given.route;
    user = or_value given.user none;
  });
}

abbrev pub scope_user : Option ℕ → Client → Option Fields
scope_user none c = none
scope_user (some p) c = (c.scopes p).user

unfoldable pub current_user : Call → Client → Option Fields
current_user call c = or_other (scope_user call.scope c) c.global_user

abbrev pub scope_fields : Option ℕ → Client → Fields
scope_fields none c = end
scope_fields (some p) c =
    field (units "request_id") (string (c.scopes p).request_id)
      (if_text (units "trace_id") (c.scopes p).trace_id)

unfoldable pub base_context : Option ℕ → Client → Fields
base_context scope c =
    field (units "source") (string (units "server"))
      (join_fields (if_text (units "service") c.config.service) (scope_fields scope c))

-- The caller's `ctx` by name; a name that is there with `undefined` or `null` has `none`.
abbrev pub FlagArguments : Type 0
FlagArguments = List (Str × Option Str)

unfoldable pub find_argument : Str → FlagArguments → Option (Option Str)
find_argument name [] = none
find_argument name ((k, v) ∷ rest) = if same k name then some v else find_argument name rest

-- `String(value)` of a user's identifier or address, which are strings or numbers.
abbrev pub text_of : Option Json → Option Str
text_of (some (string s)) = some s
text_of (some (number t)) = some t
text_of other = none

abbrev user_text : Str → Option Fields → Option Str
user_text key none = none
user_text key (some user) = text_of (get_field key user)

-- The user's part of the context, under the caller's.
abbrev pub user_argument : Str → Option Fields → Option Str
user_argument name user =
    if same name (units "userId")
    then user_text (units "id") user
    else if same name (units "email")
    then user_text (units "email") user
    else none

unfoldable pub flag_context : Call → FlagArguments → Client → FlagContext
flag_context call ctx c =
    λ name. or_value (find_argument name ctx) (user_argument name (current_user call c))

unfoldable pub is_enabled : Call → Str → FlagArguments → Client → Bool
is_enabled call key ctx c = store_is_enabled call.env.now key (flag_context call ctx c) [] c.flags

unfoldable pub get_variant : Call → Str → FlagArguments → Client → Str
get_variant call key ctx c = store_get_variant call.env.now key (flag_context call ctx c) [] c.flags

abbrev pub replace_flags : ℕ → Option (List FeatureFlag) → FlagStore → FlagStore
replace_flags now none store = store
replace_flags now (some flags) store = (replace now flags store).store

-- The answer to the request of `refreshFlags`, which `none` stands for if it failed, was not ok, or
-- had no JSON body.
unfoldable pub refresh_flags : Call → Option FlagsBody → Client → Client
refresh_flags call none c = c
refresh_flags call (some body) c = record c {
  flags = replace_flags call.env.now (parse_flags_response body) c.flags;
}

abbrev pub with_queue : Client → Out → Done
with_queue c o = (record c { queue = o.0 }, o.1)

unfoldable pub flush : Call → Client → Done
flush call c = with_queue c (queue_flush call.env plain_flush c.queue)

-- Up to the first request of the queue's `shutdown`.
unfoldable pub shutdown : Call → Client → Done
shutdown call c =
    if c.closed
    then unchanged c
    else with_queue (record c { closed = true }) (begin_shutdown call.env c.queue)

-- `Math.random() < rate` in units of 2 ^ -53.
unfoldable pub should_sample : ℕ → Client → Bool
should_sample random c =
    leb (2 ^ 53) c.config.sample_rate
    || (ltb 0 c.config.sample_rate && ltb random c.config.sample_rate)
