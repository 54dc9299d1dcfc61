-- ===== src/ReactNative/Client.antt =====
-- react-native/src/client.ts: the state of the client, its storage, and its network.
use watchup_v3_packages.Prelude.{
  ℕ, ◌++◌, ◌&&◌, ◌||◌, not, Bool, true, false, List, [], ◌∷◌, if◌then◌else◌, Option, none, some,
}
use watchup_v3_packages.Utf8.{Str, units}
use watchup_v3_packages.Json.{string, Fields, field}
use watchup_v3_packages.Queue.State.{Queue, new_queue, resolve_options, Env, Effect, changed, Out}
use watchup_v3_packages.Queue.Drain.{flush as queue_flush}
use watchup_v3_packages.Queue.Calls.{
  plain_flush, stop, pause, resume, begin_shutdown, QueueSnapshot, snapshot,
  restore as queue_restore,
}
use watchup_v3_packages.Payload.{if_text, or_value, is_empty_text}
use watchup_v3_packages.ReactNative.Config.{
  NativeOptions, NativeConfig, resolve_native, native_queue_options,
}

-- `captured` are the error objects that any client has reported.
pub record NativeClient : Type 0 where
  pub config : NativeConfig
  pub session_id : Str
  pub queue : Queue
  pub has_storage : Bool
  pub user : Option Fields
  pub screen : Option Str
  pub persist_timer : Bool
  pub online : Bool
  pub closed : Bool
  pub in_console_capture : Bool
  pub captured : List ℕ

-- The constructor throws without a key. The restoring that it begins, and its interval, are events.
unfoldable pub new_native : NativeOptions → Str → List ℕ → Option NativeClient
new_native options session_id captured =
    let config = resolve_native options in
    if is_empty_text options.api_key
    then none
    else some (record {
      config = config;
      session_id = session_id;
      queue = new_queue (resolve_options (native_queue_options config));
      has_storage = options.has_storage;
      user = none;
      screen = none;
      persist_timer = false;
      online = true;
      closed = false;
      in_console_capture = false;
      captured = captured;
    })

-- What one call sees: the platform as the queue sees it, and the time as an ISO text.
pub record NativeCall : Type 0 where
  pub env : Env
  pub iso_now : Str
  pub device : Fields

-- What a call does outside the client: what its queue does, and the calls of timers and storage.
pub data NativeEffect : Type 0 where
  forwarded : Effect → NativeEffect
  persist_armed persist_cleared item_removed : NativeEffect
  item_set : QueueSnapshot → NativeEffect

abbrev pub NativeDone : Type 0
NativeDone = NativeClient × List NativeEffect

abbrev pub unaltered : NativeClient → NativeDone
unaltered c = (c, [])

-- One part of a call after another.
abbrev pub then_native : NativeDone → (NativeClient → NativeDone) → NativeDone
then_native d f = ((f d.0).0, d.1 ++ (f d.0).1)

unfoldable pub schedule_persist : NativeClient → NativeDone
schedule_persist c =
    if not c.has_storage || c.persist_timer
    then unaltered c
    else (record c { persist_timer = true }, persist_armed ∷ [])

-- `onChange`
abbrev pub on_change : Effect → NativeClient → NativeDone
on_change changed c = schedule_persist c
on_change other c = unaltered c

-- The effects of the queue, each with what the client does on it.
unfoldable pub react : List Effect → NativeClient → NativeDone
react [] c = unaltered c
react (e ∷ es) c = then_native (c, forwarded e ∷ []) (λ c. then_native (on_change e c) (react es))

abbrev pub with_native_queue : NativeClient → Out → NativeDone
with_native_queue c o = react o.1 (record c { queue = o.0 })

abbrev pub no_items : {A : Type 0} → List A → Bool
no_items [] = true
no_items (x ∷ xs) = false

abbrev pub is_empty_snapshot : QueueSnapshot → Bool
is_empty_snapshot s =
    no_items s.retry
    && no_items s.pending.errors
    && no_items s.pending.traces
    && no_items s.pending.events

-- The storage calls are made; that they may fail later changes nothing here.
abbrev pub stored_as : QueueSnapshot → NativeEffect
stored_as s = if is_empty_snapshot s then item_removed else item_set s

abbrev pub clear_persist_timer : NativeClient → NativeDone
clear_persist_timer c =
    if c.persist_timer
    then (record c { persist_timer = false }, persist_cleared ∷ [])
    else unaltered c

abbrev pub put_stored : NativeClient → NativeDone
put_stored c = (c, stored_as (snapshot c.queue) ∷ [])

unfoldable pub persist_now : NativeClient → NativeDone
persist_now c =
    if c.has_storage then then_native (clear_persist_timer c) put_stored else unaltered c

-- The timer of `schedulePersist`.
unfoldable pub persist_due : NativeClient → NativeDone
persist_due c = persist_now (record c { persist_timer = false })

-- What the storage answers: no text, a text that is no snapshot or an error, or a snapshot's text.
pub data StoredText : Type 0 where
  no_text corrupt_text : StoredText
  snapshot_text : QueueSnapshot → StoredText

abbrev pub found_text : Env → StoredText → NativeClient → NativeDone
found_text env no_text c = unaltered c
found_text env corrupt_text c = (c, item_removed ∷ [])
found_text env (snapshot_text s) c =
    unaltered (record c { queue = queue_restore env (some s) c.queue })

-- `restore` when the storage has answered.
unfoldable pub restore_stored : Env → StoredText → NativeClient → NativeDone
restore_stored env found c = if not c.has_storage then unaltered c else found_text env found c

-- `flush` up to its await; `persist_now` follows.
unfoldable pub flush_native : Env → NativeClient → NativeDone
flush_native env c = with_native_queue c (queue_flush env plain_flush c.queue)

-- The listener of the network, with its two tests `!== false`; `persist_now` follows a resume.
unfoldable pub net_changed : Env → Bool → Bool → NativeClient → NativeDone
net_changed env is_connected is_reachable c =
    if is_connected && is_reachable
    then if c.online
      then unaltered c
      else with_native_queue (record c { online = true }) (resume env c.queue)
    else if c.online
    then with_native_queue (record c { online = false }) (pause c.queue)
    else unaltered c

-- `shutdown` up to the first await in it; `persist_now` follows.
unfoldable pub shutdown_native : Env → NativeClient → NativeDone
shutdown_native env c =
    if c.closed
    then unaltered c
    else if c.online
    then with_native_queue (record c { closed = true }) (begin_shutdown env c.queue)
    else with_native_queue (record c { closed = true }) (stop c.queue)

unfoldable pub native_route : NativeClient → Str
native_route c = or_value c.screen (units "react-native")

unfoldable pub native_context : NativeClient → Fields
native_context c =
    field (units "source") (string (units "react-native")) (
      field (units "session_id") (string c.session_id) (if_text (units "service") c.config.service))
