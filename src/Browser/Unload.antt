-- ===== src/Browser/Unload.antt =====
-- browser/src/watchup.ts (setupUnloadFlush, resendUnsent) and browser/src/transport.ts (beaconChunk):
-- the queue of a page that is left, and the chunks of an earlier page.
pub mod Laws
mod Tests
use watchup_v3_packages.Prelude.{
  ℕ, ◌+◌, ◌++◌, ◌&&◌, ◌==◌, Bool, true, false, List, [], ◌∷◌, leb, if◌then◌else◌, Option, none,
  some, length, map,
}
use watchup_v3_packages.Types.{Chunk, all_kinds}
use watchup_v3_packages.Chunker.Count.{items_in}
use watchup_v3_packages.Queue.State.{Queue, Env, Effect, took, Out, ◌⨟◌, done}
use watchup_v3_packages.Queue.Drain.{flush}
use watchup_v3_packages.Queue.Calls.{take_all, plain_flush, QueueSnapshot, restore}
use watchup_v3_packages.Browser.WebQueue.{beacon_max_bytes, WebQueue, Batch, drain}
use watchup_v3_packages.Utf8.{Str, units}
use watchup_v3_packages.Json.{Json, array, object, Items, nil, cons, field, stringify}
use watchup_v3_packages.Payload.{if_text}
use watchup_v3_packages.Browser.Unsent.{Stored, Storage, save_unsent, forget_unsent, take_unsent}

-- What becomes of a chunk: the browser takes it, or it is sent with fetch; the items of one that could
-- not be stored are reported. The batches of page views go either way.
pub data UnloadEffect : Type 0 where
  beaconed fetched : Chunk → UnloadEffect
  reported : ℕ → UnloadEffect
  web_beaconed web_fetched : Str → UnloadEffect

-- The chunks that `takeAll` returns.
unfoldable pub taken_chunks : List Effect → List Chunk
taken_chunks [] = []
taken_chunks (took chunks ∷ es) = chunks ++ taken_chunks es
taken_chunks (e ∷ es) = taken_chunks es

abbrev pub report_unless : Bool → Chunk → List UnloadEffect
report_unless true c = []
report_unless false c = reported (items_in c) ∷ []

unfoldable pub items_of : List Json → Items
items_of [] = nil
items_of (x ∷ xs) = cons x (items_of xs)

-- `JSON.stringify(batch)`
abbrev pub batch_body : Batch → Str
batch_body b = stringify (
    object
      (field (units "web") (array (items_of b.web)) (if_text (units "project_id") b.project_id)))

-- `answers n` is what the browser's sendBeacon says to the chunk number `n`; it may throw, which counts
-- as false.
module _ {S : Type 0} (storage : Storage S) (answers : ℕ → Bool) where
  abbrev pub beacon_chunk : ℕ → Chunk → Bool
  beacon_chunk n c = leb c.bytes beacon_max_bytes && answers n

  abbrev pub keep_chunk : Chunk → S → S × List UnloadEffect
  keep_chunk c s =
      let saved = save_unsent storage c s in (saved.0, fetched c ∷ report_unless saved.1 c)

  unfoldable pub unload_chunk : ℕ → Chunk → S → S × List UnloadEffect
  unload_chunk n c s = if beacon_chunk n c then (s, beaconed c ∷ []) else keep_chunk c s

  unfoldable pub unload_chunks : ℕ → List Chunk → S → S × List UnloadEffect
  unload_chunks n [] s = (s, [])
  unload_chunks n (c ∷ cs) s =
      let first = unload_chunk n c s in
      let rest = unload_chunks (n + 1) cs first.0 in (rest.0, first.1 ++ rest.1)

  unfoldable pub send_web_on_unload : ℕ → Batch → UnloadEffect
  send_web_on_unload n b =
      let body = batch_body b in
      if leb (length body) beacon_max_bytes && answers n
      then web_beaconed body
      else web_fetched body

  unfoldable pub send_webs : ℕ → List Batch → List UnloadEffect
  send_webs n [] = []
  send_webs n (b ∷ bs) = send_web_on_unload n b ∷ send_webs (n + 1) bs

  unfoldable pub unload : Env → Queue → WebQueue → S → Queue × WebQueue × S × List UnloadEffect
  unload env q web s =
      let o = take_all env beacon_max_bytes q in
      let chunks = taken_chunks o.1 in
      let r = unload_chunks 0 chunks s in
      let w = drain web in (o.0, w.0, r.0, r.1 ++ send_webs (length chunks) w.1)

  -- A fetch of a kept chunk has been answered.
  unfoldable pub fetch_answered : Bool → Chunk → S → S
  fetch_answered ok c s = if ok then forget_unsent storage c.idempotency_key s else s

  abbrev pub as_chunk : Stored → Chunk
  as_chunk c = record {
    idempotency_key = c.idempotency_key;
    body = c.body;
    bytes = c.bytes;
    counts = c.counts;
    attempts = c.attempts;
    next_attempt_at = 0;
  }

  abbrev pub unsent_snapshot : List Stored → QueueSnapshot
  unsent_snapshot list = record { version = 1; pending = all_kinds []; retry = map as_chunk list }

  unfoldable pub resend_unsent : Env → Queue → S → Out × S
  resend_unsent env q s =
      let t = take_unsent storage s in
      if length t.1 == 0
      then (done q, t.0)
      else (flush env plain_flush (restore env (some (unsent_snapshot t.1)) q), t.0)
