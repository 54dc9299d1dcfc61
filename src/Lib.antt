-- ===== src/Lib.antt =====
-- The core of the watchup SDK and its clients for servers and for apps: captured values are made
-- plain data and redacted, items are cut to size, queued, chunked, sent and tried again, and
-- feature flags are evaluated.
--
-- The node client builds errors, traces and events from what its caller, its request contexts and
-- its middlewares give it, makes plain data of them (`normalize`), and hands them to its delivery
-- queue (`enqueue`); the app's client does the same and keeps the queue in the app's storage. The
-- queue cuts each to size, stores it with its serialized text, and when it flushes makes the pending
-- items into chunks, which it sends one at a time. The answer of a request decides whether its
-- chunk is done, dropped, or waits for another attempt. The flag store is separate: it holds the
-- last response of the flag service and evaluates it for a user.
--
-- Files and code:
--   Utf8      core/src/utf8.ts      utf8ByteLength, truncateUtf8, truncateWithMarker
--   Json      JSON.stringify on the values that `normalize` returns, and an object's fields by key
--   Types     core/src/types.ts, and the records of it; the limits of core/src/constants.ts stand
--             with the functions that use them
--   Chunker   core/src/chunker.ts   buildChunks; Chunker/Plan is its specification
--   Truncate  core/src/truncate.ts  fitItem
--   Http      core/src/http.ts      statuses, Retry-After, error codes, headers, toSendResult
--   Queue     core/src/queue.ts     DeliveryQueue: State its fields, Bound the limit on pending
--             items, Drain the drain loop, Calls the other methods and whole histories; Balance,
--             Sound, Sent, Credit, Flight, Retry, Delivery, Snapshot, Shutdown and Paused hold the proofs;
--             Asks is what a client may do with its queue
--   Flags     core/src/flags.ts     FlagStore, matchesTargeting, flagBucket, parseFlagsResponse
--   Normalize core/src/normalize.ts Scrub the patterns of scrubString and the checksum of card numbers,
--             Keys the sensitive keys, Walk normalize itself; Clean and Laws hold the proofs
--   Payload   object literals with spreads, and what the clients have in common
--   Node      node/src: Middleware and Context the files of these names; Config, Client, Payloads,
--             Capture and Request the class of node/src/watchup.ts; Steps its histories; Users,
--             Lasting, Refines, Delivery and the Laws modules hold the proofs
--   Browser   browser/src/unsent.ts (Unsent), the chunks kept in the local storage, and
--             browser/src/web-queue.ts (WebQueue), the batches of page views, and Unload, what
--             browser/src/watchup.ts and browser/src/transport.ts do when a page is left
--   React     react/src/registry.ts (Registry): the clients that providers share, with the timers
--             that shut them down
--   ReactNative  react-native/src/client.ts: Config, Client (state, storage, network), Capture and Steps;
--             Refines, Laws and Delivery hold the proofs
--   Prelude   shared names; the Tests modules run the definitions on small inputs
--
-- How the model corresponds to the code:
--   - A string is the list of its UTF-16 code units, `Str`. A number of a JSON value is the text that
--     JavaScript prints for it.
--   - The queue is a record of the fields of `DeliveryQueue`. A method is a function from the queue
--     to the next queue and the list of its effects: requests, diagnostics, timers, results. The
--     drain loop is cut at its awaits: `flush` runs up to the first request and `settle` from the
--     answer of a request to the next request or the end of the loop, with the loop's variables in
--     the field `drain`. `Event` and `run` make a history from any sequence of these. The loop of
--     `shutdown` runs for as many rounds as it is given, each with what happens until its flush is over.
--   - A step takes the clock, a random number, a batch identifier and the envelope's base from
--     outside (`Env`). The clock is constant within a step. A random number is in units of 2 ^ -53,
--     and the rounding of a delay is exact. Callbacks of the caller do not call the queue back.
--   - The objects that `normalize` reads are a heap, a function from places to cells, which may hold
--     cycles; a cell says which of the tests of `walk` its object passes, and a property may throw when
--     it is read. The walk is structural in `MAX_DEPTH - depth`. The keys of an object literal keep the
--     order in which they are set, and `__proto__` sets none. `toLowerCase` is a parameter. A pattern is
--     a function that matches at the front of the rest of a text and gives what replaces the match.
--   - The node client is a record of the fields of `Watchup`, with the request contexts as a store, since
--     the closures of a request and the caller share them. A call carries the context that it runs in.
--     The payloads are JSON data; `clean` stands for `normalize` on them, with any result, and
--     `ms_text` for the text of a rounded duration. Traces and requests carry the variables of the
--     closures that end them. An error is the number of its object and what the code reads of it.
--   - The app's client forwards what its queue does and adds the calls of its timer and storage. A call
--     that awaits is cut there: `persisted` is what `flush`, `shutdown` and a resume do afterwards. The
--     stored text is the snapshot itself. Events of listeners that `shutdown` removes do nothing then.
--   - `enqueue` starts with the result of `normalize`. A byte budget below 0 counts as 0.
--   - Options, weights and sizes are whole numbers; a rollout is an integer.
--   - `Platform` holds `Number`, `Date.parse` and `JSON.parse` as parameters. `Number` is asked for
--     whole seconds only.
--   - The browser's storage is a parameter: it reads and writes a list, or throws. The result for a
--     storage that works assumes that what is set is read back.
--   - The browser's answers to sendBeacon are a function from the number of the call; the answer to a
--     fetch that was made on unload is an event of its own.
--   - In the registry one number stands for a client and its entry, since each client is made for one
--     entry. Its histories may let any timer run out, and any client be closed from outside.
--   - Loops are structural. `decimal` takes its argument as fuel, which is enough since each digit
--     divides it by ten.
--
-- Not modelled: core/src/sql.ts; of the node client the hooks on signals and unhandled errors,
-- `wrapAsync` and the transport; of the app's client the hooks of the platform; the
-- rest of browser/src and of react/src, the Next.js and Svelte clients, the MCP server and the project
-- generator; and the result value of `shutdown`. Timers, the network and storage are the platform's.
mod Prelude
pub mod Utf8
pub mod Json
pub mod Types
pub mod Chunker
pub mod Truncate
pub mod Normalize
pub mod Http
pub mod Queue
pub mod Flags
pub mod Payload
pub mod Node
pub mod ReactNative
pub mod Browser
pub mod React
