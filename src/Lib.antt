-- ===== src/Lib.antt =====
-- The two front ends of CoCo DB, the admin studio and the observability dashboard, with the routes of
-- the studio's server that they call and the parts of the engine in Go that they show.
--
-- How the parts interact. The studio (studio/frontend/src) is a React application. App.tsx keeps the
-- selected view, the theme and what it polls from the server every five seconds; Sidebar.tsx selects
-- the view, ErrorBoundary.tsx replaces one that throws. Each view keeps a state of its own and calls
-- the members of `api` in api.ts, which are HTTP requests to the server (studio/handlers.go). The
-- dashboard (dashboard/frontend/src/App.tsx) gets its telemetry from an event source.
--
-- How the code is modelled. A component is a record of its state variables and a function `step` on
-- events: what the user does, as far as the control is there and enabled, what arrives, and what a
-- timer does; the effects of React run after the render that an event brings about. `run` is a
-- session. An asynchronous handler is split at its `await`: the first part leaves a task or a
-- request in the state, with what its closure keeps of the render in which it was made, and an
-- event with an answer of any kind, in any order, resumes it. Texts are lists of code points. A
-- number is a sign, a mantissa and a power of ten; other arithmetic of doubles is an interface.
--
-- The files.
--   Base            tests, lists counted by native numbers, texts, decimal digits, settled promises,
--                   requests that a disabled button keeps apart, a button that copies a text.
--   Studio/Uri      `encodeURIComponent`, over UTF-8; Uri/Bytes says which characters it can give.
--   Studio/Json     what JSON can carry.
--   Studio/Number   `Number(text)`, what the views make of a filter's text (`coerce`), `parseInt`.
--   Studio/Api      api.ts: `request` (fetch_call, settle); Endpoints and Documents have its members;
--                   Failures what an error answer is rejected with.
--   Studio/Collections  views/CollectionsView.tsx: loadDocuments is load_documents and
--                   documents_loaded, handleSaveDocument and handleDelete have their names, Events
--                   has the effects and the controls, Table the table; Latest, Session and
--                   Refinement prove the guard of the latest request, Stale what closures keep.
--   Studio/Shell    App.tsx: fetchData is fetch_data and data_fetched; Navigation has Sidebar.tsx
--                   and ErrorBoundary.tsx, Storage the theme, Polling the poll.
--   Studio/Buckets  views/BucketsView.tsx, with what its missing guard allows in Overtaken.
--   Studio/Maintenance, Studio/Console, Studio/Queues, Studio/FullText, Studio/Vector,
--   Studio/Topics, Studio/Overview  views/MaintenanceView.tsx, QueryConsoleView.tsx, QueueView.tsx,
--                   SearchPlaygroundView.tsx, VectorPlaygroundView.tsx, PubSubView.tsx, and
--                   DashboardView.tsx with components/Header.tsx; Console/Snippet is the Go code that
--                   the console shows, FullText/Tokens the preview of terms, Overview/Drawer the
--                   exporter's drawer; Cards, Results and Broadcasts have what the lists show.
--   Studio/TimeSeries  views/TimeSeriesView.tsx: loadPoints is load_points and points_loaded; Handlers
--                   has handleWrite, handlePrune and the controls; Pending, Guard and Overtaken its guard.
--   Server/Unescape, Server/Route  how net/url decodes a path and a query, and how handleKVRoute in
--                   studio/handlers.go finds the bucket, the action and the key.
--   Server/Query    the documents that the action `query` of handleDocRoute answers with, and All in
--                   document/query.go.
--   Dashboard/Telemetry, Dashboard/Stream, Dashboard/Health  types.ts, the stream of telemetry and
--                   the health of the cluster in dashboard/frontend/src/App.tsx.
--   Dashboard/Controls, Dashboard/Panels  the theme, the probe and the copied address, and the figures
--                   of the cards and panels in the same file.
--   Dashboard/Sparkline  components/Sparkline.tsx, over doubles whose laws Sparkline/Rounded names.
--   Dashboard/Probe  the percentiles of handleBenchmarkProbe in dashboard/handlers.go.
--   Engine/Tokenizer, Engine/Matching  Tokenize in internal/text/tokenizer.go and matchTopic in
--                   internal/pubsub/topic.go, on texts of valid UTF-8.
--   Engine/Message  Encode and DecodeMessage in internal/queue/message.go, over Bytes and Int64.
--   Engine/Queue, Engine/Heap, Engine/Dedup  internal/queue/queue.go and dedup.go: Enqueue, Dequeue, Ack,
--                   Nack, Extend and the worker's check (expire), each with its time; Queue/Routed adds
--                   the dead letters. Heap is the contract of container/heap, which Heap/Chosen meets;
--                   Queue/Outcome and Queue/Drained are about Dequeue, and
--                   Queue/Kept carries a test of the messages through every operation.
--   Engine/Database  DB.Queue in db.go and restoreFromTree: the catalog, the trees, and a restart.
--   Tests           runs on concrete inputs.
--
-- Bounds. `decimal` writes a number by recursion on fuel one above the number, which is enough
-- since each digit divides it by ten. Numbers that a form's `parseInt` reads are exact below 2^53,
-- the bound of the theorem on priorities. The loop of
-- Dequeue has fuel for each message of the heap. Everything else is structural recursion.
--
-- Not modelled. The styling of the pages and texts without a condition; the bodies of the server's
-- handlers, but for the probe's percentiles, and the engine in Go below them, but for its tokenizer,
-- its matching of topics and its queues; the pages of a B+tree, which is
-- the map that it keeps; the built bundles. `JSON.parse`, `JSON.stringify`,
-- `String`, `parseFloat` and the conversion of dates are parameters. How encoding/json reads
-- a number is one too. Of a B+tree the errors of reading and writing its file are left out. Texts in
-- URLs have no lone surrogates, on which `encodeURIComponent` throws.
pub mod Base
pub mod Studio
pub mod Server
pub mod Dashboard
pub mod Engine
mod Tests
