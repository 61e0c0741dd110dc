-- ===== src/Lib.antt =====
-- battle-cloud is an API that runs replay analyses on demand. A client submits a replay id, a side
-- and a profile; the API looks for a finished analysis of the same identity, charges a rate
-- limiter, fetches the replay log from a public host, and puts a job on a queue in Postgres that a
-- worker drains. Finished analyses are listed by pages. A web client submits pasted links, polls
-- the job, lists the analyses and draws the curve of one. This library models the TypeScript of the
-- API, api/src, and of the client, web/src, on the native numbers and on texts as lists of UTF-16
-- code units.
--
-- Which file models what:
--   Contract/Profiles, Errors, Identity, Key   api/src/contract/{profiles,errors,identity}.ts:
--     PROFILES, searchTimeMs, ERROR_KINDS, isSafeReplayId, deriveIdentity, identityKey
--   Contract/Uri       encodeURIComponent and String(n), which identityKey is built with
--   Contract/Schemas   SubmitRequestSchema of api/src/contract/schemas.ts
--   Contract/Checks, Documents   the schemas there of documents, jobs, envelopes and pages, as tests
--   Replay/Lines, Estimate   estimateTurns and estimateDuration of api/src/replay/estimate.ts
--   Replay/Read, Fetch       readCapped and fetchReplay of api/src/replay/fetch.ts
--   Store/Windows, Replays, Jobs, Analyses   the statements of api/src/store.ts, one table each
--   Store/Jobs/Lifecycle   the worker's statements on jobs, db/queries/*.sql, and what they lead to
--   Store/Cursor       encodeCursor and decodeCursor of api/src/store.ts
--   RateLimit          api/src/ratelimit.ts; RateLimit/Fleet is several API instances on one table
--   Routes, Routes/Submit, Listing, Lookups   the handlers of api/src/routes.ts
--   Routes/Wire, Probes   what the handlers send, as JSON; the probes and the preflight answers
--   Routes/Failing     the handlers of api/src/routes.ts over a database that may fail
--   Routes/Listing/Query   ListQuerySchema in front of the list handler
--   Routes/Listing/Walk, Walk/Lost   a client that follows the cursors, and what their times lose
--   Config             loadConfig, loadWorkerLaunch and int of api/src/config.ts
--   Config/Start       resolveDatabaseUrl of api/src/lambda.ts in front of loadConfig
--   Config/Main        the exit codes of main of api/src/server.ts
--   Worker             ensureRunning of api/src/worker.ts, a race of an attempt with a timer
--   Web/Client, Profiles, ReplayId   web/src/api.ts: the requests, profileLabel, parseReplayId
--   Web/Form           onSubmit of web/src/components/submit.tsx
--   Web/Polling        the effect of JobView in web/src/components/job.tsx
--   Web/Polling/Rendered   what JobView there renders
--   Web/Recent, Recent/Listed   load, the button, the rows and when of web/src/components/recent.tsx
--   Web/Charts         the ticks of TurnAxis and the paths of EvalCurve, web/src/components/charts.tsx
--   Web/Charts/Hover   useTurnHover there, and what a click in a chart selects
--   Web/Analysis, Analysis/View   web/src/components/analysis.tsx
--   Web/Analysis/View/Hovered   the bars and the tooltips of charts.tsx there
--   Web/App            the hash routes of web/src/app.tsx
--   Strings            split, trim and the white space that both tiers use
--   Platform, Json     what the code takes from Node and Postgres, and JSON values
--   System             submissions and the workers' statements over one database, in any order
--   Tests              the theorems at concrete inputs
--
-- State. Store.Jobs.Lifecycle.Statement is what is sent to the jobs table; Reached and Leads are
-- the tables that any sequence of statements leads to, as indexed data types, and System.run has
-- whole submissions among them. A table is a list of
-- rows, and a statement is a function on it; Routes.Api holds the tables and the limiter of one
-- instance. A handler takes the request and the state to an outcome: the answer, the state after
-- it, and the actions on the outside in order. What a function throws is a value,
-- Replay.Read.Thrown, and an exception that no handler catches is the answer `crashed`, which the
-- framework sends as 500. A moment is a number of milliseconds where the code has a Date, and of
-- microseconds in a table.
--
-- A database that fails. In Routes.Failing a handler is a call in a monad of state and exceptions:
-- each statement has a fate, to run, to be refused without effect, or to take effect and lose its
-- answer, and what was written before a throw stays. Routes.Submit, Listing and Lookups are the same
-- handlers over a database that carries out every statement, but for one: it refuses to store a
-- replay of which a column does not take its value. System.run interleaves whole submissions with the
-- statements of the workers; the statements of two submissions are not interleaved with each
-- other.
--
-- Parameters. Replay.Fetch.ReplayDeps has fetch, new URL, TextDecoder and JSON.parse as functions;
-- a response body is the list of what its reader gives, a rejection included. Platform has the
-- texts of dates, base64url, the casts of Postgres to timestamptz and uuid and the order of uuids;
-- the record Platform.IsLawful lists what the theorems on cursors use of them, for dates before the
-- year 10000, and Tests/Inputs has
-- a platform that satisfies it. The messages of a refused body are Zod's, a function of the body.
-- Routes.Deps.refusal has what Postgres refuses of the row of a replay, as an integer out of range or
-- a text with a NUL; that a column of integers takes no fraction and no infinity is written out in
-- Routes.Submit.number_or_null.
-- The id and the time of a new row are the database's, an argument of enqueue. Config.Environment
-- is the process environment with Number, and Worker.Ecs the replies of ECS with their delays.
--
-- The web client. Web.Client.Browser has JSON.stringify, JSON.parse and the encoding of a query,
-- and Web.Client.Served.IsLawful what is relied on of them, for JSON without infinities; Tests/Browsers has a browser that
-- satisfies it. A network is a function from the request to what fetch gives;
-- Web.Client.Served.carried puts the API's answer on it, and the
-- records IsSubmitServing, IsServing and IsListServing say which requests, with their method, path and
-- body, reach which handler. A payload stays the JSON that it is, as
-- the casts of the client check nothing. A view of React is its state, and its handlers are
-- functions on it; Web.Polling moves on the events that the effect of the job view waits for, the
-- timer and the unmounting included. What the analysis view renders is data, and none where the
-- rendering throws; Web.Analysis.Numbers has what JavaScript makes of a number as text.
--
-- Fuel. Routes.Listing.walk, a client that follows cursors, takes fuel; more than the number of
-- rows is enough, since every page but the last has a row. Web.Charts.ticks_from takes a round for
-- each turn and one more. Web.Recent.press_all counts presses of a button. All other loops are
-- structural.
--
-- Not modelled: the wiring of the framework in api/src/server.ts and its dispatch of a path to a handler; the floating-point
-- coordinates of the charts, and the fixed texts of the views; the Python of the worker. Turns of a
-- chart are natural numbers. JSON numbers are natural numbers, or stand as their kind and
-- their text, and the keys of an object are taken to be distinct, as JSON.parse leaves them.
pub mod Common
pub mod Contract
pub mod Strings
pub mod Json
pub mod Platform
pub mod Replay
pub mod Store
pub mod RateLimit
pub mod Routes
pub mod Config
pub mod Worker
pub mod Web
pub mod System
pub mod Tests
