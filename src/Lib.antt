-- ===== src/Lib.antt =====
-- ve-xchange-api: the exchange rates of the bolívar, as its server collects and serves them.
--
-- The program. Two workers fetch prices, one from the page of the Banco Central de Venezuela
-- (BCV) and one from Binance. Each keeps a counter of failures in a row; it writes the prices to
-- a state in memory, to metrics and to a database, and raises a flag in the state after three
-- failures. HTTP handlers read the state and the database. A nightly task replaces the day's
-- Binance rows by an average.
--
-- Prelude, with Tests, Int, Dict, Float, Result and Action below it, is what all parts share:
-- tests on numbers, signed integers, Go's maps as association lists, calls that can fail and
-- change a world, and the operations of a `float64` as a record of operations over any type, so
-- that nothing depends on how they round. GoTime models package time as far as it is used:
-- instants in nanoseconds, fixed zones, the Gregorian calendar, durations that stop at the ends
-- of an `int64`, and dates written YYYY-MM-DD. Years are counted from -400, and theorems about a
-- clock ask that its instant lie a day past that start (`IsCounted`).
--
-- Rates is internal/rates/rates.go: `PriceResponse`.
--
-- State is internal/state/state.go. `State` holds the five rates, and each Go function is one
-- function on it, since each holds the mutex throughout: `update_bcv_price` for
-- `UpdateBcvPrice`, and so on, with `time.Now()` as an argument. State/Effects says what each
-- operation does to each rate, and State/Interleave takes the two workers' operations in any
-- order.
--
-- Worker/Schedule has the schedules of internal/worker/worker.go (`next_daily` for `nextDaily`,
-- `next_business_window_start` for `nextBusinessWindowStart`, and so on) and Worker/Job the
-- closure `fetch` of `StartPriceWorker`, on any world that a job's callbacks change, with the
-- counter's 64 bits. The loop of `next_business_window_start` has four rounds of fuel: one for a
-- time that is past, two for a weekend, and one to return; the theorem shows that they are
-- enough. Worker/Streak relates the counter to a flag that the callbacks keep. Worker/Loop is
-- `runBusinessWindow`, as a machine that rests where the code waits in a `select`, and
-- Worker/Goroutine the whole goroutine that `StartPriceWorker` launches for a job, of whichever
-- schedule; Worker/Goroutine/Flags follows the flag through it, and Worker/Goroutine/Days a day
-- of a daily job. Worker/Task is the goroutine of `StartTaskWorker`. Worker/Group has the
-- goroutines of several jobs or tasks on one world, which take their turns in any order, from
-- one `select` to the next, and the counter of their wait group; Worker/Group/Turns is about any
-- goroutines that return once their context is done.
--
-- Provider/Publication is internal/provider/bcv.go, where three rounds of fuel pass a weekend.
-- Provider/Localized and Provider/EffectiveDate are `parseLocalizedNumber` and
-- `parseEffectiveDate` of internal/provider/bcvProvider.go, on the codes of a text's characters,
-- with the regular expressions written out as matchers; `strconv.ParseFloat` and the lower case
-- of characters outside of ASCII are arguments. Provider/Retry is `withRetry` of
-- internal/provider/utils.go, whose `fn` and `time.Sleep` are arguments, and Provider/Http is
-- `fetchJson` there; the HTTP client and `http.NewRequest` are the record `Http`. On these stand
-- the three providers: Provider/Binance is internal/provider/binanceProvider.go, with
-- `averageValid` in Provider/Average; Provider/Bcv is the rest of
-- internal/provider/bcvProvider.go, over the library goquery as the record `Goquery`, and
-- Provider/Bcv/Transport what `NewBCVProvider` does to the transport of its client, on a heap of
-- transports and TLS configurations with `Transport.Clone` as an argument; and Provider/DolarApi
-- is internal/provider/dolarApiProvider.go. The decoders of JSON are arguments. Each loop over
-- pages or items is structural, so no fuel is needed.
--
-- Api is internal/api/server.gen.go: the bodies of the answers and `Currency`, its errors in
-- Api/ParamError, and in Api/Routes the wrappers that bind parameters and the registration of
-- routes; the binding library is the record `Runtime`, the router of net/http the record `Mux`,
-- and `Dispatch` says what a router like `http.ServeMux` promises. Db is the part of
-- internal/db/db.go that the handlers read: rows, and the queries of the interface `Store`,
-- which are a parameter. Db/Table is its `InsertRate` and `ConsolidateDay` on the rows of the
-- table, with the SQL statements written out, AVG as an argument, and any of the calls failing.
-- Db/Queries is its `GetLatestRates` and `GetHistory`, over the answers of their queries, which
-- may fail at any row; `IsLatest` says what SELECT DISTINCT ON promises. Db/Connect is its `New`
-- and `RunMigrations`, over the packages that open and close handles as the record `Drivers`;
-- `Handles` says what these packages do to the handles. Handler is internal/handler/handlers.go,
-- each handler a function from the server and the time to the response (`get_rates_handler` is
-- `GetRates`).
--
-- Metrics is the middleware of internal/metrics/metrics.go, over the calls that a handler makes
-- of its ResponseWriter.
--
-- Server is cmd/server/main.go: the two jobs with all their callbacks, on a world of the state,
-- the metrics of internal/metrics/metrics.go and whatever lies outside; the warm-up from the
-- database, and the days of the nightly consolidation. Server/Nightly is the task itself.
-- Server/Startup is `main` up to its jobs: the configuration, the migrations, the store and the
-- warm-up, or the exit. Server/Http is the handler of its HTTP server: the handlers as the
-- interface of Api/Routes, the router with the static pages, and the middleware. Server/Shutdown
-- is its end, from its own `select` to its deferred calls, as a step relation with the turns of
-- all goroutines. Server/Backend is one world for all of it, the providers over an HTTP client
-- and the table that the jobs write; Server/Backend/Fetched and Server/Backend/Served go from
-- BCV's page to the answer of /rates/{currency}. Server/Flags and Server/Alarm put the parts
-- together, from a job's failures to the answer of /health.
--
-- Config is internal/config/config.go, over the environment as the record `Env`, with
-- `strconv.ParseUint` written out.
--
-- Examples has concrete runs; those of Examples/EndToEnd are over the tests' client of
-- internal/provider/faker.go, which is Provider/Faker.
--
-- Not modelled: logging and the texts of most wrapped errors; what happens between two selects
-- of a goroutine while another takes its turn, beyond the operations on the state in
-- State/Interleave; the libraries that the code calls, which are arguments: the HTTP client,
-- goquery, the encoding of JSON, the binding of parameters, net/http's router, Prometheus,
-- godotenv, pgxpool, goose, and PostgreSQL beyond the statements written out, with what a lost
-- connection leaves of a commit; and the static pages, the listening and what `server.Shutdown`
-- does, which are calls of net/http and of libraries.
pub mod Prelude
pub mod GoTime
pub mod Rates
pub mod Config
pub mod State
pub mod Worker
pub mod Api
pub mod Db
pub mod Handler
pub mod Provider
pub mod Metrics
pub mod Server
pub mod Examples
