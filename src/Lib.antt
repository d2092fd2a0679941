-- ===== src/Lib.antt =====
-- The judge server of the Argentine Olympiad in Informatics (oiajudge/): users log in, send
-- submissions for tasks to a contest system (CMS), and collect a score. This library models the
-- judge, the bridge to the contest system's database, and the database access of both. What CMS does
-- to its database, bcrypt, float64, JSON, SHA-1 and sort.Slice are parameters.
--
-- The parts, from the repository's root, and where they are modelled:
-- - oiajudge/pkg/store/store.go (DBClient, Transaction): Store. Store/Action is the monad of
--   functions that change a state and return a value, an error or a panic. Store/Session has the
--   round trips (Query, QueryRow, Exec, Tx, Close); Store/Errors the errors and IsNoRows.
--   Store/Migrations is MakeClientWithInitScript, where `run` is what PostgreSQL makes of a text and
--   `sort_keys` the call of sort.Slice; scripts touch other tables than that of the versions.
-- - oiajudge/pkg/bridge: Bridge, with float64 as an abstract type `F` and its operations `Arith`,
--   which also says what encoding/json keeps of a string and which years it writes.
-- - oiajudge/pkg/oiajudge/migrations: Judge/Tables, one list of rows per table. Primary keys, UNIQUE
--   and foreign keys are checked by the statements that can violate them.
-- - oiajudge/pkg/oiajudge/store.go: Judge/Users (CreateUser to SetUserSubmission), Judge/Submissions,
--   Judge/Tasks and Judge/Scores. A function keeps the Go name in snake case.
-- - oiajudge/pkg/oiajudge/updater.go: Judge/Updater (recalculateUserScoreForTask and the
--   transactions of handleSubmission and handleTask) and Judge/Events (HandleEvents).
-- - oiajudge/pkg/oiajudge/api.go, mock.go and data.go: Judge/Api and Judge/Server; `create_user_api`
--   is the method CreateUser.
-- - oiajudge/pkg/oiajudge/sever.go: Judge/Http (Outer, NoAuth, WithUserAuth, ServeStatement,
--   ServeAttachment), Judge/Routes the table of MakeServer and what its routes call, and
--   Judge/Settings the cooldown that RunServer reads. gorilla/mux is `Router`, which picks a route of
--   a table, and encoding/json is `Wire`, which decodes bodies and says what can be encoded.
-- - oiajudge/pkg/cmsbridge: Cms. Cms/Tables has the tables of CMS that the statements name;
--   `Schema` is what CMS's own constraints refuse. Cms/Queue and Cms/Channel are the event queue of
--   store.go and the goroutines of store.go and impl.go; Cms/Users, Cms/Objects, Cms/Submissions with
--   Cms/Scoring, and Cms/Tasks are CreateUser, AddFsObject with MakeSubmission and GetAttachment,
--   GetSubmission, and GetTask; Cms/Impl is CmsBridge, which implements the interface of Bridge.
--   Cms/Report, Cms/Files, Cms/Sent, Cms/Arrival, Cms/Deleted, Cms/Polite and Cms/Calm are about them.
--   Cms/Platform has what is called of Go's library; `pages_of` is how PostgreSQL cuts a content.
-- - oiajudge/main.go: Cms/Impl's `judge_config` joins the judge and the bridge, Cms/System lets the
--   two goroutines, restarts and CMS take turns, and Program adds the requests, the clock and the
--   failures to come. Program/Start is the start: main, CreateCmsBridge, RunServer, and what
--   HandleEvents returns; Store/Embedded is oiajudge/pkg/utils/embed.go, Store/Listen ListenOn.
-- - Text: strings.Split, strconv.ParseInt, %d and encoding/base64 at the arguments that the sources
--   give them. Base: shared names, lists and integers.
--
-- How failures are modelled. A `World` holds the database and a schedule: one entry for each round
-- trip to come (Acquire, BEGIN, each statement, COMMIT or ROLLBACK), which is an answer or a failure.
-- A query may be cut after some rows, and a COMMIT may be carried out though its answer is lost. A
-- statement that fails aborts the transaction. `IsUp` says that no failure is to come. Sequences,
-- connections that are never released and the random source are parts of the world too. `with_tx` is
-- Tx and a deferred Close on a named result, `with_local_tx` on a local variable.
--
-- Theorems say in their statements which schedules they are about: where no failure is to come, the
-- schedule is empty.
--
-- Numbers. int64 ids and instants are integers; an id drawn from a sequence stays below 2^63, and
-- parsing refuses what int64 does not hold; the id of an event stays below 2^31, and the numbers of
-- CMS's own tables have the bounds that `Schema` gives them. Instants are nanoseconds; what is stored of them is
-- milliseconds. Loops over slices are structural recursion; printing a number runs on fuel, one more
-- round than the number, and a round divides it by ten.
--
-- The bridge's SELECTs return rows in the order of the tables, one row for each match of a join. The
-- goroutines take turns: a notification is handled when the channel is empty, and a round of the
-- consumer runs to its end; CMS may change its database between two steps. The consumer tries a
-- handler at most ten times, as the source does. In Program one request is served at a time, between
-- two rounds; net/http catches the panic of a handler, so the server goes on from what that left.
--
-- Not modelled: the pool of connections beyond a count of those that were never released, the
-- rendering of error messages and response headers, logs, and transactions that overlap: each one
-- runs from Tx to Close on its own. The Python loader of CMS, the command line scripts and the
-- end-to-end tests are other programs.
pub mod Base
pub mod Text
pub mod Bridge
pub mod Store
pub mod Cms
pub mod Judge
pub mod Program
