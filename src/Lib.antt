-- ===== src/Lib.antt =====
-- grns, a task tracker: a command line, an HTTP server and a store in SQLite.
--
-- The command line talks to the server. The server's handlers check a request and call a service;
-- the services work on the store through its operations, each of which is one SQL transaction or
-- statement; the store keeps tasks, their labels and the dependencies between them.
--
-- - Base: numbers, lists, texts (lists of code points) and tests that all parts share.
-- - Errors: internal/server/handlers.go and error_codes.go. Errors are values: the errors of the
--   store, `apiError`, and wrapping by fmt.Errorf; a pair (T, error) is a `Result`.
-- - Models: internal/models. The records, and the closed vocabularies with their parsers.
-- - Store: internal/store. `Store.Tables` has the rows of the three task tables and the statements
--   on them, with the keys and references of migrations.go; `Store.Tasks` and `Store.Queries` have
--   the operations of tasks.go, `Store.ListQuery` those of tasks_query_builder.go,
--   `Store.Migrations` is migrations.go, `Store.Auth` and `Store.Sessions` are auth.go, `Store.Blobs` the part of
--   attachments.go that the collection of blobs uses, `Store.GitRefs` is the closing of git_refs.go, `Store.SpecRegex` the loop of `filterRowsBySpecRegex`, `Store.Project` the identifiers of id.go
--   and `projectFromTaskID`, `Store.Time` the texts of times and their order.
-- - Server: internal/server. `Server.Validation` is validation.go, `Server.TaskMapper` and
--   `Server.TaskContracts` are task_mapper.go and task_contracts.go, `Server.TaskService` is
--   task_service.go, `Server.Importer` is importer.go as steps that carry the run and the store,
--   `Server.LoginRateLimiter` is login_rate_limiter.go, `Server.AuthService` and
--   `Server.SessionTokens` are auth_service.go, `Server.BlobGc` is GCBlobs of attachment_service.go,
--   `Server.ListParams` is list_query.go with `queryInt` and `parseFlexibleTime` of handlers.go,
--   `Server.GitRefs` has the values of task_git_ref_service.go.
-- - Auth: internal/auth/password.go.
-- - Tests: the theorems at concrete inputs.
--
-- An operation of the store is a function from the database to the new database or the error;
-- an error leaves the database as it was. The steps of an import carry the database through
-- errors too, since only an atomic import is one transaction.
--
-- Parameters stand for what is not in the repository: the answers of a regular expression, the
-- bytes of crypto/rand, SHA-256 and bcrypt, the clock, the existence test that an identifier is
-- drawn against, the effect of a migration's SQL, and the deletion of a blob's bytes, of which the
-- code has an interface; which texts are times or patterns, as time.Parse and regexp.Compile tell;
-- url.Parse and filepath.Clean. The sweep over the blobs has one round of fuel more than there are blobs,
-- and each round but the last deletes one.
-- The draw of an identifier makes the twenty attempts of `GenerateID`. A decimal number is written
-- in at most n + 1 divisions of n by ten, which is enough since each makes it smaller.
--
-- Numbers are unbounded, but for the doubled duration of the rate limiter, which wraps as in the code:
-- the other counters, priorities and nanoseconds stay far below 2 ^ 63.
-- Texts are valid UTF-8. Lower case follows ASCII. Times are nanoseconds since the zero time, in
-- UTC. A stored time is kept as the numbers that its text shows and the text of its fraction; from the
-- year 10000 on it is written but cannot be read, and how its text sorts among others is not
-- modelled. Of a custom field the JSON text is kept, not parsed. Messages of errors are left out.
--
-- A history of a service is a list of requests, each served as one step: requests that interleave
-- inside a method are not modelled.
--
-- Not modelled: SQLite itself beyond the statements used, HTTP with its handlers and cookies, the
-- command line, the configuration, the other operations on git references, attachments other than the collection of blobs.
pub mod Base
pub mod Errors
pub mod Auth
pub mod Models
pub mod Server
pub mod Store
pub mod Tests
