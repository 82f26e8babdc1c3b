-- ===== src/Lib.antt =====
-- micro_services: the Go services of this repository (modules/auth, modules/audit and
-- modules/queue) with the library that they share (modules/shared).
--
-- The auth service answers logins over HTTP: its handler reads and validates the body with
-- utilhttp, asks the login service, which reads the users table, and answers with utilhttp. Its
-- main starts telemetry (utilotel), Redis (utilcache) and PostgreSQL, and releases them in order.
-- The audit and queue services are gRPC servers: each call passes the logging and the recovery
-- interceptor and reaches a handler that so far implements no method. Their mains serve until a
-- signal arrives, and then drain the server or stop it at a deadline. The audit service keeps its
-- events in PostgreSQL and reaches the queue through utilgrpc. utiltx runs a function inside a
-- database transaction.
--
-- Files, and the code they model:
--   Base: library names, equality tests, lists, texts.
--   Errors, Http: modules/shared/src/utilhttp (error.go: Errors; response.go: Http/Response, on
--     the ResponseWriter of Http/Writer; request.go: Http/Request).
--   Context, Tx: context.Context and modules/shared/src/utiltx/transactor.go; Tx/Sql has
--     database/sql's transactions with a driver that may fail at any call. Tx/Atomic and Tx/Nested
--     are about the statements that the transactions leave behind, Tx/Concurrent has calls of
--     WithinTx that interleave statement by statement, and contexts that are cancelled.
--   Cache: modules/shared/src/utilcache; Cache/Server has the Redis client with its documented
--     laws. Cache/Model is the abstract cache that Cache/Refinement and Cache/Sharing compare it
--     with.
--   Sql: the Scan of database/sql, which the queries of both databases use.
--   GrpcClient: modules/shared/src/utilgrpc (client.go: GrpcClient, Dialing; interceptor.go:
--     Logging).
--   Otel: modules/shared/src/utilotel (init.go: Init, Startup, Resource, Flush; http.go:
--     Middleware, SpanNames).
--   Log: modules/shared/src/utillog.
--   Grpc: what the services use of google.golang.org/grpc, log/slog and protobuf; Grpc/Serving
--     has the server.
--   GrpcMain: cmd/api/main.go of modules/audit and modules/queue, which differ in a name only,
--     as a step relation on the main goroutine, the ones that it starts, the signal and the
--     deadline.
--   Audit, Queue: modules/audit/src and modules/queue/src. Interceptor is route/interceptor;
--     Messages the messages of route/grpc/*.pb.go; Wire the values that the two sides exchange;
--     Server and Client the two sides of route/grpc/*_grpc.pb.go, with route/handler.go. Route is
--     NewServer of route/server.go; Main the main with its server. Audit/Worker is
--     cmd/worker/main.go, Audit/QueueClient infra/queueclient and Audit/Store infra/database/db,
--     with the rows and the texts in Rows, the destinations in Scan, the table in Table, its rows
--     in Stored, and what the queries do on it in Events (insertion, lookup), Listing and Listed.
--   Auth: modules/auth/src (Domain: domain; Users: infra/database/db, with its table in
--     Users/Table; Validation: route/request; Login: service/login.go and route/login.go; Route:
--     route/handler.go, over Chi; Env and Main: cmd/api/main.go and infra/database/database.go, as
--     a function of what the outside answers). Auth/Main/Process is the same main as a step
--     relation with the HTTP server, its handlers, the signal and the clock.
-- Tests and Examples modules hold runs and instances at concrete data.
--
-- State is passed explicitly: the response writer, the database of transactions, the audit
-- database, the Redis server, the global telemetry settings, and the world of a gRPC call with
-- its clock and log. A Go function with the results (T, error) returns a Result, or a pair where
-- both results matter; nil is `none`. Panics are values of Exit and Outcome. Times are
-- nanoseconds in the natural numbers. The loop over the rows of a listing runs on fuel, and more
-- fuel than there are rows is enough for it to end; every other function is structurally
-- recursive. Goroutines are interleaved in any order.
--
-- Third-party code is a parameter: JSON encoding and decoding, ozzo-validation, the Redis client,
-- chi, lib/pq and PostgreSQL, the gRPC runtime, OpenTelemetry and log/slog, with what is
-- documented of them as named laws (IsOzzo, IsLawful, IsStore, IsChain, IsServer, IsConnected,
-- IsWire, IsRouter, IsCursor, IsTable, IsSelection, IsPrompt, IsMerged, IsJson, Codec). A Codec
-- says what the columns keep: texts may lose spaces at their end, times are rounded, addresses and
-- JSON normalised. net/http's ResponseWriter and Server and database/sql's transactions and Scan
-- are written out from their documentation.
--
-- Not modelled: the log lines of the mains, what the SDK puts into the exported telemetry, the
-- order and the range of a listing (the SQL is a text that the database gets), what the statements
-- of concurrent transactions read and lock, protobuf's descriptors and encoding, and the
-- deployment files. No query reads the tables of Auth/Users/Models yet.
pub mod Base
pub mod Errors
pub mod Context
pub mod Http
pub mod Tx
pub mod Cache
pub mod Grpc
pub mod GrpcMain
pub mod Sql
pub mod Log
pub mod GrpcClient
pub mod Audit
pub mod Queue
pub mod Auth
pub mod Otel
