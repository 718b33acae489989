-- ===== src/Lib.antt =====
-- A verification library for aragorn, a tool that runs suites of regression tests against HTTP and gRPC
-- services: once from the command line, after each change of a file, or on a schedule.
--
-- How the program hangs together. A command of cmd/aragorn loads suites (package server) from suite files
-- and from a configuration file. A suite file names a plugin (package plugin) that makes its tests: those of
-- testsuite/httpexpect send an HTTP request and check the response, those of testsuite/grpcexpect make a
-- gRPC call and check the answer. A suite runs its tests with retries and fills a report (package notifier),
-- which a notifier (notifier/slack) may show. For the command `run` the server puts each suite on a
-- scheduler (package scheduler), which runs it at an interval or by a cron expression.
--
-- The files:
--   * Prelude: texts as lists of bytes, maps as association lists in the order of one iteration, results
--     with errors and panics (`Outcome`), Go's integers and decimal numerals, and their lemmas.
--   * Testsuite: testsuite/testsuite.go. `Env` is the outside of a run over a type `W` of all that a run can
--     change; a `Test` is a function of it. Testsuite/Header: the headers, `Copy`, `MergeHeaders`, `Slice`.
--   * Notifier: notifier/notifier.go and multi.go, the report and its methods. Notifier/Slack:
--     `Notifier.Notify` of notifier/slack/slack.go up to the notification that is sent, and in
--     Notifier/Slack/Send `send`.
--   * Plugin: plugin/plugin.go, `Register`, `Get` and `ForType`.
--   * Server/Suite: `Suite.Run`, `runTests`, `runTestWithRetry` and `runTest` of server/suite.go.
--     Server/Options: server/suite_option.go and `NewSuite`. Server/Load: `NewSuiteFromReader` and
--     `NewSuiteFromFile` of server/suite.go, `GenSuites` and `genSuite` of server/config.go.
--     Server/Config: `NewConfigFromReader` and `NewConfigFromFile`, and Server/Notifiers: `GenNotifier`, of
--     server/config.go. Server/Schedule: server/server.go, and the loop of `runCommand.Run` of
--     cmd/aragorn/run.go.
--   * Scheduler: scheduler/scheduler.go and job.go. Each method is a function of the state of the
--     scheduler; Scheduler/Steps has the relation `Step`, whose steps are the methods, a timer that fires
--     and a job that returns. The methods hold the mutex while they run, so all interleavings of them are
--     sequences of steps. A job that returns schedules itself without the mutex, which is taken as one step
--     too.
--   * Files: `getFilePath`, with the file system as a parameter.
--   * Json: decoded documents, the `interface{}` values of encoding/json. Json/Duration and Json/Decode:
--     duration.go and json.go of pkg/util/json.
--   * HttpExpect/Query and HttpExpect/Response: testsuite/httpexpect/response.go, the queries into a
--     document and the checks of a response, which thread the fields of `response` and what was logged.
--     HttpExpect/Documents: `getDocumentField`, `getObjectField` and `fixRefInDoc` of
--     testsuite/httpexpect/config.go. HttpExpect/Request: testsuite/httpexpect/request.go.
--     HttpExpect/Prepare: `genTests` and `prepare` of testsuite/httpexpect/config.go. HttpExpect/Replace and
--     HttpExpect/Run: `test.Run` of testsuite/httpexpect/httpexpect.go, from the saved values that it puts
--     into the URL to what it saves; HttpExpect/Run/Again: the same test run twice. HttpExpect/Suite: `New`
--     there. HttpExpect/Interface: such a test as one of a suite, with the metadata in the context.
--   * GrpcExpect/Document: `loadDoc` and `newDocToMsgs` of testsuite/grpcexpect/config.go.
--     GrpcExpect/Generate: `genTests` there. GrpcExpect/Call: `handler` and `test.Run` of
--     testsuite/grpcexpect/grpcexpect.go. GrpcExpect/Interface: such a test as one of a suite.
--     GrpcExpect/Dial: `New` there, and `transportDialOption`.
--   * Log: `Init` of log/log.go.
--   * Cmd: the directory cmd/aragorn. Cmd/Args, Cmd/Usage and Cmd/Main: main.go, from the arguments of the
--     process to its exit code, over commands as values. Cmd/Exec and Cmd/Execute: exec.go. Cmd/Watch and
--     Cmd/Watching: watch.go. Cmd/Serve: run.go. Cmd/Init: init.go, with
--     HttpExpect/Example and GrpcExpect/Example: the examples that it writes. Cmd/Show: list.go and
--     version.go. Cmd/Aragorn: the program, with all its commands.
--
-- Bounds. The retry loop of Server/Suite has as many rounds as attempts are allowed. The numerals of
-- Prelude/Decimal take one round for each digit. `load_doc` is bounded by the depth to which files refer to
-- one another, which the source does not bound; beyond it the model has an error of its own. All other loops
-- are structural.
--
-- What is a parameter: the clock, contexts and their timers, files and directories, encoding/json, regular
-- expressions, net/http with net/url and mime/multipart, the flag package, text/tabwriter, fsnotify,
-- cronexpr, JSON schemas, go-cmp, the protobuf and gRPC libraries, and what plugins do. `Net` says whether a
-- copied http.Request shares its URL, which differs between versions of Go. A panic of the Go runtime is a
-- result of the model where the code can cause one.
--
-- What is not modelled: a panic of a test while a suite runs it, which would end the process; file
-- descriptors that stay open while files of gRPC documents refer to one another; the state between making a
-- timer at the end of a run and writing it to the job; the time that passes while a method of the scheduler
-- runs; what the timers do between the start of a server and the signal that ends it, as far as the command
-- `run` goes (Scheduler/Steps has the steps themselves, and Scheduler/Ticking those of the timers alone);
-- the log of the errors of the watcher; what is logged and traced (of cmd/aragorn/tracing.go only the failure
-- to set up the jaeger tracer is modelled); and the generated code of testsuite/grpcexpect/grpctesting.
pub mod Prelude
pub mod Testsuite
pub mod Notifier
pub mod Plugin
pub mod Files
pub mod Scheduler
pub mod Server
pub mod Json
pub mod HttpExpect
pub mod GrpcExpect
pub mod Log
pub mod Cmd
