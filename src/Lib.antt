-- ===== src/Lib.antt =====
-- Mikan Judge, an online judge for programming contests (a Rust web service).
--
-- The program's parts. A web handler (src/api/handlers.rs) checks a submission, inserts it into the
-- table `submissions` and puts a job on a channel. A worker (src/worker/mod.rs) takes the job,
-- compiles the source and runs it on each case in the sandbox (src/sandbox/), and writes the results
-- to the row of the submission (src/db/submission.rs). Other handlers show the contests, the submissions
-- and the standings from the tables and the problems' folders. Sessions are kept in a table of their
-- own (src/session_store.rs).
--
-- Which file models which part.
-- Types/ models src/types.rs: Language, Status (`JudgeStatus`, `JudgeType`), Contest, Records and
--   Version (`parse_version` and the detection around it).
-- Sandbox/ models src/sandbox/: Compile is `compile` and `resolve_command` of mod.rs; Runner is
--   `run_sandboxed_blocking` and `parent_collect` of runner.rs, whose wait loop and verdict are Wait
--   and whose pipes are Pipes; Child is `child_exec` as the list of its steps, with the filter of
--   seccomp.rs in Child/Seccomp; Cgroup is the folder of a run's cgroup and the frame around the run.
-- Db and Db/ model the tables and src/db/: a table is a list of rows, and a query is the function that
--   its SQL text states; before each query a schedule of outages says whether the server fails it.
--   Db/Lists holds the queries on many rows, with the groups that the standings are made of.
-- SessionStore models src/session_store.rs on the table `tower_sessions`.
-- Problem models src/problem.rs: reading a problem's folder.
-- Worker models a job, the sandbox's configuration and one case of `judge`; Worker/Judge is the rest
--   of `judge` as a function of the database; Worker/Pool is `spawn_workers`, the workers that share
--   the channel, as a step relation on the queue, the workers and the database.
-- Api models src/api/handlers.rs: a handler maps the state `World` (the database, the session, the
--   channel) to a response and the state behind it. Api/Sessions is the session with the cooldown,
--   Api/Submit the three handlers that take submissions, Api/Views the pages and polls of one
--   submission, Api/Lists the lists of submissions, Api/Contests what the pages of a contest begin
--   with and its problems, Api/Paging the page numbers, Api/Standings the standings (the users' rows
--   in Rows, the page in Table), Api/Pages the pages that only show, Api/Auth the accounts,
--   Api/Contexts what the templates are given, and Api/Routes the pages of a contest in the router of
--   src/api/mod.rs. A handler is cut where the code returns early: each piece is a function that
--   answers or goes on to the next piece.
-- Site is the running program: the requests that change state and the workers in any order.
-- The modules below a component hold its theorems, named for what they are about, and `Tests`.
--
-- Conventions. An error is a value of `Outcome`, with a case for a panic and one for fuel that ran
-- out or for a call that never returns. Fuel stands in one place, the polls of `wait_loop`: with a
-- sleep of 5 ms between two polls, fuel for one poll in every 5 ms up to the deadline and two more is
-- enough. A run whose output pipes stay open behind its end (`drains`) does not return. u64 arithmetic wraps, as
-- in a release build. An f64 is its bits; its operations are a parameter. A UUID is a number. A
-- `DateTime` is a number of nanoseconds since the Unix epoch and a `Duration` one of nanoseconds.
--
-- Parameters of the model, for code outside the repository: the kernel and the C library in one run
-- (`Observed`, `StatusMacros`, `CgroupSystem`), the system that compiles (`System`), libseccomp
-- (`Libseccomp`), serde_json (`Json`, `DataJson`), argon2 (`Argon2`), the file system with toml and pulldown_cmark
-- (`FileSystem`), http's header values (`Viewing`), chrono's printing (`Calendar`), the order in which a
-- `HashMap` yields its values and the server's MAX (`Tabling`), and of the standard library the floats
-- (`FloatOps`) and the lossy decoding of bytes (`Host`). The clock's readings and fresh ids are fields
-- of what a request meets (`Request`, `Viewing`).
--
-- A failing query (`outages`) stands for all that the server may refuse, a text with byte 0 in a column
-- of texts among them. Rows that an ORDER BY on `created_at` leaves equal come in an order that depends
-- on the page (`ties`). The sort of the standings never panics in the model; where a total is NaN, that
-- of Rust may. Paths are valid UTF-8.
--
-- Not modelled: start-up (src/main.rs, src/db/mod.rs), the routes of src/api/mod.rs other than the
-- pages of a contest, the templates, and the builds for systems other than Linux.
mod Prelude
pub mod Types
pub mod Sandbox
pub mod Db
pub mod SessionStore
pub mod Problem
pub mod Worker
pub mod Api
pub mod Site
