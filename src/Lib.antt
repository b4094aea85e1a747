-- ===== src/Lib.antt =====
-- The Distributed Verification Platform: a server that runs test suites and commands of its
-- clients on shared resources, such as boards. A run asks for a resource by name. If the resource
-- is free the run gets its lock and is scheduled, and else it waits in the queue of the resource;
-- when a run ends or is cancelled, its lock is released and the next run of the queue starts.
--
-- The parts, and the files that model them:
--
-- * backend/app/models.py is Model: one record per table, and Db, the database, with a list per
--   table and the next id. Model, Prelude and Access are used by all the others.
-- * backend/app/services/queue.py, ResourceQueueManager, is Queue: find_or_create_resource,
--   acquire_lock, enqueue_run and release_resource. Queue/Locks and Queue/Refused are about the
--   requests for a lock, Queue/Release about its release, Queue/Fifo about the order in which the
--   runs are served.
-- * backend/app/services/runner.py is Runner: Runner/Processes has the tables of the processes
--   that are alive (_active_runs, _cancelled_runs) with cancel_run, cancel_run_file and
--   get_active_files, Runner/Steps has execute_setup_steps and execute_teardown_steps,
--   Runner/Grouping has _group_tests_by_file, Runner/Launches the processes that are started,
--   Runner/Lines the sources of the log lines, Runner/Capture capture_test_run, Runner/Commands
--   the arguments of a command, and Runner/CliCapture capture_cli_run.
-- * From backend/app/api/routes.py, Access has the guards of the endpoints (_resolve_client,
--   _verify_run_owner, verify_admin); Runs has create_run, cancel_run_endpoint,
--   cancel_run_file_endpoint and the last part of schedule_run_task; Runs/Task has
--   schedule_run_task as a whole; Configs has the endpoints of the setup and teardown
--   configurations; Clients has register_client and create_resource; Discovery has
--   _discover_nodeids_from_file and discover_tests, Discovery/Lines their regular expressions,
--   Discovery/Source the layout of a test file, Discovery/Cache _get_all_test_nodeids and
--   Discovery/Markers _discover_markers_from_files; Suites has the endpoints of the custom
--   suites, Suites/Auto _build_test_suites and get_test_suites, and Suites/History
--   _get_suite_history and _get_estimated_duration; Reports/Endpoints has the endpoints of the
--   reports, with those of tests, files and suites in Reports/Endpoints/Results; Metrics has
--   get_metrics; Runs/Naming has generate_run_name, and Runs/Names is about the names of a
--   client's runs on a day; Streaming has websocket_logs; Login has login, with
--   authenticate_client of backend/app/auth.py, and Login/Tokens create_access_token and
--   get_current_client; Upload has the checks and the flattening of upload_tests, and
--   Upload/Endpoints upload_tests as a whole with list_uploads and delete_upload; Runs/Reads has
--   the endpoints on runs and resources that only read; Cli has _validate_cli_command,
--   execute_cli_command and, in Cli/Task, _schedule_cli_run; Startup has cleanup_stale and the
--   clean-up of backend/app/main.py, lifespan, and Startup/Backfill _backfill_run_names of
--   backend/app/db.py.
-- * backend/cli.py is CommandLine: the commands on runs, as what they ask of the functions of
--   Runs and Runs/Reads; CommandLine/Platform has those on clients, resources, tests, metrics and
--   the administration, which call purge_old_data in Purge/Endpoint.
-- * Web has the limit on the body of a request and the origins of backend/app/main.py, and
--   Notifications the messages of backend/app/services/notifications.py and when they are sent.
-- * backend/app/services/purge.py is Purge: purge_old_runs, prune_excess_reports,
--   cleanup_orphaned_report_dirs and one turn of periodic_purge. Reports is what runner.py makes
--   of the junit.xml files: _generate_file_summary and the merge of _finalize_reports, with
--   _json_from_junit in Reports/Json and _split_per_test_reports in Reports/PerTest.
--   Reports/Generated is backend/app/services/report_generator.py: _read_junit_xml and
--   generate_all_reports. Tests has inputs, and the theorems applied to them.
--
-- How they interact: Runs/Task calls Runner/Steps with the configurations that Configs stores,
-- then Runner/Capture, and then Queue. Runs calls the operations of Queue and of Runner/Processes
-- on the one Db, in the order of the source, and Access before them. Purge and Startup change the
-- same tables. Reports/Generated stores the reports that Reports/Endpoints returns; Suites/Auto
-- builds its suites from what Discovery finds, and Reports/Endpoints/Results looks them up.
--
-- An operation is a function from the database to a result and the database after it, and runs as
-- one step: the handlers of the source run on one event loop, and what happens between their
-- awaits is left out, except in the loop of Runner/Capture, where each round has a function
-- `meanwhile` for what the other tasks do, and in Streaming, where the loop of the websocket is a
-- step relation with a phase between any two awaits. The tables are lists in the order of
-- insertion, which is the order of the primary key. A timestamp is a whole number of seconds, a
-- text the list of its code points. An HTTPException is a value of Access.HttpError, and the
-- handlers that raise one are written in the monad of Access. A query that would raise on more
-- than one row takes the first row.
--
-- Parameters stand for what is not in the repository: the bcrypt check of a password (Login),
-- jwt.encode and jwt.decode (Login/Tokens), the order in which a set of tests is iterated
-- (Runner/Capture), the files that glob finds with their lines, str.isspace and the word
-- characters (Discovery), the directory of a run and json.loads (Reports/Endpoints), the pages
-- that are made of a run (Reports/Generated), ZipFile.extractall (Upload), the sha256 sum,
-- Path.stem, Path.resolve and the folders on disk (Upload/Endpoints), str.upper (CommandLine),
-- the day of a timestamp (Startup/Backfill), str.title and the printing of times (Notifications),
-- int of a text (Web), str.strip, shlex.split and the word characters of regular expressions
-- (Cli), and what comes of the processes of the steps (Runner/Steps), str.lower, sys.executable
-- and the blanks of regular expressions (Runner/Commands, Runner/CliCapture), int and the md5 sum
-- (Reports). The loops of Runner/Capture and Runner/CliCapture run over a list of rounds: each
-- has the lines that are read, the processes that have ended, and the time that has passed; since
-- the time grows, a round comes after the timeout of the source, and such a round ends the loop.
-- The printing of a number in Runs/Naming has the number itself as fuel, which is at least the
-- count of its digits.
--
-- Not modelled: the HTML reports and the times in all reports, the writing of the log entries of
-- the steps, the archive of all reports, averages and rates beyond the sums they are the
-- quotients of, the lists of clients and resources, the sending of mail and webhooks, the engine
-- and the added columns of backend/app/db.py, the other commands of backend/cli.py, and the user
-- interface.
pub mod Prelude
pub mod Model
pub mod Queue
pub mod Access
pub mod Runner
pub mod Runs
pub mod Purge
pub mod Login
pub mod Startup
pub mod Upload
pub mod Cli
pub mod Configs
pub mod Streaming
pub mod Reports
pub mod Metrics
pub mod Suites
pub mod Clients
pub mod Discovery
pub mod CommandLine
pub mod Web
pub mod Notifications
mod Tests
