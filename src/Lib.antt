-- ===== src/Lib.antt =====
-- A verification library of the judge system, a C++ service that fetches submissions from judge
-- servers, cuts each into judge tasks, lets worker threads judge the tasks, and reports the
-- results to the server.
--
-- The parts and how they meet: a worker (src/worker/worker.cpp) fetches a submission from a
-- server, asks the judger of its type to verify it, and has it distributed: one message for each
-- task that can start goes into a queue (include/common/concurrent_queue.hpp). A worker takes a
-- message off the queue and judges the task; the judger files the result under the submission's
-- mutex, starts or fails the tasks that depend on it, and reports to the server when all are
-- finished.
--
-- Which file models what (paths from the repository's root):
-- - Base and its children: names shared by all modules, Boolean tests, lists over the native
--   numbers, signed integers and the conversion of a size to an int.
-- - Status: the enumeration status of include/common/status.hpp, its values, and
--   get_display_message of src/common/status.cpp. Status.Lookup is about the round trip of the
--   texts, Status.Phase names the three phases that the scheduling code tells apart.
-- - Queue: concurrent_queue. Each call runs under the queue's mutex and is one step. Queue.Fifo is
--   about the order of the elements.
-- - Submission: submission and client_task of include/judge/submission.hpp and
--   include/common/messages.hpp.
-- - Programming: the structures of include/judge/programming.hpp and program_limit.
--   Programming.Verify is programming_judger::verify, Programming.Process is process, summarize,
--   report and distribute of src/judge/programming.cpp, with children for the phases of the
--   results, the invariant, one turn of the loop, the recursion and the counter.
--   Programming.Schedule adds the workers as a step relation over one submission: a worker takes a
--   message, or answers one that it holds with any final verdict, in any order.
-- - Programming.Actions is action::act and read_action::act, whose exceptions end judge_impl.
--   Programming.Data holds what judge_impl finds outside (World) and its choice of the test data,
--   with generate_random_data. Programming.Judge is the rest of judge_impl, compile and
--   programming_judger::judge, with children for the loop over the file dependencies (BaseDirs),
--   the verdicts (Verdict) and the whole turn of a worker (Answered).
-- - ProgramOutput: src/judge/program_output.cpp. ProgramOutput.Edits defines edit scripts,
--   Distance is about calc_edit_distance, Grade about the grades.
-- - Choice: src/judge/choice.cpp; Choice.Sets reads the bit masks as sets of choices.
-- - Worker: fetch_submission and finish_submission of src/worker/worker.cpp; Worker.Fetch counts
--   what a round stores and distributes, Worker.Finish is about the end of a submission.
--   Worker.Loop is worker_loop, run by several threads in any order, with stop_workers,
--   stop_judging and the handler of signals of src/main.cpp; its children are about the tasks that
--   are taken and judged, what every step keeps, the signals, and the end of all threads.
-- - IoUtils: the functions on strings of src/common/io_utils.cpp, with children for UTF-8 and for
--   paths.
-- - Mcourse: src/server/mcourse, the server of the Matrix course system. Mcourse.Config is what is
--   read from the JSON of a request; Mcourse.Tasks and Mcourse.Build are from_json_programming,
--   with children for the order of the tasks, the memory tests and what verify makes of the
--   submission; Mcourse.Questions is from_json_choice, from_json_program_output and
--   summarize_choice, with children for the answers and for the total; Mcourse.Request is the
--   from_json of feedback.cpp, from_json_mcourse and fetch_submission, with the child
--   Acknowledged. Mcourse.Report holds the reports, fractions and texts, Mcourse.Checks and
--   Mcourse.Gtest the checks that summarize_programming makes of the results, and Mcourse.Summary
--   the rest of it with report_to_server, with children for the retries and for when it returns.
--   Mcourse.Dispatch is summarize_program_output and configuration::summarize, with the child
--   Outputs for the grade of a program output submission.
-- - Sicily: src/server/sicily/sicily.cpp, the server of the Sicily online judge. Sicily.Fetch is
--   fetch_queue, Sicily.Summary is set_status, update_user and summarize; its child Unset is about
--   a submission whose config is empty, as it is for each one that is fetched. An update of the
--   database is a Statement; the rows of a query are arguments.
-- - Forth: the reading of a programming submission in src/server/forth/forth.cpp. Forth.Message is
--   the message that carries a submission, Forth.Read reads it back. Forth.Server is the reading
--   of choice questions, fetch_submission, and summarize with its reports, with children for the
--   answers to a message and for the totals of a report.
-- - Runguard: the watchdog of runguard/src/run.cpp. Runguard.CommandLine is what
--   runguard/src/runguard.cpp makes of the options, with the child Limits. Runguard.Child is the
--   process between fork and execvp, with set_restrictions and set_seccomp of
--   runguard/src/limits.cpp, as a sequence of calls of the kernel; its children are about single
--   calls, about what holds when the command starts (Restricted) and about the group of the
--   process. Runguard.Environment is the environment of the command. Runguard.Watchdog is the
--   process that guards it, from the fork to the end of the control group, with the exception
--   handler; its children are about its parts (Emits) and about how it leaves the world (Cleaned).
--   Runguard.Run has the monad of both processes. Runguard.TimeResult is about the watchdog's time
--   result, and Runguard.Metadata is the metadata file with append_meta and the read_metadata of
--   src/runguard.cpp.
-- - Executable: executable::fetch, source_code::fetch and git_repository::fetch of
--   src/program.cpp. Executable.Deployed is about the first, Compiled about source files, and
--   Retried about several calls for one directory.
-- - Cpuset: parse_cpuset of src/main.cpp; Cpuset.Covered is about the parts between the commas,
--   Cpuset.Written about sets as they are written, Cpuset.Refused about sets with another byte.
-- - Settings: what main of src/main.cpp makes of its options and of the environment up to the
--   start of the servers; Settings.Chosen says which source of a setting counts.
-- - Rabbitmq: the writing side of src/server/rabbitmq.cpp; the reports and the rounds of the
--   thread that sends them are events in any order. Rabbitmq.Delivery is about what gets
--   published.
-- - Tests: runs at concrete inputs and one instance of each result that has hypotheses.
--
-- Bounds and fuel: cgroup_kill takes the answers of cgroup_get_task_begin up to ECGEOF as a list,
-- so that ECGEOF is assumed to come. process recurses once for each task whose dependency failed;
-- its depth is bounded by a number, for which the number of tasks is chosen. Lists have at most
-- 2^31 tasks where the code converts an index to int. The loop over the file dependencies is
-- bounded by rounds: one more than there are tasks is chosen, as the tasks are meant to take their
-- files from earlier ones.
--
-- Simplifications: distribute ends before a worker takes a message, although it holds no lock; for
-- a submission with several tasks that depend on none this leaves out orders that the code has. A
-- watchdog gets at most one signal. a double of seconds is a whole number of milliseconds, and of
-- nanoseconds in runguard; a path is the list of its components; programs and assets are the names
-- of their files, although the Forth server's reading of an asset is modelled with its text, URL
-- or path; a pointer to a submission is its judge_id. The scripts, the file system, rand() and the
-- results of downloads are fields of World, one value for each call. Log lines, monitors, file
-- locks, the .error marks of random data and the creation of directories are left out, except that
-- the end of a submission is recorded as a list of events. In the modules on judging the server's
-- summarize is assumed to return. The JSON library, the database, RabbitMQ and the network are
-- arguments: the values that a lookup finds, the rows of a query, the outcome of each call. Scores
-- are exact fractions that are not reduced, where the code has boost::rational<int>; an int of the
-- configuration does not overflow. An upload fails with a network_error or not at all. The results
-- of uninitialised memory are arguments (junk). Actions that run while a task is judged
-- (action_delay) call process a second time for the same message; the step relation has no such
-- step.
--
-- Not modelled: the copies of nlohmann::json and ormpp, and the calls of AMQP and boost, which are
-- other projects' code; src/asset.cpp, the shell scripts and the locks on files, which are mostly
-- calls of the operating system or of boost; of runguard the parent of the command before it forks
-- (unshare, mounts, cgroup_create); src/monitor; of src/worker/worker.cpp the requests for more
-- than one core, since no task asks for more than one; of src/main.cpp the configuration files of
-- the servers and the metrics; local_executable of src/program.cpp; the JSON text of the reports.
pub mod Base
pub mod Status
pub mod Submission
pub mod Queue
pub mod Choice
pub mod Worker
pub mod IoUtils
pub mod ProgramOutput
pub mod Programming
pub mod Mcourse
pub mod Settings
pub mod Sicily
pub mod Rabbitmq
pub mod Runguard
pub mod Executable
pub mod Forth
pub mod Cpuset
pub mod Tests
