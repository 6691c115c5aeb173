-- ===== src/Lib.antt =====
-- Verification of the Nodus language runtime: a bytecode machine with coroutines, their
-- scheduler and channels, the front half of a compiler, and the project tools. The program is
-- Python; a class is a record here, a method a function that returns the new record, a raised
-- exception a `none` or a constructor of a reply.
--
-- The parts of the program and where they are modelled:
--
--  Semver     src/nodus/tooling/semver.py: versions, comparators and ranges (`Version.parse`,
--             `Version.__str__`, `Comparator.matches`, `VersionRange.parse`, `VersionRange.matches`,
--             `_caret_upper`), over the texts of module Text. Used by the package resolver.
--  Tasks      the state that coroutines, channels and the scheduler share: src/nodus/runtime/
--             coroutine.py, channel.py and the fields of `Scheduler` in scheduler.py
--  Channels   src/nodus/builtins/coroutine.py: `send`, `recv`, `close`, `_wake_one_sender`
--  Symbols    src/nodus/compiler/symbol_table.py: scopes, frame slots and captured variables
--
--  Retry      packages/nodus-retry/src/nodus_retry: `compute_backoff_delay`, `classify_exception`,
--             `InMemoryIdempotencyStore` and `RetryExecutor.execute` with its loop of attempts, on
--             fuel `max_attempts`, which suffices since no attempt after the last is decided on
--
--  Waiting    src/nodus/runtime/scheduler.py: `spawn`, `park_waiter`, `release_waiters`,
--             `_mark_completed` and `unpark`
--
--  Types      src/nodus/frontend/type_system.py: `is_assignable`, `combine_types`, `parse_type_name`
--
--  Prelude    lists, options, dictionaries and tests that the parts share
--  Text       the methods of Python's `str` that semver.py calls, over ASCII codes
--
--  Vm         src/nodus/vm/vm.py, src/nodus/vm/types.py: `execute` and the instructions on the
--             stack, the slots, the frames and the handlers. State has the machine, Operators the
--             arithmetic, Exceptions `handle_exception`, Frames what the instructions do, Step the
--             instructions and the loop; Nesting, Returns, Cells, Rounds, Catch, Cancel, Finally,
--             Cleanup and Twice have proofs
--
--  Cycles     src/nodus/support/graph_cycles.py: `detect_cycle`. Walks says what a cycle is, Inspect,
--             Keeps and Rounds have the invariant of the search, Budget its number of rounds, Roots
--             the loop over the roots
--
--  Vm.Resume  src/nodus/builtins/coroutine.py: `coroutine` and `resume`, and `unwind_cancelled_coroutine` of
--             src/nodus/vm/vm.py; Switch, Signals, Runs, Lifecycle
--             and Delivery have proofs
--
--  Vm.Capture src/nodus/vm/vm.py: STORE_ARG, MAKE_CLOSURE and `capture_local`; Sharing has the proof
--
--  Scheduler  src/nodus/runtime/scheduler.py: the timers, the channels of threads, `run_loop` (Turn) and
--             `drive_until_settled`; Join and Builtins have the
--             builtins of src/nodus/builtins/coroutine.py that use it. The
--             loop is a number of passes, each a turn that goes on, leaves or raises, and what it calls is
--             a record, `Host`
--
--  Contracts  src/nodus/runtime/schema_contract.py: `normalize_runtime_schema`, `validate_args`,
--             `check_json_type`, `validate_return`
--
--  TaskGraph  src/nodus/orchestration/task_graph.py: `_dep_satisfied`, `ready_tasks` and `task_statuses`
--             of `run_task_graph`; the closure is on fuel, one pass more than there are tasks, which
--             suffices since a pass that changes something classifies a task
--
--  Resolver   src/nodus/tooling/resolver.py: the search of `resolve_project_dependencies`, on fuel more
--             than the number of names in play, which suffices since a name that is being resolved is
--             not resolved again; `_resolve_single_dependency` and
--             `_select_registry_package`
--
-- How they interact: the channel operations and the scheduler work on one state, `Tasks.World`,
-- in which the objects of Python stand in stores by number; `Channels` parks and wakes
-- coroutines through it and `Waiting.Unpark` takes a parked one off its channel, against the
-- shape of channels that `Channels.Preserve` states.
--
-- The loop of `execute` runs on fuel, one unit for each instruction: a program may run for
-- ever. Python's operators on values, the error records and the test for a closure of another
-- module are parameters (`PythonOps`, `Host`).
--
-- The search of `detect_cycle` runs on fuel too: one round for each node and each edge, and one
-- more, are enough.
--
-- A closure of the machine takes its cells by the list of captures that the symbol table makes
-- (`Symbols.Upvalue`), and a coroutine of the machine has the states of a task (`Tasks.State`).
--
-- The scheduler drives coroutines through `Scheduler.Turn.Host`, whose `resume` stands for the
-- resumption that Vm.Resume models on the machine's own state; `Scheduler.Liveness.Fair` is
-- what it must keep, and Scheduler.Places shows it for `spawn` and `cancel`. `cancel` and
-- `wait` compose the unparking and the releasing of module Waiting with the loop.
--
-- The search of packages is given how one package is fetched, which
-- `Resolver.Fetch.resolve_single_dependency` does over the ranges of Semver, and how a manifest
-- is read.
--
-- Not modelled: the link between the machine's run of a coroutine and the scheduler's, the
-- instructions that Vm.Step names as left out, the mapped steps, retries and stored state of
-- workflows, the directory that packages are staged in, input and output, events, wall-clock
-- stamps, and the lexer, parser and compiler of the language.
pub mod Prelude
pub mod Text
pub mod Semver
pub mod Tasks
pub mod Channels
pub mod Symbols
pub mod Retry
pub mod Scheduler
pub mod Contracts
pub mod TaskGraph
pub mod Resolver
pub mod Waiting
pub mod Types
pub mod Cycles
pub mod Vm
