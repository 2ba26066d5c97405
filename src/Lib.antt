-- ===== src/Lib.antt =====
-- assist is a personal assistant that runs on one small machine: a web application (manage/web)
-- takes messages, runs them as turns of agent threads, and one language model serves all of them.
-- This library models the parts that decide who runs and what was promised, and proves what they
-- promise. Paths are from the repository's root.
--
-- The parts and how they meet:
-- - assist/thread_queue.py gives the model's slot to one thread at a time. A turn enters
--   `ThreadAffinityQueue.acquire`, waits in one of two tiers, and holds the slot until it leaves or
--   the timer's `_on_tick` takes the slot away at the cap. Before each tool call
--   assist/middleware/thread_queue_middleware.py lets a turn that was asked to pause do so;
--   `pop_hold` gives the time it has used to the run that resumes it.
-- - assist/run_service.py keeps the durable record of accepted work, one file for each thread: web
--   turns, child agents and resumed turns are runs that `create` accepts and `transition` moves on.
--   It reads the messages that assist/backlog.py kept before it, once, by `import_legacy`.
-- - manage/web/threads.py takes a user's messages and the ends of child agents into runs, and puts
--   tickets for them into the queue of its one worker. A new process, from
--   `_recover_interrupted_threads` of manage/web/state.py, queues again what the last one left.
-- - assist/record_store.py is a store with a file of records for each thread, which the schedules and
--   the message subscriptions share.
-- - assist/egress/store.py, on assist/keyed_store.py, keeps the requests of threads for network access,
--   the user's decisions on them, and the projection that the proxy enforces.
-- - assist/schedule/cadence.py computes when a schedule fires next. The poll thread of
--   assist/schedule/scheduler.py writes that to the store before it hands a due schedule's wakeup to
--   the worker, and the set of ids in flight keeps a schedule from overtaking itself.
-- - assist/events takes in the messages that a phone posts: inbound.py records each id once, and the
--   oldest subscription that matches the sender gets the message. thread_log.py keeps the history of
--   a thread.
-- - assist/retention.py deletes the oldest threads, by assist/thread_manager.py, and the database rows
--   of threads that are gone.
-- - assist/middleware has the guards that a turn's model calls and tool calls pass. They read the turn's
--   messages: loop_detection.py ends a turn that repeats itself, and the breakers of searches and reads
--   refuse one call. interjection.py shows a running turn the messages that arrive meanwhile.
-- - manage/voice/wire.py has the buffer in which a call's session leaves speech and controls for the
--   phone.
-- - manage/web/state.py keeps each thread's status, and the badges that the thread list shows.
--
-- The files:
-- - Base, Base/*: Booleans, lists over the native numbers, decisions on texts, dictionaries, integers.
-- - Queue/Defs, Acquire, Tick, Control: the state of the queue and its methods. `acquire` is cut where
--   it lets the lock go: `acquire_start` (the entry), `acquire_wake` (a round of the waiting loop),
--   `acquire_abort` (its exception handler) and `acquire_exit` (the `finally`). Queue/System is the
--   step relation on queue, clock and running bodies. Queue/SingleFlight, Revocation, Order, Promotion,
--   Budget and Invariant have the theorems; Tiers and WellFormed the lemmas on the two tiers, Accounting those on
--   the active hold.
-- - Runs/Defs, Store, Create, Update, Legacy: `Run`, the thread directories and the service's methods.
--   Runs/History has the sequences of calls, Idempotence, Admission and Claims the theorems on single
--   calls; Evolution, Lifecycle, Acceptance, Migration and Numbering the lemmas.
-- - Dispatch/Queue: `_PriorityRunQueue`, with its specification in Line and the theorem in Tiers. World: the
--   stores that the dispatchers share. Pending: `_dispatch_pending_after` and `_accept_message_run`.
--   Handoff: `_complete_child_handoff` and `_recover_interrupted_child`. Recovery, Startup, Start:
--   `_recover_run`, `queue_recovery_runs` and `_recover_interrupted_threads`. Progress, Creation, Steps,
--   Coverage, Statuses, Restart, Loops, Import and Settling have the lemmas on what each step of a start
--   does to tickets, runs and statuses, Alone those on a start with a single thread; Liveness, Stranding,
--   Duplication and Wakes the theorems.
--   Boundary: assist/middleware/interjection.py with its callbacks in threads.py. Injection has the lemmas,
--   Once and Finished the theorems.
-- - Web/State: the status and the badges of manage/web/state.py. Marks has the lemmas on one set and its
--   files, Written those on the status file, Badges the theorem.
-- - Guards/Messages, Events: messages, and the calls of a turn with their results. Guards/Repeats, Strip:
--   loop_detection.py. Guards/Breakers: `wrap_tool_call` of the breakers and of the read-only enforcer.
--   Guards/Turns has a turn, call by call, under a guard; Stopping and Bounds the theorems.
-- - Voice/Outbound: the operations of `OutboundBuffer`, one round of a waiting loop each. Voice/Delivery
--   has the theorems on any sequence of calls.
-- - Records/Store: the methods of `PerThreadJsonStore`. Records/Refinement has the journal that it
--   implements.
-- - Schedule/Defs, Cadence: `Cadence`, the zones, and `validate` and `next_after`. Search, Bound,
--   Monthly and Later have the theorems. Schedule/Scheduler: `ScheduleStore.due` and `Scheduler`. Plans
--   and Advance have the lemmas on what `_advance` writes; Polling and Overlap the theorems.
-- - Events/Defs, Tools: `Subscription`, `SubscriptionStore.route` and the subscription tools.
--   Events/Inbound: `InboundLog`. Routing and Dedup have the theorems. Events/Log: thread_log.py with its
--   theorem.
-- - Retention/Defs: `_delete_thread_in_batches`, with the database after each commit. Retention/Batches
--   has the theorem. Retention/Prune: `prune_to_n_threads`, with `hard_delete` of assist/thread_manager.py.
--   Ranking and Recent have the lemmas and the theorem.
-- - Egress/Defs, Store: `EgressRequest`, the two files and the calls of `EgressStore`. Egress/Calls lists
--   the changes that each call may make; Caps, Grants, Expiry and Announcement have the theorems, Values
--   the lemmas on dictionaries of requests.
-- - Queue/Examples, Runs/Examples, Egress/Examples, Schedule/Examples,
--   Voice/Examples, Guards/Examples, Records/Examples, Events/Examples, Retention/Examples,
--   Web/Examples, Dispatch/Examples, Dispatch/Interjections: concrete inputs.
--
-- Conventions and bounds:
-- - Times are whole milliseconds of a clock that does not go back. The queue's lock makes each method,
--   or each part of `acquire` between waits, one step; any order of steps is allowed.
-- - An object that the code compares by `is` (a handle, a waiter) has a number for its identity, and
--   the state holds a counter of those given out.
-- - `run_ticks` follows the timer of a holder that never leaves, on fuel: every tick but the last is
--   followed by one that is later by at least a millisecond, so that the time to the cap is enough.
-- - A file of runs is its list of runs, as `to_dict` wrote them; reading it applies `from_dict`
--   (`reload`). A dict of JSON values is the list of its keys and their texts, in a fixed order. A
--   write may fail: the environment of each call says whether it does, and gives the fresh id and
--   the time.
-- - The environment of Dispatch is a stream: each call that writes takes the next clock, fresh id and fate
--   of its writes. The directories' runs, the other files and the legacy journal are three dictionaries;
--   a context rider goes through as the fields it is stored as. The calls between `_RUN_ADMISSION_LOCK`
--   are one step, and a parent's directory does not go while a handoff to it runs. The state of a
--   thread's graph is a parameter.
-- - The worker of the poll loop runs one wakeup at a time, so that the executor's queue is a list whose
--   head is running; the health check and the clock of each poll are arguments. Fires, ends of wakeups,
--   restarts and edits of the files come in any order.
-- - `re` and `json` are parameters of Events: a pattern that doesn't compile, a text that is no JSON and a
--   value that can't be written are none. The loop of the batched deletion runs on fuel, of which one
--   round more than the thread's rows in a table is enough.
-- - The guards take the hash of a call's arguments, the regular expressions on an error's text, the
--   canonical form of a URL and the Unicode table of `str.lower` as the parameter `Signatures`. A turn of
--   Guards/Turns runs its calls one at a time, with any results.
-- - The zones of a schedule are a parameter, since they come from a database of clock changes: a wall
--   clock at each instant, and an instant for each wall clock, or none where the conversion to UTC raises.
--   `fire_of` is also none where `datetime` refuses the year. `search_from` has the code's own bound
--   on its steps; `align` runs on the month interval as its fuel, within which a multiple of it comes.
-- - The request file of assist/egress/store.py is its list of records, re-keyed and filtered at each
--   reading; each of a mutation's writes may fail, and so may the removal of the projection. A text of
--   an instant is the instant. A port is printed with up to twenty digits.
--
-- Not modelled: logging; the reading of environment variables; the reads over all threads
-- (`scan_all`, `scan_children`, `peek`), which change nothing; a JSON file that something else
-- damaged; the start and stop of the poll thread; the JSON form of schedules and subscriptions.
-- Containers, git, HTTP, the agent library and the web pages are I/O around these parts.
pub mod Base
pub mod Dispatch
pub mod Egress
pub mod Events
pub mod Guards
pub mod Queue
pub mod Records
pub mod Retention
pub mod Runs
pub mod Schedule
pub mod Voice
pub mod Web
