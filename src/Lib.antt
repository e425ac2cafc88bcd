-- ===== src/Lib.antt =====
-- The engine of git-bamboo (crates/engine), the backend of a git client: its write side, which runs
-- git commands for an editor one at a time, journals them, and undoes them by restoring refs, HEAD
-- and the index from snapshots; its read side, which answers with pages of the commit graph, the
-- status, refs and diffs; the durable cache and the file watcher that keep what is read current;
-- and the framing of the messages that carry all this.
--
-- How the parts fit together. A client's message is one frame of a byte stream, and a task handles
-- it: it waits for the session that `initialize` opens, and reads, or sends one command. A command
-- reaches `Session::enqueue_write`, goes through a channel to `run_write_queue`, the only consumer,
-- and is run by `execute_command` between `begin` and `commit` of the undo engine; discards,
-- conflict resolutions and fetches are not journaled, and an undo goes to the undo engine. A
-- success bumps the session's epoch; so does a batch of file system events that touches the git
-- directory; every round is audit-logged. A reader takes the epoch before and after it reads, and
-- refuses its own answer if the counter has moved; the cache keeps lanes with the epoch that they
-- are of, and commits by their id.
--
--   Prelude          shared names, Boolean tests, lists, results, actions with a state, invariants
--                    (`Preserves`) and outcomes (`Post`) of actions, texts as lists of code points,
--                    hash maps, decimal numbers
--   Protocol         crates/protocol/src/lib.rs: conflict kinds, resolutions, pull strategies, force
--                    modes, undo entries, graph pages; Protocol/Answers: what the readers answer;
--                    Protocol/Errors: `BambooError`, and the errors that `anyhow` carries
--   Host             git, the file system, the clock and Unicode tables, as parameters; the state that
--                    a write changes (`Run`), from crates/engine/src/session.rs
--   Undo             crates/engine/src/undo.rs: Disk (the data and the files), Snapshots (reading the
--                    refs), Journal (the journal and the transactions), Rollback (restoring a
--                    snapshot), Engine (undo, recovery, start, audit log; Keeping, Steps, Counters and
--                    Fresh follow what its steps keep)
--   WriteQueue       crates/engine/src/write_queue.rs: Command, Validate, Conflict, Redact, Porcelain
--                    (the status format), Git (running git), Stash (and the auto-stash), Remote (push,
--                    pull, switch), Worktree (discards, conflicts), Execute (`execute_command`),
--                    Queue (the loop and the rounds; Keeping, Epochs, Fresh and Arguments follow the
--                    state through them); Safety: the argument lists that are run
--   Cache            crates/engine/src/cache.rs: Store (the four tables, and redb as an interface with
--                    laws), Opening (`Cache::open` and its retries); Atomic, Clearing, Refinement and
--                    Promises: the operations as functions on four maps; RoundTrip: stored metadata
--   Reader           crates/engine/src/gix_read.rs, less the graph: Status, Refs, Blobs, Diffs,
--                    Details, Branches (remotes, branch status, stash list); gix and git are a `Repository`
--   Graph            `read_graph_page` of gix_read.rs: Lanes (the children map and the sweep), Page (the
--                    arithmetic of a page), Guards, Behind and Current (the epoch guards and what is
--                    read between them), Cached (the epoch of the cache)
--   Gitdir           crates/engine/src/gitdir.rs: the git directory, and the fingerprint of the refs
--   Session          crates/engine/src/session.rs: `process_event_batch` (Epochs, Relevant), Open
--                    (`Session::open`), Watcher (how events are coalesced into batches)
--   Server           crates/engine/src/server.rs: Utf8, Frames (`read_message` and `write_frame`), Slot
--                    (`handle_initialize` and `get_any_session`, whose tasks interleave), Methods and
--                    Dispatch (`dispatch_with_session`: Table has an arm for each method; Queued and
--                    Undoable follow a command into the write queue and back), Messages (where a method
--                    goes, the checks and the result of `initialize`, and the notifications)
--   Tests            test repositories and stores, runs at concrete inputs, and each result at one
--
-- State and effects. An action is a function from the state to a result and a state; a failure
-- keeps what was done before it. In the write side a panic, or the end of the process, is the fault
-- `panicked`, which no caller catches. A process that git runs in, and every change of a file, may
-- fail or be cut short as the host says, so crashes are values. `trace` records the argument lists
-- of git, those of the undo engine too, and `seen` the values read from the epoch counter, for
-- statements only: the counter of a `Repository` may have another value at each reading. A file of
-- the undo directory is its parsed content; what serde_json wrote is what it reads back. Every call
-- of redb may fail; a failed commit has done nothing, and a listing that begins shows every key but
-- those of rows that it yields as errors. Rust's Debug form of a string is a parameter. Hash maps
-- are lists of entries of which the first with a key counts.
--
-- Tasks are cut at their locks, sends and waits, and a schedule, a list of events, says which task
-- makes its next step. A send of the watch channel stores its value only if some task listens. A
-- request that has sent a command is given the reply as an argument, so nothing is assumed of what
-- the queue did meanwhile. The watcher receives a list of signals; in the run of the queue, its
-- bumps of the epoch are turns between the rounds.
--
-- Bounds and fuel. The epoch wraps at 2 ^ 64, also where the cache adds 1 to the stored one, as in
-- a release build, and so does the sum of a page's start and limit; transaction ids wrap there too,
-- so that there is room for them is a hypothesis where it matters. Lengths of texts are natural
-- numbers. Lanes are cast to 16 bits as the code does. `redact_credentials` recurs on fuel above
-- the text's length, of which every round takes more than two characters, so the fuel never runs
-- out; the header loop of `read_message` recurs on fuel above the number of bytes that the stream
-- has, of which every round takes one or more. All other loops are structural; the attempts to open
-- the cache are twenty.
--
-- Not modelled: what gix does (walks, status, peeling, decoding), whose results are parameters; the
-- spelling of JSON, which serde reads and writes; the tasks of `run` that read, write and shut
-- down; which paths the watcher is set on; process start; xtask; the editor extension in
-- TypeScript. A path of the watcher is a list of components.
pub mod Prelude
pub mod Protocol
pub mod Host
pub mod Undo
pub mod WriteQueue
pub mod Cache
pub mod Reader
pub mod Graph
pub mod Session
pub mod Gitdir
pub mod Server
pub mod Tests
