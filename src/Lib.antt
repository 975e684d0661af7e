-- ===== src/Lib.antt =====
-- A verification library for imaged, a server that captures disk images of lab computers and
-- deploys them, with an agent on each computer and a dashboard.
--
-- The parts and the files that model them:
--   * Registry (crates/core/src/registry.rs): which hosts are connected, through which connection
--     the server wakes one, and the feed of changes that each dashboard follows. `register`,
--     `deregister`, `disconnect_all`, `dispatch`, `connected_hosts`, `watch` and
--     `ConnectionFeed::next` are functions of the same names; `cleanup` is what the drop of a
--     `Registration` runs. Registry/Stale is about displaced connections, Registry/Feed about the
--     feed and the dashboard's copy (crates/web/src/components/connection.rs).
--   * Task (crates/core/src/domain/task.rs, crates/model/src/types.rs, crates/model/src/task.rs):
--     tasks, the status derived from their hosts' states (Task/Aggregate), and the work that an
--     agent is given (Task/Dispatch).
--   * Store (crates/core/src/repository/task.rs, crates/core/migrations): the tables and the view
--     behind the tasks. Store itself has the calls that change hosts' states, Store/Creation the
--     creation of tasks, Store/Queries the choice of the next task, Store/Paging the listing,
--     Store/Views the view, Store/Scripts the script runs and the parts of their output that are
--     kept (Store/Scripts/Recorded: piece by piece, as crates/core/src/service/script_output.rs
--     passes them on). Store/Transitions and Store/WellFormed are about sequences of calls.
--   * Tables and Image (crates/core/migrations, crates/model/src/image.rs): the rows of the
--     tables, and images. Store/Images (crates/core/src/repository/image.rs) has the calls on
--     images, Store/Images/Grouped the listing of all of them, Store/Images/Roots the root
--     partitions, with the manifest's test of an archive's root (crates/archive/src/manifest.rs). Store/Hosts (crates/core/src/repository/host.rs) has the hosts, their addresses
--     (Mac, crates/model/src/agent.rs) and their partitions, Store/Groups
--     (crates/core/src/repository/group.rs) the groups, and Store/Catalog
--     (crates/core/src/repository/script.rs) the scripts, their import and the scripts of each
--     image; Store/Catalog/Inputs (crates/core/src/domain/script.rs) resolves the inputs of a
--     deployment.
--   * Agent (crates/api/agent/src): what an agent is told (`current_task` of event.rs), its
--     reports (task.rs: Agent/Started, Agent/Reports), and the checks of what it sends and
--     fetches (capture.rs and deploy.rs: Agent/Transfers), and the scripts it runs (scripts.rs:
--     Agent/Scripts). The handlers call Store, Registry and Progress.
--   * Multicast (crates/core/src/multicast.rs): the worker that runs multicast tasks one at a
--     time: `claim` (Multicast/Turns, Multicast/Claimed), the session, `settle`, and the loop
--     `drain` over the queue. It reads the
--     registry's connected hosts and calls the store.
--   * Disk (crates/disk/src/gpt.rs, crates/disk/src/partition_table.rs): parsing the backup of a
--     GPT (Disk/Parse), the partitions it has and the disks that can hold it (Disk/Sectors).
--   * Ports (crates/model/src/multicast.rs): ports and group addresses of multicast transfers.
--   * Progress (crates/core/src/progress.rs): the board of running transfers, and the reports of
--     a snapshot grouped by task (Progress/Grouped).
--   * Script (crates/model/src/script.rs): scripts and their inputs, when they are accepted
--     (Script/Validation, Script/Accepted), and how inputs are resolved.
--   * Base, Text and Error have what the parts share: lists, association lists and least elements
--     over the native numbers, texts as UTF-8 bytes, and `AppError` (crates/model/src/error.rs).
--
-- How it is modelled. A method that holds a lock, a statement and a transaction are each one
-- step; state is passed explicitly. Ids and times are natural numbers. A table is the list of its
-- rows, and that order stands for the order in which SQLite visits them. Numbers of 16, 32 and 64
-- bits wrap around, saturate or are checked as in the code, except the generations of the
-- registry, which are counted without bound: 2 ^ 64 registrations are out of reach.
--
-- Bounds and fuel. `drain` runs one task for each unit of fuel, and more fuel than the table has
-- pending rows is enough, since a claim leaves no row of its task pending. The entries of a GPT
-- are cut from an array with the array's length as fuel, which is enough since each is at least
-- 128 bytes long. `current_task` has a round for each task that the host cannot run, and more
-- fuel than the host has unsettled rows is enough, since each such task fails on it.
-- `import_script` makes as many attempts as it is given, and none of the theorems is about it.
-- `decimal` has one round more than the number it prints.
--
-- Not modelled: the rendering `{:?}` of a text in an error, which is a parameter; the agent's web
-- socket and how a script's output stream is cut into the
-- pieces that are recorded; the files of images, whose outcomes are
-- parameters of the handlers; floating point, so that whether a text is a number is a parameter;
-- errors of the connection to the database, and so the retries after them (a `settle` that finds
-- no task would be retried for ever, and is a session that does not return); tokio's channels,
-- whose sender is a value of any type and whose `recv` is an argument; the multicast session
-- itself, which drives a third-party sender and is a parameter of the worker; the order in which
-- a hash map yields; files, devices, external programs, HTTP, the user interfaces and the command
-- line tools.
pub mod Agent
pub mod Base
pub mod Text
pub mod Error
pub mod Registry
pub mod Task
pub mod Image
pub mod Mac
pub mod Tables
pub mod Store
pub mod Multicast
pub mod Disk
pub mod Ports
pub mod Script
pub mod Progress
