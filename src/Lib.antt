-- ===== src/Lib.antt =====
-- A verification library for cf-open-agents-api: the durable state machines that own a session's
-- containers, the record of a session, the events of its runtime, and the log of an agent's job.
--
-- packages/durable-machine is the core. `machine.ts` checks a table of transitions and answers
-- events from it; `store.ts` keeps a machine's record and its outbox of commands; `durable.ts` runs a
-- machine over a store, in transactions, with timers and an alarm. The Worker's containers are
-- leased by such a machine (packages/agent-api/src/containers/lease.ts).
--
-- Files:
--   Prelude    Boolean tests, lists, association lists and results over the native numbers.
--   Machine    machine.ts and errors.ts. Types has its types, Defs `make`, `step` and `timers`, Codec
--              the encoding of records; Made, Stepping, Release and Timing have the theorems.
--   Store      store.ts: Memory is `memoryStore`, whose variables are the record `Memory`;
--              Transactions, Keeps and Outbox have the theorems.
--   Durable    durable.ts: Defs has the functions that `make` closes over, System the calls that
--              reach a machine in any order; Keeps, Outbox, Epochs, Applied and Wake the theorems.
--   Lease      lease.ts: Table is `ContainerLease` and `containerLease`, Spec the lease as states
--              and events that are types, Refines and History relate the two, Handle is `makeLease`.
--   JobLog     packages/supervisor/src/lifecycle.ts: Log is `JobLog`, Poll its reader's side, Operations
--              `Operations`, TurnCode `statusToTurnCode`; Kept and Paging have the theorems.
--   Session    packages/agent-api/src/session-state.ts and persistence/: Record is session-record.ts, Tx
--              session-tx.ts over the rows of a session's object, Transitions the environment's
--              status and the deletion; Fence, Environment and Deletion have the theorems.
--   Stream     packages/agent-api/src/session-events.ts and the events of runtime.ts: Types and Rows are the
--              events, the items and the rows, Items, Message, Reasoning, Calls, Finish, Subagents and
--              Accept the functions, each of which gives the list of its writes; Text, Summary,
--              Totals, Usage, Actions and Finished have the theorems, and Quiet says which writes
--              leave the turns alone.
--   Turns      packages/agent-api/src/session-state.ts, the transitions of a turn over the rows of Stream and
--              the queues of a turn: State has the rows, Batch `acceptBatch`, Input
--              `acceptInput`, Queue, Children and Complete the others; Deleted and Answers have lemmas
--              on input, Repeated, Ended and Once the theorems.
--   Errors     packages/agent-api/src/errors.ts and api-error.ts: Session, Skills, Runtime and Gateway are the
--              table of definite failures by layer, Crossing the classes written by hand, Domain
--              the union and its projection, Boundary what a boundary makes of a thrown value, Api
--              the name that crosses a call; Names, Hops and Permanent have the theorems.
--   Reconcile  packages/agent-api/src/session-reconcile.ts: Tick is the world of a tick and its effects,
--              Steps and Rounds the functions over the transitions of Turns; Moves, Bounded, Limits,
--              Ticks and Late have the theorems.
--   SkillZip   packages/agent-api/src/skill-zip.ts: Bytes, Central and Archive are the reader of an archive,
--              from its bytes to its files; Sound and Kept have the invariant of its loop, Walk what
--              the loop keeps of the directory, Accepted, Paths, Apart and Found the theorems.
--   Assignment packages/agent-api/src/containers/assignment.ts: the admission of a turn's start.
--   Tests      the theorems at concrete inputs.
--
-- A throw is an error beside the state that it leaves. Time is in whole milliseconds, a natural
-- number. Where the code observes the outside (the clock, the facts, what a handler answered, what
-- the host writes beside a transition) the model takes it as an argument. The encoding of data by
-- its schema belongs to the effect library: it is the record `Codec`, and the theorems that need it
-- assume that valid data decodes from its encoding (`RoundTrips`). The loop of `fireTimers` runs on
-- its own bound of 64 firings, so no further fuel is needed.
--
-- A runtime's event is applied inside one transaction, so one that throws leaves the rows as they
-- were; the rows of Turns are taken to fit the store. A streamed text is the list of its UTF-16
-- units; counts, times and exit codes are natural. The time and the identifiers that an event draws
-- are functions of its number in the runtime's log. Fresh identifiers, and what protocol.ts reads off
-- a message (its images, a request's fingerprint), are arguments of the transitions of a turn.
--
-- An effect of the reconciler is a function from the world to a result and the world after it. A
-- transaction runs at once; while a driver is asked, others may change the store and time passes, so
-- the answer of a driver carries both. A driver's calls are functions of all that came before. The
-- session's row is there, absent, or one on which every transaction fails, as a record that does not
-- validate and a storage that refuses make it; that only a write fails is left out. The rounds of a
-- tick are its own bound, 17 or 1,001, so no further fuel is needed.
--
-- What a call of another object keeps of a thrown error, its name and its message, is the documented
-- behaviour of the platform; a failure without a wire name has its tag for a name, as the effect
-- library gives it. How a number is written is an argument.
--
-- The bytes of an archive are a list of numbers, and a read outside of it is the archive's one
-- rejection, as in the source, whose handler makes that of every unexpected throw. Its loops run
-- over the entries that it declares, at most 1,000, and over the offsets that it searches.
--
-- Of a session's record, what its modelled transitions only carry along has parameter types. The
-- bytes that a row or an event encodes to are arguments. The identifiers of events, which are
-- random, are left out.
--
-- Not modelled: the HTTP routes, the SQL behind the stores, model providers,
-- native agent runtimes and the project generator. `drain`'s loop is a sequence of actions, so that
-- it ends is not stated.
pub mod Prelude
pub mod Machine
pub mod Store
pub mod Durable
pub mod Lease
pub mod Assignment
pub mod Errors
pub mod JobLog
pub mod Reconcile
pub mod Session
pub mod SkillZip
pub mod Stream
pub mod Turns
pub mod Tests
