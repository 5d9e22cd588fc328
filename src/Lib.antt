-- ===== src/Lib.antt =====
-- Code Butler: the memory of a project that its tools share.
--
-- Code Butler reads the git history and the agents' sessions of a project, keeps what they show
-- as memories in a SQLite database, and shares that database between the devices of a person.
-- This library models the parts that decide what is remembered, what replaces what, what is
-- archived, and what two devices agree on.
--
-- Files (paths from the repository's root):
-- - Prelude and its children: shared names, tests on numbers, lists, maps from texts to
--   values.
-- - Exec: a computation that threads a state and may fail, as the code that throws does.
--   Exec/Rules has the rules for what a computation leaves alone, and Exec/Post those for what
--   it has achieved when it returns.
-- - Storage: the tables that the lifecycle of a memory reads and writes (`Db`), the functions
--   of the platform as parameters (`Env`: identifier redaction, hashes, random ids, the clock,
--   the orders of the SQL listings), and one module for each of src/storage/lifecycle-store.ts
--   (Storage/Lifecycle and Storage/Relations), src/memory/events.ts (Storage/Events),
--   src/operations/log.ts (Storage/OperationLog) and src/memory/peer-layer.ts
--   (Storage/PeerLayer). In them a nested transaction that fails gives back the state it began
--   with. Storage/Transactions is src/storage/transactions.ts itself: the connection of
--   node:sqlite is the record `Sqlite` of operations and of what SQLite documents of them, and
--   code in a transaction is a `Program` of writes, callbacks, throws and nested transactions;
--   Promise says what its caller may expect, Refines and Outermost compare the two.
--   Storage/Frame is about the tables that an operation leaves alone, Storage/Written about
--   what an update has written.
-- - Memory/Supersession: `wouldCreateSupersessionCycle` of src/memory/lifecycle-service.ts,
--   the search over the relations by which one memory replaces another. Its fuel is one more
--   than the number of relations, since every relation is pushed at most once and the original
--   memory once. Search is about the search, Acyclic about what it means for a graph without
--   cycles.
-- - Memory/Lifecycle: `updateMemoryStatus` of src/memory/lifecycle-service.ts with all its
--   guards and writes. Graph is about the relations after it, Outcome about the memory;
--   Steps, Frame, Supersede and Written are their lemmas. Work that is scheduled for
--   after the commit is a list of the ids it is for.
-- - Memory/BranchState: src/memory/branch-state.ts, with the exit status of git as a
--   parameter.
-- - Memory/Retention: src/memory/layer-retention.ts; Due is about the decision on an item,
--   Collected about the items, Apply is the application of a decision, with the quarantines
--   that wait for the commit in a list, Archived is about what it achieves, Plan is the plan
--   and run. Times are milliseconds, and a time before the last touch counts as no idle day,
--   as `Math.max(0, ...)` has it.
-- - Memory/Facts: `memoryFactsConflict` and the keys of src/memory/conflicts.ts with what they
--   use of src/memory/scope.ts, src/memory/evidence-signature.ts and src/memory/lifecycle.ts;
--   Groups is the map of facts by their subject. Memory/Reviews: the latest review of a
--   memory, of src/memory/review-state.ts.
-- - Memory/Conflicts: `auditMemoryConflicts` of src/memory/conflicts.ts; Pairs is about the
--   pairs of memories that it finds.
-- - Memory/Promotion: src/memory/automatic-promotion.ts. Core is `findCoreEquivalent`, Decide
--   and CoreCandidate the decision on an item, Plan the plan and the run, Apply the
--   application of a decision, Undo the undoing. Corroboration, Outright and Unrecorded are about
--   when an item is shared, Replay about decisions on record, Undone about what undoing
--   achieves. The writes of the store that a decision asks for are the record `PromotionStore`. Scores and
--   confidences are whole numbers on one scale, and the texts of the reason codes are kept.
-- - Memory/Triage: src/memory/branch-triage.ts. Suggest is `suggestBranchMemoryTriage` with
--   scores in hundredths, Resolve is `resolveBranchMemoryTriage`, with its records
--   in Resolution, among them what it asks of the store (`TriageStore`); Retained and
--   Resolved are about the reviews.
-- - Memory/EvidenceMerge: src/memory/evidence-merge.ts. References are told apart by their
--   keys; Sources is about the sources that are cited, Files about the files that are named.
-- - Extract/Cursor: src/extract/cursor.ts, on the tables of messages, cursors, runs, jobs and
--   links. Laws is about reading and moving a cursor, Ready is `readyForExtraction`, Again is
--   about when a conversation is extracted once more.
-- - Cloud/Row: the comparison of rows of src/cloud/merge.ts, for rows that have each column
--   once.
-- - Cloud/Merge: `decideRow` of src/cloud/merge.ts, the three-way decision on a row; Apply is
--   what `mergeCore` does with one decided row, where the aliases and the row of this device
--   with the same natural key are arguments. Laws and Converges are about decisions, Adopted
--   about their application, Hold is `automaticMergeHold`.
-- - Cloud/SyncRequests: the requests of src/cloud/sync-owner.ts. Each call of a function is
--   one step, so the processes are a sequence of such calls in any order, and the run that
--   acknowledges a token is one that has read it. A random token stands by the number of its
--   drawing, so that no two are the same. Pending is about what stays asked for, Answered about
--   what a run answers.
-- - Cloud/OwnerLock: the lock file of `AutomaticSyncOwner` in src/cloud/sync-owner.ts. One file
--   operation of `acquire` or `release` is one step of one process, any process may die between
--   two steps, and a process finds only dead processes dead. Which instances a global watcher
--   bars may change at any time. Inv is the invariant of the files,
--   Exclusion about two owners, Recovery about the lock of a dead one. A file that cannot be
--   read while it is there, and other errors of the file system, have no step.
-- - Rules/Attestations: `mergeAttestations` of src/rules/attestation-ledger.ts with what it
--   uses. Winner is about two results of a subject, Entries and Outcome about what is kept
--   under a rule, Convergence about the order of the states, Pruning about time.
-- - Rules/Merge: `combine` and `mergeRules` of src/rules/merge.ts; Texts is about sets of
--   devices, Combine about the variant of a hash, Symmetric about the side, Kept about edits.
-- - Rules/Recording: `recordAttestation` and `revokeAttestation` of src/rules/attestations.ts on
--   the ledger of one rule; the checks of the input's schema but for the outcome, and the limit
--   of a ledger file's size, are left out. Supersedes is about what the ledger then holds.
-- - Rules/Paging: the loop of `getApplicableRules` in src/rules/match.ts that cuts the selected
--   rules into pages, for any selection and any measure of a page's size. Serving is about one
--   page, Reading about a reader who follows the cursors.
-- - Modules called Tests run the definitions on concrete inputs.
--
-- The text functions of the runtime (Unicode normalization, JSON, the order of texts, dates) and
-- git, `localeCompare` and SHA-256 are parameters. Numbers are natural numbers; the counts and
-- times here do not overflow.
--
-- Not modelled: the desktop program, the command line, the MCP server, the model providers, the
-- prompts of the extraction, embeddings, encryption and key storage, and the tables that only
-- reporting reads; they are input and output or call libraries. The order in which a
-- merge's decisions are applied to the tables, the review of memories, the parsing of rule files and the selection
-- of the rules that apply are not modelled.
pub mod Cloud
pub mod Exec
pub mod Extract
pub mod Memory
pub mod Prelude
pub mod Rules
pub mod Storage
