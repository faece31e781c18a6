-- ===== src/Lib.antt =====
-- fxrs, a terminal coding agent in Rust: the parts that decide what an agent and its subagents may
-- do, and that keep the durable state of subagents.
--
-- The program. A parent agent starts children (subagents). A command for a child is validated
-- (src/subagent_domain.rs) and applied to the child's control record, a state machine with a
-- queue of work and a log of events (src/subagent_control.rs). Child and parent exchange bounded
-- deliveries through a ledger (src/subagent_communication.rs). A child that needs permission
-- registers an approval on that ledger, which delivers it to the root, and a person's response
-- resolves it (src/subagent_approval.rs). Children may have children of their own: the subtree of a
-- child is found in the records (src/subagent_relationship.rs). The rights of a child are captured
-- when it is admitted and derived again when it is resumed (src/subagent_authority.rs). Each call of a
-- tool passes the permission gate (src/permissions.rs). A terminal session that is found again after a
-- restart is reconciled with the evidence (src/terminal_recovery.rs). A request to a model that fails
-- is classified, and the loop of src/agent.rs acts on what the policy decides of it
-- (src/model_response_recovery.rs). A takeover of a terminal forwards the bytes of the keyboard, but for
-- a prefix key (src/terminal_takeover.rs). A change of a file is shown as a diff of its lines
-- (src/diff.rs). The input of a person is edited with undo and a kill ring (src/input_composer.rs). Sessions
-- whose usage the ledger may lack are collected for the report of usage (src/usage_recovery.rs).
--
-- The files.
--   Prelude and its children: tests on numbers, lists, text, Rust's Result, equality as an
--     interface, and u64 with its printing and parsing.
--   Subagent/Domain: src/subagent_domain.rs. Types has the types and constants; Text, Cursor, Policy
--     and Validate the functions of the same names; Policy/Accepts and Validate/Sound the proofs.
--   Subagent/Control: src/subagent_control.rs. Lifecycle has next_lifecycle_state and
--     state_after_restart, Lifecycle/Rules the rules as a relation. Revision has append_revision,
--     await_approval and resume_approval. Apply has apply_command with its handlers and
--     inspect_record. Work has what src/subagent_executor.rs and src/tools/subagent.rs do to a record
--     around a run of the agent. Apply/Order, Work/Ordered and Apply/History follow a record over all
--     calls.
--   Subagent/Communication: src/subagent_communication.rs, and the delivery types of
--     src/subagent_control.rs. Retention and Page are about the whole history of deliveries, Peers
--     about cursors, Work about the notifications of active work.
--   Subagent/Approval: src/subagent_approval.rs. Fingerprint has the bytes that are hashed, Routes the
--     pages of pending approvals; Decision, Register, Delivered, Invalidate and Routes/Bounds the
--     proofs.
--   Subagent/Relationship: src/subagent_relationship.rs. Subtree, Closed and Descent have the proofs.
--   Subagent/Authority and Subagent/Admission: src/subagent_authority.rs.
--   Permissions: src/permissions.rs. Paths has the matching of targets, Gate the decision; Best and
--     Decisions the proofs.
--   TerminalRecovery: src/terminal_recovery.rs.
--   ModelRecovery: src/model_response_recovery.rs. Policy has the decision, Probe and Overlap the
--     comparison of a resent response with the text so far, Classify the reading of error texts, and
--     Attempts the loop of attempts in src/agent.rs. Overlap/Matches, FallBack, Table and Longest follow
--     the prefix table; Policy/Bounds, Probe/Sound and Attempts/Ends have the other proofs.
--   Takeover: src/terminal_takeover.rs. Prefix has the parser and Controller the state machine;
--     Prefix/Paste, Controller/Keeps and Controller/Retains the proofs.
--   Composer: src/input_composer.rs. Editor has the text and its selection, History undo and redo,
--     and KillRing the ring; Editor/Edits, History/Undone and KillRing/Bounds the proofs.
--   Diff: src/diff.rs. Lines has the lines of a text and Compute the table and the way back;
--     Lines/Joined and Compute/Common, Filled, Walk, Sides, Counts and Shortest the proofs.
--   UsageRecovery: the collection of src/usage_recovery.rs; UsageRecovery/Complete has the proofs.
--   Tests: each result at a concrete case.
--
-- State and numbers. A method through `&mut` takes the old value and returns the new one, also beside
-- an error where the source writes before it fails. Numbers of 64 bits are naturals with the
-- source's checked, saturating or wrapping successor written out; a counter that the source adds to
-- without a check wraps. Times are integers, and each reading of the clock is an argument. The
-- loops are structural; the pages of pending approvals and the queue of a subtree are followed
-- with fuel: one page more than there are pending approvals, and two visits more than there are
-- records, are shown to be enough. A fall back along the prefix table has as much fuel as bytes are
-- matched, the doubling of a delay five rounds, the way back through a table of lines as many rounds as
-- there are lines, and the loop of attempts one round more than its
-- budget. A read out of range, which panics, is an error or none.
--
-- Parameters. SHA-256 is any function from bytes to bytes; the matcher of the crate globset is any
-- function from a pattern and a target, which says nothing where the pattern does not parse. A provider
-- is any function that says what the n-th request comes to.
--
-- Not modelled: the rest of the agent loop, providers, MCP, tools, the user interfaces and the command line, which
-- are calls of networks, processes and files around these parts; the stores on disk but for the
-- checks that loading a ledger makes; JSON and the hexadecimal form of a fingerprint; the map of all
-- relationships; the coloured text of a diff; the analysis of shell commands, the files of the markers of usage, the notifications of the
-- terminal, the schemas of tools and the boundaries of words and paragraphs in the input, which these parts do not
-- call; the texts of error messages; and the prompt of a person
-- at the terminal.
pub mod Prelude
pub mod Permissions
pub mod Subagent
pub mod Composer
pub mod Diff
pub mod ModelRecovery
pub mod Takeover
pub mod TerminalRecovery
pub mod UsageRecovery
pub mod Tests
