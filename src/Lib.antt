-- ===== src/Lib.antt =====
-- A model of the core of the KamaClaude daemon, a coding agent that is served over a local socket, and what
-- its parts guarantee. A path core/x below, and in the other files, is src/kama_claude/core/x.
--
-- A run is driven by the agent loop, which sends the conversation to a model, compacts it when the model's
-- window is full, and runs the tools that the model asks for. A tool call first passes the permission
-- manager, which decides from static rules and caches or suspends the call until the user answers. The loop
-- and the sessions publish events, which the event journal numbers and writes, stream by stream, and the
-- broadcaster sends to its subscribers over the bounded queues of their connections. A plan's
-- approval is followed by clients that merge snapshots in any order. A compaction commits only on the
-- surface that it was chosen on. Tasks are files with dependencies between them.
--
-- Prelude: Boolean tests on numbers, lists, dictionaries as association lists, signed integers.
--
-- Permissions: core/permissions/policy.py (Policy) and manager.py (Manager). The coroutine
-- `check_and_wait` is cut at its `await` into `check`, `resume` and `expire`; the event loop's futures are
-- a store. `str` and `re.search` are parameters, of which nothing is assumed. Checks has the theorems on
-- one call, Pending those on the table of questions. Storage is core/permissions/storage.py, the policy file as
-- a text, with Saved, Loading and RoundTrip on its round trip; the paths and the encoding are left out.
--
-- Tasks: core/task/model.py and manager.py (Model), over a directory of files; the clock's text and
-- `list(set(...))` are arguments, the latter with the hypothesis that it keeps the members. A file is a task, or
-- broken (no JSON); valid JSON that is no object, or with an id that `int` refuses, is left out.
--
-- Approval: core/approval.py, `ApprovalSnapshotState` (State). Laws is about sequences of calls, Order about
-- the order of merges.
--
-- Loop: core/loop.py, the inner retry loop (Admission, with Retries) and the step and run around it (Steps,
-- with Runs and Success), over the status part of core/context.py. What the provider, the compactor, the
-- tools and the bus answer is an input, a function from the number of the pass, tool call or step to an
-- answer or an exception; nothing is assumed of it. Seven passes of fuel are enough for the inner loop,
-- since every pass but the last uses up one of six retries; more steps than `max_steps - step` are enough for
-- the run, since the step that reaches `max_steps` is the last. The prompts, logging and the epochs of the surface are
-- left out.
--
-- Journal: core/events/journal.py. Stream is one stream with its queue and worker, whose round is cut where it
-- waits: taking a batch, the write (core/events/writer.py), which may put fewer rows than the batch on the disk,
-- and the receipts are steps of their own, and the stream can fail between any two of them. Invariant, Batches,
-- Writes and Histories show its invariant. Routing is the identity registry and `_route_event`; Publish is
-- `_publish_event_once`; Targets, Delivery, Accepted and Entry are about a publication, Failures and Refusals about
-- one that fails. What the wait for the receipts and `on_live_only` come to is an input of a publication, and so
-- is the length of a record's JSON line. A stream's lock makes each of the modelled steps atomic; a publication
-- is one step, so what happens to its streams while it waits is left to their own steps. A row that is cut
-- off in the middle, reading and repairing files, replay, `close` and `flush_all` are left out.
--
-- Connection: core/transport/connection.py. Json is the chunked encoder of frames, with Chunks and Framing on
-- its bytes; `str` of an integer and `repr` of a float are parameters. Queues is `ConnectionContext`; the writer
-- and the close task are cut where they wait, and Receipts lists the steps, the places of a frame and the
-- invariants that Bounds, Order and Settled prove. Fairness is about the writer's choice between the queues.
-- The socket, the `on_close` callback and the caller's side of `close` are left out.
--
-- Broadcast: core/transport/ipc_broadcaster.py. State has the subscriptions and their ends, Publish the
-- subscribing, the durable and the live publication and the replay task, which is cut where it waits. What they
-- need of a connection is the record `Wire`, which OnConnection fills with the Connection part; `fnmatch` and
-- what `read_replay` returns are inputs. Lookup, Others, Elsewhere and Around say what a call leaves alone, Facts,
-- Published, Replayed, Keeping and Journey follow one durable subscription from its registration on, and Limits,
-- Deliveries and Admitted are about the limits, and Window about the ids of the events that were seen. A subscription's id
-- is taken to be new. The trace and `wait_subscription` are left out.
--
-- Compaction: core/compact/compactor.py, the choice of the prefix that a compaction takes (Prefix), its binary
-- search with the scan behind it (Search), what is chosen (Selection), and the pairing of tool calls (Balance). The estimates of tokens and the
-- gateway's admission are parameters; the fuel of the search is the source's own number of turns.
--
-- Surface: core/session/surface.py, the revision of a conversation and the compare-and-set commit of a
-- compaction (State, Commits). The SHA-256 digest is a parameter, of which nothing is assumed.
--
-- Usage: core/llm/usage.py. Payload reads counts out of JSON, Normalizer has a parser for each wire schema,
-- with Accounting on its counts, Meter is the replay-aware token meter, and Reserve the tokens kept free for
-- an output. A float is finite, and is taken as the integer that `int` makes of it.
--
-- Session: core/session/model.py, the agent mode of a session with its revision (Mode, Order).
--
-- Not modelled: the socket server and client (core/transport/socket_server.py and
-- core/transport/socket_client.py), the session store, planning and
-- grounding, the gateway to the model vendors, the tools, git, MCP, the sandbox, semantic search, the
-- terminal UI, the command line, the benchmarks and the evaluation: these are input and output, calls of
-- other libraries, or parts that are still to be modelled.
pub mod Prelude
pub mod Permissions
pub mod Tasks
pub mod Approval
pub mod Loop
pub mod Journal
pub mod Connection
pub mod Broadcast
pub mod Compaction
pub mod Surface
pub mod Usage
pub mod Session
