-- ===== src/Lib.antt =====
-- A verification library for iwiki-mcp, a wiki server for language models with a Telegram bot.
--
-- The parts of the program that are modelled, and how they interact:
--   * The Telegram bot (src/iwiki_mcp/telegram_bot) turns commands of a user into replies.
--     `ConversationService` (conversation.py) keeps the selected domain of a user, one waiting
--     question and the changes that wait for a confirmation. It answers a question either in one
--     pass, from sections that `select_context` (context.py) fits into a budget, or through
--     `AgentLoop` (agent.py), in which the model calls the tools `search_wiki` and `read_section`.
--     The transport (transport.py) polls the Bot API, turns the texts and buttons of allowed
--     senders into commands, and delivers what the conversation answers, with its progress.
--   * The hosted server resolves a policy for a tenant and a domain (postgres/policy.py) from
--     overrides, defaults and what a bound project declares.
--   * The code graph publishes the rows of a snapshot in batches (codegraph/publication.py), and
--     its cleanup runs on a fixed set of workers over a bounded queue (codegraph/maintenance.py).
--     The hosted server takes the batches of a publisher in a session, and activates a complete
--     snapshot in one transaction (postgres/codegraph.py); a cleanup cycle drains the snapshots
--     that it replaces.
--   * The search engine sends its candidates to a reranking service and merges the scores that
--     come back (engine/rerank.py); it ranks the pages near its hits in the graph of pages
--     (engine/hier.py), and indexes long sections in windows (engine/chunk.py).
--
-- Files and code, with the paths below src/iwiki_mcp:
--   * Prelude, with its children, Text, Float and Exec are shared: lists over the native numbers,
--     Python's `str` as a list of code points, floating-point numbers as a parameter with the laws
--     of an order, and actions with a state and an exception, for which Exec/Keeps has the rules
--     of invariants and postconditions. Samples has concrete instances for the runs in Examples.
--   * Telegram/Words, Telegram/Budget and Telegram/Context are telegram_bot/context.py: `_terms`,
--     `ContextBudget` and `select_context` with `_trim` and `_render`.
--   * Telegram/Services has what the bot calls: the wiki, the inference provider, ffmpeg, the JSON
--     decoder, `repr`, the clock and the token source, as one record of actions on a world of its own;
--     Telegram/Toy is a small instance.
--   * Telegram/Session is the state of `ConversationService` with models.py and access.py.
--     Telegram/Retrieval, Telegram/Conversation and Telegram/Changes are its methods, in the
--     order in which they call one another. Telegram/Commands joins its entry points.
--   * Telegram/Agent is telegram_bot/agent.py: one round of the loop of `AgentLoop.run` is `round`,
--     and its tools are `search` and `read`.
--   * Telegram/Transport is telegram_bot/transport.py with runtime.py: Routing from an update to a
--     reply or a command, Feedback for `_ProgressSession` and `_run_with_feedback`, Polling for
--     `_dispatch_updates`, and Backoff. The Bot API is a function of the calls so far.
--   * Hosted/Policy is postgres/policy.py, with the records of postgres/config.py that it reads.
--   * Hosted/Snapshots is `PostgresCodeGraphStore` of postgres/codegraph.py over the tables of
--     one domain (Tables, after postgres/migrations.py): Sessions for begin, publish_batch, abort
--     and cleanup_staging, Materialize, Links and Finalize for finalize, Refresh for
--     refresh_wiki_links and status, and Drain for the cleanup cycle, whose deletions Removals
--     lists with the rows they are counted as. Steps makes the transactions
--     one step relation; Serving, Keeping, Draining and Unmoved say what they leave of the active
--     snapshot, Inserting, Activation and Guarding what an activation changes. JSON values,
--     encodings and the selectors of a page are the record `Database`.
--   * CodeGraph/Publication is codegraph/publication.py with canonical.py; a generator is the data
--     type `Batches` of what it yields before it ends or raises. Its child Revision is
--     `graph_payload_revision`, and Reordering compares it for two orders of the rows.
--   * CodeGraph/Maintenance is codegraph/maintenance.py; its steps are the critical sections and
--     the queue operations of submitters, workers and the one caller of `stop`.
--   * Engine/Rerank is engine/rerank.py, with the HTTP request as a parameter, and Engine/Chunk is
--     `_split_section` of engine/chunk.py. Engine/Neighbors is `rank_neighbor_pages` of
--     engine/hier.py, over any provider of neighbours.
--
-- Bounds and fuel: the loop of the agent has fuel for eight rounds, `rounds` in Telegram/Agent; at
-- most six rounds call tools, and after them come the round that is forced to answer and its
-- retry. The windows of a section have the number of its words as fuel, since every step passes a
-- word. The loop over one table of the cleanup cycle has the budget as fuel, and the cycle has one
-- round more than the rows of a cycle, since every batch and every round removes a row; in
-- Hosted/Snapshots/Cycle, more fuel changes nothing, and the cycle returns. All other loops are
-- structural recursions. Python's integers are unbounded, and so are the natural numbers here;
-- where the code subtracts, the model does it where the result is not
-- negative or says what a negative result means.
--
-- Transactions are taken whole and one after the other; what PostgreSQL decides by itself, whether
-- the advisory lock comes in time and whether the pages may be read, is an input. A constraint that
-- is violated is an exception, and the tables stay as they were.
--
-- Not modelled: the other SQL stores and the readers of the snapshots, the parsers of the code
-- graph, the rest of the search engine, files and git, the HTTP requests of the Telegram transport
-- with its voice files, logging, and the validation of configuration values. A progress callback
-- that raises is not modelled either. In the maintenance runtime one call of `stop` is modelled,
-- and a thread that was appended counts as waiting from then on.
pub mod Prelude
pub mod Text
pub mod Float
pub mod Exec
pub mod Samples
pub mod Telegram
pub mod Hosted
pub mod CodeGraph
pub mod Engine
