-- ===== src/Lib.antt =====
-- Krennic watches the working trees of a developer's repositories, bundles the changes of each into
-- an event, queues the event in a local SQLite database, lets a cheap and a strong language model
-- look at it, and reports the outcome to a team hub that keeps a hash-chained audit log.
--
-- The parts, with the code that each models (paths from the repository's root):
--   Model     krennic/internal/model/model.go: the event, the results of both stages, the record.
--   Store     krennic/internal/store/store.go: Store.Schema is the schema, Store.Queue has
--             SeenRecently, Enqueue, Claim, Complete, Fail and ResetInflight, Store.Records the
--             records, costs and retention, and Store.Outbox the outbox of the hub.
--   Audit     krennic/internal/audit/audit.go: the report, its hash chain.
--   Hub       krennic/internal/hub: Hub.Log has Append, Feed, Verify and Stats of store.go,
--             Hub.Server the handlers of server.go, and Hub.Client Send of client.go.
--   Config    krennic/internal/config/config.go: Config.Defs has Default, Load and Validate.
--   Ai        krennic/internal/ai/ai.go and prompts.go: Ai.Rules has the routing rule,
--             Ai.Gateway Analyze with its fallback, budget and sink, and Ai.Prompts the prompts;
--             Ai.Providers the Complete functions of anthropic.go, gemini.go and claudecli.go, and
--             Ai.Pricing the prices of pricing.go.
--   Debounce  krennic/internal/debounce/debounce.go: Debounce.Defs has Trigger, fire and Stop,
--             where fire is two steps: its critical section, and the call of the callback.
--   Redact    krennic/internal/redact/redact.go: the deny globs and the masking of secrets.
--   Git       krennic/internal/gitxport: Git.Diff has the parser of unified diffs, Git.Tree
--             WorkingTreeDiff, and Git.Refs the names of shadow refs, with branchFromShadowRef of
--             krennic/cmd/krennic/admin.go, and ChangedPaths; Git.Shadow has the snapshots, the
--             remote and the shadow refs of shadow.go, and Git.Gc the deletion of shadow refs of
--             the gc command in admin.go; Git.Process has the run of git and the queries of
--             git.go, and Git.Version Version.
--   Watcher   krennic/internal/watcher/watcher.go: Watcher.Defs has repoRootFor and isIgnored,
--             Watcher.Discover DiscoverRepos, Watcher.Events addRecursive, Start and handle, and
--             Watcher.Plane joins the watcher to the debouncer as Run of agent.go does.
--   Change    krennic/internal/change/builder.go: Change.Defs has Build and the content hash, and
--             Change.Snapshot puts Git.Shadow's snapshot into it.
--   Telemetry krennic/internal/telemetry/telemetry.go: the registry of metrics.
--   Status    krennic/internal/status/status.go: the verdict, the remotes and both publishers.
--   Secrets   krennic/internal/secrets/secrets.go, over the keyring.
--   Agent     krennic/internal/agent: Agent.Defs has handleChange and the pause, Agent.Work the
--             worker, Agent.Outbox the outbox sender, Agent.Daemon their interleaving, Agent.Http
--             the control API of http.go, Agent.Startup the slug, roots and remotes of
--             helpers.go, and Agent.New what New builds;
--             Agent.Wired joins the watcher and the debouncer to the daemon, and Agent.Reported
--             the outbox sender to the hub's handlers. A client
--             of the store is described in Store.Lifecycle.Performs by the operations of
--             Store.Lifecycle.Defs that it performs.
--   Cmd       krennic/cmd/krennic: Cmd.Http has the calls and the helpers of the commands, Cmd.Json
--             `nested`, Cmd.Console the commands of commands.go, Cmd.Team those of hub.go, and
--             Cmd.Keys, Cmd.Doctor and Cmd.Setup those of admin.go. Cmd.Verified puts the hub's
--             handlers behind `audit verify`, and Cmd.PauseSent the daemon's behind `pause`.
-- Base holds byte strings, integers, results and the effects the parts share; Sql models a database
-- connection.
--
-- The state of a component is explicit. A database is a record of tables, an operation a function
-- from a connection to a result and a connection. A connection holds the outcome of the statements
-- to come, `none` for one that works and a message for one that fails, so a theorem on every
-- connection covers every failing statement. A transaction restores the old tables unless its
-- commit works. The daemon has one connection to its database and SQLite runs statements one at a
-- time, so operations follow each other. The debouncer's mutex makes each of its functions one
-- step, but for the call of its callback, which comes behind the mutex, and its timers and
-- goroutines are events that come in any order. The daemon is a function of a list of events too:
-- each round of a goroutine is one event, and what it reads of the world (git, the providers, the
-- hub, the clock) is a parameter: what git answers and what Build makes of a root are fixed over a
-- run of the daemon. A command to git is a function from the arguments to an effect on a state of
-- the repository.
--
-- Two functions take fuel. The printing of decimals takes one more than the number, which has no
-- more digits than that. The inner loop of a worker takes the rounds it may run, for which one more
-- than the rows that wait is enough.
--
-- Parameters are what is not in the repository: JSON and TOML decoding, the formatting of times,
-- columns and floats, SHA-256, floating point, regular expressions, the clock, the transport to the
-- providers, to the hub and to the daemon, the keyring, the file system, and what git prints and
-- does. A text is its list of bytes, and white space, lower case and equality but for case are
-- those of ASCII, where Go's package strings has Unicode's. A natural number stands for an `int`
-- that is never negative; where the sign matters, as in Config, ℤ does.
--
-- Not modelled: opening files, listening on sockets, the channels of fsnotify, the start of the
-- daemon's goroutines, logging, the HTML pages, and the registration of commands and flags, which
-- are input and output around these parts. Within a round of a goroutine the calls of the store are
-- not interleaved with those of other goroutines, except in Store.Lifecycle, whose sequences of
-- operations come from any number of workers.
pub mod Base
pub mod Sql
pub mod Model
pub mod Store
pub mod Audit
pub mod Hub
pub mod Config
pub mod Ai
pub mod Debounce
pub mod Redact
pub mod Git
pub mod Watcher
pub mod Change
pub mod Telemetry
pub mod Agent
pub mod Status
pub mod Secrets
pub mod Cmd
