-- ===== src/Lib.antt =====
-- A verification library for the autoscaler: a daemon that starts ephemeral GitHub runners as Docker
-- containers when jobs are queued, reconciles what it missed, and cleans up what died.
--
-- The program's parts, and the files that model them:
--   - World.antt: the state that the parts share. A `Machine` is the history of all calls of the
--     world, with their answers, the fields of `Spawner` that change (internal/spawner/spawner.go)
--     and those of `Cleaner` (internal/cleanup/cleanup.go). The code runs in a state monad over it.
--   - Env.antt: the code that the repository does not hold, as the record `Env`: the docker command,
--     the HTTP client, the operating system, the clock, HMAC-SHA256, the JSON decoders, the order of
--     a Go map. Each answer may depend on the whole history. A decoder returns what it filled in and
--     its error, since the source uses both.
--   - Common.antt and Text.antt: tests on numbers, lists and byte strings; what the source uses of
--     the packages strings, strconv and encoding/hex.
--   - Config.antt with Config/: internal/config/config.go. `validate`, `load`, `repo_by_name`.
--   - Spawner.antt with Spawner/: internal/spawner/spawner.go. Spawner/Defs has `Spawn` as the one
--     function `spawn`, with `countRunning`, `hasIdleMatchingRunner` and `writePATEnvFile`, over the
--     names and commands of Spawner/Commands and the counters of Spawner/Counters. Spawner/Reports
--     has `NewWithDeps`, `Stats` and `RepoRunnerCounts`.
--     Spawner/Goroutine has the same function call by call, as the program counter type `Pc`, and
--     Spawner/Interleaving runs any number of such goroutines, with the mutex of each repository and
--     a pause flag that anyone may set. Spawner/Mutex, Spawner/Safety, Spawner/Disk, Spawner/Spawned
--     and Spawner/Pausing follow the mutexes, the caps, the env-files, the counter of started runners
--     and the pause flag through it. Spawner/Docker says what Docker is expected to do there,
--     Spawner/Progress how many steps a goroutine has left, and Spawner/Liveness how it gets to its end.
--   - Webhook.antt with Webhook/: internal/webhook/verify.go and handler.go. `verify_signature`,
--     `label_matches`, `dispatch`.
--   - Reconciler.antt with Reconciler/: internal/reconciler/reconciler.go. `reconcile_repo`, the job
--     count, `tick_filtered` and `Run`.
--   - Cleanup.antt with Cleanup/: internal/cleanup/cleanup.go. Cleanup/Defs is the pass over the
--     runners of a repository, Cleanup/Local the pass over the containers of the host, Cleanup/Tick
--     the tick with its summary and `Run`. Cleanup/Sweep has the goroutines of a tick request by
--     request: Sweep/Goroutine is `cleanupRepo` as the program counter type `Pass`, Sweep/Parallel
--     runs any number of them, for any number of ticks at once, with the summary of each tick, and
--     the other files follow the counters, the summaries and the deletions through it.
--   - Smee.antt with Smee/: internal/smee/client.go. `Run` as `client_run`, `connect`,
--     `parse_stream`, `handle_message`, the reconnect `delays` and `smee_host`.
--   - Portal.antt with Portal/: internal/portal/portal.go. Portal/Defs has `auth`, every handler and
--     `Mount`, as the list `portal_routes` of patterns with their handlers. Portal/Collect has what
--     /api/state reports: `collectRepoState`, `queryRunCount`, `listLiveEphemerals`.
--   - Main.antt with Main/: cmd/autoscaler/main.go. `routes` is the table of `buildHTTPServer` and
--     `serve` the server for one request; `start` is what `main` starts; `parse_level`,
--     `redact_smee_url`. Main/Lifecycle has the end of the process as a step relation, with one step
--     for each goroutine that ends, for a signal and for the timeout, and steps for the handlers and the
--     manual reconciles, which nobody waits for; `begun` says what runs at first.
--   - Process.antt with Process/: cmd/autoscaler/main.go with all parts together. Process/Actions has
--     one action for each connection of the relay's client, each tick of a loop and each request to
--     the server; `act` carries it out by the parts' functions and `process` is the state behind any
--     sequence of actions, from `new_machine` on. Process/Keeps has the rules that an invariant of
--     the whole process satisfies, one for each kind of change; the other files of Process/ apply
--     them, and the record `Library` has what the process uses of other packages besides `Env`.
--   - Tests.antt with Tests/: small worlds, and the theorems at inputs that meet their hypotheses.
--
-- How they interact: the relay's client hands each event to `dispatch`; webhook and reconciler call
-- `spawn`; the reconciler and the spawner count containers by the same `count_running`; cleanup and
-- the spawner share the labels of a container and the prefix of a runner's name; the server's handlers
-- read and change the state of the spawner and of the cleaner, and start a reconcile or a cleanup.
-- Theorems about the history of `spawn` (Spawner/Runs) are what the reconciler's bound uses; those
-- about its calls (Spawner/Calls) are what the invariants of the whole process use.
--
-- Choices and bounds:
--   - A string is a list of bytes. `decimal` prints a number on fuel 20, and an int64 has at most 19
--     digits. White space is that of ASCII; `strings.ToLower` is that of ASCII on ASCII text and a
--     parameter on other text.
--   - The counters are uint64 and wrap at 2 ^ 64. The numbers of a configuration and of GitHub are
--     integers whose overflow of int64 is not modelled.
--   - `os.Remove` may fail, and the source drops its error: the event `remove` holds the answer, and
--     Spawner/Disk says which files stay on the disk.
--   - The timeout of a context is an error answer of the call that it ends. Log lines are left out.
--   - In `tick_with_summary` the goroutines of a cleanup tick run one after the other, in an order that
--     is an argument; Cleanup/Sweep interleaves them. The goroutines of `Spawn` are interleaved call
--     by call. What a goroutine does under a mutex of a summary is one step there.
--   - The actions of `process` run one after the other, each to its end; where the goroutines of the
--     program overlap, Spawner/Interleaving is the model for the calls of `Spawn`, and
--     Cleanup/Sweep for the passes of the cleaner.
--   - A loop over a list is structural recursion over it. The three `Run` loops, which end only with the
--     context, are recursion over the list of their rounds: for the tickers, what the rest of the
--     process does before each tick; for the relay's client, when the context is done.
--   - The mux of net/http is the parameter `choose`, from a path to a pattern. A handler that panics
--     ends without an answer, which is the reply `aborted`. The goroutine that the manual reconcile
--     starts is run at once.
--
-- Not modelled: the parsing of flags and the logger in cmd/autoscaler, and how long the shutdown of
-- the server takes; the embedded page and the JSON text of a reply; the commands around docker
-- itself (`realDocker`, `dockerOutput`), which are a parameter; `preview`, which shortens a log line.
pub mod Common
pub mod Text
pub mod World
pub mod Env
pub mod Config
pub mod Spawner
pub mod Webhook
pub mod Reconciler
pub mod Cleanup
pub mod Smee
pub mod Portal
pub mod Main
pub mod Process
mod Tests
