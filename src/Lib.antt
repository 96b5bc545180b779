-- ===== src/Lib.antt =====
-- aiclibridge: a daemon that runs coding-agent CLIs as subprocesses and serves what they print as
-- an event stream, over HTTP. This library models the core of it.
--
-- The parts, and how they meet. A request reaches StartRun of internal/facade/facade.go, which
-- resolves a model name to an agent (internal/detect), waits for a slot of the concurrency cap, and
-- calls the agent's adapter (internal/adapter) with options made from the request and the
-- configuration (internal/config). The adapter starts a CLI with arguments of its own and the
-- users', reads what it prints on stdout line by line, and returns a session: a channel of messages
-- and a channel of one result. forwardEvents turns the messages into numbered events (pkg/protocol),
-- writes each to the store (internal/store), sends it to the live channel, and ends with a terminal
-- event. GetRun reads a run back from the store.
--
-- Files:
--   Prelude          shared names; Go's strings as lists of bytes, with split, join, trim, atoi
--   Protocol         pkg/protocol/sse.go: Event, ResultPayload, TokenUsagePayload. JSON is the record
--                    `Codec`: what encoding/json gives for an event, an input and a usage map
--   Protocol/Frame   WriteSSEEvent, ParseSSEEvent
--   Adapter          internal/adapter/backend.go: Message, Result, TokenUsage, ExecOptions
--   Adapter/Launch   backend.go: New; the table of acp.go. Launch/Arguments has the arguments of
--                    claude, qwen, codebuddy, gemini, opencode and the ACP CLIs
--   Adapter/Scan     what the drivers share: the variables of a scan, trySend, the token counts; and
--                    in Scan/Outcome the end of Execute, resolveSessionID and withXStderr. A scan
--                    lists the messages given to trySend, of which a full channel drops some. The
--                    lines that a CLI prints, how its process ends and what encoding/json makes of a
--                    text are arguments
--   Adapter/StreamJson  qwen.go and codebuddy.go, which differ in the name of the CLI only, and
--                    claude.go
--   Adapter/Acp      acp.go: processAcpEvents and its handlers
--   Adapter/Opencode opencode.go and gemini.go: the scan of their events. Opencode/Models has the
--                    parser of the model list, a loop on as much fuel as there are lines; Opencode/Mcp
--                    the translation of an MCP configuration
--   Adapter/Openclaw openclaw.go: processOutput, the lists of agents, the version check
--   Adapter/Codex    codex.go: codexClient and what it does with each line of the app-server. The
--                    callbacks, the answers on stdin and the results for waiting requests are one list
--                    of effects. Codex/Kept and Codex/Once have the lemmas
--   Adapter/Drivers  the drivers side by side
--   Adapter/Args     internal/adapter/helpers.go: filterCustomArgs, unshellQuoteArg, and
--                    claudeBlockedArgs
--   Adapter/Env      helpers.go: mergeEnv, isFilteredChildEnvKey
--   Adapter/Tail     helpers.go: stderrTail
--   Adapter/Versions helpers.go: compareDotVersions
--   Store            internal/store/store.go: the three tables as lists. A statement that SQLite
--                    rejects (a primary key that exists, no row to update) gives `none`
--   Store/Usage      store.go: GetUsageStats. What json.Unmarshal gives for a usage column is an
--                    argument
--   Facade/Events    facade.go: messageToEvent, resultToEvent, convertUsage, marshalUsage,
--                    normalizeStatus. Counts are 64-bit patterns
--   Facade/Forward   facade.go: forwardEvents, appendEvent, finishRun, saveSession, trySendEvent. The
--                    record `Env` says which writes to the disk fail and whether the consumer lives.
--                    A session is the list of what happens on its channel: a message, a read by the
--                    consumer, a panic. The list is finite: the adapter closes its channel, as
--                    internal/adapter/backend.go promises. The live channel holds 1024 events
--   Facade/History   facade.go: GetRun
--   Facade/Route     facade.go: resolveRoute, resolveDefault, ListProviders, buildExecOptions
--   Facade/Slots     facade.go: the semaphore, queuedCount and activeCount, as steps of runs that
--                    interleave
--   Facade/Start     facade.go: StartRun, safeExecute. How the wait for a slot ends, and what the
--                    adapter does with its options, are arguments
--   Detect           internal/detect: types.go, ParseModelName and ModelName of detect.go, the catalog
--                    and its grouping of catalog.go. What a probe of a CLI printed is an argument
--   Config           internal/config/config.go: Defaults, Load, Validate, applyEnvOverrides. The
--                    effect of decoding the YAML file is an argument, and so are the environment
--                    variables. Go visits a map in any order; here it is a list, so that of several
--                    unknown agents the first in it is reported
--   Api              internal/api: the events that a handler reads, aggregateText
--   Api/Collect      native.go: collectEvents and buildRunResult; the cap is 10000 events
--   Api/Catalog      server.go, native.go: resolveModel, the model lists, the list of providers
--   Api/Chat         openai.go: openAIChunkFromEvent, streamOpenAIChat, buildOpenAICompletion. A tick
--                    says whether the connection takes the frame of an event; for the frames whose write
--                    errors are ignored a Boolean says it
--   Api/Messages     anthropic.go: streamAnthropicMessages, buildAnthropicMessage. As in
--                    Chat, which of the closing events the connection takes is an argument
--   Api/Guard        native.go, middleware.go: validateCwd, extractAPIKey, authMiddleware. The path
--                    functions and the file system are arguments
--   Api/Summary      stats.go: handleStatsSummary
--   Api/Prompt       openai.go: buildOpenAIPrompt. A content stands as what decoding makes of it
--   Update           internal/update/update.go: CompareVersions
--   Tests            the theorems at concrete inputs
--
-- Every function here ends by recursion on its input, but for the parser of opencode's models, whose
-- fuel is shown to be enough, and the printing of an integer, which has 19 digits at most and fuel
-- for 20.
--
-- Not modelled: starting and killing the subprocesses and what is written to them before the scan;
-- the configuration, the requests and the timeouts of the codex adapter; the SQL text and the
-- migrations of the store, the HTTP transport, the command line (cmd/), costs and prices
-- (internal/pricing), the downloads of internal/update; logging; Close and CancelRun of the facade. Text functions are those
-- of Go on ASCII. Goroutines meet only where a list of steps says so: in the slots, and between the
-- forwarder and the consumer of its channel.
pub mod Prelude
pub mod Protocol
pub mod Adapter
pub mod Store
pub mod Facade
pub mod Detect
pub mod Config
pub mod Api
pub mod Tests
pub mod Update
