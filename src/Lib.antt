-- ===== src/Lib.antt =====
-- A verification library for the multi-chain block scanner.
--
-- The program scans the blocks of several chains. For each chain a scanner generates tasks from its
-- watermark, workers fetch the blocks of a task from the chain's nodes, and the results move the
-- watermark. Consumers keep the status of transactions in a storage. The reorg components compare the
-- stored blocks with the node's, and mark, delete and rescan what a fork made stale.
--
-- The files, by the parts of the program that they model:
--   Common, Types            shared helpers; the data types of pkg/types/types.go
--   Util                     pkg/util/util.go: numbers and addresses as text
--   Config                   pkg/config/config.go: the check of a configuration, the enabled chains
--   Lock                     pkg/lock/lock.go over a Redis server
--   Parser                   internal/parser: the parser of EVM chains, the fixed ones, the manager
--   Plugin                   internal/plugin/manager.go: the registry of factories and adapters
--   Plugin.Adapter           internal/plugin/adapter.go and the adapters of EVM, Tron and Solana
--   Scheduler.Manager        internal/scheduler/scheduler_manager.go: the scanners of the chains
--   Scheduler.Sharding       internal/scheduler/sharding.go: which shard scans which blocks
--   Scheduler.Watermark      internal/scheduler/watermark.go: heights, reorg boundary, block hashes
--   Scheduler.Scanner        what internal/scheduler/chain_scanner.go offers to the reorg components
--   Scheduler.Tasks          its generateTasks, handleSuccessResult, handleFailureResult
--   Scheduler.Lifecycle      its Start and Stop, and the goroutines they wait for
--   Scheduler.Worker         internal/scheduler/worker.go: scanBlocks, and processing of tasks
--   Scheduler.ReorgHandler   internal/scheduler/reorg_handler.go, and checkReorg of chain_scanner.go
--   Storage                  the interface of internal/storage/storage.go, and a storage in memory
--   Storage.Database         internal/storage/database.go over tables
--   Storage.Redis            internal/storage/redis.go over a Redis client
--   Storage.Elastic          internal/storage/elasticsearch.go over a search server
--   Storage.Manager          internal/storage/storage.go: master, slave, cache and index
--   Consumer.Idempotency     internal/consumer/idempotency.go: the handlers, which remember nothing
--   Consumer.Business        internal/consumer/consumer.go: processing, Start and Stop
--   Consumer.StateMachine    internal/consumer/state_machine.go: the default and the custom machine
--   Consumer.ReorgHandler    internal/consumer/reorg_handler.go: the default and the advanced handler
--   Consumer.Webhook         internal/consumer/webhook.go: the batch and the HTTP handler
--   Reorg.Fork               internal/reorg/detector.go: findForkPoint and createReorgEvent
--   Reorg.Detector           the same file: DetectReorg, checkChain, autoProcessReorg
--   Reorg.Processor          internal/reorg/processor.go: the steps of an event, status, retries
--   Node                     internal/node/node_manager.go: choice of a node, failover, health check
--   Node.EvmClient           internal/node/evm_client.go: what the client reads from a node's answers
--   Wallet                   internal/wallet/service.go: tokens, balances and transactions of an address
-- A part has its definitions in the file of its name and its theorems in the files below it; Tests
-- runs the theorems at concrete inputs.
--
-- How the code is read. A method is a function from the state to the new state and its result; an
-- error is a value of the component's error type, or a text where it comes from an interface. A uint64
-- is a native number and its sums and differences wrap at 2^64. A time is a number of nanoseconds, an
-- argument where the code asks for it. What a lock, the node, a context or a random number answers is
-- an argument too. Logging and metrics are left out.
--
-- Bounds and fuel. The loop of findForkPoint runs 100 rounds as in the code; the loops of
-- generateTasks and scanBlocksSequential run one round per block at most, since a batch has a block at
-- least, and the theorems about them include that this is enough; the retries run MaxRetries + 1
-- rounds and a call to a node three, as in the code, and those of a webhook and of a lock too.
-- ChunkStringSlice runs one round per text at most, which is enough where a chunk has a text.
--
-- How the parts interact. The scanner reads its watermark, hands tasks to the workers, and gives their
-- results back to the watermark (Scheduler.Tasks.Rounds composes these). The detector and the processor
-- call the scanner and the storage; the plugin manager calls the factories of Plugin.Adapter; the
-- consumer calls the state machine, the idempotency handler and the webhook; the storage manager calls
-- the storages that the other files implement.
--
-- The database, the Redis server and the search server are parameters, and so is encoding/json but for
-- the documents of the search server; named laws say what the theorems rely on, and lists in memory,
-- beside the tests, meet these laws. Elsewhere the storage is an interface with laws. The clients of
-- go-ethereum and solana-go are parameters too.
--
-- Not modelled: the goroutines, channels and timers that run these methods, except as the order of the
-- calls; the index templates of Elasticsearch; the JSON-RPC transport and the queues, which pass on the
-- calls of their libraries; the transfers of the wallet, which a library signs; the defaults of the
-- configuration, logging and metrics.
mod Common
pub mod Types
pub mod Util
pub mod Config
pub mod Lock
pub mod Parser
pub mod Plugin
pub mod Scheduler
pub mod Storage
pub mod Consumer
pub mod Reorg
pub mod Node
pub mod Wallet
