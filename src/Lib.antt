-- ===== src/Lib.antt =====
-- The Log Store packages, modelled and verified: the protocol that brokers, clients and validators
-- speak, what a validator keeps of it, and how a client checks a broker's answer against the network.
--
-- The parts of the program and the files that model them:
--
-- - packages/protocol/src/system: Protocol/Js (the JavaScript values that are written, and JSON as an
--   interface), Protocol/Message (the seven messages), Protocol/Registry (registerSerializer,
--   unregisterSerializer, getSerializer of SystemMessage.ts as functions on a table that is passed
--   on), Protocol/Wire/Encode (serialize and each toArray), Protocol/Wire/Decode (deserialize and
--   each fromArray), Protocol/Wire/Arrival (what a receiver gets of a message, which messages can be
--   sent).
-- - packages/protocol/src/report: Protocol/Report (ReportSerializerV1.ts and the forms of a report for
--   the contract and its proof), Protocol/Report/SystemReport (SystemReport.ts with its registry of
--   serializers). packages/protocol/src/utils/validations.ts: Protocol/Validations.
-- - packages/validator/src/threads and shared: Validator/SystemListener (threads/SystemListener.ts and
--   SystemDb.ts), Validator/SystemRecovery (threads/SystemRecovery.ts), Validator/TimeIndexer
--   (threads/TimeIndexer.ts), Validator/Metrics and
--   Validator/MetricsSummary (shared/MessageMetrics.ts and MessageMetricsSummary.ts),
--   Validator/Heartbeat (threads/Heartbeat.ts), Validator/ActivityTimeout
--   (threads/ActivityTimeout.ts), Validator/RollingConfig (shared/rollingConfig.ts, the step of nextKey).
-- - packages/validator/src/managers: Validator/NodeManager (getDelegates of NodeManager.ts),
--   Validator/Managers/BrokerNodes (getBrokerNodes and getStartBlockNumber of it),
--   Validator/Managers/Stores (StoreManager.ts), Validator/Managers/FindBlock and
--   Validator/Managers/Sources (findBlock and withSources of Managers.ts),
--   Validator/Managers/LastReport (ReportManager.ts). Contracts/ReportManager is the report that
--   packages/contracts/src/ReportManager.sol keeps.
-- - packages/validator/src/core, utils/report.ts and runtime.ts: Validator/Item (core/item.ts),
--   Validator/Pipeline (core/abstract.ts: the item from the managers and the client),
--   Validator/Report (core/report.ts and utils/report.ts), Validator/Runtime and
--   Validator/Runtime/Config (runtime.ts).
-- - packages/client/src/utils/networkValidation: Client/NetworkValidation/StorageMatrix
--   (manageStorageMatrix.ts), Propagates (handlePropagatedMessages.ts), QueryInput
--   (hasIncompatibleQueryInput of retrieveFilteredSystemMessages.ts), Collection (the rest of that
--   file, with the filters of filterSystemMessageOperations.ts), Completion
--   (checkCollectionCompletion.ts), Validation (validateNetworkResponses.ts).
-- - packages/client/src beside that: Client/StaleCache (utils/AsyncStaleThenRevalidateCache.ts),
--   Client/SchemaManager (validationManager), Client/NodeList (registry/NodeManager.ts),
--   Client/Registry (TokenManager.ts, QueryManager.ts and LogStoreRegistry.ts of registry),
--   Client/Events (events.ts), Client/Queries (Queries.ts, and createQueryString of HttpUtil.ts),
--   Client/HttpUtil (the rest of HttpUtil.ts), Client/GraphQl (utils/GraphQLClient.ts),
--   Client/Indexing (utils/SynchronizedGraphQLClient.ts, as a step relation).
-- - packages/shared/src: Shared/Retry (withRetry.ts), Shared/Managers (getManager.ts),
--   Shared/TokenPrice (getTokenPrice.ts and convertFromUsd.ts), Shared/PrepareStake (prepareStake.ts and
--   allowance.ts).
-- - packages/cli/src/utils: Cli/ErrorTypes (errors/compose.ts), Cli/Utils (utils.ts and speedupTx.ts).
--   packages/subgraph/src/log-store-manager.ts: Subgraph. packages/pulse/src/Pulse.ts: Pulse.
--
-- Base holds what they share: tests on numbers and texts, JavaScript's Map as a list of entries, the
-- result of a function that may throw, and Array.prototype.sort. Tests holds runs and uses of the theorems at concrete inputs.
--
-- How the parts interact. A message is written and read by Protocol/Wire. The validator's listener
-- and its recovery hand messages and their metadata to the same store; a round of the recovery is
-- one message or one call of the endpoint at a time. The client collects the responses and
-- propagates to its query, waits until the collection is complete and compares the responses in a
-- storage matrix. The runtime of a validator asks the managers of each source for the stores up to
-- the block of a key, which the time index finds, and makes the item of the key from the messages
-- of these stores; a report goes through the serializer to the contract and is read back by the
-- report manager.
--
-- How the code is rendered. State is a record that each operation takes and returns. A function that
-- throws returns a Result. The numbers are natural numbers: timestamps, sequence numbers, sizes;
-- `lastSeqNum`, which starts at -1, is kept as the next number. An optional property that JSON can
-- turn from undefined to null has the type Opt. JSON, LMDB, BigNumber, Buffer, the Solidity hashing,
-- toEthereumAddress, toStreamPartID, localeCompare, the events
-- and the ABI of the contracts, the calls of the chain and its tokens, EventEmitter3, the price service,
-- the arithmetic of floats and of decimal.js, Ajv, fetch and the Streamr network are parameters, with the laws that the code relies on.
-- `deserialize` calls itself for the messages in a RecoveryResponse and takes fuel for it: one unit
-- for each level of nesting is enough. The loop of findBlock takes fuel too, two units more than the
-- number of the last block, and the loop of withRetry one unit for each
-- try. What the filters of the collection hand to themselves takes the depth of the stack: a run that
-- goes deeper overflows it, as the code does. The pages of a query of The Graph take one unit for each
-- request, which are at most one more than the items.
--
-- What is not modelled: subscriptions, timers and what runs while a handler waits for a promise;
-- child processes; the calls of contracts themselves; the streams of rxjs beyond the order of the
-- observers and the last values; the container of LogStoreClient.ts; the arguments and the output of the
-- command line; KyvePool.ts of pulse; the Solidity of packages/contracts but for the report that is kept. packages/client/src/streamr is a copy of the Streamr client.
pub mod Base
pub mod Protocol
pub mod Client
pub mod Contracts
pub mod Shared
pub mod Cli
pub mod Pulse
pub mod Subgraph
pub mod Validator
mod Tests
