-- ===== src/Lib.antt =====
-- The Stellar transaction manager of the relayer (relayer/txm), the conversions between values of
-- the chain and of Go (bindings/scval, relayer/type_converters.go), the CCV readers and
-- transmitter (ccv), and the generator of the Go bindings (bindings/generator), modelled and verified.
--
-- The manager takes a request to run one Soroban operation and carries it to a terminal state:
-- it queues it, simulates, assembles, signs and sends it under a sequence number of its account,
-- and polls the ledger until the transaction is included, fails or expires. The parts:
--
-- * TxStore (relayer/txm/txstore.go, `TxStore`): the sequence numbers of one account, which are in
--   flight and which wait for reuse. `UnconfirmedTx`, `TxStore` and its methods carry the source's
--   names. AccountStore is the map of these stores by address.
-- * Fee (fee.go) and FeeTracker (fee_tracker.go): the inclusion fee and the cached percentiles of
--   the network.
-- * Config (config.go, and `isRetryableSimulationError` of broadcast.go): defaults, hint lists, and
--   which failed simulations are retried.
-- * Failure (failed_result.go, and the submit errors of broadcast.go): what a failed result means.
-- * Txm (txm.go, tx.go): the manager. Txm.Queue has `Enqueue` and the channel, Txm.Prune the
--   eviction of old transactions, Txm.Query the status queries, Txm.Retry the ways back to the
--   queue, Txm.Confirm one pass of the confirm loop (`checkUnconfirmed`).
-- * The broadcast of one transaction (`simulateAssembleSignAndSend` of txm.go): Txm.Submission is
--   a round of its loop and Txm.Broadcast the rest of it, over Txm.Account (`getSequenceNumber`,
--   `resyncSequence`), Txm.Simulation (`prepareAndSimulateWithRetry`, `Simulate`), Txm.Assembly
--   (`assembleTransaction`, `signTransaction`, `handleSendResult` of broadcast.go) and Txm.Restore (restore.go).
-- * Txm.Network and Txm.Sdk list what the manager uses of the outside, as records of functions on
--   the state of the world.
-- The other parts:
--
-- * ScVal (bindings/scval/scval.go): Soroban values as a data type, their addresses, numbers, vectors
--   and structs. The parts below and the generated bindings use it.
-- * Convert (relayer/type_converters.go): Convert.Value goes from the domain values of chainlink-common
--   to Soroban values and back, Convert.Events converts event queries and Convert.Pages their answers.
-- * Service (relayer/stellar_service.go): Service.Submit, Service.Simulate and Service.Read have the
--   methods of the relayer's service, over Convert and the transaction manager's `EnqueueAndWait`.
--   Service.Invoker (relayer/txm/invoker_adapter.go) makes the calls of the generated bindings.
-- * Poller (ccv/destination_reader): Poller.Poll is the poller of execution attempts, with its cursor
--   and its cache, over Poller.Event (the event's parser of bindings/contracts/offramp/client.go) and
--   Poller.Attempt (the arguments of the call that an event stands for). Poller.Ccvs has the queries
--   of destination_reader.go.
-- * SourceReader (ccv/source_reader/source_reader.go): SourceReader.Receipts and SourceReader.Events
--   decode the OnRamp's messages, SourceReader.Headers builds the headers of ledgers.
-- * Transmitter (ccv/contract_transmitter/contract_transmitter.go): Transmitter.Blob builds the call
--   that a report is submitted with, and puts its signatures in compact form.
-- * Generator (bindings/generator): Generator.Parser, over Generator.Variants and Generator.Split,
--   reads the Rust interface of a contract (parser.go); Generator.TypesFile, over the modules that are
--   named for what they write, builds types.go (codegen.go), and Generator.Client.File client.go
--   (client_codegen.go); Generator.Main is what main.go does with them. Generator.Text and
--   Generator.Regex have what is used of Go's strings, fmt and regexp: the patterns are terms, which
--   Generator.Regex matches, so the whole program runs.
-- Proofs stand in further modules, named for what they prove: TxStore.Fresh, Txm.Settled,
-- Txm.Rounds and so on.
--
-- How values are modelled. An int64 is kept in excess-2^63 form (Prelude.Int64): a number below
-- 2^64 whose order is that of the integers and whose arithmetic wraps by `% 2 ^ 64`. A Go map is an
-- association list whose order stands for the unspecified iteration order. A pointer to a
-- transaction is an address on a heap, because the map, the channel and the stores share it. Time
-- is nanoseconds on a monotonic clock. A method that holds the lock is one step. Outside the manager
-- a text is the list of its bytes, an error is `none`, and a nil slice is an empty one. A Soroban
-- value is its type tag with the arm of that tag, and a nil pointer to the arm is `none`. In the
-- readers of ccv/destination_reader a call that panics is told apart from one that fails. The poller's
-- ticks are a list, each with the answers that the RPC client gives during it.
--
-- Parameters. The SDK's XDR and strkey codecs, the protocol library's messages and ids, the cache,
-- the RPC client, the keystore, the clock and float64 arithmetic are arguments; nothing is assumed
-- of them beyond the hypotheses of a theorem. What other goroutines do in a window without the lock
-- is an argument too, where a theorem needs it.
-- `IsStrkey` says what is documented of the strkey codec, `IsCache` and `Keeps` of the cache.
--
-- The generator's texts are ASCII, as Rust interfaces are, so that a byte is a character. What it writes
-- is kept as a list of writes, raw texts and formats with their arguments, which is then rendered. A
-- number in such a text has as fuel its successor, which is more than its digits, and the Go type of a
-- Rust type the length of its text, which is more than its nesting; a match has the bytes left.
--
-- Loops run over lists or over the attempts left. The loop of the broadcast runs on fuel, of
-- `max_submit_retry_attempts + 2` rounds: one for each attempt, one for the restore, which happens
-- at most once, and one to see that the loop has ended. The loop that polls a restore takes as many
-- rounds as the world says its ticker fires before the timeout.
--
-- Not modelled. Logging and metrics, which do not feed back; starting and stopping the services and
-- blocking waits; three queries of the Stellar service that copy what the RPC client answers; reading
-- and writing the generator's files, and the generated bindings but for one event; the accessors, the
-- deployment tooling and the contracts in Rust.
pub mod AccountStore
pub mod Config
pub mod Convert
pub mod Failure
pub mod Fee
pub mod FeeTracker
pub mod Generator
pub mod Poller
pub mod Prelude
pub mod ScVal
pub mod Service
pub mod SourceReader
pub mod Transmitter
pub mod TxStore
pub mod Txm
