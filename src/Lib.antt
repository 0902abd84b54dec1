-- ===== src/Lib.antt =====
-- The consensus, the ledger, the state database, the interchain bridge and the bookkeeper of
-- transactions of the Theta subchain node.
--
-- A subchain node keeps a tree of blocks, votes on them with the other validators, and finalizes a
-- branch of the tree once votes with more than two thirds of the stake certify it. The development
-- models the parts of the node that decide this:
--
-- * core/ (validators, votes, commit certificates, blocks): Core and its children. Validator.antt
--   is core/validator.go, with a set as the list of its validators; Vote.antt is core/vote.go,
--   with a vote set as the list of the entries of its map, in the order in which a loop ranges
--   over them; Certificate.antt has `HasMajority` of core/validator.go and
--   `CommitCertificate.IsValid`; Block.antt is core/block.go.
-- * blockchain/ (the chain store): Chain and its children. Store.antt is the key-value store, one
--   association list for each kind of key, with the indices of blockchain/vote.go and
--   blockchain/tx.go; Blocks.antt is blockchain/chain.go: `addBlock`, the marks of blocks,
--   `FinalizePreviousBlocks`, `IsDescendant`. Rounds.antt and Finality.antt are about the loop of
--   `FinalizePreviousBlocks`, Adding.antt is about `addBlock`.
-- * consensus/ (the engine): Consensus and its children. Managers.antt is consensus/validator.go;
--   State.antt is consensus/state.go with its database; Engine.antt has the engine's record, the
--   environment, the search for the tip and the sync status; Commit.antt has `checkCC`,
--   `processCCBlock` and `finalizeBlock`; Voting.antt has `vote` and `handleVote`; Processing.antt
--   has `validateBlock`, `handleBlock` and `processMessage`; Proposing.antt has `propose`. Their
--   children and Proposer.antt, Filter.antt hold the theorems.
-- * ledger/ (the state and its transactions): Ledger and its children. Types.antt has the
--   transactions, the accounts and the view of a state; Inputs.antt is
--   ledger/execution/executils.go; Send.antt is ledger/execution/tx_send.go; Execution.antt is
--   tx_coinbase.go, tx_validator_set_update.go and executor.go of ledger/execution; State.antt is
--   ledger/state/state.go and the views of ledger/state/storeview.go; Blocks.antt and
--   Proposing.antt are ledger/ledger.go. Funds.antt, Charging.antt, Loading.antt, Transfers.antt,
--   Conservation.antt and Replay.antt are about the send transaction; Frames.antt, Updates.antt
--   and Dynasty.antt about the validators of the state; Applying.antt, Ordinary.antt,
--   Agreement.antt and Screening.antt about blocks and the mempool's screening.
-- * store/rollingdb/ (the layered database): Store and its children. KeyValue.antt is the
--   interface of the database under a layer, with a store of an association list; Rolling.antt is
--   layer.go and rollingdb.go; Compaction.antt is `compact`; Reading.antt and Refinement.antt have
--   the theorems.
-- * core/inter_chain_message_event.go and interchain/ (the bridge between the main chain and the
--   subchain): Interchain and its children. Denom.antt and Events.antt are
--   core/inter_chain_message_event.go, the denominations of tokens and the parsers of locks and
--   burns; Cache.antt is interchain/utils/inter_chain_event_cache.go; Orchestrator.antt and
--   Processing.antt are interchain/orchestrator/orchestrator.go, from one contract call up to the
--   calls of a tick; Witness.antt is the scan of both chains in
--   interchain/witness/metachain_witness.go and metachain_witness_state.go, and
--   Witness/Heights.antt is its starting height. Submitting.antt, Trying.antt, Next.antt,
--   Turns.antt, Minting.antt and Retrying.antt are about the orchestrator; Rounds.antt,
--   Updates.antt, Bounds.antt, Scanning.antt, Losing.antt, Reaching.antt and Starting.antt under
--   Witness are about the scan.
-- * mempool/ (the transactions that were seen): Mempool and its children. Bookkeeper.antt is
--   mempool/tx_bookkeeper.go; Seen.antt and Calls.antt are about its map and its list.
-- * netsync/ (the synchronisation of blocks): Netsync and its children. Inventory.antt has
--   `buildInventoryRequest` of netsync/request.go and Ready.antt a pass of its `passReadyBlocks`;
--   Rounds.antt and Starts.antt under Inventory and Ready/Passing.antt are about their loops.
--
-- The engine asks the ledger through its environment; the ledger asks the chain for the parent of
-- a block, the validator manager for the validators and the proposer, and the witness of the main
-- chain for the validators of a dynasty. Coins, accounts, state tries and fees belong to the main
-- chain's packages, outside the repository: their methods are the fields of the records `Money`,
-- `Rules` and `Tries`, and what a theorem needs of coins and accounts is the record `Laws` of
-- Funds.antt.
--
-- An operation on the engine takes the environment and the engine and returns the engine after it.
-- `none` stands for a panic or a fatal log; where a function returns an error, the result says so.
-- The environment holds what the node is given: the ledger, asked for the validators of a block,
-- for the effect of its transactions and for those of a new block; the witness of the main chain;
-- the key of the node; the clock; math/rand; RLP, hashes and signatures. What a theorem needs of
-- these is a hypothesis of it.
--
-- The witness fills the event cache that the orchestrator reads. What the two chains and their
-- token banks answer, the clock, the ledger's dynasty, and which keys the databases fail at are
-- the environment of a call or a round (`Outside` of Orchestrator.antt, `World` of Witness.antt);
-- so are the ABI decoder and the hash of an event's ID. A contract call is a value that says which
-- method of which bank is called with which arguments; what the source does with its logs, hashes
-- and the validators that it queries for the log is left out. Times are in nanoseconds, block
-- numbers are below 2 ^ 63, texts are lists of the codes of ASCII characters, and block heights
-- are integers where the source subtracts from them.
--
-- Hashes and addresses are natural numbers, 0 for the empty one; heights and epochs are natural
-- numbers, and where the source adds or subtracts on uint64 the wrap is written out. The heights
-- of a pass over the downloaded blocks and the retry threshold are assumed not to reach the bounds
-- at which they would wrap. Stakes are natural numbers, as their encoding admits no negative ones,
-- and so are amounts of coins.
--
-- Five loops run on fuel. That of `FinalizePreviousBlocks` has one round more than there are
-- blocks, which is enough on chains whose blocks stand at their own hashes. The rejection loop of
-- `randUint64` runs for bounds above 2 ^ 63 - 1 only, which a scale below 2 ^ 63 rules out. The
-- search for the tip takes its fuel from the environment: the source has no bound, and a theorem
-- on it speaks of the runs that the fuel admits. A pass over the downloaded blocks has one round
-- more than the highest height with an entry. The loop of `buildInventoryRequest` has 74 rounds:
-- the step is 1 in ten of them and then doubles until it is too large. `IsDescendant` counts its
-- rounds as the source does.
--
-- What RLP reads of a stored consensus state is a parameter of the restart, as nil blocks, votes
-- and signatures need not come back as nil; other records are read as they were written.
-- `sort.Sort` is an insertion sort, which fixes an order for equal addresses that the source
-- leaves open; the theorem on the order of validators is about distinct ones.
--
-- Not modelled: locks, logs and timers; the engine's main loop and `autoRewind`; the RLP and JSON
-- forms; receipts; in the ledger the smart contracts, which are a parameter with what the theorems
-- need of them, the rest of the view that only the virtual machine uses, and the pruning of
-- states; in the engine's `finalizeBlock` the call of `FinalizeState`, as it changes the ledger
-- only; the case that the rolling database has no layers; the virtual machine, the mempool but for
-- its bookkeeper, the synchronisation of blocks but for the starts of an inventory request and the
-- passes over the downloaded blocks; of the bridge the simulated witness, the extraction of events
-- from the logs of a chain, the set-up of connections and the lookup of validators in the
-- witness's cache; snapshots, remote calls and the command line.
--
-- Prelude has the names, lemmas and the sorting that the modules share, with integers in Int.antt
-- and texts with their decimal numbers in Text.antt; Samples has the data of the tests.
pub mod Prelude
pub mod Core
pub mod Chain
pub mod Consensus
pub mod Ledger
pub mod Store
pub mod Interchain
pub mod Mempool
pub mod Netsync
pub mod Samples
