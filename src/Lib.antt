-- ===== src/Lib.antt =====
-- Pixie Block: a permissioned proof-of-authority chain for payments with tax splits. A payment moves
-- the gross amount of its items from the payer: the net amount to the payee, the taxes and the
-- discounts to tax accounts. Validators open and close accounts and sign blocks. A node keeps a
-- ledger state, three pools of pending requests and the chain of blocks with their store; it
-- proposes a block from the pools when it is its turn and applies the blocks it receives. Clients
-- submit payments and open and close accounts over an HTTP interface.
--
-- The parts, and where their code is:
--   Base       numbers, Go's int64 (two's complement, wrapping), Go maps, byte strings, error results
--   Domain     internal/domain: the records, and GrossAmount, TaxTotal, DiscountTotal, NetToPayee; their
--              sums without wrapping (Sums, Totals), and with exact taxes (Products)
--   Errors     the error values of all parts, one constructor for each message
--   Crypto     internal/crypto: canonical payloads, sign bytes, block hash, keys
--   Ledger     internal/ledger/state.go: State (State.antt), ValidateTransaction and ApplyTransaction
--              (Payment.antt), account creates and closes (Accounts.antt), ValidateBlock (Blocks.antt)
--   Mempool    internal/mempool: Pool (Pool.antt), AccountCreatePool and AccountClosePool, which share
--              their code (Requests.antt, AccountCreates.antt, AccountCloses.antt)
--   Config     config/config.go: genesis, keystore (Keystores.antt), tax table (Splits.antt)
--   Node       internal/node/bootstrap.go: BuildInitialState, HydrateState
--   Storage    internal/storage/bolt/store.go: saving and loading (RoundTrips.antt), the sort of
--              LoadBlocks (Sorting.antt)
--   Consensus  internal/consensus/poa/producer.go: the blocks that are proposed (Proposals), and the
--              turns (Turns)
--   Chain      internal/chain/blockchain.go: AppendBlock, the getters and validations (Chain.antt), New
--              and validateChain (Restart.antt); what AppendBlock keeps (Replays, Heights), what New
--              returns (Links), the money of a chain (Supply), the blocks after a height (Suffixes),
--              and ValidateAdmit as the check of the mempool's TryAdd (Admission)
--   Bridge     internal/p2p/bridge.go: the handlers of requests and blocks, and block production; what
--              is admitted (Admissions), the choice of requests (Selections), the blocks of peers
--              (Syncing, CatchUps), produced blocks (Productions), and the chain, which only grows
--              (Growth)
--   Network    internal/p2p/node.go: messages, the handshake, handleConn, Broadcast and the peers; a
--              lagging node catches up (Sync), which errors end a connection (Drops), one message
--              (Handling), and every run of a node (Reach)
--   Api        internal/api: txview.go, viewers (Viewers) and what they see (Privacy); transactions.go,
--              the payment built for a request (Submissions); server.go, the node behind the handlers
--              and the answers (Server); accounts.go (Accounts, and handleCloseAccount in Closings);
--              the handlers of transactions.go and blocks.go (Requests); chain.go, the events
--              (Events); template/template.go (Templates); refused requests (Rejections), the accounts
--              that are opened (Creates) and closed (Closes, and the closes that are made in Drafts)
--   Loadgen    tools/loadgen/main.go: the payers and their workers (Loadgen.antt), the choice of a
--              payment (Picking.antt); each payer in one worker (Shards), the amounts (Amounts), and
--              the payments that are picked (Picks)
--   Genkeys    tools/genkeys.go: the generated files, which a node accepts (Acceptance)
--   Startup    cmd/server/main.go: the peer list, the validator key, the assembly of a node, the ticker
--              of the producer; splitComma (Splits); the first start (Launches), and all that follows it
--              (Runs)
--   Tests      inputs, and the results below applied to concrete ones
-- A function of the model has the name of the Go function in lower case with underscores; a Go
-- method takes its receiver last, and a method that changes it returns the new value.
--
-- How the code is read:
--   - An amount is a Go int64: an integer (ℤ) with the sums, differences and products wrapped by
--     add64, sub64 and mul64. Division truncates (quot).
--   - A Go map is an association list with each key once (IsMap). Where the code ranges over a map
--     the list gives the order, and no theorem fixes it.
--   - A call with an error result that changes a state is an Action: it returns the state as it was
--     left together with the error, since Go does not undo what was written.
--   - An index out of range, which panics in Go, is the error index_out_of_range; in Peek, which returns
--     no error, it reads as the empty id.
--   - A method that holds a lock throughout is one step. ProduceBlockIfReady holds none: it is one
--     definition, and a run of a node (Network/Reach.antt) has its removals and its commit as steps of
--     their own, with any other steps between. A loop over a slice or map runs over a list. shardPayers advances its
--     index by the number of workers, at least one, and has the number of payers as its fuel, which
--     Loadgen/Shards.antt shows to be enough; pickTx makes its 32 attempts.
--   - JSON, SHA-256, Ed25519, base64 and the time format are the fields of the record Primitives,
--     which every definition that needs them takes; nothing is assumed of them where no hypothesis
--     says so. bbolt and the JSON of stored values are the fields of the record Backend, the other
--     encodings of the views those of Encodings. A byte string is a list of numbers, a time the
--     seconds since Go's zero time.
--
-- Not modelled: sockets, dialing, accepting and the JSON stream of internal/p2p/node.go, whose read
-- messages are the arguments of its handlers; the routing, event streams and static files of
-- internal/api, and the execution of its HTML templates; the flags, signals, goroutines and submit
-- adapters of cmd/server; and the HTTP calls and worker goroutines of tools/loadgen. They move data
-- between the parts above. What the modelled code uses of them is an argument of its definitions.
pub mod Base
pub mod Domain
pub mod Errors
pub mod Crypto
pub mod Ledger
pub mod Mempool
pub mod Config
pub mod Node
pub mod Storage
pub mod Consensus
pub mod Chain
pub mod Bridge
pub mod Network
pub mod Loadgen
pub mod Genkeys
pub mod Startup
pub mod Api
mod Tests
