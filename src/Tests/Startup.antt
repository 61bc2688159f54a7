-- ===== src/Tests/Startup.antt =====
-- The start of a node on concrete inputs.
use pixie_block.Base.{◌≡◌, All, refl, true, none, [], arith}
use pixie_block.Base.Int.{◌+ℤ◌}
use pixie_block.Base.Result.{ok, err}
use pixie_block.Config.{Genesis, load_genesis, validate}
use pixie_block.Crypto.{parse_public_key, parse_private_key, block_hash}
use pixie_block.Ledger.State.{set_account, new_state}
use pixie_block.Node.{set_accounts, add_validators, add_keys, build_initial_state, hydrate_state}
use pixie_block.Chain.Restart.{new, start_chain, build_genesis_block}
use pixie_block.Ledger.Payment.Supply.{supply}
use pixie_block.Ledger.Payment.Exact.{IsSolvent}
use pixie_block.Ledger.Blocks.Supply.{Preserves}
use pixie_block.Storage.{load_blocks, save_block, save_state}
use pixie_block.Bridge.{Bridge, on_new_transaction}
use pixie_block.Bridge.Syncing.{IsBridge}
use pixie_block.Network.Reach.{Reach, start_here, later, dispatched}
use pixie_block.Network.{new_transaction, bridge_handler, dispatch}
use pixie_block.Errors
use pixie_block.Chain.Supply.{IsExact}
use pixie_block.Startup.{Inputs, make_producer, start}
use pixie_block.Startup.Launches.{genesis_accounts, IsLaunched}
use pixie_block.Startup.Runs.{start-Holds}
use pixie_block.Tests.Samples.{keys}
use pixie_block.Tests.Backend.{Files, files, no_files}
use pixie_block.Tests.Node.{genesis, keystore, taxes}
use pixie_block.Tests.Bridge.{idle}
use pixie_block.Tests.Network.{count_writes}
use pixie_block.Startup.{split_comma}
use pixie_block.Startup.Splits.{join, HasNoComma, join-split_comma}

join-split_comma_example :
    (join (split_comma "a:9000,,b:9000") ≡ "a:9000,,b:9000")
    × All HasNoComma (split_comma "a:9000,,b:9000")
join-split_comma_example = join-split_comma "a:9000,,b:9000"

abbrev files_of : Inputs
files_of = record {
  genesis = ok genesis;
  keystore = ok keystore;
  taxes = ok taxes;
  validator_key = none;
  node_id = "node-1";
}

abbrev launched : Bridge Files
unfolding start
launched = elim (start keys files files_of no_files).1 [ ok b ↦ b | err e ↦ idle ]

launched-made : (start keys files files_of no_files).1 ≡ ok launched
unfolding launched start load_genesis build_initial_state set_accounts add_validators add_keys
    set_account new_state validate parse_public_key parse_private_key new hydrate_state load_blocks
    start_chain build_genesis_block block_hash save_block save_state make_producer
launched-made = refl

-- The genesis at its default time.
abbrev dated : Genesis
dated = record genesis { genesis_time = 62_135_596_800 }

genesis-loaded : load_genesis (ok genesis) ≡ ok dated
unfolding load_genesis
genesis-loaded = refl

no_files-empty : load_blocks files no_files ≡ ok []
unfolding load_blocks
no_files-empty = refl

genesis-IsSolvent : IsSolvent (genesis_accounts dated taxes)
unfolding set_accounts set_account new_state ◌+ℤ◌
genesis-IsSolvent = record { nonneg = omega arith; bounded = omega arith }

-- The node after a message that it cannot decode.
abbrev greeted : Bridge Files
unfolding dispatch
greeted =
    (dispatch (bridge_handler keys files) count_writes (new_transaction (err Errors.send_failed))
      "peer" true launched 0).0.0

greeted-Reach : Reach keys files count_writes launched greeted
unfolding greeted
greeted-Reach =
    later start_here (dispatched (new_transaction (err Errors.send_failed)) "peer" true 0)

greeted-IsExact : All (IsExact launched.chain.state.tax_split) greeted.chain.blocks
unfolding launched greeted dispatch on_new_transaction start load_genesis build_initial_state
    validate parse_public_key parse_private_key new hydrate_state load_blocks build_genesis_block
    block_hash save_block save_state make_producer
greeted-IsExact = (tt, tt)

start-Holds_example :
    IsLaunched keys dated (genesis_accounts dated taxes) launched.chain
    × IsBridge keys launched.chain.state greeted
    × Preserves launched.chain.state greeted.chain.state
    × (supply greeted.chain.state ≡ supply (genesis_accounts dated taxes))
start-Holds_example =
    start-Holds keys files count_writes files_of dated taxes no_files launched greeted
      genesis-loaded refl genesis-IsSolvent no_files-empty launched-made greeted-Reach
      greeted-IsExact
