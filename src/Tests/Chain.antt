-- ===== src/Tests/Chain.antt =====
-- A chain of a genesis block and the next block, on concrete inputs.
use pixie_block.Base.{◌≡◌, refl, [], ◌∷◌, none, arith}
use pixie_block.Base.Dict.{contains}
use pixie_block.Base.Result.{ok}
use pixie_block.Ledger.Blocks.Supply.{Preserves}
use pixie_block.Mempool.Pool.{reserved_at}
use pixie_block.Mempool.Pool.{new as new_pool}
use pixie_block.Mempool.Pool.Invariant.{new-IsPool}
use pixie_block.Mempool.Pool.Insertion.{Adds}
use pixie_block.Storage.{save_block_and_state, update, marshal_state}
use pixie_block.Chain.{Blockchain, append_block, validate_admit}
use pixie_block.Chain.Restart.{replay}
use pixie_block.Chain.Replays.{Replays, KeepsReplay, append_block-KeepsReplay}
use pixie_block.Chain.Heights.{HasHeights, Extends, append_block-Extends}
use pixie_block.Chain.Admission.{balance_at_bounds, Covers, try_admit, try_admit-Covers}
use pixie_block.Chain.Supply.{replay-Preserves}
use pixie_block.Tests.Samples.{toy, ledger, genesis_block, next_block, payment}
use pixie_block.Tests.Backend.{Files, files, no_files}
use pixie_block.Tests.Ledger.{
  applied, next_block-accepted, ledger-HasMaps, ledger-IsSolvent, payment-HasExactTotals,
}
use pixie_block.Tests.Node.{genesis}

abbrev pub chain : Blockchain Files
chain = record {
  genesis = genesis;
  store = no_files;
  state = ledger;
  blocks = genesis_block ∷ [];
  tx_index = [];
  create_index = [];
  close_index = [];
}

pub chain-Replays : Replays toy ledger chain
unfolding replay
chain-Replays = refl

append_block-KeepsReplay_example :
    KeepsReplay toy ledger next_block chain (append_block toy files next_block chain)
append_block-KeepsReplay_example =
    append_block-KeepsReplay toy files ledger next_block chain chain-Replays

append_block-Extends_example :
    HasHeights 0 (append_block toy files next_block chain).0.blocks
    × Extends next_block chain (append_block toy files next_block chain)
append_block-Extends_example =
    append_block-Extends toy files next_block chain (refl, tt) (omega arith)

-- The block is accepted and saved.
next_block-appended : (append_block toy files next_block chain).1 ≡ none
unfolding append_block save_block_and_state update marshal_state
next_block-appended = ground (arith, next_block-accepted)

empty-Covers : Covers ledger new_pool
unfolding new_pool
empty-Covers payer = (balance_at_bounds payer ledger ledger-IsSolvent).0

try_admit-Covers_example :
    Adds payment new_pool
      (try_admit toy payment chain new_pool)
      (contains payment.id new_pool.items)
      (validate_admit toy payment (reserved_at payment.payer.id new_pool.reserved) chain)
    × Covers ledger (try_admit toy payment chain new_pool).0
try_admit-Covers_example =
    try_admit-Covers toy payment chain new_pool ledger-HasMaps ledger-IsSolvent new-IsPool
      empty-Covers

pub next_block-replayed : replay toy ledger genesis_block (next_block ∷ []) ≡ ok applied
unfolding replay
next_block-replayed = rw next_block-accepted refl

replay-Preserves_example : Preserves ledger applied
replay-Preserves_example =
    replay-Preserves toy ledger applied genesis_block (next_block ∷ []) ledger-HasMaps
      ledger-IsSolvent ((payment-HasExactTotals, tt), tt) next_block-replayed
