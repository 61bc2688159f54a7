-- ===== src/Tests/Network.antt =====
-- Two nodes on concrete inputs: one is a block behind the other.
use pixie_block.Base.{
  String, ℕ, suc, ◌≡◌, ◌↔◌, refl, sym, ap, ◌∙◌, subst, All, [], ◌∷◌, Option, none, some, true,
  arith,
}
use pixie_block.Base.Result.{ok, err}
use pixie_block.Errors
use pixie_block.Errors.{Error}
use pixie_block.Domain.{Block}
use pixie_block.Ledger.State.{State}
use pixie_block.Storage.{save_block_and_state, update, marshal_state}
use pixie_block.Network.{Message, new_transaction, new_block, bridge_handler, dispatch}
use pixie_block.Network.Drops.{Drops, dispatch_error-Drops}
use pixie_block.Network.Sync.{exchange, exchange-catches_up}
use pixie_block.Network.Handling.{dispatch-handled}
use pixie_block.Network.Reach.{Reach, start_here, later, dispatched, Reach-IsBridge}
use pixie_block.Ledger.Blocks.Supply.{Preserves}
use pixie_block.Chain.Supply.{IsExact}
use pixie_block.Bridge.{Bridge, one, on_new_transaction, on_new_block}
use pixie_block.Bridge.Syncing.{IsBridge}
use pixie_block.Bridge.CatchUps.{apply_blocks-catches_up}
use pixie_block.Tests.Samples.{toy, payment, ledger, genesis_block, next_block}
use pixie_block.Tests.Ledger.{applied, ledger-HasMaps, ledger-IsSolvent, payment-HasExactTotals}
use pixie_block.Tests.Backend.{Files, files}
use pixie_block.Tests.Chain.{chain, chain-Replays, next_block-replayed}
use pixie_block.Tests.Bridge.{idle, idle-IsBridge}

-- The node that has the next block too.
abbrev ahead : Bridge Files
ahead = record idle {
  chain = record chain { blocks = genesis_block ∷ next_block ∷ []; state = applied };
}

files-saves :
    (block : Block) (s : State) (db : Files) → (save_block_and_state files block s db).1 ≡ none
unfolding save_block_and_state update marshal_state
files-saves block s db = refl

exchange-catches_up_example :
    let (a', b') = exchange toy files ahead idle in
    (a' ≡ ahead) × (b'.chain.blocks ≡ genesis_block ∷ next_block ∷ []) × (b'.chain.state ≡ applied)
exchange-catches_up_example =
    exchange-catches_up toy files files-saves ledger ahead idle (next_block ∷ []) refl
      next_block-replayed chain-Replays refl (refl, (refl, tt)) (omega arith)

abbrev pub count_writes : Message → String → ℕ → ℕ × Option Error
count_writes m c n = (suc n, none)

dispatch_error-Drops_example :
    ((dispatch
        (bridge_handler toy files)
        count_writes
        (new_transaction (err Errors.send_failed))
        "peer"
        true
        idle
        0).1
      ≡ some Errors.send_failed)
    ↔ Drops
        (bridge_handler toy files)
        count_writes
        "peer"
        true
        idle
        0
        (new_transaction (err Errors.send_failed))
        Errors.send_failed
dispatch_error-Drops_example =
    dispatch_error-Drops (bridge_handler toy files) count_writes "peer" true idle 0
      (new_transaction (err Errors.send_failed)) Errors.send_failed

-- A payment and then a block that the peer announces.
abbrev paid : Bridge Files
unfolding dispatch
paid =
    (dispatch (bridge_handler toy files) count_writes (new_transaction (ok payment)) "peer" true
      idle 0).0.0

abbrev followed : Bridge Files
unfolding dispatch
followed =
    (dispatch (bridge_handler toy files) count_writes (new_block (ok (one next_block))) "peer" true
      paid 0).0.0

followed-Reach : Reach toy files count_writes idle followed
unfolding paid followed
followed-Reach =
    later (later start_here (dispatched (new_transaction (ok payment)) "peer" true 0))
      (dispatched (new_block (ok (one next_block))) "peer" true 0)

followed-blocks : followed.chain.blocks ≡ genesis_block ∷ next_block ∷ []
unfolding followed paid dispatch on_new_transaction on_new_block
followed-blocks =
    ap (λ b. b.chain.blocks)
      (dispatch-handled (bridge_handler toy files) count_writes "peer" true paid 0
        (new_block (ok (one next_block))))
    ∙ (apply_blocks-catches_up toy files files-saves (next_block ∷ []) paid genesis_block applied
        refl (refl, (refl, tt)) (omega arith) next_block-replayed).1

Reach-IsBridge_example : IsBridge toy ledger followed × Preserves ledger followed.chain.state
Reach-IsBridge_example =
    Reach-IsBridge toy files count_writes ledger idle followed ledger-HasMaps ledger-IsSolvent
      idle-IsBridge followed-Reach
      (subst (All (IsExact ledger.tax_split)) (sym followed-blocks)
        (tt, ((payment-HasExactTotals, tt), tt)))
