-- ===== src/Tests/Bridge.antt =====
-- The bridge on concrete inputs: a block produced from three pools, and a block that a peer sends.
use pixie_block.Base.{◌≡◌, refl, [], ◌∷◌, some}
use pixie_block.Base.Int.{pos, ◌+ℤ◌, ◌-ℤ◌, ◌*ℤ◌, quot}
use pixie_block.Base.Int64.{add64, sub64, mul64, wrap64}
use pixie_block.Base.Result.{ok}
use pixie_block.Domain.{net_to_payee, tax_amount}
use pixie_block.Crypto.{
  transaction_sign_bytes, account_create_sign_bytes, account_close_sign_bytes, block_sign_bytes,
  block_hash, verify, parse_public_key,
}
use pixie_block.Ledger.State.{State, clone, balance, account_pub_key, add_balance, sub_balance}
use pixie_block.Ledger.Payment.{
  check_fields, check_items, check_totals, check_funds, check_signature, validate_transaction,
  apply_transaction, transfer,
}
use pixie_block.Ledger.Accounts.{
  check_create_fields, validate_account_create, apply_account_create, open_account,
  check_destination, check_close_account, check_close_key, check_close_signature,
  check_create_signature, verify_any_validator, validate_account_close, apply_account_close,
  close_account,
}
use pixie_block.Ledger.Blocks.{validate_block}
use pixie_block.Tests.Samples.{toy, ledger, payment, create, close, next_block, genesis_block}
use pixie_block.Crypto.{sign}
use pixie_block.Mempool.Pool.{peek, new}
use pixie_block.Mempool.Pool.Invariant.{new-IsPool}
use pixie_block.Mempool.Requests.{peek_requests, new_requests}
use pixie_block.Mempool.Requests.Invariant.{new_requests-IsRequestPool}
use pixie_block.Consensus.{create_block, can_produce}
use pixie_block.Chain.{state_copy, height, latest_block}
use pixie_block.Bridge.{Bridge, select, select_executable, apply_blocks}
use pixie_block.Bridge.Selections.{produced-IsAccepted}
use pixie_block.Bridge.Syncing.{IsBridge, apply_blocks-IsBridge}
use pixie_block.Tests.Backend.{Files, files}
use pixie_block.Tests.Node.{producer, producer-Signs, proposal}
use pixie_block.Tests.Chain.{chain, chain-Replays}

abbrev pub bridge : Bridge Files
bridge = record {
  chain_id = "pixie";
  node_id = "node-1";
  chain = chain;
  mempool = record {
    items = ("tx-1", payment) ∷ [];
    order = "tx-1" ∷ [];
    reserved = ("shop", pos 1000) ∷ [];
  };
  create_pool = record { items = ("c-1", create) ∷ []; order = "c-1" ∷ [] };
  close_pool = record { items = ("d-1", close) ∷ []; order = "d-1" ∷ [] };
  producer = some producer;
}

bridge-made :
    let chosen = (select_executable toy (pos 100) bridge).0 in
    create_block toy producer 0
      (add64 (height bridge.chain) (pos 1))
      genesis_block
      chosen.txs
      chosen.creates
      chosen.closes
    ≡ ok proposal
unfolding select_executable select state_copy height create_block can_produce sign peek
    peek_requests block_hash block_sign_bytes verify add64 wrap64 ◌+ℤ◌ net_to_payee tax_amount sub64
    mul64 ◌-ℤ◌ ◌*ℤ◌ quot validate_transaction check_fields check_items check_totals check_funds
    check_signature transaction_sign_bytes balance account_pub_key apply_transaction transfer
    apply_account_create validate_account_create check_create_fields check_create_signature
    verify_any_validator account_create_sign_bytes parse_public_key open_account apply_account_close
    validate_account_close check_close_account check_close_key check_destination
    check_close_signature account_close_sign_bytes close_account clone add_balance sub_balance
bridge-made = refl

bridge-latest : latest_block bridge.chain ≡ ok genesis_block
unfolding latest_block
bridge-latest = refl

produced-IsAccepted_example :
    (t : State) × (validate_block toy proposal genesis_block ledger ≡ ok t)
produced-IsAccepted_example =
    produced-IsAccepted toy (pos 100) bridge producer 0 genesis_block proposal producer-Signs refl
      bridge-latest bridge-made

-- The same chain with empty pools.
abbrev pub idle : Bridge Files
idle = record bridge { mempool = new; create_pool = new_requests; close_pool = new_requests }

pub idle-IsBridge : IsBridge toy ledger idle
idle-IsBridge = record {
  replays = chain-Replays;
  mempool = new-IsPool;
  create_pool = new_requests-IsRequestPool;
  close_pool = new_requests-IsRequestPool;
}

apply_blocks-IsBridge_example :
    IsBridge toy ledger (apply_blocks toy files (next_block ∷ []) idle).0
apply_blocks-IsBridge_example =
    apply_blocks-IsBridge toy files ledger (next_block ∷ []) idle idle-IsBridge
