-- ===== src/Tests/Restart.antt =====
-- New on a store that holds the genesis block and the next one.
use pixie_block.Base.{◌≡◌, ◌⊎◌, refl, [], ◌∷◌}
use pixie_block.Base.Int.{◌+ℤ◌, ◌-ℤ◌, ◌*ℤ◌, quot}
use pixie_block.Base.Int64.{add64, sub64, mul64, wrap64}
use pixie_block.Base.Result.{ok, err}
use pixie_block.Domain.{net_to_payee, tax_amount}
use pixie_block.Crypto.{
  transaction_sign_bytes, account_create_sign_bytes, account_close_sign_bytes, block_sign_bytes,
  block_hash, verify, parse_public_key, parse_private_key,
}
use pixie_block.Ledger.State.{clone, balance, account_pub_key, add_balance, sub_balance}
use pixie_block.Ledger.Payment.{
  check_fields, check_items, check_totals, check_funds, check_signature, validate_transaction,
  apply_transaction, transfer,
}
use pixie_block.Ledger.Accounts.{
  check_create_fields, validate_account_create, apply_account_create, open_account,
  check_destination, check_close_account, check_close_key, check_close_signature,
  check_create_signature, verify_any_validator, validate_account_close, apply_account_close,
  close_account,
}
use pixie_block.Ledger.Blocks.{
  apply_each, check_header, apply_creates, apply_payments, apply_closes, apply_block,
  validate_block,
}
use pixie_block.Tests.Samples.{ledger}
use pixie_block.Domain.{Block}
use pixie_block.Node.{hydrate_state, set_accounts, add_validators, add_keys}
use pixie_block.Storage.{load_blocks, load_state}
use pixie_block.Chain.{Blockchain}
use pixie_block.Chain.Restart.{
  new, validate_chain, genesis_state, replay, build_genesis_block, hydrate_account_create_pub_keys,
}
use pixie_block.Chain.Links.{IsChain, new-IsChain}
use pixie_block.Tests.Samples.{keys}
use pixie_block.Tests.Backend.{Files, files, two_files}
use pixie_block.Tests.Node.{genesis, keystore}
use pixie_block.Tests.Chain.{chain}

-- A store with both blocks: New loads them and validates the chain.
abbrev loaded : Blockchain Files
unfolding new hydrate_state
loaded = elim (new keys files genesis two_files ledger keystore).1 [ ok bc ↦ bc | err e ↦ chain ]

loaded-made : (new keys files genesis two_files ledger keystore).1 ≡ ok loaded
unfolding loaded new hydrate_state set_accounts add_validators add_keys load_blocks load_state
    replay genesis_state validate_chain hydrate_account_create_pub_keys parse_private_key
    validate_block check_header block_hash block_sign_bytes verify add64 wrap64 ◌+ℤ◌ net_to_payee
    tax_amount sub64 mul64 ◌-ℤ◌ ◌*ℤ◌ quot validate_transaction check_fields check_items check_totals
    check_funds check_signature transaction_sign_bytes balance account_pub_key apply_transaction
    transfer apply_account_create validate_account_create check_create_fields check_create_signature
    verify_any_validator account_create_sign_bytes parse_public_key open_account apply_account_close
    validate_account_close check_close_account check_close_key check_destination
    check_close_signature account_close_sign_bytes close_account clone add_balance sub_balance
    apply_block apply_creates apply_each apply_payments apply_closes
loaded-made = refl

new-IsChain_example :
    IsChain keys loaded.blocks
    × ((load_blocks files two_files ≡ ok loaded.blocks)
        ⊎ ((load_blocks files two_files ≡ ok [])
            × (block : Block) × (build_genesis_block keys genesis ≡ ok block)
            × (loaded.blocks ≡ block ∷ [])))
new-IsChain_example = new-IsChain keys files genesis two_files ledger keystore loaded loaded-made
