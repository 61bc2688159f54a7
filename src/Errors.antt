-- ===== src/Errors.antt =====
-- The `error` values of the node, one constructor for each message, with what the message formats.
use pixie_block.Base.{ℕ, String}
use pixie_block.Base.Int.{ℤ}
use pixie_block.Base.Result.{Result as ResultOf}

pub data Error : Type 0 where
  -- internal/crypto
  decode_public_key decode_private_key : Error
  invalid_public_key_size invalid_private_key_size : ℕ → Error
  marshal_failed : Error
  canonical_bytes : Error → Error
  -- internal/ledger, ValidateTransaction
  transaction_id_required payer_and_payee_required line_item_required : Error
  line_item_not_positive : Error
  unknown_tax_code tax_account_not_allowed : String → Error
  discount_negative : Error
  discount_account_not_allowed : String → Error
  gross_not_positive : Error
  split_mismatch : ℤ → ℤ → ℤ → ℤ → Error
  net_negative : Error
  payer_not_found : String → Error
  insufficient_balance : ℤ → ℤ → Error
  transaction_signature_required : Error
  payer_key_not_found : String → Error
  invalid_transaction_signature : Error
  -- internal/ledger, ValidateAccountCreate and ValidateAccountClose
  create_id_required close_id_required account_id_required : Error
  account_type_not_allowed account_type_not_closable : String → Error
  new_balance_not_zero : Error
  account_exists account_not_found : String → Error
  public_key_required : Error
  bad_public_key : Error → Error
  create_signature_required close_signature_required : Error
  invalid_create_signature invalid_close_signature : Error
  account_key_not_found account_key_mismatch : String → Error
  merchant_balance_not_zero : String → ℤ → Error
  merchant_destination : Error
  destination_is_account : Error
  destination_not_found : String → Error
  -- internal/ledger, ValidateBlock
  invalid_height : ℤ → ℤ → Error
  previous_hash_mismatch block_hash_mismatch : Error
  unknown_validator : String → Error
  invalid_block_signature : Error
  in_create in_transaction in_close : String → Error → Error
  -- internal/mempool
  already_in_mempool : String → Error
  -- internal/consensus/poa
  validator_not_in_genesis : String → Error
  validator_key_mismatch : Error
  cannot_produce : String → ℤ → Error
  -- internal/chain
  empty_chain : Error
  in_block : ℤ → Error → Error
  in_create_key : String → Error → Error
  store_failed : Error
  -- internal/p2p
  need_sync : ℤ → ℤ → Error
  chain_id_mismatch unmarshal_failed send_failed : Error
  -- a run-time panic of an index out of range
  index_out_of_range : Error
  -- internal/api
  tax_code_for_person no_signing_key : String → Error
  tax_validation_failed : Error
  method_not_allowed bad_path create_needs_validator api_id_required : Error
  generate_keypair validator_key persist_keystore : Error → Error
  no_such_account no_account_public_key : Error
  person_close_needs_validator merchant_close_needs_key merchant_key_mismatch : Error
  merchant_close_destination close_bad_private_key close_bad_type : Error
  transaction_id_missing transaction_not_found : Error
  no_previous_block previous_block_not_found invalid_block_height block_not_found : Error
  -- config
  read_failed chain_id_required : Error
  in_taxes : Error → Error
  in_validator in_keystore : String → Error → Error
  no_tax_splits : Error
  negative_rate tax_account_required tax_account_not_in_genesis : String → Error
  -- tools/genkeys
  accounts_file_empty account_without_id cannot_infer_type : Error
  unknown_account_type : String → Error
  in_account : ℕ → String → Error → Error
  -- cmd/server
  invalid_validator_key_file : Error

abbrev pub Result : Type 0 → Type 0
Result A = ResultOf Error A
