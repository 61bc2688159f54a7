-- ===== src/Consensus.antt =====
-- internal/consensus/poa/producer.go: whose turn it is, and the block that a validator proposes.
pub mod Proposals
pub mod Turns
use pixie_block.Base.{
  ℕ, zero, suc, String, Bool, true, false, List, [], ◌∷◌, Option, none, some, ◌==◌, ◌%◌, length,
  nat_eq, bytes_eq, get_elem?, if◌then◌else◌, ⊤,
}
use pixie_block.Base.Int.{ℤ, pos, negsuc}
use pixie_block.Base.Result.{ok, err, ◌>>=◌, ◌>>◌, guard, or_fail}
use pixie_block.Errors
use pixie_block.Errors.{Error, Result}
use pixie_block.Domain.{
  Bytes, PaymentTransaction, AccountCreateTransaction, AccountCloseTransaction, Block,
}
use pixie_block.Crypto.{
  Primitives, block_hash, block_sign_bytes, sign, parse_public_key, parse_private_key,
}
use pixie_block.Config.{ValidatorConfig, Genesis}

pub record Producer : Type 0 where
  pub genesis : Genesis
  pub validator : ValidatorConfig
  pub private_key : Bytes

abbrev pub find_validator : String → List ValidatorConfig → Option ValidatorConfig
find_validator id [] = none
find_validator id (v ∷ vs) = if v.id == id then some v else find_validator id vs

-- `height % n` as an index: Go's remainder takes the sign of the height, and a negative index panics
-- as an empty list does.
abbrev pub turn_index : ℤ → ℕ → Option ℕ
turn_index height zero = none
turn_index (pos h) (suc n) = some (h % suc n)
turn_index (negsuc h) (suc n) = if nat_eq (suc h % suc n) 0 then some 0 else none

unfoldable pub validator_for_height : ℤ → Producer → Result ValidatorConfig
validator_for_height height producer = do
  i ← or_fail (turn_index height (length producer.genesis.validators)) Errors.index_out_of_range
  or_fail (get_elem? producer.genesis.validators i) Errors.index_out_of_range

unfoldable pub can_produce : ℤ → Producer → Result Bool
unfolding validator_for_height
can_produce height producer = do
  v ← validator_for_height height producer
  ok (v.id == producer.validator.id)

-- The block before it is hashed and signed; `now` is the clock's time.
abbrev pub draft_block :
    Producer
    → ℕ
    → ℤ
    → Block
    → List PaymentTransaction
    → List AccountCreateTransaction
    → List AccountCloseTransaction
    → Block
draft_block producer now height prev txs creates closes = record {
  height = height;
  timestamp = now;
  transactions = txs;
  account_creates = creates;
  account_closes = closes;
  previous_hash = prev.hash;
  hash = [];
  validator = producer.validator.id;
  signature = [];
}

module _ (p : Primitives) where
  unfoldable pub new_producer : Genesis → String → String → Result Producer
  new_producer genesis validator_id private_key_b64 = do
    v ←
        or_fail (find_validator validator_id genesis.validators)
          (Errors.validator_not_in_genesis validator_id)
    priv ← parse_private_key p private_key_b64
    expected_pub ← parse_public_key p v.public_key
    guard (bytes_eq (p.ed25519_public priv) expected_pub) Errors.validator_key_mismatch
    ok (record { genesis = genesis; validator = v; private_key = priv })

  unfoldable pub seal : Producer → Block → Result Block
  seal producer block = do
    computed_hash ← block_hash p block
    let hashed = record block { hash = computed_hash }
    sign_bytes ← block_sign_bytes p hashed
    ok (record hashed { signature = sign p producer.private_key sign_bytes })

  unfoldable pub create_block :
      Producer
      → ℕ
      → ℤ
      → Block
      → List PaymentTransaction
      → List AccountCreateTransaction
      → List AccountCloseTransaction
      → Result Block
  unfolding can_produce seal
  create_block producer now height prev txs creates closes = do
    mine ← can_produce height producer
    guard mine (Errors.cannot_produce producer.validator.id height)
    seal producer (draft_block producer now height prev txs creates closes)
