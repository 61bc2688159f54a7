-- ===== src/Chain.antt =====
-- internal/chain/blockchain.go: the blocks, the ledger state after them, and the indices of their
-- requests, in memory and in the store. Each method holds the lock from start to end, so it is one
-- step. The store is a database of type `DB`.
pub mod Restart
pub mod Replays
pub mod Heights
pub mod Admission
pub mod Links
pub mod Supply
pub mod Suffixes
use pixie_block.Base.{
  ℕ, zero, suc, String, Bool, true, false, not, ⊤, List, [], ◌∷◌, ◌++◌, Option, none, some, length,
  map, filter_by, get_elem?, nat_eq, if◌then◌else◌,
}
use pixie_block.Base.Int.{ℤ, pos, negsuc, eqb_ℤ, ltb_ℤ}
use pixie_block.Base.Int64.{sub64}
use pixie_block.Base.Dict.{Dict, lookup, insert}
use pixie_block.Base.Result.{ok, err, ◌>>=◌, ◌>>◌, or_fail, wrap_err}
use pixie_block.Errors
use pixie_block.Errors.{Error, Result}
use pixie_block.Domain.{
  PaymentTransaction, AccountCreateTransaction, AccountCloseTransaction, Block,
}
use pixie_block.Crypto.{Primitives, block_hash, parse_public_key}
use pixie_block.Config.{ValidatorConfig, AccountConfig, Keystore, Genesis, time_or_epoch}
use pixie_block.Ledger.State.{
  State, new_state, clone, set_account_pub_key, remove_account_pub_key, Action, and_then,
}
use pixie_block.Ledger.Payment.{validate_transaction, apply_transaction}
use pixie_block.Ledger.Accounts.{validate_account_create, validate_account_close}
use pixie_block.Ledger.Blocks.{result_of, validate_block}
use pixie_block.Node.{set_accounts, add_validators, hydrate_state}
use pixie_block.Storage.{
  Backend, save_block, save_state, save_block_and_state, load_blocks, load_state,
}

pub record Blockchain (DB : Type 0) : Type 0 where
  pub genesis : Genesis
  pub store : DB
  pub state : State
  pub blocks : List Block
  pub tx_index : Dict PaymentTransaction
  pub create_index : Dict AccountCreateTransaction
  pub close_index : Dict AccountCloseTransaction

pub record ChainInfo : Type 0 where
  pub chain_id : String
  pub height : ℤ
  pub validators : List String

-- `blocks[len(blocks)-1]`, which panics on no blocks.
abbrev pub last_block : List Block → Option Block
last_block [] = none
last_block (b ∷ []) = some b
last_block (b ∷ c ∷ bs) = last_block (c ∷ bs)

-- `for _, x := range xs { index[x.ID] = x }`
abbrev pub index_all : {T : Type 0} → (T → String) → Dict T → List T → Dict T
index_all id d [] = d
index_all id d (x ∷ xs) = index_all id (insert (id x) x d) xs

abbrev pub find_height : ℤ → List Block → Option Block
find_height h [] = none
find_height h (b ∷ bs) = if eqb_ℤ b.height h then some b else find_height h bs

module _ {DB : Type 0} where
  unfoldable pub index_block : Block → Blockchain DB → Blockchain DB
  index_block b bc = record bc {
    tx_index = index_all (λ x. x.id) bc.tx_index b.transactions;
    create_index = index_all (λ x. x.id) bc.create_index b.account_creates;
    close_index = index_all (λ x. x.id) bc.close_index b.account_closes;
  }

  unfoldable pub height : Blockchain DB → ℤ
  height bc = elim (last_block bc.blocks) [ none ↦ negsuc 0 | some b ↦ b.height ]

  unfoldable pub latest_block : Blockchain DB → Result Block
  latest_block bc = or_fail (last_block bc.blocks) Errors.index_out_of_range

  unfoldable pub get_block : ℤ → Blockchain DB → Option Block
  get_block h bc = find_height h bc.blocks

  unfoldable pub get_blocks_from : ℤ → Blockchain DB → List Block
  get_blocks_from h bc = filter_by (λ b. not (ltb_ℤ b.height h)) bc.blocks

  unfoldable pub get_transaction : String → Blockchain DB → Option PaymentTransaction
  get_transaction id bc = lookup id bc.tx_index

  unfoldable pub get_account_create : String → Blockchain DB → Option AccountCreateTransaction
  get_account_create id bc = lookup id bc.create_index

  -- `State()`: a copy, so that the caller's changes stay with the caller.
  unfoldable pub state_copy : Blockchain DB → State
  state_copy bc = clone bc.state

  unfoldable pub chain_info : Blockchain DB → ChainInfo
  unfolding height
  chain_info bc = record {
    chain_id = bc.genesis.chain_id;
    height = height bc;
    validators = map (λ v. v.id) bc.genesis.validators;
  }

-- `if acct, ok := state.Accounts[tx.Payer.ID]; ok { acct.Balance -= reservedGross }`
abbrev pub reserve : String → ℤ → State → State
reserve payer amount s = elim (lookup payer s.accounts) [
  | none ↦ s
  | some acct ↦ record s {
    accounts = insert payer (record acct { balance = sub64 acct.balance amount }) s.accounts;
  }
]

module _ (p : Primitives) where
  -- The pending payments that fail are passed over.
  apply_pending : List PaymentTransaction → State → State
  apply_pending [] s = s
  apply_pending (tx ∷ txs) s = apply_pending txs (apply_transaction p tx s).0

  module _ {DB : Type 0} where
    unfoldable pub validate_admit : PaymentTransaction → ℤ → Blockchain DB → Result ⊤
    validate_admit tx reserved_gross bc =
        validate_transaction p tx (reserve tx.payer.id reserved_gross (clone bc.state))

    unfoldable pub validate_pending : PaymentTransaction → Blockchain DB → Result ⊤
    unfolding validate_admit
    validate_pending tx bc = validate_admit tx (pos 0) bc

    unfoldable pub validate_create : AccountCreateTransaction → Blockchain DB → Result ⊤
    validate_create tx bc = validate_account_create p tx (clone bc.state)

    unfoldable pub validate_close : AccountCloseTransaction → Blockchain DB → Result ⊤
    validate_close tx bc = validate_account_close p tx (clone bc.state)

    unfoldable pub validate_pending_with :
        PaymentTransaction → List PaymentTransaction → Blockchain DB → Result ⊤
    unfolding apply_pending
    validate_pending_with tx pending bc =
        validate_transaction p tx (apply_pending pending (clone bc.state))

    -- What AppendBlock does once the block is validated and saved.
    pub extend : Block → State → DB → Blockchain DB → Blockchain DB
    unfolding index_block
    extend block next written bc =
        index_block block
          (record bc { store = written; blocks = bc.blocks ++ block ∷ []; state = next })

    unfoldable pub append_block : Backend DB → Block → Blockchain DB → Blockchain DB × Option Error
    unfolding extend
    append_block back block bc = elim (last_block bc.blocks) [
      | none ↦ (bc, some Errors.index_out_of_range)
      | some prev ↦ elim (validate_block p block prev bc.state) [
        | err e ↦ (bc, some e)
        | ok next ↦
            let (written, failure) = save_block_and_state back block next bc.store in
            elim failure [
              | some e ↦ (record bc { store = written }, some e)
              | none ↦ (extend block next written bc, none)
            ]
      ]
    ]
