-- ===== src/Chain/Restart.antt =====
-- internal/chain/blockchain.go: New, which loads the chain from the store or starts it, and
-- validateChain.
use pixie_block.Base.{⊤, List, [], ◌∷◌, none, some, length, get_elem?, nat_eq, if◌then◌else◌}
use pixie_block.Base.Int.{pos}
use pixie_block.Base.Result.{ok, err, ◌>>=◌, ◌>>◌, or_fail, wrap_err}
use pixie_block.Errors
use pixie_block.Errors.{Error, Result}
use pixie_block.Domain.{AccountCreateTransaction, AccountCloseTransaction, Block}
use pixie_block.Crypto.{Primitives, block_hash, parse_public_key}
use pixie_block.Config.{Keystore, Genesis, time_or_epoch}
use pixie_block.Ledger.State.{
  State, new_state, set_account_pub_key, remove_account_pub_key, Action, and_then,
}
use pixie_block.Ledger.Blocks.{result_of, validate_block}
use pixie_block.Node.{set_accounts, add_validators, hydrate_state}
use pixie_block.Storage.{Backend, save_block, save_state, load_blocks, load_state}
use pixie_block.Chain.{Blockchain, index_block}

module _ {DB : Type 0} where
  unfoldable pub index_blocks : List Block → Blockchain DB → Blockchain DB
  unfolding index_block
  index_blocks [] bc = bc
  index_blocks (b ∷ bs) bc = index_blocks bs (index_block b bc)

module _ (p : Primitives) where
  -- A block without transactions, at the fixed time of the genesis.
  unfoldable pub build_genesis_block : Genesis → Result Block
  build_genesis_block genesis = do
    v ← or_fail (get_elem? genesis.validators 0) Errors.index_out_of_range
    let block : Block = record {
      height = pos 0;
      timestamp = time_or_epoch genesis.genesis_time;
      transactions = [];
      account_creates = [];
      account_closes = [];
      previous_hash = [];
      hash = [];
      validator = v.id;
      signature = [];
    }
    computed_hash ← block_hash p block
    ok (record block { hash = computed_hash })

  hydrate_creates : List AccountCreateTransaction → Action
  hydrate_creates [] s = (s, none)
  hydrate_creates (c ∷ cs) s = elim (parse_public_key p c.public_key) [
    | err e ↦ (s, some (Errors.in_create_key c.id e))
    | ok pub_key ↦ hydrate_creates cs (set_account_pub_key c.account.id pub_key s)
  ]

  abbrev remove_keys : List AccountCloseTransaction → Action
  remove_keys [] s = (s, none)
  remove_keys (c ∷ cs) s = remove_keys cs (remove_account_pub_key c.account_id s)

  unfoldable pub hydrate_account_create_pub_keys : List Block → Action
  unfolding hydrate_creates
  hydrate_account_create_pub_keys [] s = (s, none)
  hydrate_account_create_pub_keys (b ∷ bs) s =
      and_then (and_then (hydrate_creates b.account_creates) (remove_keys b.account_closes))
        (hydrate_account_create_pub_keys bs) s

  -- The loop of validateChain: each block on the state that the ones before it leave.
  unfoldable pub replay : State → Block → List Block → Result State
  replay s prev [] = ok s
  replay s prev (b ∷ bs) = do
    next ← wrap_err (Errors.in_block b.height) (validate_block p b prev s)
    replay next b bs

  -- The state that validateChain starts from.
  unfoldable pub genesis_state : Genesis → Keystore → State → Result State
  genesis_state genesis keystore s =
      let start =
        set_accounts genesis.accounts (new_state genesis.allowed_tax_accounts s.tax_split) in
      result_of (
        and_then (add_validators p (λ id e. e) genesis.validators)
          (hydrate_state p genesis keystore) start)

  abbrev pub replay_chain : Result State → List Block → Result State
  replay_chain start [] = err Errors.empty_chain
  replay_chain start (b ∷ bs) = do s ← start; replay s b bs

  unfoldable pub validate_chain : {DB : Type 0} → Keystore → Blockchain DB → Result ⊤
  unfolding replay genesis_state
  validate_chain keystore bc = do
    _ ← replay_chain (genesis_state bc.genesis keystore bc.state) bc.blocks
    ok tt

  module _ {DB : Type 0} where
    -- What New does with a store that holds no block.
    unfoldable pub start_chain : Backend DB → Blockchain DB → DB × Result (Blockchain DB)
    start_chain back bc = elim (build_genesis_block bc.genesis) [
      | err e ↦ (bc.store, err e)
      | ok block ↦
          let (with_block, failure) = save_block back block bc.store in
          elim failure [
            | some e ↦ (with_block, err e)
            | none ↦
                let (with_state, failure') = save_state back bc.state with_block in
                elim failure' [
                  | some e ↦ (with_state, err e)
                  | none ↦ (with_state, ok (record bc { store = with_state; blocks = block ∷ [] }))
                ]
          ]
    ]

    -- The saved state, if there is one, with the keys put in.
    unfoldable pub resume_state : Backend DB → Keystore → Blockchain DB → Result State
    resume_state back keystore bc = do
      saved ← load_state back bc.store
      elim saved [ none ↦ ok bc.state | some s ↦ result_of (hydrate_state p bc.genesis keystore s) ]

    -- What New does with the blocks that it has loaded.
    unfoldable pub resume_chain :
        Backend DB → Keystore → List Block → Blockchain DB → Result (Blockchain DB)
    unfolding index_blocks resume_state validate_chain
    resume_chain back keystore existing bc = do
      let loaded = index_blocks existing (record bc { blocks = existing })
      hydrated ← resume_state back keystore loaded
      with_keys ← result_of (hydrate_account_create_pub_keys existing hydrated)
      let resumed = record loaded { state = with_keys }
      validate_chain keystore resumed
      ok resumed

    -- The store comes back with the chain or the error.
    unfoldable pub new : Backend DB → Genesis → DB → State → Keystore → DB × Result (Blockchain DB)
    unfolding start_chain resume_chain
    new back genesis store state keystore =
        elim (result_of (hydrate_state p genesis keystore state)) [
          | err e ↦ (store, err e)
          | ok hydrated ↦
              let bc : Blockchain DB = record {
                genesis = genesis;
                store = store;
                state = hydrated;
                blocks = [];
                tx_index = [];
                create_index = [];
                close_index = [];
              } in
              elim (load_blocks back store) [
                | err e ↦ (store, err e)
                | ok existing ↦
                    if nat_eq (length existing) 0
                    then start_chain back bc
                    else (store, resume_chain back keystore existing bc)
              ]
        ]
