-- ===== src/Startup/Launches.antt =====
-- cmd/server/main.go with internal/node/bootstrap.go and internal/chain/blockchain.go: the node that
-- starts on a store without blocks, and what becomes of it.
use pixie_block.Base.{
  String, inl, inr, List, [], ◌∷◌, Option, none, some, ◌≡◌, sym, subst, ◌∙◌, ⊤, arith,
}
use pixie_block.Base.Dict.{Dict, IsMap, copy_into, insert, insert-IsMap}
use pixie_block.Base.Result.{ok, wrap_err, Result-cases, >>=-eq-ok}
use pixie_block.Errors
use pixie_block.Errors.{Error, Result}
use pixie_block.Domain.{Block, TaxSplit}
use pixie_block.Crypto.{Primitives}
use pixie_block.Config.{AccountConfig, Genesis, Keystore, Taxes, validate}
use pixie_block.Ledger.State.{State, new_state, allow_all, set_account}
use pixie_block.Ledger.State.Copy.{HasMaps}
use pixie_block.Ledger.Blocks.{result_of}
use pixie_block.Node.{
  account_of, set_accounts, add_validators, add_keys, build_initial_state, hydrate_state,
}
use pixie_block.Storage.{Backend, load_blocks}
use pixie_block.Chain.{Blockchain}
use pixie_block.Chain.Restart.{new, start_chain, build_genesis_block}
use pixie_block.Chain.Links.{start_chain-IsChain}
use pixie_block.Node.Bootstrap.{
  OnlyKeys, add_validators-OnlyKeys, add_keys-OnlyKeys, and_then-OnlyKeys, hydrate_state-OnlyKeys,
}

copy_into-IsMap : {V : Type 0} (acc d : Dict V) → IsMap acc → IsMap (copy_into acc d)
copy_into-IsMap acc [] h = h
copy_into-IsMap acc ((k, v) ∷ d) h = copy_into-IsMap (insert k v acc) d (insert-IsMap k v acc h)

allow_all-IsMap :
    (allowed : Dict ⊤) (ids : List String) → IsMap allowed → IsMap (allow_all allowed ids)
allow_all-IsMap allowed [] h = h
allow_all-IsMap allowed (id ∷ ids) h =
    allow_all-IsMap (insert id tt allowed) ids (insert-IsMap id tt allowed h)

pub new_state-HasMaps : (ids : List String) (taxes : Dict TaxSplit) → HasMaps (new_state ids taxes)
unfolding new_state
new_state-HasMaps ids taxes = record {
  accounts = tt;
  tax_split = copy_into-IsMap [] taxes tt;
  allowed_tax_accts = allow_all-IsMap [] ids tt;
  validator_pub_keys = tt;
  account_pub_keys = tt;
}

pub set_accounts-HasMaps :
    (as' : List AccountConfig) (s : State) → HasMaps s → HasMaps (set_accounts as' s)
unfolding set_accounts set_account
set_accounts-HasMaps [] s h = h
set_accounts-HasMaps (a ∷ as') s h =
    set_accounts-HasMaps as' (set_account (account_of a) s) (record {
      accounts = insert-IsMap a.id (account_of a) s.accounts h.accounts;
      tax_split = h.tax_split;
      allowed_tax_accts = h.allowed_tax_accts;
      validator_pub_keys = h.validator_pub_keys;
      account_pub_keys = h.account_pub_keys;
    })

-- The accounts and settings of the genesis, without keys.
abbrev pub genesis_accounts : Genesis → Taxes → State
genesis_accounts genesis taxes =
    set_accounts genesis.accounts (new_state genesis.allowed_tax_accounts taxes.tax_split)

result_of-state : (r : State × Option Error) (s : State) → result_of r ≡ ok s → r.0 ≡ s
result_of-state (t, none) s h = cc
result_of-state (t, some e) s h = absurd (ground arith)

pub build_initial_state-OnlyKeys :
    (p : Primitives) (genesis : Genesis) (keystore : Keystore) (taxes : Taxes) (s : State)
    → build_initial_state p genesis keystore taxes ≡ ok s
    → OnlyKeys (genesis_accounts genesis taxes) s
unfolding build_initial_state
build_initial_state-OnlyKeys p genesis keystore taxes s h =
    let start = genesis_accounts genesis taxes in
    let (_, _, built) =
      >>=-eq-ok (wrap_err Errors.in_taxes (validate genesis.allowed_tax_accounts taxes)) _ h in
    subst (OnlyKeys start) (result_of-state _ s built) (
      and_then-OnlyKeys (add_validators p Errors.in_validator genesis.validators)
        (add_keys p Errors.in_keystore keystore.entries) start
        (add_validators-OnlyKeys p Errors.in_validator genesis.validators start)
        (add_keys-OnlyKeys p Errors.in_keystore keystore.entries))

-- What a node on a store without blocks has: the genesis block, and the genesis with the keys.
pub record IsLaunched {DB : Type 0} (p : Primitives) (genesis : Genesis) (from : State)
    (bc : Blockchain DB) : Type 0 where
  pub block : Block
  pub built : build_genesis_block p genesis ≡ ok block
  pub blocks : bc.blocks ≡ block ∷ []
  pub keys : OnlyKeys from bc.state

pub new-IsLaunched :
    {DB : Type 0} (p : Primitives) (back : Backend DB) (genesis : Genesis) (store : DB) (s : State)
    (keystore : Keystore) (bc : Blockchain DB)
    → load_blocks back store ≡ ok []
    → (new p back genesis store s keystore).1 ≡ ok bc
    → IsLaunched p genesis s bc
unfolding new
new-IsLaunched {DB = DB} p back genesis store s keystore bc empty h =
    elim (Result-cases (result_of (hydrate_state p genesis keystore s))) [
      | inr (e, hyd) ↦ absurd (ground arith)
      | inl (hydrated, hyd) ↦
          let fresh : Blockchain DB = record {
            genesis = genesis;
            store = store;
            state = hydrated;
            blocks = [];
            tx_index = [];
            create_index = [];
            close_index = [];
          } in
          let started : (start_chain p back fresh).1 ≡ ok bc = ground arith in
          let (block, built, blocks, state) = start_chain-IsChain p back fresh bc started in
          record {
            block = block;
            built = built;
            blocks = blocks;
            keys =
                subst (OnlyKeys s)
                  (result_of-state (hydrate_state p genesis keystore s) hydrated hyd ∙ sym state)
                  (hydrate_state-OnlyKeys p genesis keystore s);
          }
    ]
