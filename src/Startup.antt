-- ===== src/Startup.antt =====
-- cmd/server/main.go: how a node is put together, and the ticker of the block producer. Flags, the files'
-- contents, the clocks and the database are arguments; logging, signals and goroutines are left out.
pub mod Splits
pub mod Launches
pub mod Runs
use Prim.Native.Char.{Char, code}
use Prim.Native.String.{[] as empty_text, ◌∷◌ as ◌∷ˢ◌, ◌++◌ as ◌++ˢ◌}
use pixie_block.Base.{
  ℕ, String, Bool, true, false, not, ◌&&◌, ◌||◌, List, [], ◌∷◌, Option, none, some, ◌==◌, nat_eq,
  filter_by, if◌then◌else◌, ◌+◌,
}
use pixie_block.Base.Int.{ℤ, pos, leb_ℤ, ltb_ℤ}
use pixie_block.Base.Int64.{sub64, mul64}
use pixie_block.Base.Result.{ok, err, ◌>>=◌, ◌>>◌, guard}
use pixie_block.Errors
use pixie_block.Errors.{Error, Result}
use pixie_block.Domain.{Block}
use pixie_block.Crypto.{Primitives}
use pixie_block.Config.{Genesis, Keystore, Taxes, load_genesis}
use pixie_block.Ledger.State.{State}
use pixie_block.Node.{build_initial_state}
use pixie_block.Storage.{Backend}
use pixie_block.Consensus.{Producer, new_producer}
use pixie_block.Mempool.Pool.{len}
use pixie_block.Mempool.Pool.{new as new_pool}
use pixie_block.Mempool.Requests.{new_requests}
use pixie_block.Mempool.AccountCreates.{len_creates}
use pixie_block.Mempool.AccountCloses.{len_closes}
use pixie_block.Chain.{Blockchain}
use pixie_block.Chain.Restart.{new as new_chain}
use pixie_block.Bridge.{Bridge, new_bridge, max_or_default, produce_block_if_ready}

abbrev pub is_comma : Char → Bool
is_comma c = nat_eq (code c) 44

-- The loop of splitComma, where `part` is `s[start:i]`.
unfoldable pub split_loop : String → String → List String
split_loop part empty_text = part ∷ []
split_loop part (c ∷ˢ s) =
    let rest = split_loop (if is_comma c then "" else part ++ˢ (c ∷ˢ empty_text)) s in
    if is_comma c then part ∷ rest else rest

unfoldable pub split_comma : String → List String
unfolding split_loop
split_comma s = split_loop "" s

unfoldable pub split_peers : String → List String
unfolding split_comma
split_peers raw = if raw == "" then [] else filter_by (λ part. not (part == "")) (split_comma raw)

pub record ValidatorKey : Type 0 where
  pub validator_id : String
  pub private_key : String

-- `parsed` is what reading and parsing the file gives.
unfoldable pub load_validator_key : Result ValidatorKey → Result ValidatorKey
load_validator_key parsed = do
  key ← parsed
  guard (not (key.validator_id == "" || key.private_key == "")) Errors.invalid_validator_key_file
  ok key

-- The files that main reads, and no key file where the flag is empty.
pub record Inputs : Type 0 where
  pub genesis : Result Genesis
  pub keystore : Result Keystore
  pub taxes : Result Taxes
  pub validator_key : Option (Result ValidatorKey)
  pub node_id : String

-- `blockTime` in nanoseconds.
abbrev pub block_time : Genesis → ℤ
block_time genesis =
    let d = mul64 genesis.block_time_seconds (pos 1_000_000_000) in
    if leb_ℤ d (pos 0) then pos 1_000_000_000 else d

abbrev pub pending_count : {DB : Type 0} → Bridge DB → ℕ
pending_count b = len b.mempool + len_creates b.create_pool + len_closes b.close_pool

module _ (p : Primitives) where
  unfoldable pub make_producer : Option (Result ValidatorKey) → Genesis → Result (Option Producer)
  unfolding load_validator_key
  make_producer none genesis = ok none
  make_producer (some parsed) genesis = do
    key ← load_validator_key parsed
    producer ← new_producer p genesis key.validator_id key.private_key
    ok (some producer)

  module _ {DB : Type 0} (back : Backend DB) where
    abbrev assemble : Inputs → Genesis → DB × Result (Blockchain DB) → DB × Result (Bridge DB)
    assemble inputs genesis (store, err e) = (store, err e)
    assemble inputs genesis (store, ok bc) = (
      store,
      make_producer inputs.validator_key genesis >>= (λ producer. ok (
          new_bridge genesis.chain_id inputs.node_id bc new_pool new_requests new_requests
            producer)),
    )

    -- What is loaded before the chain: the genesis, the keystore and the first state.
    abbrev load_inputs : Inputs → Result (Genesis × Keystore × State)
    load_inputs inputs = do
      genesis ← load_genesis inputs.genesis
      keystore ← inputs.keystore
      taxes ← inputs.taxes
      state ← build_initial_state p genesis keystore taxes
      ok (genesis, keystore, state)

    abbrev open_chain : Inputs → DB → Result (Genesis × Keystore × State) → DB × Result (Bridge DB)
    open_chain inputs store (err e) = (store, err e)
    open_chain inputs store (ok (genesis, keystore, state)) =
        assemble inputs genesis (new_chain p back genesis store state keystore)

    -- main up to the bridge, on the open store.
    unfoldable pub start : Inputs → DB → DB × Result (Bridge DB)
    start inputs store = open_chain inputs store (load_inputs inputs)

    -- `lastProduce = time.Now()` after a block.
    abbrev after_attempt : ℤ → ℤ → Bridge DB × Result (Option Block) → Bridge DB × ℤ
    after_attempt clock last (b, err e) = (b, last)
    after_attempt clock last (b, ok none) = (b, last)
    after_attempt clock last (b, ok (some block)) = (b, clock)

    -- One tick of runBlockProducer: `clock` is the monotonic time in nanoseconds, `now` the block's time.
    unfoldable pub tick : ℤ → ℕ → Bridge DB × ℤ → Bridge DB × ℤ
    tick clock now (b, last) =
        let n = pending_count b in
        let produced = produce_block_if_ready p back now b in
        let genesis = b.chain.genesis in
        if nat_eq n 0
        then (b, last)
        else if ltb_ℤ (sub64 clock last) (block_time genesis)
            && ltb_ℤ (pos n) (max_or_default genesis.max_txs_per_block)
        then (b, last)
        else after_attempt clock last produced
