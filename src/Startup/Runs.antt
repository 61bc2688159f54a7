-- ===== src/Startup/Runs.antt =====
-- cmd/server/main.go with internal/p2p: the node that main puts together on a store without blocks,
-- through the messages of its peers and the steps of its producer.
use pixie_block.Base.{
  ℕ, Bool, true, false, ◌&&◌, nat_eq, if◌then◌else◌, [], none, some, Option, ◌≡◌, sym, subst, ap,
  ◌∙◌, All, arith, refl,
}
use pixie_block.Base.Int.{ℤ, pos, ltb_ℤ}
use pixie_block.Base.Int64.{sub64}
use pixie_block.Base.Dict.{sum_by}
use pixie_block.Domain.{Block}
use pixie_block.Base.Result.{ok, err, >>=-eq-ok}
use pixie_block.Errors.{Error, Result}
use pixie_block.Crypto.{Primitives}
use pixie_block.Config.{Genesis, Keystore, Taxes, load_genesis}
use pixie_block.Ledger.State.{State, new_state}
use pixie_block.Ledger.Payment.Supply.{supply, balance_of}
use pixie_block.Ledger.Payment.Exact.{IsSolvent}
use pixie_block.Ledger.Blocks.Supply.{Preserves}
use pixie_block.Node.{build_initial_state}
use pixie_block.Storage.{Backend, load_blocks}
use pixie_block.Mempool.Pool.{new as new_pool}
use pixie_block.Mempool.Requests.{new_requests}
use pixie_block.Mempool.Pool.Invariant.{new-IsPool}
use pixie_block.Mempool.Requests.Invariant.{new_requests-IsRequestPool}
use pixie_block.Chain.{Blockchain}
use pixie_block.Chain.Restart.{replay, replay_chain}
use pixie_block.Chain.Restart.{new as new_chain}
use pixie_block.Chain.Supply.{IsExact}
use pixie_block.Bridge.{Bridge, new_bridge, max_or_default, produce_block_if_ready}
use pixie_block.Bridge.Syncing.{IsBridge}
use pixie_block.Network.{Message}
use pixie_block.Network.Reach.{Reach, later, ticked, Reach-IsBridge}
use pixie_block.Startup.{
  Inputs, make_producer, assemble, load_inputs, open_chain, start, block_time, pending_count,
  after_attempt, tick,
}
use pixie_block.Startup.Launches.{
  genesis_accounts, new_state-HasMaps, set_accounts-HasMaps, build_initial_state-OnlyKeys,
  IsLaunched, new-IsLaunched,
}
use pixie_block.Node.Bootstrap.{OnlyKeys, OnlyKeys-trans}

IsSolvent-OnlyKeys : (s t : State) → OnlyKeys s t → IsSolvent s → IsSolvent t
IsSolvent-OnlyKeys s t k v = record {
  nonneg = rw k.accounts v.nonneg;
  bounded = rw k.accounts v.bounded;
}

-- Nothing happens under either test, or what the attempt makes.
idle_or :
    {A B : Type 0} (Q : A → Type 0) (empty early : Bool) (x y : A × B)
    → Q x.0
    → Q y.0
    → Q (if empty then x else if early then x else y).0
idle_or Q true early x y h k = h
idle_or Q false true x y h k = h
idle_or Q false false x y h k = k

module _ {DB : Type 0} (p : Primitives) (back : Backend DB) where
  -- What main has loaded when it opens the chain.
  load_inputs-ok :
      (inputs : Inputs) (genesis : Genesis) (keystore : Keystore) (s : State)
      → load_inputs p back inputs ≡ ok (genesis, keystore, s)
      → (taxes : Taxes) × (load_genesis inputs.genesis ≡ ok genesis)
        × (inputs.taxes ≡ ok taxes)
        × (build_initial_state p genesis keystore taxes ≡ ok s)
  load_inputs-ok inputs genesis keystore s h =
      let (g, loaded, h1) = >>=-eq-ok (load_genesis inputs.genesis) _ h in
      let (k, _, h2) = >>=-eq-ok inputs.keystore _ h1 in
      let (taxes, read, h3) = >>=-eq-ok inputs.taxes _ h2 in
      let (made, built, h4) = >>=-eq-ok (build_initial_state p g k taxes) _ h3 in
      (taxes, cc, read, cc)

  -- A new bridge on a chain of one block, which replays to its state.
  assemble-IsBridge :
      (inputs : Inputs) (genesis : Genesis) (from : State) (r : DB × Result (Blockchain DB))
      (b : Bridge DB)
      → ((bc : Blockchain DB) → r.1 ≡ ok bc → IsLaunched p genesis from bc)
      → (assemble p back inputs genesis r).1 ≡ ok b
      → IsLaunched p genesis from b.chain × IsBridge p b.chain.state b
  unfolding replay
  assemble-IsBridge inputs genesis from (store, err e) b launches h = absurd (ground arith)
  assemble-IsBridge inputs genesis from (store, ok bc) b launches h =
      let (producer, _, made) = >>=-eq-ok (make_producer p inputs.validator_key genesis) _ h in
      let fresh =
        new_bridge genesis.chain_id inputs.node_id bc new_pool new_requests new_requests producer in
      let same : fresh ≡ b = cc in
      let launched = launches bc refl in
      subst (λ x. IsLaunched p genesis from x.chain × IsBridge p x.chain.state x) same
        (
          launched,
          record {
            replays =
                subst (λ bs. replay_chain p (ok bc.state) bs ≡ ok bc.state) (sym launched.blocks)
                  refl;
            mempool = new-IsPool;
            create_pool = new_requests-IsRequestPool;
            close_pool = new_requests-IsRequestPool;
          },
        )

  -- On a store without blocks, what main makes of its files.
  open_chain-IsBridge :
      (inputs : Inputs) (genesis : Genesis) (taxes : Taxes) (store : DB) (b : Bridge DB)
      (r : Result (Genesis × Keystore × State))
      → load_genesis inputs.genesis ≡ ok genesis
      → inputs.taxes ≡ ok taxes
      → load_blocks back store ≡ ok []
      → load_inputs p back inputs ≡ r
      → (open_chain p back inputs store r).1 ≡ ok b
      → IsLaunched p genesis (genesis_accounts genesis taxes) b.chain × IsBridge p b.chain.state b
  open_chain-IsBridge inputs genesis taxes store b (err e) loaded read empty l h =
      absurd (ground arith)
  open_chain-IsBridge inputs genesis taxes store b (ok (genesis', keystore, s)) loaded read empty l
        h =
      let (taxes', loaded', read', built) = load_inputs-ok inputs genesis' keystore s l in
      let same : genesis' ≡ genesis = cc in
      let same_taxes : taxes' ≡ taxes = cc in
      let from = genesis_accounts genesis taxes in
      let keys : OnlyKeys from s =
        build_initial_state-OnlyKeys p genesis keystore taxes s
          (rw (sym same, sym same_taxes) built) in
      assemble-IsBridge inputs genesis from (new_chain p back genesis store s keystore) b
        (λ bc made.
          let launched = new-IsLaunched p back genesis store s keystore bc empty made in
          record {
            block = launched.block;
            built = launched.built;
            blocks = launched.blocks;
            keys = OnlyKeys-trans from s bc.state keys launched.keys;
          })
        (rw same at h)

  after_attempt-kept :
      (clock last : ℤ) (r : Bridge DB × Result (Option Block))
      → (after_attempt p back clock last r).0 ≡ r.0
  after_attempt-kept clock last (b, err e) = refl
  after_attempt-kept clock last (b, ok none) = refl
  after_attempt-kept clock last (b, ok (some block)) = refl

  -- One tick of the timer is a tick of the producer, or nothing.
  module _ {C W : Type 0} (encode : Message → C → W → W × Option Error) where
    pub tick-Reach :
        (init b : Bridge DB) (clock last : ℤ) (now : ℕ)
        → Reach p back encode init b
        → Reach p back encode init (tick p back clock now (b, last)).0
    unfolding tick
    tick-Reach init b clock last now r =
        let made = produce_block_if_ready p back now b in
        let next : Reach p back encode init made.0 = later r (ticked now) in
        let attempted =
          subst (Reach p back encode init) (sym (after_attempt-kept clock last made)) next in
        idle_or (Reach p back encode init) (nat_eq (pending_count b) 0)
          (ltb_ℤ (sub64 clock last) (block_time b.chain.genesis)
            && ltb_ℤ (pos (pending_count b)) (max_or_default b.chain.genesis.max_txs_per_block))
          (b, last) (after_attempt p back clock last made) r attempted

    -- For every content of the files and every store without blocks: if the node starts, and the
    -- balances of the genesis are not negative and their sum is an int64 value, then its chain is the
    -- genesis block, and its accounts and tax table are those of the files. After any sequence of
    -- messages of its peers, valid or not, of ticks of the producer, and of removals from the pools and
    -- commits of any blocks, if no payment of the chain has int64 totals that wrap or a negative tax or
    -- discount amount, the state is what the blocks lead to from there, the three pools satisfy their
    -- invariants, no balance is negative, and the sum of all balances is the sum of the balances of the
    -- genesis.
    pub start-Holds :
        (inputs : Inputs) (genesis : Genesis) (taxes : Taxes) (store : DB) (init b : Bridge DB)
        → load_genesis inputs.genesis ≡ ok genesis
        → inputs.taxes ≡ ok taxes
        → IsSolvent (genesis_accounts genesis taxes)
        → load_blocks back store ≡ ok []
        → (start p back inputs store).1 ≡ ok init
        → Reach p back encode init b
        → All (IsExact init.chain.state.tax_split) b.chain.blocks
        → IsLaunched p genesis (genesis_accounts genesis taxes) init.chain
          × IsBridge p init.chain.state b
          × Preserves init.chain.state b.chain.state
          × (supply b.chain.state ≡ supply (genesis_accounts genesis taxes))
    unfolding start
    start-Holds inputs genesis taxes store init b loaded read solvent empty h r exact =
        let from = genesis_accounts genesis taxes in
        let (launched, held) =
          open_chain-IsBridge inputs genesis taxes store init (load_inputs p back inputs) loaded
            read empty refl h in
        let maps =
          set_accounts-HasMaps genesis.accounts
            (new_state genesis.allowed_tax_accounts taxes.tax_split)
            (new_state-HasMaps genesis.allowed_tax_accounts taxes.tax_split) in
        let (now, kept) =
          Reach-IsBridge p back encode init.chain.state init b (launched.keys.maps maps)
            (IsSolvent-OnlyKeys from init.chain.state launched.keys solvent) held r exact in
        (launched, now, kept, kept.total ∙ ap (sum_by balance_of) launched.keys.accounts)
