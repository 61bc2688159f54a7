-- ===== src/Network/Reach.antt =====
-- internal/p2p/node.go with internal/p2p/bridge.go: the states of a node that peers and the ticker of
-- the producer drive.
use pixie_block.Base.{ℕ, String, Bool, List, [], ◌∷◌, ◌++◌, Option, ◌≡◌, sym, subst, All, arith}
use mathlib.Core.List.{append-nil}
use pixie_block.Base.Dict.{Dict}
use pixie_block.Base.Result.{ok, err}
use pixie_block.Errors.{Error, Result}
use pixie_block.Domain.{
  Block, TaxSplit, PaymentTransaction, AccountCreateTransaction, AccountCloseTransaction,
}
use pixie_block.Crypto.{Primitives}
use pixie_block.Ledger.State.{State}
use pixie_block.Ledger.State.Copy.{HasMaps}
use pixie_block.Ledger.Payment.Exact.{IsSolvent}
use pixie_block.Ledger.Blocks.Supply.{Preserves}
use pixie_block.Mempool.Pool.{remove}
use pixie_block.Mempool.Pool.Removal.{remove-IsPool}
use pixie_block.Mempool.Requests.{remove_requests}
use pixie_block.Mempool.Requests.Invariant.{remove_requests-IsRequestPool}
use pixie_block.Storage.{Backend}
use pixie_block.Chain.Replays.{Replays}
use pixie_block.Chain.Restart.{replay_chain}
use pixie_block.Chain.Supply.{IsExact, replay-Preserves}
use pixie_block.Bridge.{
  Bridge, Announcement, one, many, on_new_block, apply_blocks, produce_block_if_ready, commit_block,
  on_new_transaction, on_new_account_create, on_new_account_close,
}
use pixie_block.Bridge.Syncing.{
  IsBridge, apply_blocks-IsBridge, apply_blocks-keeps, commit_block-IsBridge,
}
use pixie_block.Bridge.Admissions.{
  on_new_transaction-IsBridge, on_new_account_create-IsBridge, on_new_account_close-IsBridge,
}
use pixie_block.Bridge.Growth.{
  Grows, commit_block-Grows, select_executable-Grows, on_new_transaction-Grows,
  on_new_account_create-Grows, on_new_account_close-Grows,
}
use pixie_block.Bridge.Productions.{select_executable-IsBridge, produce_block_if_ready-keeps}
use pixie_block.Network.{
  Message, handshake, new_transaction, new_account_create, new_account_close, new_block, get_blocks,
  blocks_response, other, bridge_handler, dispatch,
}
use pixie_block.Network.Handling.{handled, dispatch-handled}

module _ {DB C W : Type 0} (p : Primitives) (back : Backend DB)
    (encode : Message → C → W → W × Option Error) where
  -- One message of a peer on any connection, or one tick of the producer. ProduceBlockIfReady holds no
  -- lock throughout, so what it does to the bridge is a step by itself too, whatever has come between:
  -- the removal of ids that it found earlier, and the commit of a block that it made earlier.
  pub data Step (b : Bridge DB) : Bridge DB → Type 0 where
    dispatched :
        (msg : Message) (c : C) (inbound : Bool) (w : W)
        → Step b (dispatch (bridge_handler p back) encode msg c inbound b w).0.0
    ticked : (now : ℕ) → Step b (produce_block_if_ready p back now b).0
    dropped_txs : (ids : List String) → Step b (record b { mempool = remove ids b.mempool })
    dropped_creates :
        (ids : List String) → Step b (record b { create_pool = remove_requests ids b.create_pool })
    dropped_closes :
        (ids : List String) → Step b (record b { close_pool = remove_requests ids b.close_pool })
    committed : (block : Block) → Step b (commit_block p back block b).0

  pub data Reach (init : Bridge DB) : Bridge DB → Type 0 where
    start_here : Reach init init
    later : {s t : Bridge DB} → Reach init s → Step s t → Reach init t

  on_new_block-keeps :
      (Q : Bridge DB → Type 0) (payload : Result Announcement) (b : Bridge DB)
      → ((blocks : List Block) → Q (apply_blocks p back blocks b).0)
      → Q b
      → Q (on_new_block p back payload b).0
  unfolding on_new_block
  on_new_block-keeps Q (err e) b h v = v
  on_new_block-keeps Q (ok (one block)) b h v = h (block ∷ [])
  on_new_block-keeps Q (ok (many blocks)) b h v = h blocks

  -- A property that the handlers keep is kept by a message.
  dispatch-keeps :
      (Q : Bridge DB → Type 0) (b : Bridge DB)
      → ((blocks : List Block) → Q (apply_blocks p back blocks b).0)
      → ((tx : Result PaymentTransaction) → Q (on_new_transaction p tx b).0)
      → ((tx : Result AccountCreateTransaction) → Q (on_new_account_create p tx b).0)
      → ((tx : Result AccountCloseTransaction) → Q (on_new_account_close p tx b).0)
      → Q b
      → (msg : Message) → Q (handled (bridge_handler p back) msg b)
  dispatch-keeps Q b blocks txs creates closes v (handshake payload) = v
  dispatch-keeps Q b blocks txs creates closes v (new_transaction payload) = txs payload
  dispatch-keeps Q b blocks txs creates closes v (new_account_create payload) = creates payload
  dispatch-keeps Q b blocks txs creates closes v (new_account_close payload) = closes payload
  dispatch-keeps Q b blocks txs creates closes v (new_block payload) =
      on_new_block-keeps Q payload b blocks v
  dispatch-keeps Q b blocks txs creates closes v (get_blocks payload) = v
  dispatch-keeps Q b blocks txs creates closes v (blocks_response payload) =
      on_new_block-keeps Q payload b blocks v
  dispatch-keeps Q b blocks txs creates closes v (other kind) = v

  Step-Grows : (s t : Bridge DB) → Step s t → Grows s t
  Step-Grows s t (dispatched msg c inbound w) =
      let here : Grows s s = ([], sym (append-nil s.chain.blocks)) in
      subst (Grows s) (sym (dispatch-handled (bridge_handler p back) encode c inbound s w msg)) (
        dispatch-keeps (Grows s) s
          (λ blocks.
            apply_blocks-keeps p back (Grows s) (commit_block-Grows p back s) blocks s here)
          (on_new_transaction-Grows p s s here) (on_new_account_create-Grows p s s here)
          (on_new_account_close-Grows p s s here) here msg)
  Step-Grows s t (ticked now) =
      produce_block_if_ready-keeps p back (Grows s) (commit_block-Grows p back s)
        (select_executable-Grows p s) now s ([], sym (append-nil s.chain.blocks))
  Step-Grows s t (dropped_txs ids) = ([], sym (append-nil s.chain.blocks))
  Step-Grows s t (dropped_creates ids) = ([], sym (append-nil s.chain.blocks))
  Step-Grows s t (dropped_closes ids) = ([], sym (append-nil s.chain.blocks))
  Step-Grows s t (committed block) =
      commit_block-Grows p back s block s ([], sym (append-nil s.chain.blocks))

  -- The money of the chain, from the state at the start.
  state-Preserves :
      (start : State) (b : Bridge DB)
      → HasMaps start
      → IsSolvent start
      → All (IsExact start.tax_split) b.chain.blocks
      → Replays p start b.chain
      → Preserves start b.chain.state
  state-Preserves start b maps solvent exact replays =
      blocks-Preserves b.chain.blocks b.chain.state exact replays
    where
      blocks-Preserves :
          (bs : List Block) (last : State)
          → All (IsExact start.tax_split) bs
          → replay_chain p (ok start) bs ≡ ok last
          → Preserves start last
      blocks-Preserves [] last exact h = absurd (ground arith)
      blocks-Preserves (first ∷ bs) last exact h =
          replay-Preserves p start last first bs maps solvent exact.1 h

  Step-IsBridge :
      (start : State) (s t : Bridge DB)
      → HasMaps start
      → IsSolvent start
      → All (IsExact start.tax_split) s.chain.blocks
      → IsBridge p start s
      → Step s t
      → IsBridge p start t
  Step-IsBridge start s t maps solvent exact v (dispatched msg c inbound w) =
      let kept = state-Preserves start s maps solvent exact v.replays in
      subst (IsBridge p start)
        (sym (dispatch-handled (bridge_handler p back) encode c inbound s w msg))
        (dispatch-keeps (IsBridge p start) s
          (λ blocks. apply_blocks-IsBridge p back start blocks s v)
          (λ tx. on_new_transaction-IsBridge p start s v tx kept.follows.maps kept.solvent)
          (on_new_account_create-IsBridge p start s v) (on_new_account_close-IsBridge p start s v) v
          msg)
  Step-IsBridge start s t maps solvent exact v (ticked now) =
      produce_block_if_ready-keeps p back (IsBridge p start) (commit_block-IsBridge p back start)
        (select_executable-IsBridge p start) now s v
  Step-IsBridge start s t maps solvent exact v (dropped_txs ids) = record {
    replays = v.replays;
    mempool = (remove-IsPool ids s.mempool v.mempool).0;
    create_pool = v.create_pool;
    close_pool = v.close_pool;
  }
  Step-IsBridge start s t maps solvent exact v (dropped_creates ids) = record {
    replays = v.replays;
    mempool = v.mempool;
    create_pool = (remove_requests-IsRequestPool ids s.create_pool v.create_pool).0;
    close_pool = v.close_pool;
  }
  Step-IsBridge start s t maps solvent exact v (dropped_closes ids) = record {
    replays = v.replays;
    mempool = v.mempool;
    create_pool = v.create_pool;
    close_pool = (remove_requests-IsRequestPool ids s.close_pool v.close_pool).0;
  }
  Step-IsBridge start s t maps solvent exact v (committed block) =
      commit_block-IsBridge p back start block s v

  All-prefix :
      (taxes : Dict TaxSplit) (xs ys : List Block)
      → All (IsExact taxes) (xs ++ ys)
      → All (IsExact taxes) xs
  All-prefix taxes [] ys h = tt
  All-prefix taxes (x ∷ xs) ys h = (h.0, All-prefix taxes xs ys h.1)

  -- For every start state that is solvent (no balance negative, their sum an int64 value) with each
  -- key once in each map, and every node whose chain has the state that its blocks lead to from there
  -- and whose pools satisfy their invariants: after any sequence of messages of peers, of every kind,
  -- valid or not, of ticks of the producer, and of removals from the pools and commits of any blocks,
  -- which a tick does with other steps between, if no payment of the chain has int64 totals that wrap
  -- or a negative tax or discount amount, the state is still what the blocks lead to, the three
  -- pools satisfy their invariants, the state is solvent, the sum of all balances is what it was at the
  -- start, and the tax table, the allowed tax accounts and the validators are those of the start.
  pub Reach-IsBridge :
      (start : State) (init b : Bridge DB)
      → HasMaps start
      → IsSolvent start
      → IsBridge p start init
      → Reach init b
      → All (IsExact start.tax_split) b.chain.blocks
      → IsBridge p start b × Preserves start b.chain.state
  Reach-IsBridge start init b maps solvent v start_here exact =
      (v, state-Preserves start init maps solvent exact v.replays)
  Reach-IsBridge start init b maps solvent v (later {s = s} r st) exact =
      let (more, grown) = Step-Grows s b st in
      let before =
        All-prefix start.tax_split s.chain.blocks more
          (subst (All (IsExact start.tax_split)) grown exact) in
      let (held, kept) = Reach-IsBridge start init s maps solvent v r before in
      let now = Step-IsBridge start s b maps solvent before held st in
      (now, state-Preserves start b maps solvent exact now.replays)
