-- ===== src/Bridge.antt =====
-- internal/p2p/bridge.go: what a node does with the requests and blocks that peers send, and how it
-- produces a block. A handler takes the result of decoding the message; what is broadcast is what
-- `produce_block_if_ready` returns. applyBlocks holds the bridge's lock, so it is one step.
pub mod Selections
pub mod Syncing
pub mod CatchUps
pub mod Admissions
pub mod Productions
pub mod Growth
use pixie_block.Base.{
  ℕ, zero, suc, String, Bool, true, false, not, ⊤, List, [], ◌∷◌, ◌++◌, Option, none, some, ◌-◌,
  length, map, nat_eq, ⊤, ◌&&◌, if◌then◌else◌,
}
use pixie_block.Base.Int.{ℤ, pos, pos_part, leb_ℤ, ltb_ℤ}
use pixie_block.Base.Int64.{add64}
use pixie_block.Base.Result.{ok, err, or_fail, ◌>>=◌, ◌>>◌}
use pixie_block.Errors
use pixie_block.Errors.{Error, Result}
use pixie_block.Domain.{
  PaymentTransaction, AccountCreateTransaction, AccountCloseTransaction, Block,
}
use pixie_block.Crypto.{Primitives}
use pixie_block.Ledger.State.{State, Action}
use pixie_block.Ledger.Payment.{apply_transaction}
use pixie_block.Ledger.Accounts.{apply_account_create, apply_account_close}
use pixie_block.Mempool.Pool.{Pool, try_add, remove, commit, peek}
use pixie_block.Mempool.AccountCreates.{
  AccountCreatePool, try_add_create, remove_creates, commit_creates, peek_creates,
}
use pixie_block.Mempool.AccountCloses.{
  AccountClosePool, try_add_close, remove_closes, commit_closes, peek_closes,
}
use pixie_block.Storage.{Backend}
use pixie_block.Consensus.{Producer, can_produce, create_block}
use pixie_block.Chain.{
  Blockchain, height, latest_block, get_blocks_from, state_copy, append_block, validate_admit,
  validate_create, validate_close,
}

pub record Bridge (DB : Type 0) : Type 0 where
  pub chain_id : String
  pub node_id : String
  pub chain : Blockchain DB
  pub mempool : Pool
  pub create_pool : AccountCreatePool
  pub close_pool : AccountClosePool
  pub producer : Option Producer

-- The node of the network is kept apart from its bridge.
abbrev pub new_bridge :
    {DB : Type 0} (chain_id node_id : String) (bc : Blockchain DB) (pool : Pool)
    (create_pool : AccountCreatePool) (close_pool : AccountClosePool) (producer : Option Producer)
    → Bridge DB
new_bridge chain_id node_id bc pool create_pool close_pool producer = record {
  chain_id = chain_id;
  node_id = node_id;
  chain = bc;
  mempool = pool;
  create_pool = create_pool;
  close_pool = close_pool;
  producer = producer;
}

-- The requests chosen for a block, the ids of those dropped, and the state after the chosen ones.
pub record Selection (T : Type 0) : Type 0 where
  pub chosen : List T
  pub dropped : List String
  pub state : State

-- A call that fails drops its request, but what it did to the state stays.
abbrev pub note : {T : Type 0} → String → T → Option Error → Selection T → Selection T
note id tx none rest = record rest { chosen = tx ∷ rest.chosen }
note id tx (some e) rest = record rest { dropped = id ∷ rest.dropped }

abbrev pub left_after : ℕ → Option Error → ℕ
left_after left none = left - 1
left_after left (some e) = left

-- `for _, tx := range pool.Peek(0) { if len(chosen) >= max { break } ... }`, with `left` to choose.
unfoldable pub select :
    {T : Type 0} → (T → String) → (T → Action) → ℕ → List T → State → Selection T
select id_of apply left [] s = record { chosen = []; dropped = []; state = s }
select id_of apply left (tx ∷ txs) s =
    let (t, e) = apply tx s in
    let rest = select id_of apply (left_after left e) txs t in
    if nat_eq left 0
    then record { chosen = []; dropped = []; state = s }
    else note (id_of tx) tx e rest

pub record Requests : Type 0 where
  pub txs : List PaymentTransaction
  pub creates : List AccountCreateTransaction
  pub closes : List AccountCloseTransaction

-- `if len(drop) > 0 { pool.Remove(drop...) }`
abbrev pub drop_from : {P : Type 0} → (List String → P → P) → List String → P → P
drop_from remove_ids [] pool = pool
drop_from remove_ids (id ∷ ids) pool = remove_ids (id ∷ ids) pool

-- `if maxTxs <= 0 { maxTxs = 100 }`
abbrev pub max_or_default : ℤ → ℤ
max_or_default max = if leb_ℤ max (pos 0) then pos 100 else max

abbrev pub is_empty : {T : Type 0} → List T → Bool
is_empty xs = nat_eq (length xs) 0

-- What a message about blocks decodes to: an object with a field `blocks`, or else a block.
pub data Announcement : Type 0 where
  one : Block → Announcement
  many : List Block → Announcement

module _ (p : Primitives) {DB : Type 0} where
  unfoldable pub on_new_transaction :
      Result PaymentTransaction → Bridge DB → Bridge DB × Option Error
  on_new_transaction (err e) b = (b, some e)
  on_new_transaction (ok tx) b =
      let (pool, e) =
        try_add tx (some (λ reserved. validate_admit p tx reserved b.chain)) b.mempool in
      (record b { mempool = pool }, e)

  unfoldable pub on_new_account_create :
      Result AccountCreateTransaction → Bridge DB → Bridge DB × Option Error
  on_new_account_create (err e) b = (b, some e)
  on_new_account_create (ok tx) b =
      let (pool, e) = try_add_create tx (some (validate_create p tx b.chain)) b.create_pool in
      (record b { create_pool = pool }, e)

  unfoldable pub on_new_account_close :
      Result AccountCloseTransaction → Bridge DB → Bridge DB × Option Error
  on_new_account_close (err e) b = (b, some e)
  on_new_account_close (ok tx) b =
      let (pool, e) = try_add_close tx (some (validate_close p tx b.chain)) b.close_pool in
      (record b { close_pool = pool }, e)

  -- encoding/json encodes a slice block by block and returns the first error.
  unfoldable pub marshal_blocks : Backend DB → List Block → Result ⊤
  marshal_blocks back [] = ok tt
  marshal_blocks back (block ∷ blocks) = do
    _ ← or_fail (back.marshal_block block) Errors.marshal_failed
    marshal_blocks back blocks

  unfoldable pub on_get_blocks : Backend DB → ℤ → Bridge DB → Result (List Block)
  unfolding marshal_blocks
  on_get_blocks back from_height b =
      let blocks = get_blocks_from from_height b.chain in do marshal_blocks back blocks; ok blocks

  -- AppendBlock within Commit of the three pools.
  unfoldable pub commit_block : Backend DB → Block → Bridge DB → Bridge DB × Option Error
  commit_block back block b =
      let append =
        commit_closes (map (λ x. x.id) block.account_closes) (append_block p back block) in
      let creates = commit_creates (map (λ x. x.id) block.account_creates) append in
      let (after, e) =
        commit (map (λ x. x.id) block.transactions) creates
          (b.mempool, (b.create_pool, (b.close_pool, b.chain))) in
      (
        record b {
          mempool = after.0;
          create_pool = after.1.0;
          close_pool = after.1.1.0;
          chain = after.1.1.1;
        },
        e,
      )

  -- Blocks that the chain has already are passed over; an error leaves the blocks before it applied.
  unfoldable pub apply_blocks : Backend DB → List Block → Bridge DB → Bridge DB × Option Error
  unfolding commit_block
  apply_blocks back [] b = (b, none)
  apply_blocks back (block ∷ blocks) b =
      let (after, e) = commit_block back block b in
      let known = leb_ℤ block.height (height b.chain) in
      let rest = apply_blocks back blocks (if known then b else after) in
      if known
      then rest
      else if ltb_ℤ (add64 (height b.chain) (pos 1)) block.height
      then (b, some (Errors.need_sync block.height (height b.chain)))
      else elim e [ none ↦ rest | some x ↦ (after, some x) ]

  -- A message without a field `blocks` is one block.
  unfoldable pub on_new_block :
      Backend DB → Result Announcement → Bridge DB → Bridge DB × Option Error
  unfolding apply_blocks
  on_new_block back (err e) b = (b, some e)
  on_new_block back (ok (one block)) b = apply_blocks back (block ∷ []) b
  on_new_block back (ok (many blocks)) b = apply_blocks back blocks b

  -- Creates, then payments, then closes, each tried on the state that the ones before it leave.
  unfoldable pub select_executable : ℤ → Bridge DB → Requests × Bridge DB
  unfolding select
  select_executable max b =
      let creates =
        select (λ x. x.id) (apply_account_create p) (pos_part max)
          (peek_creates (pos 0) b.create_pool) (state_copy b.chain) in
      let remaining = pos_part max - length creates.chosen in
      let txs =
        select (λ x. x.id) (apply_transaction p) remaining (peek (pos 0) b.mempool) creates.state in
      let remaining' = remaining - length txs.chosen in
      let closes =
        select (λ x. x.id) (apply_account_close p) remaining' (peek_closes (pos 0) b.close_pool)
          txs.state in
      (
        record { txs = txs.chosen; creates = creates.chosen; closes = closes.chosen },
        record b {
          create_pool = drop_from remove_creates creates.dropped b.create_pool;
          mempool = drop_from remove txs.dropped b.mempool;
          close_pool = drop_from remove_closes closes.dropped b.close_pool;
        },
      )

  -- What is left to do once the requests are chosen; `now` is the clock's time.
  unfoldable pub produce :
      Backend DB → Producer → ℕ → ℤ → Requests → Bridge DB → Bridge DB × Result (Option Block)
  unfolding commit_block
  produce back producer now h chosen b =
      if is_empty chosen.txs && is_empty chosen.creates && is_empty chosen.closes
      then (b, ok none)
      else elim (latest_block b.chain) [
        | err e ↦ (b, err e)
        | ok prev ↦
            elim (create_block p producer now h prev chosen.txs chosen.creates chosen.closes) [
              | err e ↦ (b, err e)
              | ok block ↦
                  let (after, e) = commit_block back block b in
                  elim e [ none ↦ (after, ok (some block)) | some x ↦ (after, err x) ]
            ]
      ]

  -- The call without any other between its parts, though it holds no lock; Network/Reach.antt lets the
  -- removals and the commit stand alone.
  unfoldable pub produce_block_if_ready :
      Backend DB → ℕ → Bridge DB → Bridge DB × Result (Option Block)
  unfolding select_executable produce
  produce_block_if_ready back now b = elim b.producer [
    | none ↦ (b, ok none)
    | some producer ↦
        let h = add64 (height b.chain) (pos 1) in
        elim (can_produce h producer) [
          | err e ↦ (b, err e)
          | ok false ↦ (b, ok none)
          | ok true ↦
              let (chosen, after) =
                select_executable (max_or_default b.chain.genesis.max_txs_per_block) b in
              produce back producer now h chosen after
        ]
  ]
