-- ===== src/Bridge/Productions.antt =====
-- internal/p2p/bridge.go: the chain and the pools when a block is produced.
use pixie_block.Base.{
  ℕ, String, Bool, true, false, List, [], ◌∷◌, Option, none, some, ◌&&◌, inl, inr, Bool-cases,
}
use pixie_block.Base.Int.{ℤ, pos}
use pixie_block.Base.Int64.{add64}
use pixie_block.Base.Result.{ok, err, Result-cases}
use pixie_block.Errors.{Error, Result}
use pixie_block.Domain.{Block}
use pixie_block.Crypto.{Primitives}
use pixie_block.Ledger.State.{State}
use pixie_block.Mempool.Pool.{Pool, remove}
use pixie_block.Mempool.Pool.Invariant.{IsPool}
use pixie_block.Mempool.Pool.Removal.{remove-IsPool}
use pixie_block.Mempool.Requests.{RequestPool, remove_requests}
use pixie_block.Mempool.Requests.Invariant.{IsRequestPool, remove_requests-IsRequestPool}
use pixie_block.Storage.{Backend}
use pixie_block.Consensus.{Producer, create_block, can_produce}
use pixie_block.Chain.{height, latest_block}
use pixie_block.Bridge.{
  Bridge, Requests, commit_block, drop_from, is_empty, max_or_default, produce,
  produce_block_if_ready, select_executable,
}
use pixie_block.Bridge.Syncing.{IsBridge}

drop_from-IsPool :
    (ids : List String) (pool : Pool) → IsPool pool → IsPool (drop_from remove ids pool)
drop_from-IsPool [] pool v = v
drop_from-IsPool (id ∷ ids) pool v = (remove-IsPool (id ∷ ids) pool v).0

drop_from-IsRequestPool :
    {T : Type 0} (ids : List String) (pool : RequestPool T)
    → IsRequestPool pool
    → IsRequestPool (drop_from remove_requests ids pool)
drop_from-IsRequestPool [] pool v = v
drop_from-IsRequestPool (id ∷ ids) pool v = (remove_requests-IsRequestPool (id ∷ ids) pool v).0

pub select_executable-IsBridge :
    {DB : Type 0} (p : Primitives) (start : State) (max : ℤ) (b : Bridge DB)
    → IsBridge p start b
    → IsBridge p start (select_executable p max b).1
unfolding select_executable
select_executable-IsBridge p start max b v = record {
  replays = v.replays;
  mempool = drop_from-IsPool _ b.mempool v.mempool;
  create_pool = drop_from-IsRequestPool _ b.create_pool v.create_pool;
  close_pool = drop_from-IsRequestPool _ b.close_pool v.close_pool;
}

-- A property that holds after the requests are dropped and after a block is committed.
module _ {DB : Type 0} (p : Primitives) (back : Backend DB) (Q : Bridge DB → Type 0)
    (commits : (block : Block) (b : Bridge DB) → Q b → Q (commit_block p back block b).0) where
  committed-keeps :
      (block : Block) (r : Bridge DB × Option Error)
      → Q r.0
      → let x : Bridge DB × Result (Option Block) = elim r.1 [
        | none ↦ (r.0, ok (some block))
        | some x ↦ (r.0, err x)
      ] in
        Q x.0
  committed-keeps block (after, none) v = v
  committed-keeps block (after, some e) v = v

  produce-keeps :
      (producer : Producer) (now : ℕ) (h : ℤ) (chosen : Requests) (b : Bridge DB)
      → Q b
      → Q (produce p back producer now h chosen b).0
  unfolding produce
  produce-keeps producer now h chosen b v =
      elim (Bool-cases (is_empty chosen.txs && is_empty chosen.creates && is_empty chosen.closes)) [
        | inl empty ↦ rw empty v
        | inr some_chosen ↦ elim (Result-cases (latest_block b.chain)) [
          | inr (e, f) ↦ rw (some_chosen, f) v
          | inl (prev, f) ↦
              elim (Result-cases
                (create_block p producer now h prev chosen.txs chosen.creates chosen.closes)) [
                  | inr (e, g) ↦ rw (some_chosen, f, g) v
                  | inl (block, g) ↦
                      rw (some_chosen, f, g)
                        (committed-keeps block (commit_block p back block b) (commits block b v))
                ]
        ]
      ]

  module _ (selects : (max : ℤ) (b : Bridge DB) → Q b → Q (select_executable p max b).1) where
    turn_keeps :
        (producer : Producer) (now : ℕ) (h max : ℤ) (b : Bridge DB) (turn : Result Bool)
        → Q b
        → let r : Bridge DB × Result (Option Block) = elim turn [
          | err e ↦ (b, err e)
          | ok false ↦ (b, ok none)
          | ok true ↦
              let (chosen, after) = select_executable p max b in
              produce p back producer now h chosen after
        ] in
          Q r.0
    turn_keeps producer now h max b (err e) v = v
    turn_keeps producer now h max b (ok false) v = v
    turn_keeps producer now h max b (ok true) v =
        produce-keeps producer now h (select_executable p max b).0 (select_executable p max b).1
          (selects max b v)

    ready_keeps :
        (o : Option Producer) (now : ℕ) (h max : ℤ) (b : Bridge DB)
        → Q b
        → let r : Bridge DB × Result (Option Block) = elim o [
          | none ↦ (b, ok none)
          | some producer ↦ elim (can_produce h producer) [
            | err e ↦ (b, err e)
            | ok false ↦ (b, ok none)
            | ok true ↦
                let (chosen, after) = select_executable p max b in
                produce p back producer now h chosen after
          ]
        ] in
          Q r.0
    ready_keeps none now h max b v = v
    ready_keeps (some producer) now h max b v =
        turn_keeps producer now h max b (can_produce h producer) v

    pub produce_block_if_ready-keeps :
        (now : ℕ) (b : Bridge DB) → Q b → Q (produce_block_if_ready p back now b).0
    unfolding produce_block_if_ready
    produce_block_if_ready-keeps now b v =
        ready_keeps b.producer now (add64 (height b.chain) (pos 1))
          (max_or_default b.chain.genesis.max_txs_per_block) b v
