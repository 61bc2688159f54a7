-- ===== src/Bridge/Syncing.antt =====
-- internal/p2p/bridge.go: the chain and the pools under applyBlocks.
use pixie_block.Base.{
  String, Bool, true, false, List, [], ◌∷◌, Option, none, some, ◌≡◌, refl, ap, sym, subst, ◌∙◌, map,
  if◌then◌else◌,
}
use pixie_block.Base.Int.{pos, leb_ℤ, ltb_ℤ}
use pixie_block.Base.Int64.{add64}
use pixie_block.Errors
use pixie_block.Errors.{Error, Result}
use pixie_block.Domain.{Block}
use pixie_block.Crypto.{Primitives}
use pixie_block.Ledger.State.{State}
use pixie_block.Mempool.Pool.Invariant.{IsPool}
use pixie_block.Mempool.Pool.Views.{commit-IsPool}
use pixie_block.Mempool.Requests.{RequestPool, commit_requests, remove_requests}
use pixie_block.Mempool.Requests.Invariant.{IsRequestPool, remove_requests-IsRequestPool}
use pixie_block.Mempool.AccountCreates.{commit_creates}
use pixie_block.Mempool.AccountCloses.{commit_closes}
use pixie_block.Storage.{Backend}
use pixie_block.Chain.{append_block, height, Blockchain}
use pixie_block.Chain.Replays.{Replays, KeepsReplay, append_block-KeepsReplay}
use pixie_block.Bridge.{Bridge, commit_block, apply_blocks}

-- The chain's state is what its blocks lead to from the start, and each pool satisfies its invariant.
pub record IsBridge {DB : Type 0} (p : Primitives) (start : State) (b : Bridge DB) : Type 0 where
  pub replays : Replays p start b.chain
  pub mempool : IsPool b.mempool
  pub create_pool : IsRequestPool b.create_pool
  pub close_pool : IsRequestPool b.close_pool

-- Commit of a request pool: the caller's part is what the call made of it, with its error.
commit_requests-keeps :
    {T W : Type 0} (ids : List String) (fn : W → W × Option Error) (p : RequestPool T) (w : W)
    → IsRequestPool p
    → let r = commit_requests ids fn (p, w) in
      (r.1 ≡ (fn w).1) × (r.0.1 ≡ (fn w).0) × IsRequestPool r.0.0
unfolding commit_requests
commit_requests-keeps {T = T} {W = W} ids fn p w v = cases (fn w).0 (fn w).1
  where
    cases :
        (w' : W) (e : Option Error)
        → let r : (RequestPool T × W) × Option Error = elim e [
          | none ↦ ((remove_requests ids p, w'), none)
          | some x ↦ ((p, w'), some x)
        ] in
          (r.1 ≡ e) × (r.0.1 ≡ w') × IsRequestPool r.0.0
    cases w' none = (refl, refl, (remove_requests-IsRequestPool ids p v).0)
    cases w' (some x) = (refl, refl, v)

KeepsReplay-Replays :
    {DB : Type 0} (p : Primitives) (start : State) (block : Block) (bc : Blockchain DB)
    (r : Blockchain DB × Option Error)
    → KeepsReplay p start block bc r
    → Replays p start r.0
KeepsReplay-Replays p start block bc (after, none) h = h.0
KeepsReplay-Replays p start block bc (after, some e) h = h.1

-- A property of a bridge that holds after each block holds after all.
module _ {DB : Type 0} (p : Primitives) (back : Backend DB) (Q : Bridge DB → Type 0) where
  apply_then :
      (b after : Bridge DB) (e : Option Error) (known gap : Bool) (need : Error)
      (rest : Bridge DB × Option Error)
      → Q b
      → Q after
      → Q rest.0
      → let r : Bridge DB × Option Error =
          if known
          then rest
          else if gap
          then (b, some need)
          else elim e [ none ↦ rest | some x ↦ (after, some x) ] in
        Q r.0
  apply_then b after e true gap need rest v w u = u
  apply_then b after e false true need rest v w u = v
  apply_then b after none false false need rest v w u = u
  apply_then b after (some x) false false need rest v w u = w

  either_keeps :
      (known : Bool) (b after : Bridge DB) → Q b → Q after → Q (if known then b else after)
  either_keeps true b after v w = v
  either_keeps false b after v w = w

  pub apply_blocks-keeps :
      ((block : Block) (b : Bridge DB) → Q b → Q (commit_block p back block b).0)
      → (blocks : List Block) (b : Bridge DB) → Q b
      → Q (apply_blocks p back blocks b).0
  unfolding apply_blocks
  apply_blocks-keeps keeps [] b v = v
  apply_blocks-keeps keeps (block ∷ blocks) b v =
      let after = (commit_block p back block b).0 in
      let known = leb_ℤ block.height (height b.chain) in
      let committed = keeps block b v in
      let rest =
        apply_blocks-keeps keeps blocks (if known then b else after)
          (either_keeps known b after v committed) in
      apply_then b after (commit_block p back block b).1 known
        (ltb_ℤ (add64 (height b.chain) (pos 1)) block.height)
        (Errors.need_sync block.height (height b.chain))
        (apply_blocks p back blocks (if known then b else after)) v committed rest

module _ {DB : Type 0} (p : Primitives) (back : Backend DB) (start : State) where
  pub commit_block-IsBridge :
      (block : Block) (b : Bridge DB)
      → IsBridge p start b
      → IsBridge p start (commit_block p back block b).0
  unfolding commit_block
  commit_block-IsBridge block b v =
      let run = append_block p back block in
      let close_ids = map (λ x. x.id) block.account_closes in
      let create_ids = map (λ x. x.id) block.account_creates in
      let tx_ids = map (λ x. x.id) block.transactions in
      let run_closes = commit_closes close_ids run in
      let run_creates = commit_creates create_ids run_closes in
      let (_, chained, closed) =
        commit_requests-keeps close_ids run b.close_pool b.chain v.close_pool in
      let (_, kept, created) =
        commit_requests-keeps create_ids run_closes b.create_pool (b.close_pool, b.chain)
          v.create_pool in
      let (_, held, pooled, _) =
        commit-IsPool tx_ids run_creates b.mempool (b.create_pool, (b.close_pool, b.chain))
          v.mempool in
      let replayed =
        KeepsReplay-Replays p start block b.chain _
          (append_block-KeepsReplay p back start block b.chain v.replays) in
      record {
        replays =
            subst (Replays p start) (sym (ap (λ x. x.1.1) held ∙ ap (λ x. x.1) kept ∙ chained))
              replayed;
        mempool = pooled;
        create_pool = subst IsRequestPool (sym (ap (λ x. x.0) held)) created;
        close_pool = subst IsRequestPool (sym (ap (λ x. x.1.0) held ∙ ap (λ x. x.0) kept)) closed;
      }

  -- For every bridge whose chain has the state that its blocks lead to from a start state and whose
  -- pools satisfy their invariants, and every list of blocks of a peer: after applyBlocks, whether it
  -- fails or not, the same holds.
  pub apply_blocks-IsBridge :
      (blocks : List Block) (b : Bridge DB)
      → IsBridge p start b
      → IsBridge p start (apply_blocks p back blocks b).0
  apply_blocks-IsBridge blocks b v =
      apply_blocks-keeps p back (IsBridge p start) commit_block-IsBridge blocks b v
