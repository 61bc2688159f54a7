-- ===== src/Bridge/CatchUps.antt =====
-- internal/p2p/bridge.go: applyBlocks on the blocks that another chain has past this one.
use pixie_block.Base.{
  String, Bool, false, List, [], ◌∷◌, ◌++◌, Option, none, some, ◌≡◌, refl, sym, ap, subst, ◌∙◌,
  arith, length, map, if◌then◌else◌, inl, inr, ◌^◌, ◌<◌, ◌-◌,
}
use mathlib.Core.List.{append-nil, append_assoc}
use pixie_block.Base.Lists.{length-append}
use pixie_block.Base.Int.{pos, leb_ℤ, ltb_ℤ}
use pixie_block.Base.Int64.{add64}
use pixie_block.Base.Result.{ok, Result-cases}
use pixie_block.Errors
use pixie_block.Errors.{Error}
use pixie_block.Domain.{Block}
use pixie_block.Crypto.{Primitives}
use pixie_block.Ledger.State.{State}
use pixie_block.Ledger.Blocks.{validate_block}
use pixie_block.Mempool.Requests.{RequestPool, commit_requests}
use pixie_block.Mempool.Pool.{Pool, commit}
use pixie_block.Mempool.AccountCreates.{commit_creates}
use pixie_block.Mempool.AccountCloses.{commit_closes}
use pixie_block.Storage.{Backend, save_block_and_state}
use pixie_block.Chain.{append_block, height, last_block}
use pixie_block.Chain.Restart.{replay}
use pixie_block.Chain.Suffixes.{
  append_block-accepted, HasHeights-at, HasHeights-prefix, height-length,
}
use pixie_block.Chain.Replays.{replay_cons-eq}
use pixie_block.Chain.Heights.{HasHeights, last_block-append, last_block-length, next_height}
use pixie_block.Bridge.{Bridge, commit_block, apply_blocks}

-- Commit passes on what the call within it made of the caller's part, and its error.
commit_requests-passes :
    {T W : Type 0} (ids : List String) (fn : W → W × Option Error) (p : RequestPool T) (w : W)
    → let r = commit_requests ids fn (p, w) in (r.1 ≡ (fn w).1) × (r.0.1 ≡ (fn w).0)
unfolding commit_requests
commit_requests-passes ids fn p w = ground arith

commit-passes :
    {W : Type 0} (ids : List String) (fn : W → W × Option Error) (p : Pool) (w : W)
    → let r = commit ids fn (p, w) in (r.1 ≡ (fn w).1) × (r.0.1 ≡ (fn w).0)
unfolding commit
commit-passes ids fn p w = ground arith

module _ {DB : Type 0} (p : Primitives) (back : Backend DB) where
  pub commit_block-append_block :
      (block : Block) (b : Bridge DB)
      → let r = commit_block p back block b in
        let a = append_block p back block b.chain in (r.1 ≡ a.1) × (r.0.chain ≡ a.0)
  unfolding commit_block
  commit_block-append_block block b =
      let run = append_block p back block in
      let run_closes = commit_closes (map (λ x. x.id) block.account_closes) run in
      let run_creates = commit_creates (map (λ x. x.id) block.account_creates) run_closes in
      let closed =
        commit_requests-passes (map (λ x. x.id) block.account_closes) run b.close_pool b.chain in
      let created =
        commit_requests-passes (map (λ x. x.id) block.account_creates) run_closes b.create_pool
          (b.close_pool, b.chain) in
      let held =
        commit-passes (map (λ x. x.id) block.transactions) run_creates b.mempool
          (b.create_pool, (b.close_pool, b.chain)) in
      (held.0 ∙ created.0 ∙ closed.0, ap (λ x. x.1.1) held.1 ∙ ap (λ x. x.1) created.1 ∙ closed.1)

  next_applied :
      (b after : Bridge DB) (known gap : Bool) (e : Option Error) (need : Error)
      (apply_rest : Bridge DB → Bridge DB × Option Error)
      → known ≡ false
      → gap ≡ false
      → e ≡ none
      → let rest = apply_rest (if known then b else after) in
        let r : Bridge DB × Option Error =
          if known
          then rest
          else if gap
          then (b, some need)
          else elim e [ none ↦ rest | some x ↦ (after, some x) ] in
        r ≡ apply_rest after
  next_applied b after known gap e need apply_rest k g n = ground arith

  module _
      (saves : (block : Block) (s : State) (db : DB)
        → (save_block_and_state back block s db).1 ≡ none) where
    -- The blocks that lead from this chain to another bring it there.
    pub apply_blocks-catches_up :
        (blocks : List Block) (b : Bridge DB) (l : Block) (final : State)
        → last_block b.chain.blocks ≡ some l
        → HasHeights 0 (b.chain.blocks ++ blocks)
        → length (b.chain.blocks ++ blocks) < 2 ^ 63
        → replay p b.chain.state l blocks ≡ ok final
        → let r = apply_blocks p back blocks b in
          (r.1 ≡ none) × (r.0.chain.blocks ≡ b.chain.blocks ++ blocks) × (r.0.chain.state ≡ final)
    unfolding apply_blocks replay
    apply_blocks-catches_up [] b l final e h short r = (refl, sym (append-nil _), ground arith)
    apply_blocks-catches_up (block ∷ blocks) b l final e h short r =
        elim (Result-cases (validate_block p block l b.chain.state)) [
          | inr (x, f) ↦ absurd (ground arith)
          | inl (next, v) ↦
              let after = (commit_block p back block b).0 in
              let committed = commit_block-append_block block b in
              let accepted =
                append_block-accepted p back block l next b.chain e v
                  (saves block next b.chain.store) in
              let blocks_after : after.chain.blocks ≡ b.chain.blocks ++ block ∷ [] =
                ap (λ c. c.blocks) committed.1 ∙ accepted.1 in
              let all_blocks : after.chain.blocks ++ blocks ≡ b.chain.blocks ++ block ∷ blocks =
                ap (λ x. x ++ blocks) blocks_after
                ∙ append_assoc b.chain.blocks (block ∷ []) blocks in
              let here : height b.chain ≡ pos (length b.chain.blocks - 1) =
                height-length b.chain l (HasHeights-prefix 0 b.chain.blocks (block ∷ blocks) h) e in
              let there : block.height ≡ pos (length b.chain.blocks) =
                HasHeights-at 0 b.chain.blocks blocks block h ∙ ap pos (omega arith) in
              let ih =
                apply_blocks-catches_up blocks after block final
                  (ap last_block blocks_after ∙ last_block-append block b.chain.blocks)
                  (subst (HasHeights 0) (sym all_blocks) h)
                  (subst (λ x. length x < 2 ^ 63) (sym all_blocks) short)
                  (subst (λ s. replay p s block blocks ≡ ok final)
                    (sym (ap (λ c. c.state) committed.1 ∙ accepted.2))
                    (sym (replay_cons-eq p b.chain.state next l block blocks v) ∙ r)) in
              let some_block = last_block-length l b.chain.blocks e in
              let bound = length-append b.chain.blocks (block ∷ blocks) in
              let above = next_height (length b.chain.blocks - 1) (omega arith) in
              let known : leb_ℤ block.height (height b.chain) ≡ false =
                ground (arith, here, there) in
              let gap : ltb_ℤ (add64 (height b.chain) (pos 1)) block.height ≡ false =
                ground (arith, here, there, above) in
              let step =
                next_applied b after (leb_ℤ block.height (height b.chain))
                  (ltb_ℤ (add64 (height b.chain) (pos 1)) block.height)
                  (commit_block p back block b).1 (Errors.need_sync block.height (height b.chain))
                  (apply_blocks p back blocks) known gap (committed.0 ∙ accepted.0) in
              (
                ap (λ x. x.1) step ∙ ih.0,
                ap (λ x. x.0.chain.blocks) step ∙ ih.1 ∙ all_blocks,
                ap (λ x. x.0.chain.state) step ∙ ih.2,
              )
        ]
