-- ===== src/Chain/Supply.antt =====
-- internal/chain/blockchain.go: the money of a chain.
use pixie_block.Base.{List, [], ◌∷◌, ◌≡◌, refl, subst, arith, All, inl, inr}
use pixie_block.Base.Result.{ok, Result-cases}
use pixie_block.Domain.{Block, TaxSplit}
use pixie_block.Base.Dict.{Dict}
use pixie_block.Crypto.{Primitives}
use pixie_block.Ledger.State.{State}
use pixie_block.Ledger.State.Copy.{HasMaps}
use pixie_block.Ledger.Payment.Exact.{IsSolvent, HasExactTotals}
use pixie_block.Ledger.Blocks.{validate_block}
use pixie_block.Ledger.Blocks.Maps.{Follows-self}
use pixie_block.Ledger.Blocks.Supply.{Preserves, Preserves-trans, validate_block-Preserves}
use pixie_block.Chain.Restart.{replay}

-- No payment of the block has int64 totals that wrap or a negative tax or discount amount.
abbrev pub IsExact : Dict TaxSplit → Block → Type 0
IsExact taxes b = All (HasExactTotals taxes) b.transactions

-- For every solvent state (no balance negative, their sum an int64 value) with each key once in each
-- map, and every chain of blocks that validateChain's loop accepts from it, where no payment has int64
-- totals that wrap or a negative tax or discount amount: the state at the end is solvent, the sum of
-- all balances is what it was at the start, each key stands once in each map, and the tax table, the
-- allowed tax accounts and the validators are those of the start.
pub replay-Preserves :
    (p : Primitives) (s last : State) (prev : Block) (bs : List Block)
    → HasMaps s
    → IsSolvent s
    → All (IsExact s.tax_split) bs
    → replay p s prev bs ≡ ok last
    → Preserves s last
unfolding replay
replay-Preserves p s last prev [] m v exact h =
    let same : s ≡ last = cc in
    subst (Preserves s) same (record { follows = Follows-self s m; solvent = v; total = refl })
replay-Preserves p s last prev (b ∷ bs) m v exact h =
    elim (Result-cases (validate_block p b prev s)) [
      | inr (e, x) ↦ absurd (ground arith)
      | inl (next, x) ↦
          let first = validate_block-Preserves p b prev s next m v exact.0 x in
          Preserves-trans s next last first (
            replay-Preserves p next last b bs first.follows.maps first.solvent
              (rw first.follows.taxes exact.1) (ground arith))
    ]
