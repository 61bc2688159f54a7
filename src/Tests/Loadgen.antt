-- ===== src/Tests/Loadgen.antt =====
-- The load generator on concrete inputs.
use native.Mathlib.Nat.{mod-lt}
use pixie_block.Base.{
  ℕ, ◌+◌, ◌%◌, String, List, [], ◌∷◌, Option, some, ◌≡◌, arith, length, get_elem?,
}
use pixie_block.Base.Int.{ℤ, pos, ◌≤ℤ◌, ◌+ℤ◌}
use pixie_block.Base.Int64.{max_int64}
use pixie_block.Base.Dict.{Dict}
use pixie_block.Base.Result.{ok}
use pixie_block.Loadgen.{ListedAccount, value_at, shard_payers, shard_loop}
use pixie_block.Loadgen.Picking.{Rng, Pick, pick_tx}
use pixie_block.Loadgen.Shards.{shard_payers-get_elem?}
use pixie_block.Loadgen.Picks.{Draws, Outcome, pick_tx-Outcome}

abbrev names : List String
names = "ana" ∷ "rui" ∷ "bia" ∷ "leo" ∷ "eva" ∷ []

shard_payers-get_elem?_example :
    (get_elem? (shard_payers names 1 2) 1 ≡ some "leo")
    × (get_elem? (shard_loop (length names + 3) 1 2 names) 1 ≡ get_elem? (shard_payers names 1 2) 1)
shard_payers-get_elem?_example = shard_payers-get_elem? names 1 2 3 1 (omega arith) (omega arith)

-- A counter in place of a random source.
abbrev counter : Rng ℕ
counter = record { intn = λ n r. (r % n, r + 1); int63n = λ n r. (pos 0, r + 1) }

counter-Draws : Draws counter
unfolding ◌+ℤ◌
counter-Draws = record {
  intn = λ n r positive. mod-lt r (omega arith);
  low = λ n r positive. omega arith;
  high = λ n r positive. positive;
}

abbrev balances : Dict ℤ
balances = ("ana", pos 300) ∷ ("rui", pos 20) ∷ []

abbrev payees : List ListedAccount
payees =
    record { id = "ana"; type = "person"; balance = pos 300 }
    ∷ record { id = "rui"; type = "merchant"; balance = pos 20 }
    ∷ []

balances-bounded : (id : String) → value_at id balances ≤ℤ max_int64
balances-bounded id = ground arith

pick_tx-Outcome_example :
    (out : (Dict ℤ × ℕ) × Option Pick) × (pick_tx counter balances
        ("ana" ∷ "rui" ∷ [])
        payees
        (pos 1)
        (pos 50)
        0
      ≡ ok out)
    × Outcome counter counter-Draws (pos 1) (pos 50) (omega arith) balances balances-bounded out
pick_tx-Outcome_example =
    pick_tx-Outcome counter counter-Draws (pos 1) (pos 50) (omega arith) balances balances-bounded
      ("ana" ∷ "rui" ∷ []) payees 0 (omega arith)
