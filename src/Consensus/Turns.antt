-- ===== src/Consensus/Turns.antt =====
-- internal/consensus/poa/producer.go: the turns of the validators.
use pixie_block.Base.{
  ℕ, zero, suc, true, List, [], ◌∷◌, some, ◌≡◌, refl, sym, ap, ◌∙◌, arith, length, get_elem?, inl,
  inr, Bool-cases, ltb, eq_refl, ◌+◌, ◌-◌, ◌%◌, ◌<◌, ◌≤◌,
}
use native.Mathlib.Nat.{mod-lt, mod-eq_of_lt, mod-add-mod, add-mod_right}
use pixie_block.Base.Int.{pos}
use pixie_block.Base.Result.{ok}
use pixie_block.Config.{ValidatorConfig}
use pixie_block.Consensus.{Producer, turn_index, validator_for_height, can_produce}

-- From any number, each remainder comes up within n steps.
remainder_comes : (h i n : ℕ) → i < n → (d : ℕ) × (d < n) × ((h + d) % n ≡ i)
remainder_comes h i n below =
    let r = h % n in
    let small : r < n = mod-lt h (omega arith) in
    elim (Bool-cases (ltb i r)) [
      | inl after ↦
          let d = i + n - r in
          let total : r + d ≡ i + n = ground arith in
          (
            d,
            ground arith,
            sym (mod-add-mod h n d)
                ∙ ap (λ x. x % n) total
                ∙ add-mod_right i n
                ∙ mod-eq_of_lt below,
          )
      | inr before ↦
          let d = i - r in
          let total : r + d ≡ i = ground arith in
          (d, ground arith, sym (mod-add-mod h n d) ∙ ap (λ x. x % n) total ∙ mod-eq_of_lt below)
    ]

get_elem?-bound :
    (xs : List ValidatorConfig) (i : ℕ) (v : ValidatorConfig)
    → get_elem? xs i ≡ some v
    → i < length xs
get_elem?-bound [] i v h = absurd (ground arith)
get_elem?-bound (x ∷ xs) zero v h = omega arith
get_elem?-bound (x ∷ xs) (suc i) v h = let rest = get_elem?-bound xs i v h in omega arith

turn_index-eq : (h n : ℕ) → 1 ≤ n → turn_index (pos h) n ≡ some (h % n)
turn_index-eq h zero le = absurd (omega arith)
turn_index-eq h (suc n) le = refl

index_turn :
    (producer : Producer) (h i : ℕ)
    → i < length producer.genesis.validators
    → h % length producer.genesis.validators ≡ i
    → get_elem? producer.genesis.validators i ≡ some producer.validator
    → (validator_for_height (pos h) producer ≡ ok producer.validator)
      × (can_produce (pos h) producer ≡ ok true)
unfolding validator_for_height can_produce
index_turn producer h i below at e =
    let turn = turn_index-eq h (length producer.genesis.validators) (omega arith) ∙ ap some at in
    let known : validator_for_height (pos h) producer ≡ ok producer.validator =
      ground (arith, turn, e) in
    (known, ground (arith, known, eq_refl producer.validator.id))

-- For every producer whose validator is in the genesis, and every height of 0 or more: among that
-- height and the next ones, fewer in all than there are validators after it, there is one that is
-- the validator's turn: ValidatorForHeight yields it, and CanProduce yields true.
pub turn_comes :
    (producer : Producer) (h i : ℕ)
    → get_elem? producer.genesis.validators i ≡ some producer.validator
    → (d : ℕ) × (d < length producer.genesis.validators)
      × (validator_for_height (pos (h + d)) producer ≡ ok producer.validator)
      × (can_produce (pos (h + d)) producer ≡ ok true)
turn_comes producer h i e =
    let n = length producer.genesis.validators in
    let below = get_elem?-bound producer.genesis.validators i producer.validator e in
    let (d, soon, at) = remainder_comes h i n below in
    let (known, turn) = index_turn producer (h + d) i below at e in (d, soon, known, turn)
