-- ===== src/Loadgen/Shards.antt =====
-- tools/loadgen/main.go: the loop of shardPayers.
use pixie_block.Base.{
  false, ℕ, zero, suc, String, List, [], ◌∷◌, none, some, ◌≡◌, refl, sym, ap, ◌∙◌, arith, length,
  get_elem?, nat_eq, Option-cases, inl, inr, ◌+◌, ◌*◌, ◌≤◌, ◌<◌,
}
use pixie_block.Loadgen.{shard_loop, shard_payers}

past_end : (xs : List String) (i : ℕ) → length xs ≤ i → get_elem? xs i ≡ none
past_end [] i h = refl
past_end (x ∷ xs) zero h = absurd (omega arith)
past_end (x ∷ xs) (suc i) h = past_end xs i (omega arith)

inside : (xs : List String) (i : ℕ) → get_elem? xs i ≡ none → length xs ≤ i
inside [] i h = omega arith
inside (x ∷ xs) zero h = absurd (ground arith)
inside (x ∷ xs) (suc i) h = let rest = inside xs i h in omega arith

shard_loop-past :
    (fuel i n : ℕ) (xs : List String) → get_elem? xs i ≡ none → shard_loop fuel i n xs ≡ []
unfolding shard_loop
shard_loop-past zero i n xs h = refl
shard_loop-past (suc fuel) i n xs h = rw (h, shard_loop) refl

shard_loop-found :
    (fuel i n : ℕ) (xs : List String) (x : String)
    → get_elem? xs i ≡ some x
    → shard_loop (suc fuel) i n xs ≡ x ∷ shard_loop fuel (i + n) n xs
unfolding shard_loop
shard_loop-found fuel i n xs x h = rw (h, shard_loop) refl

-- From a start past the end there is nothing.
none_left :
    (fuel i n k : ℕ) (xs : List String)
    → get_elem? xs i ≡ none
    → get_elem? (shard_loop fuel i n xs) k ≡ get_elem? xs (i + k * n)
none_left fuel i n k xs h =
    let all_past = inside xs i h in
    ap (λ z. get_elem? z k) (shard_loop-past fuel i n xs h)
    ∙ sym (past_end xs (i + k * n) (omega arith))

-- With enough fuel, the k-th of the shard is the payer k strides from the start.
shard_loop-get_elem? :
    (fuel i n k : ℕ) (xs : List String)
    → 1 ≤ n
    → length xs ≤ fuel + i
    → get_elem? (shard_loop fuel i n xs) k ≡ get_elem? xs (i + k * n)
shard_loop-get_elem? zero i n k xs stride enough =
    none_left 0 i n k xs (past_end xs i (omega arith))
shard_loop-get_elem? (suc fuel) i n zero xs stride enough = elim (Option-cases (get_elem? xs i)) [
  | inl out ↦ none_left (suc fuel) i n 0 xs out
  | inr (x, found) ↦
      ap (λ z. get_elem? z 0) (shard_loop-found fuel i n xs x found)
      ∙ sym found
      ∙ ap (get_elem? xs) (omega arith)
]
shard_loop-get_elem? (suc fuel) i n (suc k) xs stride enough =
    elim (Option-cases (get_elem? xs i)) [
      | inl out ↦ none_left (suc fuel) i n (suc k) xs out
      | inr (x, found) ↦
          ap (λ z. get_elem? z (suc k)) (shard_loop-found fuel i n xs x found)
          ∙ shard_loop-get_elem? fuel (i + n) n k xs stride (omega arith)
          ∙ ap (get_elem? xs) (grind arith)
    ]

not_empty : (xs : List String) (x : String) → get_elem? xs 0 ≡ some x → nat_eq (length xs) 0 ≡ false
not_empty [] x h = absurd (ground arith)
not_empty (y ∷ ys) x h = ground arith

shard-not_empty :
    (payers : List String) (worker workers : ℕ)
    → 1 ≤ workers
    → worker < length payers
    → nat_eq (length (shard_loop (length payers) worker workers payers)) 0 ≡ false
shard-not_empty payers worker workers stride below = elim (Option-cases (get_elem? payers worker)) [
  | inl out ↦ let past = inside payers worker out in absurd (omega arith)
  | inr (x, found) ↦ not_empty _ x (
      shard_loop-get_elem? (length payers) worker workers 0 payers stride (omega arith)
      ∙ ap (get_elem? payers) (omega arith)
      ∙ found)
]

-- For every list of payers, every stride of 1 or more and every worker below the number of payers: the
-- loop of shardPayers ends within as many rounds as there are payers, for with any fuel beyond that it
-- yields the same, and the k-th payer of the worker's shard is the payer at the index worker + k *
-- workers of the list, or none past its end. So no two workers below the stride share an index, and
-- each index falls to a worker.
pub shard_payers-get_elem? :
    (payers : List String) (worker workers more k : ℕ)
    → 1 ≤ workers
    → worker < length payers
    → (get_elem? (shard_payers payers worker workers) k ≡ get_elem? payers (worker + k * workers))
      × (get_elem? (shard_loop (length payers + more) worker workers payers) k
          ≡ get_elem? (shard_payers payers worker workers) k)
unfolding shard_payers
shard_payers-get_elem? payers worker workers more k stride below =
    let enough =
      shard_loop-get_elem? (length payers) worker workers k payers stride (omega arith) in
    let kept : shard_payers payers worker workers
        ≡ shard_loop (length payers) worker workers payers =
      rw (shard-not_empty payers worker workers stride below, shard_payers) refl in
    (
      ap (λ z. get_elem? z k) kept ∙ enough,
      shard_loop-get_elem? (length payers + more) worker workers k payers stride (omega arith)
          ∙ sym enough
          ∙ sym (ap (λ z. get_elem? z k) kept),
    )
