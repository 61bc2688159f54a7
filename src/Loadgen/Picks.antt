-- ===== src/Loadgen/Picks.antt =====
-- tools/loadgen/main.go: the payments that pickTx picks.
use pixie_block.Base.{
  ℕ, zero, suc, String, Bool, true, false, ⊤, not, ◌&&◌, List, [], ◌∷◌, Option, none, some, ◌==◌,
  ◌≡◌, refl, sym, ap, ◌∙◌, subst, arith, length, get_elem?, nat_eq, Bool-cases, inl, inr, eq_refl,
  ◌≤◌, ◌<◌, if◌then◌else◌, ◌⊎◌,
}
use pixie_block.Base.Int.{ℤ, pos, leb_ℤ, ◌+ℤ◌, ◌-ℤ◌, ◌≤ℤ◌, int_laws}
use pixie_block.Base.Int64.{add64, sub64, max_int64}
use pixie_block.Base.Dict.{Dict, insert, lookup-insert}
use pixie_block.Base.Result.{ok}
use pixie_block.Loadgen.Amounts.{cap_amount-le, width_exact, amount_exact, taken_exact}
use pixie_block.Loadgen.{ListedAccount, value_at}
use pixie_block.Loadgen.Picking.{
  Rng, Pick, cap_amount, choose, pick_amount, is_eligible, try_pair, attempt, continue_with,
  pick_loop, pick_tx,
}

-- What math/rand documents of its numbers.
pub record Draws {R : Type 0} (rng : Rng R) : Type 0 where
  pub intn : (n : ℕ) (r : R) → 1 ≤ n → (rng.intn n r).0 < n
  pub low : (n : ℤ) (r : R) → pos 1 ≤ℤ n → pos 0 ≤ℤ (rng.int63n n r).0
  pub high : (n : ℤ) (r : R) → pos 1 ≤ℤ n → (rng.int63n n r).0 +ℤ pos 1 ≤ℤ n

-- A payment within the limits and the payer's balance, which is taken from it and from no other.
pub record IsPick (min_amount max_amount : ℤ) (before after : Dict ℤ) (pick : Pick) : Type 0 where
  pub low : min_amount ≤ℤ pick.amount
  pub high : pick.amount ≤ℤ max_amount
  pub covered : pick.amount ≤ℤ value_at pick.payer before
  pub other : (pick.payer == pick.payee.id) ≡ false
  pub taken : value_at pick.payer after ≡ value_at pick.payer before -ℤ pick.amount
  pub kept : (id : String) → (pick.payer == id) ≡ false → value_at id after ≡ value_at id before

value_at-insert :
    (j k : String) (v : ℤ) (d : Dict ℤ)
    → value_at j (insert k v d) ≡ (if k == j then v else value_at j d)
value_at-insert j k v d = ground (arith, lookup-insert j k v d)

choose-some :
    {R A : Type 0} (rng : Rng R) (xs : List A) (r : R)
    → Draws rng
    → 1 ≤ length xs
    → (x : A) × ((choose rng xs r).0 ≡ some x)
choose-some rng xs r draws some_x =
    at_index xs (rng.intn (length xs) r).0 (draws.intn (length xs) r some_x)
  where
    at_index :
        {A : Type 0} (xs : List A) (i : ℕ) → i < length xs → (x : A) × (get_elem? xs i ≡ some x)
    at_index [] i h = absurd (omega arith)
    at_index (x ∷ xs) zero h = (x, refl)
    at_index (x ∷ xs) (suc i) h = at_index xs i (omega arith)

eligible_parts :
    (payer : String) (payee : ListedAccount) (least most : ℤ) (balances : Dict ℤ)
    → is_eligible payer payee least most balances ≡ true
    → ((payer == payee.id) ≡ false) × (least ≤ℤ cap_amount least most (value_at payer balances))
eligible_parts payer payee least most balances h =
    parts (payer == payee.id) (leb_ℤ least (value_at payer balances))
      (cap_amount least most (value_at payer balances)) h
  where
    parts :
        (same enough : Bool) (cap : ℤ)
        → (not same && enough && leb_ℤ least cap) ≡ true
        → (same ≡ false) × (least ≤ℤ cap)
    parts same enough cap h = ground arith

module _ {R : Type 0} (rng : Rng R) (draws : Draws rng) (min_amount max_amount : ℤ)
    (positive : pos 1 ≤ℤ min_amount) (balances : Dict ℤ)
    (bounded : (id : String) → value_at id balances ≤ℤ max_int64) where
  pick_amount-IsPick :
      (payer : String) (payee : ListedAccount) (r : R)
      → is_eligible payer payee min_amount max_amount balances ≡ true
      → let cap = cap_amount min_amount max_amount (value_at payer balances) in
        let (next, pick) = pick_amount rng payer payee min_amount cap balances r in
        IsPick min_amount max_amount balances next.0 pick
  pick_amount-IsPick payer payee r eligible =
      let bal = value_at payer balances in
      let cap = cap_amount min_amount max_amount bal in
      let (within, under) = cap_amount-le min_amount max_amount bal in
      let (other, reaches) = eligible_parts payer payee min_amount max_amount balances eligible in
      let below : cap ≤ℤ max_int64 = omega (int_laws, within, bounded payer) in
      let width = width_exact min_amount cap positive reaches below in
      let n = add64 (sub64 cap min_amount) (pos 1) in
      let extra = (rng.int63n n r).0 in
      let wide : pos 1 ≤ℤ n = subst (λ z. pos 1 ≤ℤ z) (sym width) (omega (int_laws, reaches)) in
      let (exact, low, high) =
        amount_exact min_amount cap extra positive below (draws.low n r wide)
          (subst (λ z. extra +ℤ pos 1 ≤ℤ z) width (draws.high n r wide)) in
      let amount = add64 min_amount extra in
      let covered : amount ≤ℤ bal = omega (int_laws, high, within) in
      let taken =
        taken_exact bal amount (omega (int_laws, low, positive)) covered (bounded payer) in
      record {
        low = low;
        high = omega (int_laws, high, under);
        covered = covered;
        other = other;
        taken =
            value_at-insert payer payer (sub64 bal amount) balances
            ∙ ground (arith, eq_refl payer)
            ∙ taken;
        kept = λ id no_match. value_at-insert id payer (sub64 bal amount) balances ∙ rw no_match;
      }

  -- An attempt ends in a pick, or in another state of the generator.
  abbrev Attempted : R ⊎ ((Dict ℤ × R) × Pick) → Type 0
  Attempted (inl r) = ⊤
  Attempted (inr (next, pick)) = IsPick min_amount max_amount balances next.0 pick

  try_pair-Attempted :
      (payer : String) (payee : ListedAccount) (r : R)
      → Attempted (try_pair rng payer payee min_amount max_amount balances r)
  try_pair-Attempted payer payee r =
      elim (Bool-cases (is_eligible payer payee min_amount max_amount balances)) [
        | inr not_able ↦ rw not_able tt
        | inl able ↦ rw able (pick_amount-IsPick payer payee r able)
      ]

  attempt-Attempted :
      (payers : List String) (payees : List ListedAccount) (r : R)
      → 1 ≤ length payers
      → 1 ≤ length payees
      → (tried : R ⊎ ((Dict ℤ × R) × Pick)) × (attempt rng payers payees min_amount max_amount
            balances r
          ≡ ok tried)
        × Attempted tried
  unfolding attempt
  attempt-Attempted payers payees r some_payer some_payee =
      let (payer, e) = choose-some rng payers r draws some_payer in
      let r1 = (rng.intn (length payers) r).1 in
      let (payee, f) = choose-some rng payees r1 draws some_payee in
      let r2 = (rng.intn (length payees) r1).1 in
      (
        try_pair rng payer payee min_amount max_amount balances r2,
        rw (e, f, attempt) refl,
        try_pair-Attempted payer payee r2,
      )

  -- What pickTx may return: no pick and the balances as they were, or a pick.
  abbrev pub Outcome : (Dict ℤ × R) × Option Pick → Type 0
  Outcome (next, none) = next.0 ≡ balances
  Outcome (next, some pick) = IsPick min_amount max_amount balances next.0 pick

  -- The loop comes to an end with an outcome.
  abbrev Ends : ℕ → List String → List ListedAccount → R → Type 0
  Ends left payers payees r =
      (out : (Dict ℤ × R) × Option Pick) × (pick_loop rng left payers payees min_amount max_amount
          balances r
        ≡ ok out)
      × Outcome out

  pick_next :
      (left : ℕ) (payers : List String) (payees : List ListedAccount) (r : R)
      (tried : R ⊎ ((Dict ℤ × R) × Pick))
      → attempt rng payers payees min_amount max_amount balances r ≡ ok tried
      → Attempted tried
      → ((r' : R) → Ends left payers payees r')
      → Ends (suc left) payers payees r
  unfolding pick_loop
  pick_next left payers payees r (inl r') e v again =
      let (out, h, o) = again r' in
      (
        out,
        ap (λ t. continue_with t (pick_loop rng left payers payees min_amount max_amount balances))
              e
            ∙ h,
        o,
      )
  pick_next left payers payees r (inr (next, pick)) e v again = (
    (next, some pick),
    ap (λ t. continue_with t (pick_loop rng left payers payees min_amount max_amount balances)) e,
    v,
  )

  pick_loop-Ends :
      (left : ℕ) (payers : List String) (payees : List ListedAccount) (r : R)
      → 1 ≤ length payers
      → 1 ≤ length payees
      → Ends left payers payees r
  unfolding pick_loop
  pick_loop-Ends zero payers payees r some_payer some_payee = (((balances, r), none), refl, refl)
  pick_loop-Ends (suc left) payers payees r some_payer some_payee =
      let (tried, e, v) = attempt-Attempted payers payees r some_payer some_payee in
      pick_next left payers payees r tried e v
        (λ r'. pick_loop-Ends left payers payees r' some_payer some_payee)

  -- For a generator of random numbers that stays below its bounds, limits with a minimum of 1 or more,
  -- balances that are int64 values at most, and at least one payee: pickTx never fails. If it picks no
  -- payment, the balances are as they were. Otherwise the amount is at least the minimum and at most the
  -- maximum and the payer's balance, the payer is not the payee, exactly the amount is taken from the
  -- payer's balance, and no other balance changes.
  pub pick_tx-Outcome :
      (payers : List String) (payees : List ListedAccount) (r : R)
      → 1 ≤ length payees
      → (out : (Dict ℤ × R) × Option Pick) × (pick_tx rng balances payers payees min_amount
            max_amount r
          ≡ ok out)
        × Outcome out
  unfolding pick_tx
  pick_tx-Outcome [] payees r some_payee = (((balances, r), none), refl, refl)
  pick_tx-Outcome (payer ∷ payers) payees r some_payee =
      let some_payer : nat_eq (length (payer ∷ payers)) 0 ≡ false = ground arith in
      let (out, h, o) = pick_loop-Ends 32 (payer ∷ payers) payees r (omega arith) some_payee in
      (out, rw (some_payer, pick_tx) h, o)
