-- ===== src/Loadgen/Picking.antt =====
-- tools/loadgen/main.go: pickTx and what a worker makes of the answer. The generator of random numbers is
-- a state of the type `R`; the lock is held from start to end, so a call is one step.
use pixie_block.Base.{
  ℕ, zero, suc, String, Bool, true, false, not, ◌&&◌, ◌||◌, ◌⊎◌, inl, inr, List, [], Option, none,
  some, ◌==◌, length, get_elem?, nat_eq, if◌then◌else◌,
}
use pixie_block.Base.Int.{ℤ, pos, leb_ℤ, ltb_ℤ, quot}
use pixie_block.Base.Int64.{add64, sub64}
use pixie_block.Base.Dict.{Dict, insert}
use pixie_block.Base.Result.{ok, err}
use pixie_block.Errors
use pixie_block.Errors.{Error, Result}
use pixie_block.Loadgen.{ListedAccount, tax_options, value_at, tax_total_at_rates}

-- math/rand: a number below the bound, and the next state. A bound of 0 or less panics.
pub record Rng (R : Type 0) : Type 0 where
  pub intn : ℕ → R → ℕ × R
  pub int63n : ℤ → R → ℤ × R

pub record Pick : Type 0 where
  pub payer : String
  pub payee : ListedAccount
  pub amount : ℤ
  pub taxes : List String

-- `capAmt`: the most that is paid out of the balance.
abbrev pub cap_amount : ℤ → ℤ → ℤ → ℤ
cap_amount min_amount max_amount bal =
    let hard = if ltb_ℤ bal max_amount then bal else max_amount in
    let soft = quot bal 8 in if leb_ℤ min_amount soft && ltb_ℤ soft hard then soft else hard

-- May the payer pay the payee?
abbrev pub is_eligible : String → ListedAccount → ℤ → ℤ → Dict ℤ → Bool
is_eligible payer payee min_amount max_amount balances =
    let bal = value_at payer balances in
    not (payer == payee.id)
    && leb_ℤ min_amount bal
    && leb_ℤ min_amount (cap_amount min_amount max_amount bal)

-- `continue`, or the return of a pick.
abbrev pub continue_with :
    {R D : Type 0}
    → Result (R ⊎ ((D × R) × Pick))
    → (R → Result ((D × R) × Option Pick))
    → Result ((D × R) × Option Pick)
continue_with (err e) next = err e
continue_with (ok (inl r)) next = next r
continue_with (ok (inr (state, pick))) next = ok (state, some pick)

module _ {R : Type 0} (rng : Rng R) where
  -- `list[rng.Intn(len(list))]`
  abbrev pub choose : {A : Type 0} → List A → R → Option A × R
  choose xs r = let (i, r') = rng.intn (length xs) r in (get_elem? xs i, r')

  abbrev pub choose_taxes : ListedAccount → R → List String × R
  choose_taxes payee r =
      let (taxes, r') = choose tax_options r in
      if payee.type == "merchant" || payee.type == "treasury"
      then (elim taxes [ none ↦ [] | some codes ↦ codes ], r')
      else ([], r)

  -- An attempt that has a payer, a payee and a cap.
  abbrev pub pick_amount : String → ListedAccount → ℤ → ℤ → Dict ℤ → R → (Dict ℤ × R) × Pick
  pick_amount payer payee min_amount cap balances r =
      let (extra, r') = rng.int63n (add64 (sub64 cap min_amount) (pos 1)) r in
      let amount = add64 min_amount extra in
      let (taxes, r'') = choose_taxes payee r' in
      (
        (insert payer (sub64 (value_at payer balances) amount) balances, r''),
        record { payer = payer; payee = payee; amount = amount; taxes = taxes },
      )

  -- A pick, or the state of the generator to try again with.
  abbrev pub try_pair : String → ListedAccount → ℤ → ℤ → Dict ℤ → R → R ⊎ ((Dict ℤ × R) × Pick)
  try_pair payer payee min_amount max_amount balances r =
      if is_eligible payer payee min_amount max_amount balances
      then inr (
          pick_amount payer payee min_amount
            (cap_amount min_amount max_amount (value_at payer balances)) balances r)
      else inl r

  unfoldable pub attempt :
      List String → List ListedAccount → ℤ → ℤ → Dict ℤ → R → Result (R ⊎ ((Dict ℤ × R) × Pick))
  attempt payers payees min_amount max_amount balances r =
      let (payer, r1) = choose payers r in
      let (payee, r2) = choose payees r1 in
      elim payer [
        | none ↦ err Errors.index_out_of_range
        | some from ↦ elim payee [
          | none ↦ err Errors.index_out_of_range
          | some to ↦ ok (try_pair from to min_amount max_amount balances r2)
        ]
      ]

  -- `for attempt := 0; attempt < 32; attempt++`
  unfoldable pub pick_loop :
      ℕ
      → List String
      → List ListedAccount
      → ℤ
      → ℤ
      → Dict ℤ
      → R
      → Result ((Dict ℤ × R) × Option Pick)
  pick_loop zero payers payees min_amount max_amount balances r = ok ((balances, r), none)
  pick_loop (suc left) payers payees min_amount max_amount balances r =
      continue_with (attempt payers payees min_amount max_amount balances r)
        (λ r'. pick_loop left payers payees min_amount max_amount balances r')

  unfoldable pub pick_tx :
      Dict ℤ → List String → List ListedAccount → ℤ → ℤ → R → Result ((Dict ℤ × R) × Option Pick)
  pick_tx balances payers payees min_amount max_amount r =
      if nat_eq (length payers) 0
      then ok ((balances, r), none)
      else pick_loop 32 payers payees min_amount max_amount balances r

-- What a worker makes of the answer to its payment: the payee is credited, or the payer gets it back.
unfoldable pub settle : Bool → Pick → Dict ℤ → Dict ℤ
unfolding tax_total_at_rates
settle true pick balances =
    let net = sub64 pick.amount (tax_total_at_rates pick.amount pick.taxes) in
    insert pick.payee.id (add64 (value_at pick.payee.id balances) net) balances
settle false pick balances =
    insert pick.payer (add64 (value_at pick.payer balances) pick.amount) balances
