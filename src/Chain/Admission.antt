-- ===== src/Chain/Admission.antt =====
-- internal/chain/blockchain.go: ValidateAdmit as the check of the mempool's TryAdd.
use pixie_block.Base.{
  String, none, some, ◌≡◌, refl, ◌∙◌, arith, Option-cases, inl, inr, true, false, if◌then◌else◌,
  eq_iff, eq_refl, ◌==◌, Bool-cases, Option, Bool, ⊤,
}
use pixie_block.Base.Int.{ℤ, pos, ◌+ℤ◌, ◌-ℤ◌, ◌≤ℤ◌, int_laws}
use pixie_block.Base.Int64.{add64, sub64, wrap64, wrap64_exact, IsInt64-of_bounds, max_int64}
use pixie_block.Base.Dict.{
  lookup, contains, lookup-insert, sum_by_nonneg, measure_at-le-sum_by, measure_at_nonneg,
}
use pixie_block.Base.Result.{ok, err}
use pixie_block.Errors
use pixie_block.Errors.{Error, Result}
use pixie_block.Domain.{PaymentTransaction, Account, gross_amount}
use pixie_block.Crypto.{Primitives}
use pixie_block.Ledger.State.{State, account_at}
use pixie_block.Ledger.State.Copy.{HasMaps, clone_lem}
use pixie_block.Ledger.Payment.{validate_transaction}
use pixie_block.Ledger.Payment.Refines.{validate_transaction-IsValidated}
use pixie_block.Ledger.Payment.Exact.{IsSolvent, check_funds-covers, check_totals-signs}
use pixie_block.Ledger.Payment.Supply.{balance_of, supply, measure_at-account_at}
use pixie_block.Mempool.Pool.{Pool, reserved_at, try_add, add_entry}
use pixie_block.Mempool.Pool.Invariant.{IsPool, Fits, spend, reserved_at-insert}
use pixie_block.Mempool.Pool.Insertion.{Adds, try_add-Adds}
use pixie_block.Chain.{Blockchain, reserve, validate_admit}

abbrev pub balance_at : String → State → ℤ
balance_at id s = (account_at id s.accounts).balance

pub balance_at_bounds :
    (id : String) (s : State)
    → IsSolvent s
    → (pos 0 ≤ℤ balance_at id s) × (balance_at id s ≤ℤ max_int64)
balance_at_bounds id s v =
    let low : pos 0 ≤ℤ balance_at id s =
      rw (measure_at-account_at id s.accounts) at
        (measure_at_nonneg balance_of id s.accounts v.nonneg) in
    let high : balance_at id s ≤ℤ supply s =
      rw (measure_at-account_at id s.accounts) at
        (measure_at-le-sum_by balance_of id s.accounts v.nonneg) in
    (low, omega (int_laws, high, v.bounded))

reserve_found :
    (id : String) (r : ℤ) (s : State) (acct : Account)
    → lookup id s.accounts ≡ some acct
    → balance_at id (reserve id r s) ≡ wrap64 (balance_at id s -ℤ r)
unfolding sub64
reserve_found id r s acct found =
    let left = record acct { balance = wrap64 (acct.balance -ℤ r) } in
    ground (arith, found, lookup-insert id id left s.accounts, eq_refl id)

-- Where the reserved amount is within the balance, the rest is what the payer can spend.
reserve-balance :
    (id : String) (r : ℤ) (s : State)
    → IsSolvent s
    → pos 0 ≤ℤ r
    → r ≤ℤ balance_at id s
    → r +ℤ balance_at id (reserve id r s) ≤ℤ balance_at id s
unfolding sub64
reserve-balance id r s v low high =
    let (positive, bounded) = balance_at_bounds id s v in
    let exact : wrap64 (balance_at id s -ℤ r) ≡ balance_at id s -ℤ r =
      wrap64_exact _
        (IsInt64-of_bounds _ (omega (int_laws, high)) (omega (int_laws, bounded, low))) in
    elim (Option-cases (lookup id s.accounts)) [
      | inl absent ↦
          let none_left : balance_at id (reserve id r s) ≡ pos 0 = ground (arith, absent) in
          let none_held : balance_at id s ≡ pos 0 = ground (arith, absent) in
          rw (none_left, none_held) (omega (int_laws, rw none_held at high))
      | inr (acct, found) ↦
          let left : balance_at id (reserve id r s) ≡ balance_at id s -ℤ r =
            reserve_found id r s acct found ∙ exact in
          rw left (omega int_laws)
    ]

admitted-room :
    (p : Primitives) (tx : PaymentTransaction) (r : ℤ) (s : State)
    → IsSolvent s
    → pos 0 ≤ℤ r
    → r ≤ℤ balance_at tx.payer.id s
    → validate_transaction p tx (reserve tx.payer.id r s) ≡ ok tt
    → (pos 0 ≤ℤ gross_amount tx) × (r +ℤ gross_amount tx ≤ℤ balance_at tx.payer.id s)
admitted-room p tx r s v low high checked =
    let t : State = reserve tx.payer.id r s in
    let valid = validate_transaction-IsValidated p tx t checked in
    let (positive, net) = check_totals-signs tx t valid.totals in
    let covered : gross_amount tx ≤ℤ balance_at tx.payer.id t =
      check_funds-covers tx t valid.funds in
    let left = reserve-balance tx.payer.id r s v low high in
    (positive, omega (int_laws, covered, left))

-- Whatever is reserved, the rest of the balance is exact, and an admitted payment fits in the pool.
admitted-Fits :
    (p : Primitives) (tx : PaymentTransaction) (r : ℤ) (s : State)
    → IsSolvent s
    → pos 0 ≤ℤ r
    → r ≤ℤ max_int64
    → validate_transaction p tx (reserve tx.payer.id r s) ≡ ok tt
    → (pos 0 ≤ℤ gross_amount tx) × (r +ℤ gross_amount tx ≤ℤ max_int64)
admitted-Fits p tx r s v low high checked =
    let t : State = reserve tx.payer.id r s in
    let valid = validate_transaction-IsValidated p tx t checked in
    let (positive, net) = check_totals-signs tx t valid.totals in
    let covered : gross_amount tx ≤ℤ balance_at tx.payer.id t =
      check_funds-covers tx t valid.funds in
    let (nonneg, bounded) = balance_at_bounds tx.payer.id s v in
    let exact : wrap64 (balance_at tx.payer.id s -ℤ r) ≡ balance_at tx.payer.id s -ℤ r =
      wrap64_exact _
        (IsInt64-of_bounds _ (omega (int_laws, nonneg, high)) (omega (int_laws, bounded, low))) in
    elim (Option-cases (lookup tx.payer.id s.accounts)) [
      | inl absent ↦
          let none_left : balance_at tx.payer.id t ≡ pos 0 = ground (arith, absent) in
          (positive, omega (int_laws, high, rw none_left at covered))
      | inr (acct, found) ↦
          let left = reserve_found tx.payer.id r s acct found ∙ exact in
          (positive, omega (int_laws, bounded, rw left at covered))
    ]

-- No payer has more reserved than the confirmed balance.
abbrev pub Covers : State → Pool → Type 0
Covers s p = (payer : String) → reserved_at payer p.reserved ≤ℤ balance_at payer s

reserved_nonneg : (payer : String) (p : Pool) → IsPool p → pos 0 ≤ℤ reserved_at payer p.reserved
reserved_nonneg payer p v =
    rw (v.consistent.reserved payer)
      (sum_by_nonneg (spend payer) p.items (v.consistent.positive payer))

add_entry-Covers :
    (tx : PaymentTransaction) (p : Pool) (s : State)
    → IsPool p
    → IsSolvent s
    → Covers s p
    → (pos 0 ≤ℤ gross_amount tx)
      × (reserved_at tx.payer.id p.reserved +ℤ gross_amount tx ≤ℤ balance_at tx.payer.id s)
    → Covers s (add_entry tx p)
unfolding add_entry add64
add_entry-Covers tx p s v solvent covers (positive, room) payer =
    let held = reserved_nonneg tx.payer.id p v in
    let (low, high) = balance_at_bounds tx.payer.id s solvent in
    let more = reserved_at tx.payer.id p.reserved +ℤ gross_amount tx in
    let exact : wrap64 more ≡ more =
      wrap64_exact _
        (IsInt64-of_bounds _ (omega (int_laws, held, positive)) (omega (int_laws, room, high))) in
    rw (reserved_at-insert, exact)
      (elim (Bool-cases (tx.payer.id == payer)) [
        | inl e ↦ rw (e, ← (eq_iff tx.payer.id payer).0 e) room
        | inr e ↦ rw e (covers payer)
      ])

-- TryAdd with ValidateAdmit as its check, as the node calls it.
abbrev pub try_admit :
    {DB : Type 0} → Primitives → PaymentTransaction → Blockchain DB → Pool → Pool × Option Error
try_admit p tx bc pool = try_add tx (some (λ r. validate_admit p tx r bc)) pool

kept-Covers :
    (tx : PaymentTransaction) (pool : Pool) (s : State) (known : Bool) (c : Result ⊤)
    → Covers s pool
    → (c ≡ ok tt → Covers s (add_entry tx pool))
    → let r : Pool × Option Error =
        if known
        then (pool, some (Errors.already_in_mempool tx.id))
        else elim c [ ok _ ↦ (add_entry tx pool, none) | err e ↦ (pool, some e) ] in
      Covers s r.0
kept-Covers tx pool s true c h k = h
kept-Covers tx pool s false (err e) h k = h
kept-Covers tx pool s false (ok tt) h k = k refl

-- ValidateAdmit is a check that lets through only what fits.
pub validate_admit-Fits :
    {DB : Type 0} (p : Primitives) (tx : PaymentTransaction) (bc : Blockchain DB) (pool : Pool)
    → HasMaps bc.state
    → IsSolvent bc.state
    → IsPool pool
    → validate_admit p tx (reserved_at tx.payer.id pool.reserved) bc ≡ ok tt
    → Fits tx pool
unfolding validate_admit
validate_admit-Fits p tx bc pool maps solvent v h =
    let held = v.consistent.reserved tx.payer.id in
    let (positive, room) =
      admitted-Fits p tx (reserved_at tx.payer.id pool.reserved) bc.state solvent
        (reserved_nonneg tx.payer.id pool v) (rw held (v.consistent.bounded tx.payer.id))
        (rw (clone_lem bc.state maps) at h) in
    record { positive = positive; bounded = room }

module _ {DB : Type 0} (p : Primitives) (tx : PaymentTransaction) (bc : Blockchain DB)
    (pool : Pool) where
  module _ (maps : HasMaps bc.state) (solvent : IsSolvent bc.state) (v : IsPool pool)
      (covers : Covers bc.state pool) where
    checked-room :
        validate_admit p tx (reserved_at tx.payer.id pool.reserved) bc ≡ ok tt
        → (pos 0 ≤ℤ gross_amount tx)
          × (reserved_at tx.payer.id pool.reserved +ℤ gross_amount tx
              ≤ℤ balance_at tx.payer.id bc.state)
    unfolding validate_admit
    checked-room h =
        admitted-room p tx (reserved_at tx.payer.id pool.reserved) bc.state solvent
          (reserved_nonneg tx.payer.id pool v) (covers tx.payer.id)
          (rw (clone_lem bc.state maps) at h)

    checked-Fits :
        validate_admit p tx (reserved_at tx.payer.id pool.reserved) bc ≡ ok tt → Fits tx pool
    checked-Fits h =
        let (positive, room) = checked-room h in
        record {
          positive = positive;
          bounded = omega (int_laws, room, (balance_at_bounds tx.payer.id bc.state solvent).1);
        }

    -- For every chain with a solvent state (no balance negative, their sum an int64 value) that holds
    -- each key once in each map, and every pool that satisfies the invariant and in which no payer has
    -- more reserved than the confirmed balance: when TryAdd checks a payment with ValidateAdmit, it
    -- adds the payment or returns an error as TryAdd does, and whatever it returns no payer has more
    -- reserved than the confirmed balance.
    pub try_admit-Covers :
        Adds tx pool
          (try_admit p tx bc pool)
          (contains tx.id pool.items)
          (validate_admit p tx (reserved_at tx.payer.id pool.reserved) bc)
        × Covers bc.state (try_admit p tx bc pool).0
    unfolding try_add
    try_admit-Covers = (
      try_add-Adds tx (some (λ r. validate_admit p tx r bc)) pool v checked-Fits,
      kept-Covers tx pool bc.state (contains tx.id pool.items)
          (validate_admit p tx (reserved_at tx.payer.id pool.reserved) bc) covers
          (λ h. add_entry-Covers tx pool bc.state v solvent covers (checked-room h)),
    )
