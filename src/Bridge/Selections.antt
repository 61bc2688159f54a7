-- ===== src/Bridge/Selections.antt =====
-- internal/p2p/bridge.go: the requests that selectExecutable chooses, and the block made of them.
use pixie_block.Base.{
  ℕ, String, List, [], ◌∷◌, Option, none, some, ◌≡◌, refl, ap, ◌∙◌, arith, nat_eq, length,
  Option-cases, Bool-cases, inl, inr, ◌⊎◌, ◌-◌,
}
use pixie_block.Base.Int.{ℤ, pos, pos_part}
use pixie_block.Base.Int64.{add64}
use pixie_block.Base.Dict.{lookup}
use pixie_block.Base.Result.{ok, err, Result-cases}
use pixie_block.Errors.{Error, Result}
use pixie_block.Errors
use pixie_block.Domain.{PaymentTransaction, AccountCreateTransaction, Block}
use pixie_block.Crypto.{Primitives}
use pixie_block.Ledger.State.{State, Action, clone, and_then}
use pixie_block.Ledger.Payment.{apply_transaction}
use pixie_block.Ledger.Payment.Refines.{Posts, apply_transaction-Posts}
use pixie_block.Ledger.Accounts.{apply_account_create, apply_account_close, validate_account_close}
use pixie_block.Ledger.Accounts.Opening.{Branches, apply_account_create-Branches}
use pixie_block.Ledger.Blocks.{
  apply_each, apply_block, apply_creates, apply_payments, apply_closes, result_of, validate_block,
}
use pixie_block.Mempool.Pool.{peek}
use pixie_block.Mempool.AccountCreates.{peek_creates}
use pixie_block.Mempool.AccountCloses.{peek_closes}
use pixie_block.Consensus.{Producer, create_block}
use pixie_block.Consensus.Proposals.{Signs, create_block-Proposes}
use pixie_block.Chain.{height, latest_block, state_copy}
use pixie_block.Bridge.{Bridge, select, select_executable}

-- A call that returns an error leaves the state as it was.
abbrev pub IsAtomic : {T : Type 0} → (T → Action) → Type 0
IsAtomic {T} apply = (x : T) (s : State) → ((apply x s).1 ≡ none) ⊎ ((apply x s).0 ≡ s)

apply_each_cons :
    {T : Type 0} (apply : T → Action) (wrap : T → Error → Error) (x : T) (xs : List T) (s t : State)
    → apply x s ≡ (t, none)
    → apply_each apply wrap (x ∷ xs) s ≡ apply_each apply wrap xs t
unfolding apply_each
apply_each_cons apply wrap x xs s t h = ground arith

-- The chosen requests, applied one after another, all succeed and lead to the state of the selection.
select-applies :
    {T : Type 0} (id_of : T → String) (apply : T → Action) (wrap : T → Error → Error)
    → IsAtomic apply
    → (left : ℕ) (xs : List T) (s : State)
    → let r = select id_of apply left xs s in apply_each apply wrap r.chosen s ≡ (r.state, none)
unfolding select apply_each
select-applies id_of apply wrap atomic left [] s = refl
select-applies id_of apply wrap atomic left (x ∷ xs) s = elim (Bool-cases (nat_eq left 0)) [
  | inl full ↦ ground arith
  | inr room ↦ elim (Option-cases (apply x s).1) [
    | inl done ↦
        let rest = select-applies id_of apply wrap atomic (left - 1) xs (apply x s).0 in
        ground arith
    | inr (e, failed) ↦ elim (atomic x s) [
      | inl done ↦ absurd (ground arith)
      | inr same ↦ let rest = select-applies id_of apply wrap atomic left xs s in ground arith
    ]
  ]
]

three_calls :
    (first second third : Action) (s t u v : State)
    → first s ≡ (t, none)
    → second t ≡ (u, none)
    → third u ≡ (v, none)
    → and_then first (and_then second third) s ≡ (v, none)
three_calls first second third s t u v h k l = ground arith

latest-height :
    {DB : Type 0} (b : Bridge DB) (prev : Block)
    → latest_block b.chain ≡ ok prev
    → height b.chain ≡ prev.height
unfolding latest_block height
latest-height b prev h = ground arith

module _ (p : Primitives) where
  close-IsAtomic : IsAtomic (apply_account_close p)
  unfolding apply_account_close
  close-IsAtomic x s = elim (Result-cases (validate_account_close p x s)) [
    | inl (_, v) ↦ inl (ground arith)
    | inr (e, v) ↦ inr (ground arith)
  ]

  Branches-atomic :
      (x : AccountCreateTransaction) (s : State) (v : Result Unit) (r : State × Option Error)
      → Branches p x s r v
      → (r.1 ≡ none) ⊎ (r.0 ≡ s)
  Branches-atomic x s (ok _) r h = inl (ap (λ q. q.1) h.3)
  Branches-atomic x s (err e) r h = inr (ap (λ q. q.0) h)

  create-IsAtomic : IsAtomic (apply_account_create p)
  create-IsAtomic x s = Branches-atomic x s _ _ (apply_account_create-Branches p x s)

  Posts-atomic :
      (x : PaymentTransaction) (s : State) (v : Result Unit) (r : State × Option Error)
      → Posts x s v r
      → (r.1 ≡ none) ⊎ (r.0 ≡ s)
  Posts-atomic x s (ok _) r h = inl (ap (λ q. q.1) h)
  Posts-atomic x s (err e) r h = inr (ap (λ q. q.0) h)

  payment-IsAtomic : IsAtomic (apply_transaction p)
  payment-IsAtomic x s = Posts-atomic x s _ _ (apply_transaction-Posts p x s)

  -- A block of the chosen requests applies to the state that they were chosen on.
  chosen-applies :
      {DB : Type 0} (max : ℤ) (b : Bridge DB) (block : Block)
      → let chosen = (select_executable p max b).0 in
        block.account_creates ≡ chosen.creates
        → block.transactions ≡ chosen.txs
        → block.account_closes ≡ chosen.closes
        → (t : State) × (apply_block p block (clone b.chain.state) ≡ (t, none))
  unfolding select_executable state_copy apply_block apply_creates apply_payments apply_closes
  chosen-applies max b block hc ht hx =
      let s = clone b.chain.state in
      let creates =
        select (λ x. x.id) (apply_account_create p) (pos_part max)
          (peek_creates (pos 0) b.create_pool) s in
      let remaining = pos_part max - length creates.chosen in
      let txs =
        select (λ x. x.id) (apply_transaction p) remaining (peek (pos 0) b.mempool) creates.state in
      let remaining' = remaining - length txs.chosen in
      let closes =
        select (λ x. x.id) (apply_account_close p) remaining' (peek_closes (pos 0) b.close_pool)
          txs.state in
      let first =
        select-applies (λ x. x.id) (apply_account_create p) (λ x. Errors.in_create x.id)
          create-IsAtomic (pos_part max) (peek_creates (pos 0) b.create_pool) s in
      let second =
        select-applies (λ x. x.id) (apply_transaction p) (λ x. Errors.in_transaction x.id)
          payment-IsAtomic remaining (peek (pos 0) b.mempool) creates.state in
      let third =
        select-applies (λ x. x.id) (apply_account_close p) (λ x. Errors.in_close x.id)
          close-IsAtomic remaining' (peek_closes (pos 0) b.close_pool) txs.state in
      (
        closes.state,
        rw (hc, ht, hx)
            (three_calls
              (apply_each (apply_account_create p) (λ x. Errors.in_create x.id) creates.chosen)
              (apply_each (apply_transaction p) (λ x. Errors.in_transaction x.id) txs.chosen)
              (apply_each (apply_account_close p) (λ x. Errors.in_close x.id) closes.chosen) s
              creates.state txs.state closes.state first second third),
      )

  -- For every bridge and every producer whose key signs and whose public key the chain's state lists
  -- for its validator: a block that CreateBlock makes at the next height, on the latest block, of the
  -- requests that selectExecutable chooses is accepted by ValidateBlock on the chain's state.
  pub produced-IsAccepted :
      {DB : Type 0} (max : ℤ) (b : Bridge DB) (producer : Producer) (now : ℕ) (prev block : Block)
      → Signs p producer.private_key
      → lookup producer.validator.id b.chain.state.validator_pub_keys
        ≡ some (p.ed25519_public producer.private_key)
      → latest_block b.chain ≡ ok prev
      → let chosen = (select_executable p max b).0 in
        create_block p producer now
            (add64 (height b.chain) (pos 1))
            prev
            chosen.txs
            chosen.creates
            chosen.closes
          ≡ ok block
        → (t : State) × (validate_block p block prev b.chain.state ≡ ok t)
  produced-IsAccepted max b producer now prev block signs known latest made =
      let chosen = (select_executable p max b).0 in
      let (_, proposes, accepted) =
        create_block-Proposes p producer now prev chosen.txs chosen.creates chosen.closes
          b.chain.state block signs known (rw (latest-height b prev latest) at made) in
      let (t, applied) =
        chosen-applies max b block proposes.account_creates proposes.transactions
          proposes.account_closes in
      (t, accepted ∙ ap result_of applied)
