-- ===== src/Ledger/Blocks/Supply.antt =====
-- internal/ledger/state.go: ValidateBlock, the money supply and the signs of the balances.
use pixie_block.Base.{⊤, List, [], ◌∷◌, Option, none, some, ◌≡◌, refl, ap, ◌∙◌, subst, All}
use pixie_block.Base.Dict.{Dict}
use pixie_block.Base.Result.{ok, err}
use pixie_block.Errors
use pixie_block.Errors.{Error, Result}
use pixie_block.Domain.{
  TaxSplit, PaymentTransaction, AccountCreateTransaction, AccountCloseTransaction, Block,
}
use pixie_block.Crypto.{Primitives}
use pixie_block.Ledger.State.{State, Action, and_then}
use pixie_block.Ledger.State.Copy.{HasMaps, clone_lem}
use pixie_block.Ledger.Payment.{apply_transaction}
use pixie_block.Ledger.Payment.Supply.{supply}
use pixie_block.Ledger.Payment.Exact.{IsSolvent, HasExactTotals, apply_transaction-supply}
use pixie_block.Ledger.Accounts.{
  apply_account_create, validate_account_create, apply_account_close, validate_account_close,
}
use pixie_block.Ledger.Accounts.Opening.{
  Branches, apply_account_create-Branches, open_account-supply, open_account-IsSolvent,
}
use pixie_block.Ledger.Accounts.Closing.{Closes, apply_account_close-Closes}
use pixie_block.Ledger.Blocks.{
  apply_each, apply_creates, apply_payments, apply_closes, apply_block, validate_block,
}
use pixie_block.Ledger.Blocks.Header.{validate_block-IsLinked}
use pixie_block.Ledger.Blocks.Maps.{
  Follows, Follows-self, Follows-trans, apply_transaction-Follows, apply_account_create-Follows,
  apply_account_close-Follows,
}

-- The second state has the settings of the first, is solvent and holds as much money.
pub record Preserves (s t : State) : Type 0 where
  pub follows : Follows s t
  pub solvent : IsSolvent t
  pub total : supply t ≡ supply s

pub Preserves-trans : (s t u : State) → Preserves s t → Preserves t u → Preserves s u
Preserves-trans s t u f g = record {
  follows = Follows-trans s t u f.follows g.follows;
  solvent = g.solvent;
  total = g.total ∙ f.total;
}

-- What a call does to a state with proper maps that is solvent.
abbrev Keeps : Action → State → Type 0
Keeps act s = HasMaps s → IsSolvent s → Preserves s (act s).0

Branches-Preserves :
    (p : Primitives) (tx : AccountCreateTransaction) (s : State) (v : Result ⊤)
    (r : State × Option Error)
    → IsSolvent s
    → Follows s r.0
    → Branches p tx s r v
    → Preserves s r.0
Branches-Preserves p tx s (ok v) r solvent f (key, parsed, absent, h) = record {
  follows = f;
  solvent = rw h (open_account-IsSolvent tx key s absent solvent);
  total = rw h (open_account-supply tx key s absent);
}
Branches-Preserves p tx s (err e) r solvent f h = record {
  follows = f;
  solvent = rw h solvent;
  total = ap (λ x. supply x.0) h;
}

Closes-Preserves :
    (tx : AccountCloseTransaction) (s : State) (v : Result ⊤) (r : State × Option Error)
    → IsSolvent s
    → Follows s r.0
    → Closes tx s r v
    → Preserves s r.0
Closes-Preserves tx s (ok v) r solvent f h = record { follows = f; solvent = h.1; total = h.2 }
Closes-Preserves tx s (err e) r solvent f h = record {
  follows = f;
  solvent = rw h solvent;
  total = ap (λ x. supply x.0) h;
}

-- A loop keeps what each call keeps, as long as the items fit the tax table of the first state.
apply_each-Preserves :
    {T : Type 0} (Q : Dict TaxSplit → T → Type 0) (apply : T → Action) (wrap : T → Error → Error)
    → ((x : T) (s : State) → Q s.tax_split x → Keeps (apply x) s)
    → (xs : List T) (s : State) → All (Q s.tax_split) xs
    → Keeps (apply_each apply wrap xs) s
unfolding apply_each
apply_each-Preserves Q apply wrap keep [] s q m v = record {
  follows = Follows-self s m;
  solvent = v;
  total = refl;
}
apply_each-Preserves Q apply wrap keep (x ∷ xs) s q m v =
    let done = keep x s q.0 m v in
    let rest =
      apply_each-Preserves Q apply wrap keep xs (apply x s).0 (rw done.follows.taxes q.1)
        done.follows.maps done.solvent in
    loop_step (apply x s).0 (apply x s).1 done rest
  where
    loop_step :
        (t : State) (e : Option Error)
        → Preserves s t
        → Preserves t (apply_each apply wrap xs t).0
        → let r : State × Option Error = elim e [
          | none ↦ apply_each apply wrap xs t
          | some f ↦ (t, some (wrap x f))
        ] in
          Preserves s r.0
    loop_step t none done rest = Preserves-trans s t _ done rest
    loop_step t (some f) done rest = done

and_then-Preserves :
    (first rest : Action) (s : State)
    → Preserves s (first s).0
    → Preserves (first s).0 (rest (first s).0).0
    → Preserves s (and_then first rest s).0
and_then-Preserves first rest s f g = joined (first s).0 (first s).1 f g
  where
    joined :
        (t : State) (e : Option Error)
        → Preserves s t
        → Preserves t (rest t).0
        → let r : State × Option Error = elim e [ none ↦ rest t | some x ↦ (t, some x) ] in
          Preserves s r.0
    joined t none f g = Preserves-trans s t _ f g
    joined t (some x) f g = f

-- Creates and closes are kept with no condition on the tax table.
any_each-Preserves :
    {T : Type 0} (apply : T → Action) (wrap : T → Error → Error)
    → ((x : T) (s : State) → Keeps (apply x) s)
    → (xs : List T) (s : State) → Keeps (apply_each apply wrap xs) s
any_each-Preserves {T} apply wrap keep xs s =
    apply_each-Preserves (λ taxes x. ⊤) apply wrap (λ x t q. keep x t) xs s (all_of xs)
  where
    all_of : (ys : List T) → All (λ y. ⊤) ys
    all_of [] = tt
    all_of (y ∷ ys) = (tt, all_of ys)

module _ (p : Primitives) where
  create-Keeps : (tx : AccountCreateTransaction) (s : State) → Keeps (apply_account_create p tx) s
  create-Keeps tx s m v =
      Branches-Preserves p tx s (validate_account_create p tx s) (apply_account_create p tx s) v
        (apply_account_create-Follows p tx s m) (apply_account_create-Branches p tx s)

  payment-Keeps :
      (tx : PaymentTransaction) (s : State)
      → HasExactTotals s.tax_split tx
      → Keeps (apply_transaction p tx) s
  payment-Keeps tx s exact m v =
      let (solvent, total) = apply_transaction-supply p tx s v exact in
      record { follows = apply_transaction-Follows p tx s m; solvent = solvent; total = total }

  close-Keeps : (tx : AccountCloseTransaction) (s : State) → Keeps (apply_account_close p tx) s
  close-Keeps tx s m v =
      Closes-Preserves tx s (validate_account_close p tx s) (apply_account_close p tx s) v
        (apply_account_close-Follows p tx s m) (apply_account_close-Closes p tx s m.accounts v)

  apply_block-Keeps :
      (block : Block) (s : State)
      → All (HasExactTotals s.tax_split) block.transactions
      → Keeps (apply_block p block) s
  unfolding apply_block apply_creates apply_payments apply_closes
  apply_block-Keeps block s exact m v =
      let t : State = (apply_creates p block s).0 in
      let creates : Preserves s t =
        any_each-Preserves (apply_account_create p) (λ x. Errors.in_create x.id) create-Keeps
          block.account_creates s m v in
      let payments : Preserves t (apply_payments p block t).0 =
        apply_each-Preserves HasExactTotals (apply_transaction p) (λ x. Errors.in_transaction x.id)
          payment-Keeps block.transactions t (rw creates.follows.taxes exact) creates.follows.maps
          creates.solvent in
      and_then-Preserves (apply_creates p block)
        (and_then (apply_payments p block) (apply_closes p block)) s creates
        (and_then-Preserves (apply_payments p block) (apply_closes p block) t payments (
          any_each-Preserves (apply_account_close p) (λ x. Errors.in_close x.id) close-Keeps
            block.account_closes _ payments.follows.maps payments.solvent))

  -- For every block that ValidateBlock accepts on a solvent state (no balance negative, their sum an
  -- int64 value) with each key once in each map, where no payment of the block has int64 totals that
  -- wrap or a negative tax or discount amount: the new state is solvent, the sum of all balances is
  -- what it was, each key stands once in each map, and the tax table, the allowed tax accounts and
  -- the validators are those of the old state.
  pub validate_block-Preserves :
      (block prev : Block) (s next : State)
      → HasMaps s
      → IsSolvent s
      → All (HasExactTotals s.tax_split) block.transactions
      → validate_block p block prev s ≡ ok next
      → Preserves s next
  validate_block-Preserves block prev s next m v exact h =
      let applied = (validate_block-IsLinked p block prev s next h).1 in
      ap_fst (rw (clone_lem s m) at applied) (apply_block-Keeps block s exact m v)
    where
      ap_fst : {r : State × Option Error} → r ≡ (next, none) → Preserves s r.0 → Preserves s next
      ap_fst e f = subst (λ x. Preserves s x.0) e f
