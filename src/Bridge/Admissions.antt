-- ===== src/Bridge/Admissions.antt =====
-- internal/p2p/bridge.go: the chain and the pools under the requests that peers send.
use pixie_block.Base.{String, Bool, true, false, ⊤, Option, some, subst, sym}
use pixie_block.Base.Dict.{contains}
use pixie_block.Base.Result.{ok, err}
use pixie_block.Errors.{Error, Result}
use pixie_block.Domain.{PaymentTransaction, AccountCreateTransaction, AccountCloseTransaction}
use pixie_block.Crypto.{Primitives}
use pixie_block.Ledger.State.{State}
use pixie_block.Ledger.State.Copy.{HasMaps}
use pixie_block.Ledger.Payment.Exact.{IsSolvent}
use pixie_block.Mempool.Pool.{Pool, reserved_at, run_check}
use pixie_block.Mempool.Pool.Invariant.{IsPool}
use pixie_block.Mempool.Pool.Insertion.{Adds, try_add-Adds}
use pixie_block.Mempool.Requests.{RequestPool, run_request_check}
use pixie_block.Mempool.Requests.Invariant.{IsRequestPool, AddsRequest, try_add_request-AddsRequest}
use pixie_block.Mempool.AccountCreates.{create_id}
use pixie_block.Mempool.AccountCloses.{close_id}
use pixie_block.Chain.{validate_admit, validate_create, validate_close}
use pixie_block.Chain.Admission.{validate_admit-Fits}
use pixie_block.Bridge.{Bridge, on_new_transaction, on_new_account_create, on_new_account_close}
use pixie_block.Bridge.Syncing.{IsBridge}

Adds-IsPool :
    (tx : PaymentTransaction) (pool : Pool) (r : Pool × Option Error) (known : Bool) (c : Result ⊤)
    → IsPool pool
    → Adds tx pool r known c
    → IsPool r.0
Adds-IsPool tx pool r true c v h = subst (λ x. IsPool x.0) (sym h) v
Adds-IsPool tx pool r false (err e) v h = subst (λ x. IsPool x.0) (sym h) v
Adds-IsPool tx pool r false (ok done) v h = h.1

AddsRequest-IsRequestPool :
    {T : Type 0} (id : String) (tx : T) (pool : RequestPool T) (r : RequestPool T × Option Error)
    (known : Bool) (c : Result ⊤)
    → IsRequestPool pool
    → AddsRequest id tx pool r known c
    → IsRequestPool r.0
AddsRequest-IsRequestPool id tx pool r true c v h = subst (λ x. IsRequestPool x.0) (sym h) v
AddsRequest-IsRequestPool id tx pool r false (err e) v h = subst (λ x. IsRequestPool x.0) (sym h) v
AddsRequest-IsRequestPool id tx pool r false (ok done) v h = h.1

module _ {DB : Type 0} (p : Primitives) (start : State) (b : Bridge DB)
    (v : IsBridge p start b) where
  pub on_new_transaction-IsBridge :
      (payload : Result PaymentTransaction)
      → HasMaps b.chain.state
      → IsSolvent b.chain.state
      → IsBridge p start (on_new_transaction p payload b).0
  unfolding on_new_transaction
  on_new_transaction-IsBridge (err e) maps solvent = v
  on_new_transaction-IsBridge (ok tx) maps solvent =
      let check = some (λ r. validate_admit p tx r b.chain) in
      record {
        replays = v.replays;
        mempool =
            Adds-IsPool tx b.mempool _ (contains tx.id b.mempool.items)
              (run_check check (reserved_at tx.payer.id b.mempool.reserved)) v.mempool
              (try_add-Adds tx check b.mempool v.mempool
                (validate_admit-Fits p tx b.chain b.mempool maps solvent v.mempool));
        create_pool = v.create_pool;
        close_pool = v.close_pool;
      }

  pub on_new_account_create-IsBridge :
      (payload : Result AccountCreateTransaction)
      → IsBridge p start (on_new_account_create p payload b).0
  unfolding on_new_account_create
  on_new_account_create-IsBridge (err e) = v
  on_new_account_create-IsBridge (ok tx) =
      let check = some (validate_create p tx b.chain) in
      record {
        replays = v.replays;
        mempool = v.mempool;
        create_pool =
            AddsRequest-IsRequestPool tx.id tx b.create_pool _ (contains tx.id b.create_pool.items)
              (run_request_check check) v.create_pool
              (try_add_request-AddsRequest create_id tx check b.create_pool v.create_pool);
        close_pool = v.close_pool;
      }

  pub on_new_account_close-IsBridge :
      (payload : Result AccountCloseTransaction)
      → IsBridge p start (on_new_account_close p payload b).0
  unfolding on_new_account_close
  on_new_account_close-IsBridge (err e) = v
  on_new_account_close-IsBridge (ok tx) =
      let check = some (validate_close p tx b.chain) in
      record {
        replays = v.replays;
        mempool = v.mempool;
        create_pool = v.create_pool;
        close_pool =
            AddsRequest-IsRequestPool tx.id tx b.close_pool _ (contains tx.id b.close_pool.items)
              (run_request_check check) v.close_pool
              (try_add_request-AddsRequest close_id tx check b.close_pool v.close_pool);
      }
