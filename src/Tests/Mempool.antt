-- ===== src/Tests/Mempool.antt =====
-- The pools on concrete inputs.
use pixie_block.Base.{
  ◌≡◌, refl, [], ◌∷◌, none, some, arith, map, List, Option, ◌++◌, length, member, if◌then◌else◌,
  String, false,
}
use pixie_block.Base.Int.{ℤ, pos, ◌+ℤ◌}
use pixie_block.Base.Int64.{add64, wrap64}
use pixie_block.Base.Dict.{lookup, contains}
use pixie_block.Domain.{PaymentTransaction, AccountCreateTransaction, gross_amount}
use pixie_block.Mempool.Pool.{Pool, new, try_add, remove, commit, peek, reserved_at, run_check}
use pixie_block.Mempool.Pool.Invariant.{IsPool, Fits, new-IsPool}
use pixie_block.Mempool.Pool.Insertion.{Adds, try_add-Adds}
use pixie_block.Mempool.Pool.Removal.{Loses, remove-IsPool}
use pixie_block.Mempool.Pool.Views.{peek-pending, commit-IsPool}
use pixie_block.Mempool.Requests.{RequestPool, try_add_request, remove_requests, run_request_check}
use pixie_block.Mempool.Requests.Invariant.{
  IsRequestPool, AddsRequest, try_add_request-AddsRequest, remove_requests-IsRequestPool,
}
use pixie_block.Tests.Samples.{payment, create}

payment-Fits : Fits payment new
unfolding gross_amount add64 wrap64 ◌+ℤ◌ new
payment-Fits = record { positive = omega arith; bounded = omega arith }

try_add-Adds_example :
    Adds payment new
      (try_add payment none new)
      (contains payment.id new.items)
      (run_check none (reserved_at payment.payer.id new.reserved))
try_add-Adds_example = try_add-Adds payment none new new-IsPool (λ checked. payment-Fits)

-- The pool with the one payment.
abbrev filled : Pool
unfolding try_add
filled = (try_add payment none new).0

filled-IsPool : IsPool filled
unfolding filled new
filled-IsPool = (try_add-Adds payment none new new-IsPool (λ checked. payment-Fits)).1

filled-peek : peek (pos 0) filled ≡ payment ∷ []
unfolding filled new peek gross_amount add64 wrap64 ◌+ℤ◌
filled-peek = refl

remove-IsPool_example :
    IsPool (remove ("tx-1" ∷ []) filled)
    × ((id : String)
        → contains id (remove ("tx-1" ∷ []) filled).items
          ≡ (if member id ("tx-1" ∷ []) then false else contains id filled.items))
remove-IsPool_example = remove-IsPool ("tx-1" ∷ []) filled filled-IsPool

peek-pending_example :
    (rest : List (Option PaymentTransaction)) × (map some (peek (pos 5) filled) ++ rest
      ≡ map (λ id. lookup id filled.items) filled.order)
    × (pos (length (peek (pos 5) filled)) ≡ pos (length filled.order))
unfolding filled new
peek-pending_example = peek-pending (pos 5) filled filled-IsPool

commit-IsPool_example :
    let r = commit ("tx-1" ∷ []) (λ (w : ℤ). (pos 1, none)) (filled, pos 0) in
    (r.1 ≡ none) × (r.0.1 ≡ pos 1) × IsPool r.0.0 × Loses ("tx-1" ∷ []) filled r.0.0
commit-IsPool_example =
    commit-IsPool ("tx-1" ∷ []) (λ (w : ℤ). (pos 1, none)) filled (pos 0) filled-IsPool

abbrev create_id : AccountCreateTransaction → String
create_id tx = tx.id

abbrev no_creates : RequestPool AccountCreateTransaction
no_creates = record { items = []; order = [] }

no_creates-IsRequestPool : IsRequestPool no_creates
no_creates-IsRequestPool = record { map = tt; distinct = tt; listed = λ id. refl }

try_add_request-AddsRequest_example :
    AddsRequest "c-1" create no_creates
      (try_add_request create_id create none no_creates)
      (contains "c-1" no_creates.items)
      (run_request_check none)
try_add_request-AddsRequest_example =
    try_add_request-AddsRequest create_id create none no_creates no_creates-IsRequestPool

abbrev one_create : RequestPool AccountCreateTransaction
one_create = record { items = ("c-1", create) ∷ []; order = "c-1" ∷ [] }

one_create-IsRequestPool : IsRequestPool one_create
one_create-IsRequestPool = record {
  map = (refl, tt);
  distinct = (refl, tt);
  listed = λ id. ground arith;
}

remove_requests-IsRequestPool_example :
    IsRequestPool (remove_requests ("c-1" ∷ []) one_create)
    × ((id : String)
        → contains id (remove_requests ("c-1" ∷ []) one_create).items
          ≡ (if member id ("c-1" ∷ []) then false else contains id one_create.items))
remove_requests-IsRequestPool_example =
    remove_requests-IsRequestPool ("c-1" ∷ []) one_create one_create-IsRequestPool
