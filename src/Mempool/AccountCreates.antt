-- ===== src/Mempool/AccountCreates.antt =====
-- internal/mempool/account_creates.go: the pool of pending account creates.
use pixie_block.Base.{String, ⊤, List, [], Option, ℕ}
use pixie_block.Base.Int.{ℤ}
use pixie_block.Errors.{Error, Result}
use pixie_block.Domain.{AccountCreateTransaction}
use pixie_block.Ledger.State.{zero_account}
use pixie_block.Mempool.Requests.{
  RequestPool, try_add_request, remove_requests, commit_requests, peek_requests, len_requests,
  get_request,
}

abbrev pub AccountCreatePool : Type 0
AccountCreatePool = RequestPool AccountCreateTransaction

abbrev pub create_id : AccountCreateTransaction → String
create_id tx = tx.id

abbrev pub zero_create : AccountCreateTransaction
zero_create = record {
  id = "";
  timestamp = 0;
  account = zero_account;
  public_key = "";
  signature = [];
}

abbrev pub new_create_pool : AccountCreatePool
new_create_pool = record { items = []; order = [] }

abbrev pub try_add_create :
    AccountCreateTransaction
    → Option (Result ⊤)
    → AccountCreatePool
    → AccountCreatePool × Option Error
try_add_create tx check p = try_add_request create_id tx check p

abbrev pub remove_creates : List String → AccountCreatePool → AccountCreatePool
remove_creates ids p = remove_requests ids p

abbrev pub commit_creates :
    {W : Type 0}
    → List String
    → (W → W × Option Error)
    → AccountCreatePool × W
    → (AccountCreatePool × W) × Option Error
commit_creates ids fn s = commit_requests ids fn s

abbrev pub peek_creates : ℤ → AccountCreatePool → List AccountCreateTransaction
peek_creates max p = peek_requests zero_create max p

abbrev pub len_creates : AccountCreatePool → ℕ
len_creates p = len_requests p

abbrev pub get_create : String → AccountCreatePool → Option AccountCreateTransaction
get_create id p = get_request id p
