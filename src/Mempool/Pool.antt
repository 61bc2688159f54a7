-- ===== src/Mempool/Pool.antt =====
-- internal/mempool/pool.go. Each method holds the pool's lock from start to end, so it is one step
-- on the pool.
pub mod Invariant
pub mod Insertion
pub mod Removal
pub mod Views
use pixie_block.Base.{
  ℕ, zero, suc, String, Bool, true, false, ⊤, List, [], ◌∷◌, ◌++◌, Option, none, some, length, take,
  map, filter_by, ltb, ◌||◌, if◌then◌else◌,
}
use pixie_block.Base.Int.{ℤ, pos, pos_part, leb_ℤ, ltb_ℤ}
use pixie_block.Base.Int64.{add64, sub64}
use pixie_block.Base.Dict.{Dict, lookup, contains, insert, erase}
use pixie_block.Base.Result.{ok, err}
use pixie_block.Errors
use pixie_block.Errors.{Error, Result}
use pixie_block.Domain.{PaymentTransaction, gross_amount}
use pixie_block.Ledger.State.{zero_account}

pub record Pool : Type 0 where
  pub items : Dict PaymentTransaction
  pub order : List String
  pub reserved : Dict ℤ  -- pending gross spends per payer

unfoldable pub new : Pool
new = record { items = []; order = []; reserved = [] }

-- `p.reserved[payer]`, 0 for a missing key.
abbrev pub reserved_at : String → Dict ℤ → ℤ
reserved_at payer d = elim (lookup payer d) [ none ↦ pos 0 | some r ↦ r ]

-- `p.items[id]` for a missing key.
abbrev pub zero_transaction : PaymentTransaction
zero_transaction = record {
  id = "";
  timestamp = 0;
  payer = zero_account;
  payee = zero_account;
  items = [];
  signature = [];
}

-- The optional test, on the amount already reserved for the payer.
abbrev pub run_check : Option (ℤ → Result ⊤) → ℤ → Result ⊤
run_check none r = ok tt
run_check (some check) r = check r

unfoldable pub add_entry : PaymentTransaction → Pool → Pool
add_entry tx p = record {
  items = insert tx.id tx p.items;
  order = p.order ++ tx.id ∷ [];
  reserved =
      insert tx.payer.id (add64 (reserved_at tx.payer.id p.reserved) (gross_amount tx)) p.reserved;
}

unfoldable pub try_add : PaymentTransaction → Option (ℤ → Result ⊤) → Pool → Pool × Option Error
unfolding add_entry
try_add tx check p =
    if contains tx.id p.items
    then (p, some (Errors.already_in_mempool tx.id))
    else elim (run_check check (reserved_at tx.payer.id p.reserved)) [
      | ok _ ↦ (add_entry tx p, none)
      | err e ↦ (p, some e)
    ]

unfoldable pub add : PaymentTransaction → Pool → Pool × Option Error
unfolding try_add
add tx p = try_add tx none p

release_locked : PaymentTransaction → Pool → Pool
release_locked tx p =
    let payer = tx.payer.id in
    let left = sub64 (reserved_at payer p.reserved) (gross_amount tx) in
    record p {
      reserved =
          if leb_ℤ left (pos 0)
          then erase payer (insert payer left p.reserved)
          else insert payer left p.reserved;
    }

-- The first loop of removeLocked.
remove_entry : String → Pool → Pool
unfolding release_locked
remove_entry id p = elim (lookup id p.items) [
  | none ↦ p
  | some tx ↦ let q = release_locked tx p in record q { items = erase id q.items }
]

pub remove_entries : List String → Pool → Pool
unfolding remove_entry
remove_entries [] p = p
remove_entries (id ∷ ids) p = remove_entries ids (remove_entry id p)

-- The second loop keeps the order of what is left.
pub keep_order : Pool → Pool
keep_order p = record p { order = filter_by (λ id. contains id p.items) p.order }

unfoldable pub remove : List String → Pool → Pool
unfolding remove_entries keep_order
remove ids p = keep_order (remove_entries ids p)

-- `fn` changes what the caller owns, of type `W`, and may fail.
unfoldable pub commit :
    {W : Type 0} → List String → (W → W × Option Error) → Pool × W → (Pool × W) × Option Error
unfolding remove
commit ids fn (p, w) =
    let (w', e) = fn w in elim e [ none ↦ ((remove ids p, w'), none) | some x ↦ ((p, w'), some x) ]

-- The number of entries that a positive `max` within the length asks for, all of them otherwise.
abbrev pub peek_count : ℤ → ℕ → ℕ
peek_count max n = if leb_ℤ max (pos 0) || ltb_ℤ (pos n) max then n else pos_part max

-- The ids at the indices below a bound. An index past the end, at which Go panics, is read as the empty
-- id.
abbrev pub first_ids : ℕ → List String → List String
first_ids zero ids = []
first_ids (suc n) [] = "" ∷ first_ids n []
first_ids (suc n) (id ∷ ids) = id ∷ first_ids n ids

abbrev pub item_at : Pool → String → PaymentTransaction
item_at p id = elim (lookup id p.items) [ none ↦ zero_transaction | some tx ↦ tx ]

unfoldable pub peek : ℤ → Pool → List PaymentTransaction
peek max p = map (item_at p) (first_ids (peek_count max (length p.order)) p.order)

unfoldable pub len : Pool → ℕ
len p = length p.order

unfoldable pub reserved : String → Pool → ℤ
reserved payer p = reserved_at payer p.reserved

unfoldable pub get : String → Pool → Option PaymentTransaction
get id p = lookup id p.items
