-- ===== src/Storage.antt =====
-- internal/storage/bolt/store.go: blocks and the ledger state in a bbolt database. The database and
-- the JSON codecs are the fields of `Backend`. An Update that fails is rolled back.
pub mod Sorting
pub mod RoundTrips
use pixie_block.Base.{
  ℕ, String, Bool, true, false, ⊤, List, [], ◌∷◌, Option, none, some, map, length, zero, suc,
  if◌then◌else◌,
}
use pixie_block.Base.Int.{ℤ, ltb_ℤ}
use pixie_block.Base.Dict.{Dict, copy_into}
use pixie_block.Base.Result.{ok, err, ◌>>=◌, or_fail}
use pixie_block.Errors
use pixie_block.Errors.{Error, Result}
use pixie_block.Domain.{Bytes, Account, Block, TaxSplit}
use pixie_block.Ledger.State.{State, new_state}

-- What of a state is kept; the keys are not.
pub record PersistedState : Type 0 where
  pub accounts : Dict Account
  pub allowed_tax_accts : List String
  pub tax_split : Dict TaxSplit

abbrev pub blocks_bucket : String
blocks_bucket = "blocks"

abbrev pub state_bucket : String
state_bucket = "state"

abbrev pub state_key : String
state_key = "current"

-- bbolt on a database of type `DB`, and `encoding/json` with `fmt`.
pub record Backend (DB : Type 0) : Type 0 where
  pub put : String → String → Bytes → DB → Option DB  -- Bucket.Put in an open transaction
  pub get : String → String → DB → Option Bytes
  pub for_each : String → DB → List (String × Bytes)  -- in the order of the keys
  pub commits : DB → Bool  -- whether the commit at the end of Update succeeds
  pub marshal_block : Block → Option Bytes
  pub unmarshal_block : Bytes → Option Block
  pub marshal_payload : PersistedState → Option Bytes
  pub unmarshal_payload : Bytes → Option PersistedState
  pub format_height : ℤ → String  -- fmt.Sprintf("%020d", height)

abbrev pub keys_of : Dict ⊤ → List String
keys_of d = map (λ e. e.0) d

unfoldable pub persist : State → PersistedState
persist s = record {
  accounts = s.accounts;
  allowed_tax_accts = keys_of s.allowed_tax_accts;
  tax_split = s.tax_split;
}

-- LoadState on the decoded payload.
unfoldable pub restore : PersistedState → State
restore payload =
    let s = new_state payload.allowed_tax_accts payload.tax_split in
    record s { accounts = copy_into s.accounts payload.accounts }

-- `for j := i + 1; ...; if blocks[j].Height < blocks[i].Height { swap }`: from the block at `i` and
-- the blocks behind it, the block that `i` ends with and the blocks behind it then.
abbrev pub sweep : Block → List Block → Block × List Block
sweep b [] = (b, [])
sweep b (c ∷ cs) =
    let less = ltb_ℤ c.height b.height in
    let (least, rest) = sweep (if less then c else b) cs in (least, (if less then b else c) ∷ rest)

-- The outer loop, over as many positions as there are blocks.
abbrev pub sort_rounds : ℕ → List Block → List Block
sort_rounds zero bs = bs
sort_rounds (suc n) [] = []
sort_rounds (suc n) (b ∷ bs) = let (least, rest) = sweep b bs in least ∷ sort_rounds n rest

module _ {DB : Type 0} (back : Backend DB) where
  -- `s.db.Update(fn)`
  unfoldable pub update : (DB → Result DB) → DB → DB × Option Error
  update fn db = elim (fn db) [
    | err e ↦ (db, some e)
    | ok written ↦ if back.commits written then (written, none) else (db, some Errors.store_failed)
  ]

  unfoldable pub marshal_state : State → Result Bytes
  unfolding persist
  marshal_state s = or_fail (back.marshal_payload (persist s)) Errors.marshal_failed

  put_block : Block → Bytes → DB → Result DB
  put_block block encoded db =
      or_fail (back.put blocks_bucket (back.format_height block.height) encoded db)
        Errors.store_failed

  put_state : Bytes → DB → Result DB
  put_state encoded db = or_fail (back.put state_bucket state_key encoded db) Errors.store_failed

  unfoldable pub save_block : Block → DB → DB × Option Error
  unfolding update put_block
  save_block block db = elim (back.marshal_block block) [
    | none ↦ (db, some Errors.marshal_failed)
    | some encoded ↦ update (put_block block encoded) db
  ]

  unfoldable pub save_state : State → DB → DB × Option Error
  unfolding update put_state marshal_state
  save_state s db = elim (marshal_state s) [
    | err e ↦ (db, some e)
    | ok encoded ↦ update (put_state encoded) db
  ]

  unfoldable pub save_block_and_state : Block → State → DB → DB × Option Error
  unfolding update put_block put_state marshal_state
  save_block_and_state block s db = elim (back.marshal_block block) [
    | none ↦ (db, some Errors.marshal_failed)
    | some block_data ↦ elim (marshal_state s) [
      | err e ↦ (db, some e)
      | ok state_data ↦
          update
            (λ d. put_block block block_data d >>= λ with_block. put_state state_data with_block) db
    ]
  ]

  pub decode_blocks : List (String × Bytes) → Result (List Block)
  decode_blocks [] = ok []
  decode_blocks ((k, v) ∷ entries) = do
    block ← or_fail (back.unmarshal_block v) Errors.unmarshal_failed
    blocks ← decode_blocks entries
    ok (block ∷ blocks)

  unfoldable pub load_blocks : DB → Result (List Block)
  unfolding decode_blocks
  load_blocks db = do
    blocks ← decode_blocks (back.for_each blocks_bucket db)
    ok (sort_rounds (length blocks) blocks)

  unfoldable pub load_state : DB → Result (Option State)
  unfolding restore
  load_state db = elim (back.get state_bucket state_key db) [
    | none ↦ ok none
    | some encoded ↦ elim (back.unmarshal_payload encoded) [
      | none ↦ err Errors.unmarshal_failed
      | some payload ↦ ok (some (restore payload))
    ]
  ]
