-- ===== src/Storage/RoundTrips.antt =====
-- internal/storage/bolt/store.go: what is loaded after a save.
use pixie_block.Base.{
  String, [], ◌∷◌, Option, none, some, ◌≡◌, refl, sym, subst, arith, Option-cases, Bool-cases, inl,
  inr, ⊤,
}
use pixie_block.Base.Dict.{Dict, copy_into_empty, copy_into, insert}
use pixie_block.Base.Result.{ok}
use pixie_block.Errors
use pixie_block.Errors.{Error, Result}
use pixie_block.Domain.{Bytes, Block}
use pixie_block.Ledger.State.{State, new_state, allow_all}
use pixie_block.Ledger.State.Copy.{HasMaps}
use pixie_block.Storage.{
  Backend, persist, restore, save_block_and_state, load_state, state_bucket, state_key, update,
  blocks_bucket, put_block, put_state, marshal_state, keys_of,
}

-- What is relied on of bbolt and of the JSON codec: a value that was put is what get yields, and the
-- state, once encoded, is what decoding yields.
pub record StoresState {DB : Type 0} (back : Backend DB) (s : State) : Type 0 where
  pub stored :
      (bucket key : String) (v : Bytes) (db written : DB)
      → back.put bucket key v db ≡ some written
      → back.get bucket key written ≡ some v
  pub decoded :
      (v : Bytes)
      → back.marshal_payload (persist s) ≡ some v
      → back.unmarshal_payload v ≡ some (persist s)

-- The state without the keys of validators and accounts, which are not persisted.
abbrev pub without_keys : State → State
without_keys s = record s { validator_pub_keys = []; account_pub_keys = [] }

allow_keys : (acc d : Dict ⊤) → allow_all acc (keys_of d) ≡ copy_into acc d
allow_keys acc [] = refl
allow_keys acc ((k, tt) ∷ d) = allow_keys (insert k tt acc) d

restore-persist : (s : State) → HasMaps s → restore (persist s) ≡ without_keys s
unfolding restore persist new_state
restore-persist s h = ground (
  arith,
  copy_into_empty s.accounts h.accounts,
  copy_into_empty s.tax_split h.tax_split,
  allow_keys [] s.allowed_tax_accts,
  copy_into_empty s.allowed_tax_accts h.allowed_tax_accts,
)

-- What SaveBlockAndState returns and what LoadState makes of the database then.
abbrev pub Saves : {DB : Type 0} → Backend DB → State → DB → DB × Option Error → Type 0
Saves back s db (after, some e) = after ≡ db
Saves back s db (after, none) = load_state back after ≡ ok (some (without_keys s))

load_put :
    {DB : Type 0} (back : Backend DB) (s : State) (v : Bytes) (db written : DB)
    → StoresState back s
    → HasMaps s
    → back.marshal_payload (persist s) ≡ some v
    → back.put state_bucket state_key v db ≡ some written
    → load_state back written ≡ ok (some (without_keys s))
unfolding load_state
load_put back s v db written stores maps encoded put = ground (
  arith,
  stores.stored state_bucket state_key v db written put,
  stores.decoded v encoded,
  restore-persist s maps,
)

Saves-failed :
    {DB : Type 0} (back : Backend DB) (s : State) (db : DB) (e : Error) (r : DB × Option Error)
    → r ≡ (db, some e)
    → Saves back s db r
Saves-failed back s db e r h = subst (Saves back s db) (sym h) refl

Saves-done :
    {DB : Type 0} (back : Backend DB) (s : State) (db written : DB) (r : DB × Option Error)
    → r ≡ (written, none)
    → load_state back written ≡ ok (some (without_keys s))
    → Saves back s db r
Saves-done back s db written r h = subst (Saves back s db) (sym h)

-- For every block, database and state with each key once in each map, where bbolt yields what was put
-- and the codec decodes the state that it encoded: if SaveBlockAndState returns an error the database is as it
-- was, and if it returns none LoadState then loads the state, but for the keys, which are not stored.
pub save_block_and_state-Saves :
    {DB : Type 0} (back : Backend DB) (block : Block) (s : State) (db : DB)
    → StoresState back s
    → HasMaps s
    → Saves back s db (save_block_and_state back block s db)
unfolding save_block_and_state update marshal_state put_block put_state
save_block_and_state-Saves back block s db stores maps =
    elim (Option-cases (back.marshal_block block)) [
      | inl e ↦ Saves-failed back s db Errors.marshal_failed _ (ground arith)
      | inr (block_data, e) ↦ elim (Option-cases (back.marshal_payload (persist s))) [
        | inl f ↦ Saves-failed back s db Errors.marshal_failed _ (ground arith)
        | inr (state_data, f) ↦
            elim (Option-cases
              (back.put blocks_bucket (back.format_height block.height) block_data db)) [
                | inl g ↦ Saves-failed back s db Errors.store_failed _ (ground arith)
                | inr (with_block, g) ↦
                    elim (Option-cases (back.put state_bucket state_key state_data with_block)) [
                      | inl h ↦ Saves-failed back s db Errors.store_failed _ (ground arith)
                      | inr (written, h) ↦ elim (Bool-cases (back.commits written)) [
                        | inr k ↦ Saves-failed back s db Errors.store_failed _ (ground arith)
                        | inl k ↦
                            Saves-done back s db written _ (ground arith)
                              (load_put back s state_data with_block written stores maps f h)
                      ]
                    ]
              ]
      ]
    ]
