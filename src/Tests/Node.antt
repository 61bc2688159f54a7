-- ===== src/Tests/Node.antt =====
-- Configuration, bootstrap, store and producer on concrete inputs.
use pixie_block.Base.{ℕ, ◌<◌, ◌+◌, ◌++◌, String, ◌≡◌, refl, [], ◌∷◌, true}
use pixie_block.Base.Int.{pos, ◌+ℤ◌}
use pixie_block.Base.Int64.{add64, wrap64}
use pixie_block.Base.Result.{ok}
use pixie_block.Domain.{Block}
use pixie_block.Crypto.{
  parse_public_key, parse_private_key, sign, verify, block_hash, block_sign_bytes,
}
use pixie_block.Config.{Genesis, Keystore, KeystoreEntry, ValidatorConfig, Taxes, validate}
use pixie_block.Ledger.State.{clone}
use pixie_block.Ledger.Blocks.{validate_block, apply_block, result_of}
use pixie_block.Storage.{load_blocks, decode_blocks, blocks_bucket, save_block_and_state}
use pixie_block.Storage.Sorting.{Loads, load_blocks-Loads}
use pixie_block.Storage.RoundTrips.{Saves, save_block_and_state-Saves}
use pixie_block.Consensus.Turns.{turn_comes}
use pixie_block.Consensus.{validator_for_height, Producer, can_produce, create_block, new_producer}
use pixie_block.Consensus.Proposals.{Signs, Proposes, create_block-Proposes, can_produce_unique}
use pixie_block.Tests.Samples.{
  toy, keys, key32, iss, ledger, genesis_block, next_block, payment, create, close,
}
use pixie_block.Tests.Backend.{files, two_files, files-StoresState}
use pixie_block.Tests.Ledger.{ledger-HasMaps}

abbrev pub taxes : Taxes
taxes = record { tax_split = ("ISS", iss) ∷ [] }

abbrev first_validator : ValidatorConfig
first_validator = record { id = "validator-1"; public_key = "k" }

abbrev pub genesis : Genesis
genesis = record {
  chain_id = "pixie";
  genesis_time = 0;
  block_time_seconds = pos 2;
  max_txs_per_block = pos 100;
  allowed_tax_accounts = "federal_treasury" ∷ [];
  validators = first_validator ∷ [];
  accounts =
      record { id = "federal_treasury"; type = "treasury"; balance = pos 0 }
      ∷ record { id = "shop"; type = "merchant"; balance = pos 10_000 }
      ∷ record { id = "ana"; type = "person"; balance = pos 300 }
      ∷ record { id = "rui"; type = "merchant"; balance = pos 0 }
      ∷ [];
}

abbrev key_of : String → KeystoreEntry
key_of id = record { account_id = id; private_key = "secret" }

abbrev pub keystore : Keystore
keystore = record { entries = key_of "shop" ∷ key_of "ana" ∷ key_of "rui" ∷ [] }

abbrev pub producer : Producer
producer = record { genesis = genesis; validator = first_validator; private_key = key32 5 }

taxes-valid : validate ("federal_treasury" ∷ []) taxes ≡ ok tt
unfolding validate
taxes-valid = refl

abbrev new_key : KeystoreEntry
new_key = record { account_id = "shop"; private_key = "other" }

load_blocks-Loads_example :
    Loads
      (decode_blocks files (files.for_each blocks_bucket two_files))
      (load_blocks files two_files)
load_blocks-Loads_example = load_blocks-Loads files two_files

two_files-loaded : load_blocks files two_files ≡ ok (genesis_block ∷ next_block ∷ [])
unfolding load_blocks
two_files-loaded = refl

save_block_and_state-Saves_example :
    Saves files ledger two_files (save_block_and_state files next_block ledger two_files)
save_block_and_state-Saves_example =
    save_block_and_state-Saves files next_block ledger two_files files-StoresState ledger-HasMaps

pub producer-Signs : Signs toy (key32 5)
unfolding sign verify
producer-Signs = record { present = λ message. refl; verifies = λ message. refl }

abbrev pub proposal : Block
proposal = record next_block { hash = 7 ∷ 1 ∷ []; signature = key32 5 }

proposal-made :
    create_block toy producer 0
      (add64 genesis_block.height (pos 1))
      genesis_block
      (payment ∷ [])
      (create ∷ [])
      (close ∷ [])
    ≡ ok proposal
unfolding create_block add64 wrap64 ◌+ℤ◌ block_hash block_sign_bytes sign can_produce
proposal-made = refl

create_block-Proposes_example :
    (can_produce (add64 genesis_block.height (pos 1)) producer ≡ ok true)
    × Proposes producer 0
        (add64 genesis_block.height (pos 1))
        genesis_block
        (payment ∷ [])
        (create ∷ [])
        (close ∷ [])
        proposal
    × (validate_block toy proposal genesis_block ledger
        ≡ result_of (apply_block toy proposal (clone ledger)))
create_block-Proposes_example =
    create_block-Proposes toy producer 0 genesis_block (payment ∷ []) (create ∷ []) (close ∷ [])
      ledger proposal producer-Signs refl proposal-made

producer-turn : can_produce (pos 1) producer ≡ ok true
unfolding can_produce validator_for_height
producer-turn = refl

-- Another node with the same validator.
abbrev twin : Producer
twin = record producer { private_key = [] }

twin-turn : can_produce (pos 1) twin ≡ ok true
unfolding can_produce validator_for_height
twin-turn = refl

can_produce_unique_example : producer.validator.id ≡ twin.validator.id
can_produce_unique_example = can_produce_unique (pos 1) producer twin refl producer-turn twin-turn

abbrev full_producer : Producer
full_producer = record producer { private_key = key32 5 ++ key32 5 }

full_producer-made : new_producer keys genesis "validator-1" "secret" ≡ ok full_producer
unfolding new_producer parse_public_key parse_private_key
full_producer-made = refl

-- Three validators, of which this one is the last.
abbrev third : Producer
third = record {
  genesis = record genesis {
    validators =
        first_validator
        ∷ record { id = "validator-2"; public_key = "k" }
        ∷ record { id = "validator-3"; public_key = "k" }
        ∷ [];
  };
  validator = record { id = "validator-3"; public_key = "k" };
  private_key = key32 5;
}

turn_comes_example :
    (d : ℕ) × (d < 3)
    × (validator_for_height (pos (7 + d)) third ≡ ok third.validator)
    × (can_produce (pos (7 + d)) third ≡ ok true)
turn_comes_example = turn_comes third 7 2 refl
