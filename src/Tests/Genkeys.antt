-- ===== src/Tests/Genkeys.antt =====
-- The generation of keys on concrete inputs.
use pixie_block.Base.{
  ℕ, List, [], ◌∷◌, ◌++◌, some, ◌≡◌, refl, arith, length, nat_eq, subst, ◌==◌, if◌then◌else◌,
}
use pixie_block.Base.Int.{pos}
use pixie_block.Base.Result.{ok}
use pixie_block.Errors.{Result}
use pixie_block.Domain.{Bytes}
use pixie_block.Crypto.{Primitives}
use pixie_block.Config.{AccountConfig, Taxes, validate}
use pixie_block.Ledger.State.{State}
use pixie_block.Node.{build_initial_state}
use pixie_block.Consensus.{Producer, new_producer}
use pixie_block.Genkeys.{Generated, generate, keystore_entries, genesis_for}
use pixie_block.Genkeys.Acceptance.{Generates, generate-IsAccepted}
use pixie_block.Tests.Samples.{toy, key32, iss}

abbrev private_key : Bytes
private_key = key32 5 ++ key32 5

-- Texts for keys of the two sizes.
abbrev coded : Primitives
coded = record toy {
  base64_encode = λ bs. if nat_eq (length bs) 64 then "private" else "public";
  base64_decode = λ text. if text == "private" then some private_key else some (key32 5);
}

abbrev one_key : ℕ → Result Bytes
one_key i = ok private_key

one_key-Generates : Generates coded one_key
one_key-Generates = record {
  private_size =
      λ i priv h. let e : private_key ≡ priv = ground arith in subst (λ x. length x ≡ 64) e refl;
  public_size = λ i priv h. refl;
  private_decoded = λ i priv h.
      let e : private_key ≡ priv = ground arith in
      subst (λ x. coded.base64_decode (coded.base64_encode x) ≡ some x) e refl;
  public_decoded = λ i priv h. refl;
}

abbrev accounts : List AccountConfig
accounts =
    record { id = "federal_treasury"; type = "treasury"; balance = pos 0 }
    ∷ record { id = "ana"; type = "person"; balance = pos 300 }
    ∷ []

abbrev table : Taxes
table = record { tax_split = ("ISS", iss) ∷ [] }

abbrev files : Generated
files = record {
  genesis = genesis_for coded 7 private_key accounts;
  keystore = record {
    entries =
        record { account_id = "federal_treasury"; private_key = "private" }
        ∷ record { account_id = "ana"; private_key = "private" }
        ∷ [];
  };
  validator_id = "validator-1";
  validator_key = "private";
}

files-generated : generate coded one_key 7 accounts ≡ ok files
unfolding generate keystore_entries
files-generated = refl

table-valid : validate files.genesis.allowed_tax_accounts table ≡ ok tt
unfolding validate
table-valid = refl

generate-IsAccepted_example :
    ((s : State) × (build_initial_state coded files.genesis files.keystore table ≡ ok s))
    × ((producer : Producer) × (new_producer coded files.genesis files.validator_id
            files.validator_key
          ≡ ok producer))
generate-IsAccepted_example =
    generate-IsAccepted coded one_key one_key-Generates 7 accounts files table files-generated
      table-valid
