-- ===== src/Genkeys/Acceptance.antt =====
-- tools/genkeys.go with internal/node/bootstrap.go and internal/consensus/poa/producer.go: a node that
-- starts from the files.
use pixie_block.Base.{
  ℕ, suc, String, List, [], ◌∷◌, Option, none, some, ◌≡◌, refl, ap, ◌∙◌, subst, arith, length, All,
  inl, inr, bytes_eq_refl,
}
use pixie_block.Base.Result.{ok, Result-cases}
use pixie_block.Errors
use pixie_block.Errors.{Error, Result}
use pixie_block.Domain.{Bytes}
use pixie_block.Crypto.{Primitives, parse_public_key, parse_private_key}
use pixie_block.Config.{AccountConfig, KeystoreEntry, Taxes, validate}
use pixie_block.Ledger.State.{
  State, Action, new_state, and_then, add_validator, set_account_pub_key,
}
use pixie_block.Ledger.Blocks.{result_of}
use pixie_block.Node.{set_accounts, add_validators, add_keys, build_initial_state}
use pixie_block.Consensus.{Producer, new_producer}
use pixie_block.Genkeys.{Generated, keystore_entries, genesis_for, generate}

-- What is documented of ed25519.GenerateKey and of base64.
pub record Generates (p : Primitives) (generate_key : ℕ → Result Bytes) : Type 0 where
  pub private_size : (i : ℕ) (priv : Bytes) → generate_key i ≡ ok priv → length priv ≡ 64
  pub public_size :
      (i : ℕ) (priv : Bytes) → generate_key i ≡ ok priv → length (p.ed25519_public priv) ≡ 32
  pub private_decoded :
      (i : ℕ) (priv : Bytes)
      → generate_key i ≡ ok priv
      → p.base64_decode (p.base64_encode priv) ≡ some priv
  pub public_decoded :
      (i : ℕ) (priv : Bytes)
      → generate_key i ≡ ok priv
      → p.base64_decode (p.base64_encode (p.ed25519_public priv)) ≡ some (p.ed25519_public priv)

and_then-next :
    (first rest : Action) (s t : State) (r : State × Option Error)
    → first s ≡ (t, none)
    → rest t ≡ r
    → and_then first rest s ≡ r
and_then-next first rest s t r e h =
    ap (λ x. elim x.1 as (λ o. State × Option Error) [ none ↦ rest x.0 | some y ↦ (x.0, some y) ]) e
    ∙ h

module _ (p : Primitives) (generate_key : ℕ → Result Bytes) (g : Generates p generate_key) where
  parse_private-encode :
      (i : ℕ) (priv : Bytes)
      → generate_key i ≡ ok priv
      → parse_private_key p (p.base64_encode priv) ≡ ok priv
  unfolding parse_private_key
  parse_private-encode i priv h =
      ground (arith, g.private_decoded i priv h, g.private_size i priv h)

  parse_public-encode :
      (i : ℕ) (priv : Bytes)
      → generate_key i ≡ ok priv
      → parse_public_key p (p.base64_encode (p.ed25519_public priv)) ≡ ok (p.ed25519_public priv)
  unfolding parse_public_key
  parse_public-encode i priv h = ground (arith, g.public_decoded i priv h, g.public_size i priv h)

  -- Every entry of the keystore parses.
  abbrev Parses : KeystoreEntry → Type 0
  Parses e = (key : Bytes) × (parse_private_key p e.private_key ≡ ok key)

  keystore_entries-Parses :
      (i : ℕ) (accounts : List AccountConfig) (entries : List KeystoreEntry)
      → keystore_entries p generate_key i accounts ≡ ok entries
      → All Parses entries
  unfolding keystore_entries
  keystore_entries-Parses i [] entries h =
      let same : [] ≡ entries = ground arith in subst (All Parses) same tt
  keystore_entries-Parses i (acct ∷ accounts) entries h = elim (Result-cases (generate_key i)) [
    | inr (e, f) ↦ absurd (ground arith)
    | inl (priv, f) ↦ elim (Result-cases (keystore_entries p generate_key (suc i) accounts)) [
      | inr (e, k) ↦ absurd (ground arith)
      | inl (rest, k) ↦
          let entry : KeystoreEntry = record {
            account_id = acct.id;
            private_key = p.base64_encode priv;
          } in
          let same : entry ∷ rest ≡ entries = ground arith in
          subst (All Parses) same
            ((priv, parse_private-encode i priv f), keystore_entries-Parses (suc i) accounts rest k)
    ]
  ]

  add_keys-ok :
      (wrap : String → Error → Error) (entries : List KeystoreEntry) (s : State)
      → All Parses entries
      → (t : State) × (add_keys p wrap entries s ≡ (t, none))
  unfolding add_keys
  add_keys-ok wrap [] s h = (s, refl)
  add_keys-ok wrap (e ∷ entries) s ((key, f), h) =
      let (t, k) =
        add_keys-ok wrap entries (set_account_pub_key e.account_id (p.ed25519_public key) s) h in
      (t, rw (f, add_keys) k)

  -- What a node makes of the files.
  abbrev Accepts : Taxes → Generated → Type 0
  Accepts taxes files =
      ((s : State) × (build_initial_state p files.genesis files.keystore taxes ≡ ok s))
      × ((producer : Producer) × (new_producer p files.genesis files.validator_id
              files.validator_key
            ≡ ok producer))

  abbrev written : ℕ → Bytes → List AccountConfig → List KeystoreEntry → Generated
  written now priv accounts entries = record {
    genesis = genesis_for p now priv accounts;
    keystore = record { entries = entries };
    validator_id = "validator-1";
    validator_key = p.base64_encode priv;
  }

  validator_added :
      (now : ℕ) (priv : Bytes) (accounts : List AccountConfig) (s : State)
      → generate_key 0 ≡ ok priv
      → add_validators p Errors.in_validator (genesis_for p now priv accounts).validators s
        ≡ (add_validator "validator-1" (p.ed25519_public priv) s, none)
  unfolding add_validators
  validator_added now priv accounts s f = rw (parse_public-encode 0 priv f, add_validators) refl

  state_built :
      (now : ℕ) (priv : Bytes) (accounts : List AccountConfig) (entries : List KeystoreEntry)
      (taxes : Taxes)
      → generate_key 0 ≡ ok priv
      → All Parses entries
      → validate (genesis_for p now priv accounts).allowed_tax_accounts taxes ≡ ok tt
      → (s : State) × (build_initial_state p
            (genesis_for p now priv accounts)
            (record { entries = entries })
            taxes
          ≡ ok s)
  unfolding build_initial_state
  state_built now priv accounts entries taxes f parses valid =
      let genesis = genesis_for p now priv accounts in
      let start = set_accounts accounts (new_state genesis.allowed_tax_accounts taxes.tax_split) in
      let added = validator_added now priv accounts start f in
      let (t, keyed) =
        add_keys-ok Errors.in_keystore entries
          (add_validator "validator-1" (p.ed25519_public priv) start) parses in
      let built : result_of (
            and_then (add_validators p Errors.in_validator genesis.validators)
              (add_keys p Errors.in_keystore entries) start)
          ≡ ok t =
        ap result_of (
          and_then-next (add_validators p Errors.in_validator genesis.validators)
            (add_keys p Errors.in_keystore entries) start
            (add_validator "validator-1" (p.ed25519_public priv) start) (t, none) added keyed) in
      (t, rw (valid, build_initial_state) built)

  producer_made :
      (now : ℕ) (priv : Bytes) (accounts : List AccountConfig)
      → generate_key 0 ≡ ok priv
      → (producer : Producer) × (new_producer p
            (genesis_for p now priv accounts)
            "validator-1"
            (p.base64_encode priv)
          ≡ ok producer)
  unfolding new_producer
  producer_made now priv accounts f = (
    record {
      genesis = genesis_for p now priv accounts;
      validator = record {
        id = "validator-1";
        public_key = p.base64_encode (p.ed25519_public priv);
      };
      private_key = priv;
    },
    rw
        (
          parse_private-encode 0 priv f,
          parse_public-encode 0 priv f,
          bytes_eq_refl (p.ed25519_public priv),
          new_producer,
        )
        refl,
  )

  -- For a generator of keys of the documented sizes and a base64 that decodes the keys it encodes: if
  -- genkeys writes its files for some accounts, and the tax table is valid for the tax accounts of the
  -- genesis written, then BuildInitialState makes a state of the genesis and the keystore, and NewProducer
  -- accepts the validator's id and key.
  pub generate-IsAccepted :
      (now : ℕ) (accounts : List AccountConfig) (files : Generated) (taxes : Taxes)
      → generate p generate_key now accounts ≡ ok files
      → validate files.genesis.allowed_tax_accounts taxes ≡ ok tt
      → ((s : State) × (build_initial_state p files.genesis files.keystore taxes ≡ ok s))
        × ((producer : Producer) × (new_producer p files.genesis files.validator_id
                files.validator_key
              ≡ ok producer))
  unfolding generate
  generate-IsAccepted now accounts files taxes h valid = elim (Result-cases (generate_key 0)) [
    | inr (e, f) ↦ absurd (ground arith)
    | inl (priv, f) ↦ elim (Result-cases (keystore_entries p generate_key 1 accounts)) [
      | inr (e, k) ↦ absurd (ground arith)
      | inl (entries, k) ↦
          let same : written now priv accounts entries ≡ files = ground arith in
          subst (λ x. validate x.genesis.allowed_tax_accounts taxes ≡ ok tt → Accepts taxes x) same
            (λ v. (
              state_built now priv accounts entries taxes f
                  (keystore_entries-Parses 1 accounts entries k) v,
              producer_made now priv accounts f,
            ))
            valid
    ]
  ]
