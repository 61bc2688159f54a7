-- ===== src/Node/Bootstrap.antt =====
-- internal/node/bootstrap.go: what BuildInitialState and HydrateState make of a state.
use pixie_block.Base.{inl, inr, Option-cases, String, List, [], ◌∷◌, ◌≡◌, refl, ◌∙◌}
use pixie_block.Base.Dict.{insert-IsMap}
use pixie_block.Base.Result.{Result-cases}
use pixie_block.Errors.{Error}
use pixie_block.Crypto.{Primitives, parse_public_key, parse_private_key}
use pixie_block.Config.{ValidatorConfig, KeystoreEntry, Keystore, Genesis}
use pixie_block.Ledger.State.{State, add_validator, set_account_pub_key, Action, and_then}
use pixie_block.Ledger.State.Copy.{HasMaps}
use pixie_block.Node.{add_validators, add_keys, hydrate_state}

-- The keys are all that differs, and every map still has each key once.
pub record OnlyKeys (s t : State) : Type 0 where
  pub accounts : t.accounts ≡ s.accounts
  pub tax_split : t.tax_split ≡ s.tax_split
  pub allowed_tax_accts : t.allowed_tax_accts ≡ s.allowed_tax_accts
  pub maps : HasMaps s → HasMaps t

OnlyKeys-refl : (s : State) → OnlyKeys s s
OnlyKeys-refl s = record {
  accounts = refl;
  tax_split = refl;
  allowed_tax_accts = refl;
  maps = λ h. h;
}

pub OnlyKeys-trans : (s t u : State) → OnlyKeys s t → OnlyKeys t u → OnlyKeys s u
OnlyKeys-trans s t u f g = record {
  accounts = g.accounts ∙ f.accounts;
  tax_split = g.tax_split ∙ f.tax_split;
  allowed_tax_accts = g.allowed_tax_accts ∙ f.allowed_tax_accts;
  maps = λ h. g.maps (f.maps h);
}

pub add_validators-OnlyKeys :
    (p : Primitives) (wrap : String → Error → Error) (vs : List ValidatorConfig) (s : State)
    → OnlyKeys s (add_validators p wrap vs s).0
unfolding add_validators add_validator
add_validators-OnlyKeys p wrap [] s = OnlyKeys-refl s
add_validators-OnlyKeys p wrap (v ∷ vs) s = elim (Result-cases (parse_public_key p v.public_key)) [
  | inr (e, q) ↦ rw (q, add_validators) (OnlyKeys-refl s)
  | inl (key, q) ↦
      rw (q, add_validators)
        (OnlyKeys-trans s _ _
          (record {
            accounts = refl;
            tax_split = refl;
            allowed_tax_accts = refl;
            maps = λ h. record {
              accounts = h.accounts;
              tax_split = h.tax_split;
              allowed_tax_accts = h.allowed_tax_accts;
              validator_pub_keys = insert-IsMap v.id key s.validator_pub_keys h.validator_pub_keys;
              account_pub_keys = h.account_pub_keys;
            };
          })
          (add_validators-OnlyKeys p wrap vs (add_validator v.id key s)))
]

pub add_keys-OnlyKeys :
    (p : Primitives) (wrap : String → Error → Error) (es : List KeystoreEntry) (s : State)
    → OnlyKeys s (add_keys p wrap es s).0
unfolding add_keys set_account_pub_key
add_keys-OnlyKeys p wrap [] s = OnlyKeys-refl s
add_keys-OnlyKeys p wrap (e ∷ es) s = elim (Result-cases (parse_private_key p e.private_key)) [
  | inr (x, q) ↦ rw (q, add_keys) (OnlyKeys-refl s)
  | inl (key, q) ↦
      rw (q, add_keys)
        (OnlyKeys-trans s _ _
          (record {
            accounts = refl;
            tax_split = refl;
            allowed_tax_accts = refl;
            maps = λ h. record {
              accounts = h.accounts;
              tax_split = h.tax_split;
              allowed_tax_accts = h.allowed_tax_accts;
              validator_pub_keys = h.validator_pub_keys;
              account_pub_keys =
                  insert-IsMap e.account_id (p.ed25519_public key) s.account_pub_keys
                    h.account_pub_keys;
            };
          })
          (add_keys-OnlyKeys p wrap es (set_account_pub_key e.account_id (p.ed25519_public key) s)))
]

pub and_then-OnlyKeys :
    (first rest : Action) (s : State)
    → OnlyKeys s (first s).0
    → ((t : State) → OnlyKeys t (rest t).0)
    → OnlyKeys s (and_then first rest s).0
and_then-OnlyKeys first rest s h k = elim (Option-cases (first s).1) [
  | inl q ↦ rw (q, and_then) (OnlyKeys-trans s (first s).0 _ h (k (first s).0))
  | inr (x, q) ↦ rw (q, and_then) h
]

-- For every state, genesis and keystore, whether HydrateState succeeds or fails: the accounts, the
-- tax table and the allowed tax accounts stay as they were, and a state that holds each key once in
-- each map still does.
pub hydrate_state-OnlyKeys :
    (p : Primitives) (genesis : Genesis) (keystore : Keystore) (s : State)
    → OnlyKeys s (hydrate_state p genesis keystore s).0
unfolding hydrate_state
hydrate_state-OnlyKeys p genesis keystore s =
    and_then-OnlyKeys (add_validators p (λ id x. x) genesis.validators)
      (add_keys p (λ id x. x) keystore.entries) s
      (add_validators-OnlyKeys p (λ id x. x) genesis.validators s)
      (add_keys-OnlyKeys p (λ id x. x) keystore.entries)
