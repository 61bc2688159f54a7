-- ===== src/Api/Viewers.antt =====
-- internal/api/txview.go: what a private key has to be for ResolveViewer to grant a view.
use pixie_block.Base.{
  String, Bool, true, false, List, [], ◌∷◌, ◌++◌, Option, none, some, ◌≡◌, refl, ap, arith, inl,
  inr, ◌⊎◌, ◌==◌, eq_iff, if◌then◌else◌, Bool-cases, bytes_eq_sound,
}
use pixie_block.Base.Result.{ok, Result-cases}
use pixie_block.Domain.{Bytes}
use pixie_block.Crypto.{Primitives, parse_private_key}
use pixie_block.Config.{
  KeystoreEntry, Keystore, same_private_key, account_id_for_private_key, find_account, has_public,
}
use pixie_block.Api.{Viewer, resolve_viewer, normalize_p_key, derived_key}

-- Both private keys parse, and have one public key.
abbrev pub ArePaired : Primitives → String → String → Type 0
ArePaired p a b =
    (ka kb : Bytes) × (parse_private_key p a ≡ ok ka)
    × (parse_private_key p b ≡ ok kb)
    × (p.ed25519_public ka ≡ p.ed25519_public kb)

-- An entry of the account has a private key that is paired with the one given.
abbrev pub IsKeyOf : Primitives → String → List KeystoreEntry → String → Type 0
IsKeyOf p key entries id =
    (before after : List KeystoreEntry) × (e : KeystoreEntry) × (entries ≡ before ++ e ∷ after)
    × (e.account_id ≡ id)
    × ArePaired p e.private_key key

same_private_key-ArePaired :
    (p : Primitives) (a b : String) → same_private_key p a b ≡ true → (a ≡ b) ⊎ ArePaired p a b
unfolding same_private_key
same_private_key-ArePaired p a b h = elim (Bool-cases (a == b)) [
  | inl e ↦ inl ((eq_iff a b).0 e)
  | inr ne ↦ elim (Result-cases (parse_private_key p a)) [
    | inr (x, f) ↦ absurd (ground arith)
    | inl (ka, f) ↦ elim (Result-cases (parse_private_key p b)) [
      | inr (x, g) ↦ absurd (ground arith)
      | inl (kb, g) ↦ inr (ka, kb, f, g, bytes_eq_sound _ _ (ground arith))
    ]
  ]
]

find_account-IsKeyOf :
    (p : Primitives) (key : String) (want : Bytes) (es : List KeystoreEntry) (id : String)
    → parse_private_key p key ≡ ok want
    → find_account p (p.ed25519_public want) es ≡ some id
    → IsKeyOf p key es id
unfolding find_account
find_account-IsKeyOf p key want [] id w h = absurd (ground arith)
find_account-IsKeyOf p key want (e ∷ es) id w h =
    elim (Bool-cases (has_public p (p.ed25519_public want) (parse_private_key p e.private_key))) [
      | inl found ↦ elim (Result-cases (parse_private_key p e.private_key)) [
        | inr (x, f) ↦ absurd (ground arith)
        | inl (got, f) ↦
            ([], es, e, refl, ground arith, (got, want, f, w, bytes_eq_sound _ _ (ground arith)))
      ]
      | inr next ↦
          let (before, after, e', at, same, paired) =
            find_account-IsKeyOf p key want es id w (ground arith) in
          (e ∷ before, after, e', ap (λ xs. e ∷ xs) at, same, paired)
    ]

account_id-IsKeyOf :
    (p : Primitives) (key : String) (k : Keystore) (id : String)
    → account_id_for_private_key p key k ≡ some id
    → IsKeyOf p key k.entries id
unfolding account_id_for_private_key
account_id-IsKeyOf p key k id h = elim (Result-cases (parse_private_key p key)) [
  | inr (x, w) ↦ absurd (ground arith)
  | inl (want, w) ↦ find_account-IsKeyOf p key want k.entries id w (ground arith)
]

-- The branches of ResolveViewer.
granted :
    (empty same : Bool) (found : Option String) (derived : String)
    → let viewer : Viewer =
        if empty
        then record { account_id = ""; public_key = ""; audit = false }
        else if same
        then record { account_id = ""; public_key = derived; audit = true }
        else elim found [
          | some id ↦ record { account_id = id; public_key = derived; audit = false }
          | none ↦ record { account_id = ""; public_key = derived; audit = false }
        ] in
      (viewer.audit ≡ true → same ≡ true)
      × ((viewer.account_id == "") ≡ false → found ≡ some viewer.account_id)
granted true same found derived = ((λ h. absurd (ground arith)), λ h. absurd (ground arith))
granted false true found derived = ((λ h. refl), λ h. absurd (ground arith))
granted false false none derived = ((λ h. absurd (ground arith)), λ h. absurd (ground arith))
granted false false (some id) derived = ((λ h. absurd (ground arith)), λ h. refl)

-- For every keystore, validator key and private key of a request (with its spaces read as plus signs):
-- ResolveViewer grants an audit only if the key is the validator's or both keys parse and have one
-- public key, and it names an account only if the keystore lists for that account a private key that
-- has one public key with it.
pub resolve_viewer-IsKeyOf :
    (p : Primitives) (k : Keystore) (validator raw : String)
    → let viewer = resolve_viewer p k validator raw in
      let key = normalize_p_key raw in
      (viewer.audit ≡ true → (key ≡ validator) ⊎ ArePaired p key validator)
      × ((viewer.account_id == "") ≡ false → IsKeyOf p key k.entries viewer.account_id)
unfolding resolve_viewer
resolve_viewer-IsKeyOf p k validator raw =
    let key = normalize_p_key raw in
    let (audit, account) =
      granted (key == "") (same_private_key p key validator) (account_id_for_private_key p key k)
        (derived_key p (parse_private_key p key)) in
    (
      (λ h. same_private_key-ArePaired p key validator (audit h)),
      λ h. account_id-IsKeyOf p key k _ (account h),
    )
