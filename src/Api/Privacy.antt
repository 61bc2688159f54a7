-- ===== src/Api/Privacy.antt =====
-- internal/api/txview.go: the views of a viewer who is no party.
use Prim.Native.String.{◌++◌ as ◌++ˢ◌}
use pixie_block.Base.{
  ⊤, ◌⊎◌, inl, inr, String, Bool, false, List, [], ◌∷◌, ◌≡◌, refl, sym, ap, ◌∙◌, map,
}
use pixie_block.Domain.{
  LineItem, PaymentTransaction, AccountCreateTransaction, AccountCloseTransaction, Block,
}
use pixie_block.Crypto.{Primitives}
use pixie_block.Api.{
  Viewer, Encodings, is_party, is_create_party, is_close_party, present_tx, present_account_create,
  present_account_close, present_block, opaque_token,
}

-- The payments agree in all that is public: amounts, taxes, discounts and balances may differ.
pub record LooksLike (tx other : PaymentTransaction) : Type 0 where
  pub id : tx.id ≡ other.id
  pub timestamp : tx.timestamp ≡ other.timestamp
  pub payer : tx.payer.id ≡ other.payer.id
  pub payee : tx.payee.id ≡ other.payee.id
  pub items : map (λ i. i.description) tx.items ≡ map (λ i. i.description) other.items
  pub signature : tx.signature ≡ other.signature

map_through :
    {A B C : Type 0} (f : A → B) (g : B → C) (xs : List A)
    → map (λ x. g (f x)) xs ≡ map g (map f xs)
map_through f g [] = refl
map_through f g (x ∷ xs) = ap (λ ys. g (f x) ∷ ys) (map_through f g xs)

-- The creates agree in the time stamp, the public key and the signature.
pub record LooksLikeCreate (tx other : AccountCreateTransaction) : Type 0 where
  pub timestamp : tx.timestamp ≡ other.timestamp
  pub public_key : tx.public_key ≡ other.public_key
  pub signature : tx.signature ≡ other.signature

pub record LooksLikeClose (tx other : AccountCloseTransaction) : Type 0 where
  pub timestamp : tx.timestamp ≡ other.timestamp
  pub public_key : tx.public_key ≡ other.public_key
  pub signature : tx.signature ≡ other.signature

-- The viewer sees only the public form of either value, and these agree.
abbrev pub Hidden : {T : Type 0} → (T → Bool) → (T → T → Type 0) → T → T → Type 0
Hidden sees R x y = R x y × (sees x ≡ false) × (sees y ≡ false)

-- Entry by entry, the lists are equal or the difference is hidden.
abbrev pub AllAlike : {T : Type 0} → (T → Bool) → (T → T → Type 0) → List T → List T → Type 0
AllAlike sees R [] [] = ⊤
AllAlike sees R (x ∷ xs) [] = ⊥
AllAlike sees R [] (y ∷ ys) = ⊥
AllAlike sees R (x ∷ xs) (y ∷ ys) = ((x ≡ y) ⊎ Hidden sees R x y) × AllAlike sees R xs ys

pub record LooksLikeBlock (viewer : Viewer) (b other : Block) : Type 0 where
  pub height : b.height ≡ other.height
  pub timestamp : b.timestamp ≡ other.timestamp
  pub transactions : AllAlike (is_party viewer) LooksLike b.transactions other.transactions
  pub creates :
      AllAlike (is_create_party viewer) LooksLikeCreate b.account_creates other.account_creates
  pub closes : AllAlike (is_close_party viewer) LooksLikeClose b.account_closes other.account_closes
  pub previous_hash : b.previous_hash ≡ other.previous_hash
  pub hash : b.hash ≡ other.hash
  pub validator : b.validator ≡ other.validator
  pub signature : b.signature ≡ other.signature

map-alike :
    {T V : Type 0} (sees : T → Bool) (R : T → T → Type 0) (present : T → V)
    → ((x y : T) → Hidden sees R x y → present x ≡ present y)
    → (xs ys : List T) → AllAlike sees R xs ys
    → map present xs ≡ map present ys
map-alike sees R present hides [] [] h = refl
map-alike sees R present hides (x ∷ xs) [] h = absurd h
map-alike sees R present hides [] (y ∷ ys) h = absurd h
map-alike sees R present hides (x ∷ xs) (y ∷ ys) h =
    let rest = map-alike sees R present hides xs ys h.1 in
    elim h.0 [ inl same ↦ rw (same, rest) | inr hidden ↦ rw (hides x y hidden, rest) ]

module _ (p : Primitives) (enc : Encodings) (pub_key_b64 : String → String) (viewer : Viewer) where
  present_tx-hides :
      (tx other : PaymentTransaction)
      → Hidden (is_party viewer) LooksLike tx other
      → present_tx p enc pub_key_b64 viewer tx ≡ present_tx p enc pub_key_b64 viewer other
  unfolding present_tx
  present_tx-hides tx other (same, out, out') =
      let token : LineItem → String = λ i. opaque_token p enc ("item:" ++ˢ i.description) in
      let items : map token tx.items ≡ map token other.items =
        map_through (λ i. i.description) (λ d. opaque_token p enc ("item:" ++ˢ d)) tx.items
        ∙ ap (map (λ d. opaque_token p enc ("item:" ++ˢ d))) same.items
        ∙ sym (
            map_through (λ i. i.description) (λ d. opaque_token p enc ("item:" ++ˢ d))
              other.items) in
      rw (out, out', same.id, same.timestamp, same.payer, same.payee, same.signature, items)

  create-hides :
      (tx other : AccountCreateTransaction)
      → Hidden (is_create_party viewer) LooksLikeCreate tx other
      → present_account_create p enc viewer tx ≡ present_account_create p enc viewer other
  unfolding present_account_create
  create-hides tx other (same, out, out') =
      rw (out, out', same.timestamp, same.public_key, same.signature)

  close-hides :
      (tx other : AccountCloseTransaction)
      → Hidden (is_close_party viewer) LooksLikeClose tx other
      → present_account_close p enc viewer tx ≡ present_account_close p enc viewer other
  unfolding present_account_close
  close-hides tx other (same, out, out') =
      rw (out, out', same.timestamp, same.public_key, same.signature)

  -- For every viewer and two blocks with the same header, whose payments, creates and closes are, one
  -- by one, equal or seen by the viewer in public form only and alike in it (payments: id, time stamp,
  -- payer, payee, item descriptions and signature; creates and closes: time stamp, public key and
  -- signature): PresentBlock shows the same of both, so amounts, taxes, discounts, balances and the
  -- accounts of creates and closes stay hidden.
  pub present_block-hides :
      (b other : Block)
      → LooksLikeBlock viewer b other
      → present_block p enc pub_key_b64 viewer b ≡ present_block p enc pub_key_b64 viewer other
  unfolding present_block
  present_block-hides b other same =
      let txs =
        map-alike (is_party viewer) LooksLike (present_tx p enc pub_key_b64 viewer) present_tx-hides
          b.transactions other.transactions same.transactions in
      let creates =
        map-alike (is_create_party viewer) LooksLikeCreate (present_account_create p enc viewer)
          create-hides b.account_creates other.account_creates same.creates in
      let closes =
        map-alike (is_close_party viewer) LooksLikeClose (present_account_close p enc viewer)
          close-hides b.account_closes other.account_closes same.closes in
      rw (
        txs, creates, closes, same.height, same.timestamp, same.previous_hash, same.hash,
        same.validator, same.signature,
      )
