-- ===== src/Chain/Links.antt =====
-- internal/chain/blockchain.go: the links of a chain that validateChain accepts and New returns.
use pixie_block.Base.{
  Option-cases, Bool-cases, ◌⊎◌, List, [], ◌∷◌, ◌≡◌, refl, ap, sym, subst, ◌∙◌, arith, ⊤, inl, inr,
  true, length, nat_eq,
}
use pixie_block.Base.Int.{pos}
use pixie_block.Base.Int64.{add64}
use pixie_block.Base.Result.{ok, err, ◌>>◌, Result-cases, >>=-eq-ok}
use pixie_block.Errors.{Result}
use pixie_block.Domain.{Block}
use pixie_block.Crypto.{Primitives, block_hash}
use pixie_block.Config.{Genesis, Keystore}
use pixie_block.Ledger.State.{State}
use pixie_block.Ledger.Blocks.{validate_block, result_of}
use pixie_block.Ledger.Blocks.Header.{validate_block-IsLinked}
use pixie_block.Node.{hydrate_state}
use pixie_block.Storage.{Backend, load_blocks, save_block, save_state}
use pixie_block.Chain.{Blockchain, index_block}
use pixie_block.Chain.Restart.{
  replay, replay_chain, validate_chain, genesis_state, new, build_genesis_block, start_chain,
  resume_chain, resume_state, index_blocks, hydrate_account_create_pub_keys,
}

-- Each block is at the height after its predecessor's, names the predecessor's hash, and has the hash
-- that is computed from it.
abbrev pub IsHashChain : Primitives → Block → List Block → Type 0
IsHashChain p prev [] = ⊤
IsHashChain p prev (b ∷ bs) =
    (b.height ≡ add64 prev.height (pos 1))
    × (b.previous_hash ≡ prev.hash)
    × (block_hash p b ≡ ok b.hash)
    × IsHashChain p b bs

pub replay-IsHashChain :
    (p : Primitives) (s last : State) (prev : Block) (bs : List Block)
    → replay p s prev bs ≡ ok last
    → IsHashChain p prev bs
unfolding replay
replay-IsHashChain p s last prev [] h = tt
replay-IsHashChain p s last prev (b ∷ bs) h = elim (Result-cases (validate_block p b prev s)) [
  | inr (e, v) ↦ absurd (ground arith)
  | inl (next, v) ↦
      let link = (validate_block-IsLinked p b prev s next v).0 in
      (link.height, link.previous, link.hash, replay-IsHashChain p next last b bs (ground arith))
]

-- There is a first block, and the others are linked to it.
abbrev pub IsChain : Primitives → List Block → Type 0
IsChain p bs =
    (first : Block) × (rest : List Block) × (bs ≡ first ∷ rest) × IsHashChain p first rest

pub replayed-IsChain :
    (p : Primitives) (start : Result State) (last : State) (bs : List Block)
    → replay_chain p start bs ≡ ok last
    → IsChain p bs
replayed-IsChain p start last [] h = absurd (ground arith)
replayed-IsChain p (err e) last (b ∷ bs) h = absurd (ground arith)
replayed-IsChain p (ok s) last (b ∷ bs) h = (b, bs, refl, replay-IsHashChain p s last b bs h)

validate_chain-IsChain :
    {DB : Type 0} (p : Primitives) (keystore : Keystore) (bc : Blockchain DB)
    → validate_chain p keystore bc ≡ ok tt
    → IsChain p bc.blocks
unfolding validate_chain
validate_chain-IsChain p keystore bc h =
    let start = genesis_state p bc.genesis keystore bc.state in
    let (last, replayed, _) = >>=-eq-ok (replay_chain p start bc.blocks) _ h in
    replayed-IsChain p start last bc.blocks replayed

blocks-index_blocks :
    {DB : Type 0} (bs : List Block) (bc : Blockchain DB) → (index_blocks bs bc).blocks ≡ bc.blocks
unfolding index_blocks index_block
blocks-index_blocks [] bc = refl
blocks-index_blocks (b ∷ bs) bc = blocks-index_blocks bs (index_block b bc)

then_made :
    {A : Type 0} (check : Result ⊤) (m made : A)
    → (check >> ok m) ≡ ok made
    → (check ≡ ok tt) × (m ≡ made)
then_made (ok _) m made h = (refl, cc)
then_made (err e) m made h = absurd (ground arith)

resume_chain-IsChain :
    {DB : Type 0} (p : Primitives) (back : Backend DB) (keystore : Keystore) (existing : List Block)
    (bc made : Blockchain DB)
    → resume_chain p back keystore existing bc ≡ ok made
    → (made.blocks ≡ existing) × (validate_chain p keystore made ≡ ok tt)
unfolding resume_chain
resume_chain-IsChain p back keystore existing bc made h =
    let loaded = index_blocks existing (record bc { blocks = existing }) in
    let kept = blocks-index_blocks existing (record bc { blocks = existing }) in
    let (hydrated, _, after) = >>=-eq-ok (resume_state p back keystore loaded) _ h in
    let (with_keys, _, checked) =
      >>=-eq-ok (result_of (hydrate_account_create_pub_keys p existing hydrated)) _ after in
    let resumed = record loaded { state = with_keys } in
    let (valid, e) = then_made (validate_chain p keystore resumed) resumed made checked in
    subst (λ b. (b.blocks ≡ existing) × (validate_chain p keystore b ≡ ok tt)) e (kept, valid)

pub start_chain-IsChain :
    {DB : Type 0} (p : Primitives) (back : Backend DB) (bc made : Blockchain DB)
    → (start_chain p back bc).1 ≡ ok made
    → (block : Block) × (build_genesis_block p bc.genesis ≡ ok block)
      × (made.blocks ≡ block ∷ [])
      × (made.state ≡ bc.state)
unfolding start_chain
start_chain-IsChain p back bc made h = elim (Result-cases (build_genesis_block p bc.genesis)) [
  | inr (e, b) ↦ absurd (ground arith)
  | inl (block, b) ↦ elim (Option-cases (save_block back block bc.store).1) [
    | inr (e, k) ↦ absurd (ground arith)
    | inl k ↦ elim (Option-cases (save_state back bc.state (save_block back block bc.store).0).1) [
      | inr (e, l) ↦ absurd (ground arith)
      | inl l ↦ (block, b, ground arith, ground arith)
    ]
  ]
]

genesis-IsChain :
    (p : Primitives) (block : Block) (bs : List Block) → bs ≡ block ∷ [] → IsChain p bs
genesis-IsChain p block bs e = (block, [], e, tt)

no_blocks : {A : Type 0} (bs : List A) → nat_eq (length bs) 0 ≡ true → bs ≡ []
no_blocks [] h = refl
no_blocks (b ∷ bs) h = absurd (ground arith)

-- For every store, genesis, state and keystore: if New returns a chain, its blocks are those that the
-- store holds, or the genesis block if it holds none, and each block after the first is at the height
-- after its predecessor's, names the predecessor's hash, and has the hash computed from it.
pub new-IsChain :
    {DB : Type 0} (p : Primitives) (back : Backend DB) (genesis : Genesis) (store : DB) (s : State)
    (keystore : Keystore) (bc : Blockchain DB)
    → (new p back genesis store s keystore).1 ≡ ok bc
    → IsChain p bc.blocks
      × ((load_blocks back store ≡ ok bc.blocks)
          ⊎ ((load_blocks back store ≡ ok [])
              × (block : Block) × (build_genesis_block p genesis ≡ ok block)
              × (bc.blocks ≡ block ∷ [])))
unfolding new
new-IsChain {DB = DB} p back genesis store s keystore bc h =
    elim (Result-cases (result_of (hydrate_state p genesis keystore s))) [
      | inr (e, hyd) ↦ absurd (ground arith)
      | inl (hydrated, hyd) ↦
          let fresh : Blockchain DB = record {
            genesis = genesis;
            store = store;
            state = hydrated;
            blocks = [];
            tx_index = [];
            create_index = [];
            close_index = [];
          } in
          elim (Result-cases (load_blocks back store)) [
            | inr (e, l) ↦ absurd (ground arith)
            | inl (existing, l) ↦ elim (Bool-cases (nat_eq (length existing) 0)) [
              | inl empty ↦
                  let started : (start_chain p back fresh).1 ≡ ok bc = ground arith in
                  let (block, built, e, _) = start_chain-IsChain p back fresh bc started in
                  (
                    genesis-IsChain p block bc.blocks e,
                    inr (rw (no_blocks existing empty) at l, block, built, e),
                  )
              | inr full ↦
                  let resumed : resume_chain p back keystore existing fresh ≡ ok bc =
                    ground arith in
                  let (e, valid) = resume_chain-IsChain p back keystore existing fresh bc resumed in
                  (validate_chain-IsChain p keystore bc valid, inl (l ∙ ap ok (sym e)))
            ]
          ]
    ]
