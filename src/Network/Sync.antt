-- ===== src/Network/Sync.antt =====
-- internal/p2p/node.go with internal/p2p/bridge.go: what two nodes say to each other when one dials
-- the other.
use pixie_block.Base.{
  true, false, ⊤, List, [], ◌∷◌, ◌++◌, Option, none, some, ◌==◌, ◌≡◌, refl, sym, ap, subst, ◌∙◌,
  arith, Bool-cases, Option-cases, inl, inr, length, ◌^◌, ◌<◌, ◌≤◌, ◌+◌, ◌-◌, eq_refl, drop,
}
use mathlib.Core.List.{append-nil}
use pixie_block.Base.Lists.{length-append}
use pixie_block.Base.Int.{ℤ, pos, ltb_ℤ}
use pixie_block.Base.Int64.{add64}
use pixie_block.Base.Result.{ok}
use pixie_block.Errors.{Error}
use pixie_block.Domain.{Block}
use pixie_block.Crypto.{Primitives}
use pixie_block.Ledger.State.{State}
use pixie_block.Storage.{Backend, save_block_and_state}
use pixie_block.Chain.{height, last_block, get_blocks_from}
use pixie_block.Chain.Restart.{replay, replay_chain}
use pixie_block.Chain.Replays.{Replays}
use pixie_block.Chain.Heights.{HasHeights, get_block-index, last_block-length, next_height}
use pixie_block.Chain.Suffixes.{
  HasHeights-prefix, height-length, replay_chain-suffix, drop-append, last_block-nonempty,
}
use pixie_block.Bridge.{Bridge, many, apply_blocks, on_new_block, marshal_blocks, on_get_blocks}
use pixie_block.Bridge.CatchUps.{apply_blocks-catches_up}
use pixie_block.Network.{
  Handshake, Message, handshake, get_blocks, blocks_response, bridge_handler, send_handshake,
  request_sync, dispatch, serve,
}

-- A connection that loses nothing: what is written is what the peer reads.
abbrev send : Message → ⊤ → List Message → List Message × Option Error
send m c w = (w ++ m ∷ [], none)

-- The state in which each leaves the other: the listener, the dialer.
module _ {DB : Type 0} (p : Primitives) (back : Backend DB) where
  abbrev greeting : Bridge DB → Handshake
  greeting b = record { chain_id = b.chain_id; node_id = b.node_id; height = height b.chain }

  -- The dialer greets, and each serves what the other has written, until the dialer has served the
  -- answer to its request for blocks.
  unfoldable pub exchange : Bridge DB → Bridge DB → Bridge DB × Bridge DB
  unfolding send_handshake serve
  exchange listener dialer =
      let h = bridge_handler p back in
      let (greeted, failure) = send_handshake h send tt dialer [] in
      let (a, replies) = serve h send greeted tt true listener [] in
      let (b, requests) = serve h send replies tt false dialer [] in
      let (a', answers) = serve h send requests tt true a [] in
      let (b', last) = serve h send answers tt false b [] in (a', b')

  serve-greeting :
      (a b : Bridge DB)
      → (b.chain_id == a.chain_id) ≡ true
      → ltb_ℤ (height a.chain) (height b.chain) ≡ false
      → serve (bridge_handler p back) send (handshake (ok (greeting b)) ∷ []) tt true a []
        ≡ (a, handshake (ok (greeting a)) ∷ [])
  unfolding serve dispatch send_handshake
  serve-greeting a b same behind = ground arith

  serve-reply_behind :
      (a b : Bridge DB)
      → (a.chain_id == b.chain_id) ≡ true
      → ltb_ℤ (height b.chain) (height a.chain) ≡ true
      → serve (bridge_handler p back) send (handshake (ok (greeting a)) ∷ []) tt false b []
        ≡ (b, get_blocks (ok (record { from_height = add64 (height b.chain) (pos 1) })) ∷ [])
  unfolding serve dispatch request_sync
  serve-reply_behind a b same behind = ground arith

  serve-reply_level :
      (a b : Bridge DB)
      → (a.chain_id == b.chain_id) ≡ true
      → ltb_ℤ (height b.chain) (height a.chain) ≡ false
      → serve (bridge_handler p back) send (handshake (ok (greeting a)) ∷ []) tt false b []
        ≡ (b, [])
  unfolding serve dispatch
  serve-reply_level a b same level = ground arith

  serve-request :
      (a : Bridge DB) (from : ℤ)
      → marshal_blocks p back (get_blocks_from from a.chain) ≡ ok tt
      → serve
          (bridge_handler p back)
          send
          (get_blocks (ok (record { from_height = from })) ∷ [])
          tt
          true
          a
          []
        ≡ (a, blocks_response (ok (many (get_blocks_from from a.chain))) ∷ [])
  unfolding serve dispatch on_get_blocks
  serve-request a from encoded = ground (arith, encoded)

  exchange-level :
      (a b : Bridge DB)
      → (a.chain_id == b.chain_id) ≡ true
      → (b.chain_id == a.chain_id) ≡ true
      → ltb_ℤ (height a.chain) (height b.chain) ≡ false
      → ltb_ℤ (height b.chain) (height a.chain) ≡ false
      → exchange a b ≡ (a, b)
  unfolding exchange send_handshake
  exchange-level a b same same' behind level =
      rw (serve-greeting a b same' behind, serve-reply_level a b same level) refl

  exchange-behind :
      (a b : Bridge DB)
      → (a.chain_id == b.chain_id) ≡ true
      → (b.chain_id == a.chain_id) ≡ true
      → ltb_ℤ (height a.chain) (height b.chain) ≡ false
      → ltb_ℤ (height b.chain) (height a.chain) ≡ true
      → marshal_blocks p back (get_blocks_from (add64 (height b.chain) (pos 1)) a.chain) ≡ ok tt
      → exchange a b
        ≡ (a, (apply_blocks p back (get_blocks_from (add64 (height b.chain) (pos 1)) a.chain) b).0)
  unfolding exchange send_handshake serve dispatch on_new_block
  exchange-behind a b same same' behind level encoded =
      rw
        (
          serve-greeting a b same' behind,
          serve-reply_behind a b same level,
          serve-request a _ encoded,
        )
        refl

  -- The heights and the missing blocks of a chain that another one extends.
  heights :
      (a b : Bridge DB) (rest : List Block) (l : Block)
      → HasHeights 0 a.chain.blocks
      → length a.chain.blocks < 2 ^ 63
      → a.chain.blocks ≡ b.chain.blocks ++ rest
      → last_block b.chain.blocks ≡ some l
      → (height b.chain ≡ pos (length b.chain.blocks - 1))
        × (height a.chain ≡ pos (length b.chain.blocks + length rest - 1))
        × (get_blocks_from (add64 (height b.chain) (pos 1)) a.chain ≡ rest)
        × (1 ≤ length b.chain.blocks)
  heights a b rest l h short e last =
      let n = length b.chain.blocks in
      let some_block = last_block-length l b.chain.blocks last in
      let total = ap length e ∙ length-append b.chain.blocks rest in
      let low =
        height-length b.chain l (HasHeights-prefix 0 b.chain.blocks rest (subst (HasHeights 0) e h))
          last in
      let (l', last') = last_block-nonempty a.chain.blocks (omega arith) in
      let next : add64 (height b.chain) (pos 1) ≡ pos n =
        ap (λ z. add64 z (pos 1)) low ∙ next_height (n - 1) (omega arith) ∙ ap pos (omega arith) in
      (
        low,
        height-length a.chain l' h last' ∙ ap pos (omega arith),
        ap (λ z. get_blocks_from z a.chain) next
            ∙ (get_block-index a.chain n h).1
            ∙ ap (drop n) e
            ∙ drop-append b.chain.blocks rest,
        some_block,
      )

  level_chains :
      (mid final : State) (l : Block) (rest bs : List Block)
      → replay p mid l rest ≡ ok final
      → length rest ≡ 0
      → (bs ++ rest ≡ bs) × (mid ≡ final)
  unfolding replay
  level_chains mid final l [] bs r n = (append-nil bs, ground arith)
  level_chains mid final l (b ∷ rest) bs r n = absurd (omega arith)

  module _
      (saves : (block : Block) (s : State) (db : DB)
        → (save_block_and_state back block s db).1 ≡ none) where
    -- What a store saves can be encoded.
    saved-marshal_blocks :
        (s : State) (db : DB) (blocks : List Block) → marshal_blocks p back blocks ≡ ok tt
    unfolding marshal_blocks save_block_and_state
    saved-marshal_blocks s db [] = refl
    saved-marshal_blocks s db (block ∷ blocks) = elim (Option-cases (back.marshal_block block)) [
      | inl e ↦ absurd (ground (arith, saves block s db))
      | inr (data_, e) ↦ rw e (saved-marshal_blocks s db blocks)
    ]

    -- For every two nodes of one chain id whose stores save whatever they are given: if the
    -- listener's chain extends the dialer's by any number of blocks, both states are what the blocks
    -- lead to from one start state, and the heights are 0, 1, 2 and so on, below 2 ^ 63, then after
    -- the handshakes, the dialer's request and the listener's response over a connection that loses
    -- nothing, the dialer has the listener's blocks and its state, and the listener is unchanged.
    pub exchange-catches_up :
        (start : State) (a b : Bridge DB) (rest : List Block)
        → a.chain_id ≡ b.chain_id
        → Replays p start a.chain
        → Replays p start b.chain
        → a.chain.blocks ≡ b.chain.blocks ++ rest
        → HasHeights 0 a.chain.blocks
        → length a.chain.blocks < 2 ^ 63
        → let (a', b') = exchange a b in
          (a' ≡ a) × (b'.chain.blocks ≡ a.chain.blocks) × (b'.chain.state ≡ a.chain.state)
    exchange-catches_up start a b rest id ra rb e h short =
        let (l, last, led) =
          replay_chain-suffix p start b.chain.state a.chain.state b.chain.blocks rest rb
            (subst (λ x. replay_chain p (ok start) x ≡ ok a.chain.state) e ra) in
        let (low, high, missing, some_block) = heights a b rest l h short e last in
        let same : (a.chain_id == b.chain_id) ≡ true =
          subst (λ x. (a.chain_id == x) ≡ true) id (eq_refl a.chain_id) in
        let same' : (b.chain_id == a.chain_id) ≡ true =
          subst (λ x. (x == a.chain_id) ≡ true) id (eq_refl a.chain_id) in
        let CaughtUp : Bridge DB × Bridge DB → Type 0 = λ r.
          (r.0 ≡ a) × (r.1.chain.blocks ≡ a.chain.blocks) × (r.1.chain.state ≡ a.chain.state) in
        let behind : ltb_ℤ (height a.chain) (height b.chain) ≡ false = ground (arith, low, high) in
        elim (Bool-cases (ltb_ℤ (height b.chain) (height a.chain))) [
          | inl ahead ↦
              let caught =
                apply_blocks-catches_up p back saves rest b l a.chain.state last
                  (subst (HasHeights 0) e h) (subst (λ x. length x < 2 ^ 63) e short) led in
              subst CaughtUp
                (sym (
                  exchange-behind a b same same' behind ahead
                    (saved-marshal_blocks a.chain.state a.chain.store _)
                  ∙ ap (λ x. (a, (apply_blocks p back x b).0)) missing))
                (refl, caught.1 ∙ sym e, caught.2)
          | inr level ↦
              let (blocks, state) =
                level_chains b.chain.state a.chain.state l rest b.chain.blocks led
                  (ground (arith, low, high, level, some_block)) in
              subst CaughtUp (sym (exchange-level a b same same' behind level))
                (refl, sym (e ∙ blocks), state)
        ]
