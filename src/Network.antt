-- ===== src/Network.antt =====
-- internal/p2p/node.go: the connections of a node, and what it does with a message of a peer. A
-- payload comes as the result of decoding it. The node that handles the messages is a `Handler`, as
-- the code's interface of that name; the connections have the type `C`, and what has been written to
-- them is a state of the type `W`. `Start`, `Accept`, `dial` and the sleeps are left out.
pub mod Drops
pub mod Sync
pub mod Handling
pub mod Reach
use pixie_block.Base.{
  String, Bool, true, false, not, List, [], ◌∷◌, Option, none, some, ◌==◌, if◌then◌else◌,
}
use pixie_block.Base.Int.{ℤ, pos, ltb_ℤ}
use pixie_block.Base.Int64.{add64}
use pixie_block.Base.Dict.{Dict, insert, erase}
use pixie_block.Base.Result.{ok, err}
use pixie_block.Errors
use pixie_block.Errors.{Error, Result}
use pixie_block.Domain.{
  PaymentTransaction, AccountCreateTransaction, AccountCloseTransaction, Block,
}
use pixie_block.Crypto.{Primitives}
use pixie_block.Storage.{Backend}
use pixie_block.Chain.{height}
use pixie_block.Bridge.{
  Announcement, many, Bridge, on_new_transaction, on_new_account_create, on_new_account_close,
  on_new_block, on_get_blocks,
}

pub record Handshake : Type 0 where
  pub chain_id : String
  pub node_id : String
  pub height : ℤ

pub record GetBlocks : Type 0 where
  pub from_height : ℤ

-- The type of a message with its payload; `other` is a type that the switch does not name.
pub data Message : Type 0 where
  handshake : Result Handshake → Message
  new_transaction : Result PaymentTransaction → Message
  new_account_create : Result AccountCreateTransaction → Message
  new_account_close : Result AccountCloseTransaction → Message
  new_block : Result Announcement → Message
  get_blocks : Result GetBlocks → Message
  blocks_response : Result Announcement → Message
  other : String → Message

-- The interface `Handler`, on a node of type `H`.
pub record Handler (H : Type 0) : Type 0 where
  pub on_new_transaction : Result PaymentTransaction → H → H × Option Error
  pub on_new_account_create : Result AccountCreateTransaction → H → H × Option Error
  pub on_new_account_close : Result AccountCloseTransaction → H → H × Option Error
  pub on_new_block : Result Announcement → H → H × Option Error
  pub on_get_blocks : ℤ → H → Result (List Block)
  pub current_height : H → ℤ
  pub chain_id : H → String
  pub node_id : H → String

-- The bridge of internal/p2p/bridge.go as the handler.
abbrev pub bridge_handler : {DB : Type 0} → Primitives → Backend DB → Handler (Bridge DB)
bridge_handler p back = record {
  on_new_transaction = on_new_transaction p;
  on_new_account_create = on_new_account_create p;
  on_new_account_close = on_new_account_close p;
  on_new_block = on_new_block p back;
  on_get_blocks = on_get_blocks p back;
  current_height = λ b. height b.chain;
  chain_id = λ b. b.chain_id;
  node_id = λ b. b.node_id;
}

-- `errors.Is(err, ErrNeedSync)`
abbrev pub is_need_sync : Error → Bool
is_need_sync (Errors.need_sync remote here) = true
is_need_sync _ = false

pub record Node (C : Type 0) : Type 0 where
  pub listen_addr : String
  pub peers : List String
  pub conns : Dict C
  pub encoder : Dict C

module _ {C : Type 0} where
  abbrev pub new : String → List String → Node C
  new listen_addr peers = record {
    listen_addr = listen_addr;
    peers = peers;
    conns = [];
    encoder = [];
  }

  unfoldable pub register_conn : String → C → Node C → Node C
  register_conn addr conn n = record n {
    conns = insert addr conn n.conns;
    encoder = insert addr conn n.encoder;
  }

  unfoldable pub unregister_conn : String → Node C → Node C
  unregister_conn addr n = record n { conns = erase addr n.conns; encoder = erase addr n.encoder }

-- `encode m c w` is `json.NewEncoder(c).Encode(m)`: what has been written after it, and its error.
module _ {H C W : Type 0} (handler : Handler H) (encode : Message → C → W → W × Option Error) where
  unfoldable pub send_handshake : C → H → W → W × Option Error
  send_handshake c node w =
      encode
        (handshake (
          ok (record {
            chain_id = handler.chain_id node;
            node_id = handler.node_id node;
            height = handler.current_height node;
          })))
        c w

  unfoldable pub request_sync : C → ℤ → W → W × Option Error
  request_sync c from_height w = encode (get_blocks (ok (record { from_height = from_height }))) c w

  -- The end of a handshake: `if hs.Height > n.handler.CurrentHeight() { ... }`
  abbrev pub catch_up : C → ℤ → H → W → (H × W) × Option Error
  unfolding request_sync
  catch_up c remote node w =
      let (sent, e) = request_sync c (add64 (handler.current_height node) (pos 1)) w in
      if ltb_ℤ (handler.current_height node) remote then ((node, sent), e) else ((node, w), none)

  -- `if inbound { if err := n.sendHandshake(encoder); err != nil { return err } }`
  abbrev pub reply : Bool → C → H → W → W × Option Error
  unfolding send_handshake
  reply true c node w = send_handshake c node w
  reply false c node w = (w, none)

  abbrev on_handshake : Handshake → C → Bool → H → W → (H × W) × Option Error
  unfolding reply catch_up
  on_handshake hs c inbound node w =
      let (sent, e) = reply inbound c node w in
      if not (hs.chain_id == handler.chain_id node)
      then ((node, w), some Errors.chain_id_mismatch)
      else elim e [ some x ↦ ((node, sent), some x) | none ↦ catch_up c hs.height node sent ]

  abbrev on_block : C → H × Option Error → W → (H × W) × Option Error
  unfolding request_sync
  on_block c (node, none) w = ((node, w), none)
  on_block c (node, some e) w =
      let (sent, failure) = request_sync c (add64 (handler.current_height node) (pos 1)) w in
      if is_need_sync e then ((node, sent), failure) else ((node, w), none)

  abbrev on_request : Result (List Block) → C → H → W → (H × W) × Option Error
  on_request (err e) c node w = ((node, w), some e)
  on_request (ok blocks) c node w =
      let (sent, e) = encode (blocks_response (ok (many blocks))) c w in ((node, sent), e)

  -- An error returned ends the connection; the errors of the gossip are logged and passed over.
  unfoldable pub dispatch : Message → C → Bool → H → W → (H × W) × Option Error
  unfolding on_handshake on_block
  dispatch (handshake (err e)) c inbound node w = ((node, w), some e)
  dispatch (handshake (ok hs)) c inbound node w = on_handshake hs c inbound node w
  dispatch (new_transaction payload) c inbound node w =
      (((handler.on_new_transaction payload node).0, w), none)
  dispatch (new_account_create payload) c inbound node w =
      (((handler.on_new_account_create payload node).0, w), none)
  dispatch (new_account_close payload) c inbound node w =
      (((handler.on_new_account_close payload node).0, w), none)
  dispatch (new_block payload) c inbound node w = on_block c (handler.on_new_block payload node) w
  dispatch (get_blocks (err e)) c inbound node w = ((node, w), some e)
  dispatch (get_blocks (ok req)) c inbound node w =
      on_request (handler.on_get_blocks req.from_height node) c node w
  dispatch (blocks_response payload) c inbound node w =
      (((handler.on_new_block payload node).0, w), none)
  dispatch (other kind) c inbound node w = ((node, w), none)

  -- The loop of handleConn, on what the decoder yields until its error.
  unfoldable pub serve : List Message → C → Bool → H → W → H × W
  unfolding dispatch
  serve [] c inbound node w = (node, w)
  serve (msg ∷ msgs) c inbound node w =
      let ((after, sent), e) = dispatch msg c inbound node w in
      let rest = serve msgs c inbound after sent in elim e [ some x ↦ (after, sent) | none ↦ rest ]

  -- A dialer that cannot greet does not serve.
  abbrev serve_unless : Option Error → List Message → C → Bool → H → W → H × W
  unfolding serve
  serve_unless (some e) msgs c inbound node w = (node, w)
  serve_unless none msgs c inbound node w = serve msgs c inbound node w

  -- The connection is registered from the start to the end.
  unfoldable pub handle_conn : String → List Message → C → Bool → Node C → H → W → Node C × H × W
  unfolding register_conn unregister_conn reply serve_unless
  handle_conn addr msgs c inbound n node w =
      let registered = register_conn addr c n in
      let (greeted, e) = reply (not inbound) c node w in
      let (after, sent) = serve_unless e msgs c inbound node greeted in
      (unregister_conn addr registered, after, sent)

  -- `for _, enc := range n.encoder { _ = enc.Encode(msg) }`
  abbrev send_each : Message → Dict C → W → W
  send_each msg [] w = w
  send_each msg ((addr, c) ∷ cs) w = send_each msg cs (encode msg c w).0

  unfoldable pub broadcast : Message → Node C → W → W
  broadcast msg n w = send_each msg n.encoder w
