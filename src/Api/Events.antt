-- ===== src/Api/Events.antt =====
-- internal/api/chain.go: the events that handleChain pushes, at first and whenever the height has
-- changed. `send` writes an event to the stream; the ticker and the end of the request are left out.
use pixie_block.Base.{
  String, Bool, true, false, ◌&&◌, List, [], ◌∷◌, Option, none, some, ◌==◌, if◌then◌else◌,
}
use pixie_block.Base.Int.{ℤ, pos, eqb_ℤ, ltb_ℤ}
use pixie_block.Base.Int64.{sub64}
use pixie_block.Base.Dict.{lookup}
use pixie_block.Base.Result.{ok, err}
use pixie_block.Errors.{Error}
use pixie_block.Domain.{Account, Block}
use pixie_block.Crypto.{Primitives}
use pixie_block.Chain.{height, chain_info, latest_block, get_block, state_copy}
use pixie_block.Api.{Viewer, Encodings, PublicBlock, present_block}
use pixie_block.Api.Server.{Server}
use pixie_block.Api.Accounts.{sort_accounts, values}
use pixie_block.Api.Requests.{key_of_account}
use pixie_block.Api.Templates.{
  ViewerPanelData, BalanceData, Rendering, chain_info_text, viewer_panel_text, balance_text,
  any_json, previous_block_text,
}

pub record Event : Type 0 where
  pub id : String
  pub event : String
  pub text : String

pub record Pushed : Type 0 where
  pub last_height : ℤ
  pub initialized : Bool

abbrev account_panel : String → Option Account → ViewerPanelData
account_panel id acct = record {
  anonymous = false;
  audit = false;
  account_id = id;
  account_type = elim acct [ none ↦ "" | some a ↦ a.type ];
}

abbrev blank_panel : ViewerPanelData
blank_panel = record { anonymous = false; audit = false; account_id = ""; account_type = "" }

abbrev blank_balance : BalanceData
blank_balance = record { anonymous = false; audit = false; account = none; accounts = [] }

module _ {DB : Type 0} where
  unfoldable pub viewer_panel_data : Viewer → Server DB → ViewerPanelData
  viewer_panel_data viewer s =
      if viewer.audit
      then record blank_panel { audit = true }
      else if viewer.account_id == ""
      then record blank_panel { anonymous = true }
      else account_panel viewer.account_id (lookup viewer.account_id (state_copy s.chain).accounts)

  -- An auditor sees all accounts, a viewer of an account that one, anyone else none.
  unfoldable pub balance_data : Viewer → Server DB → BalanceData
  balance_data viewer s =
      if viewer.audit
      then record blank_balance {
        audit = true;
        accounts = sort_accounts (values (state_copy s.chain).accounts);
      }
      else if viewer.account_id == ""
      then record blank_balance { anonymous = true }
      else elim (lookup viewer.account_id (state_copy s.chain).accounts) [
        | none ↦ record blank_balance { anonymous = true }
        | some acct ↦ record blank_balance { account = some acct }
      ]

-- Events are sent in order, up to the first that fails.
abbrev send_all :
    {W : Type 0} → (Event → W → W × Option Error) → List Event → Option Error → W → W × Option Error
send_all send [] last w = (w, last)
send_all send (event ∷ events) last w =
    let (sent, e) = send event w in
    let rest = send_all send events last sent in elim e [ some x ↦ (sent, some x) | none ↦ rest ]

module _ {DB : Type 0} (p : Primitives) (enc : Encodings) (r : Rendering)
    (block_json : PublicBlock → Option String) (height_id : ℤ → String) (viewer : Viewer)
    (s : Server DB) where
  abbrev shown : Block → String
  unfolding any_json
  shown block = any_json (block_json (present_block p enc (key_of_account p s) viewer block))

  abbrev event_of : String → String → Event
  event_of event text = record { id = height_id (height s.chain); event = event; text = text }

  -- `if latest.Height > 0 && found { prevPayload = ... }`
  abbrev previous_text : ℤ → Option Block → String
  unfolding previous_block_text
  previous_text latest_height none = previous_block_text latest_height false ""
  previous_text latest_height (some block) =
      previous_block_text latest_height true
        (if ltb_ℤ (pos 0) latest_height then shown block else "")

  -- The events for the chain's height; LatestBlock panics on a chain without blocks.
  unfoldable pub chain_events : List Event × Option Error
  unfolding chain_info_text shown previous_text viewer_panel_text balance_text
  chain_events = elim (latest_block s.chain) [
    | err e ↦ (event_of "ChainInfo" (chain_info_text r (chain_info s.chain)) ∷ [], some e)
    | ok latest ↦ (
      event_of "ChainInfo" (chain_info_text r (chain_info s.chain))
          ∷ event_of "LatestBlock" (shown latest)
          ∷ event_of "PreviousBlock"
              (previous_text latest.height (get_block (sub64 latest.height (pos 1)) s.chain))
          ∷ event_of "ViewerPanel" (viewer_panel_text r (viewer_panel_data viewer s))
          ∷ event_of "Balance" (balance_text r (balance_data viewer s))
          ∷ [],
      none,
    )
  ]

  unfoldable pub push_if_changed :
      {W : Type 0} → (Event → W → W × Option Error) → Pushed → W → (Pushed × W) × Option Error
  unfolding chain_events
  push_if_changed send pushed w =
      let (sent, e) = send_all send chain_events.0 chain_events.1 w in
      if pushed.initialized && eqb_ℤ (height s.chain) pushed.last_height
      then ((pushed, w), none)
      else ((record { last_height = height s.chain; initialized = true }, sent), e)
