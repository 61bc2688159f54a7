-- ===== src/Api/Templates.antt =====
-- internal/api/template/template.go: the texts of the server's events. The execution of an HTML template
-- with TrimSpace, JSON and the printing of numbers are parameters.
use Prim.Native.String.{◌++◌ as ◌++ˢ◌}
use pixie_block.Base.{String, Bool, not, List, Option, none, some, if◌then◌else◌}
use pixie_block.Base.Int.{ℤ, pos, leb_ℤ, ltb_ℤ, quot, ◌-ℤ◌, ◌*ℤ◌}
use pixie_block.Base.Int64.{sub64}
use pixie_block.Domain.{Account}
use pixie_block.Chain.{ChainInfo}

pub record ViewerPanelData : Type 0 where
  pub anonymous : Bool
  pub audit : Bool
  pub account_id : String
  pub account_type : String

pub record BalanceData : Type 0 where
  pub anonymous : Bool
  pub audit : Bool
  pub account : Option Account
  pub accounts : List Account

-- What html/template, encoding/json and fmt do, where a template fails or JSON fails with `none`.
pub record Rendering : Type 0 where
  pub chain_info_html : ChainInfo → Option String
  pub viewer_panel_html : ViewerPanelData → Option String
  pub balance_html : BalanceData → Option String
  pub money_digits : ℤ → ℤ → String  -- fmt.Sprintf("R$ %d,%02d", whole, frac)

abbrev pub text_or : String → Option String → String
text_or default none = default
text_or default (some text) = text

module _ (r : Rendering) where
  unfoldable pub chain_info_text : ChainInfo → String
  chain_info_text info = text_or "" (r.chain_info_html info)

  unfoldable pub viewer_panel_text : ViewerPanelData → String
  viewer_panel_text panel =
      if panel.anonymous
      then "<!-- anonymous -->"
      else text_or "<p class=\"text-ember font-mono text-sm\">erro ao carregar painel</p>"
          (r.viewer_panel_html panel)

  unfoldable pub balance_text : BalanceData → String
  balance_text balance =
      if balance.anonymous
      then ""
      else text_or "<p class=\"text-ember font-mono text-sm\">erro ao carregar saldo</p>"
          (r.balance_html balance)

  -- Go's remainder has the sign of the dividend; the negation of the least int64 is itself.
  unfoldable pub format_money : ℤ → String
  format_money balance =
      let negative = ltb_ℤ balance (pos 0) in
      let amount = if negative then sub64 (pos 0) balance else balance in
      let whole = quot amount 100 in
      let sign = if negative then "-" else "" in
      sign ++ˢ r.money_digits whole (amount -ℤ (whole *ℤ pos 100))

-- `json` is what json.MarshalIndent makes of the value.
unfoldable pub any_json : Option String → String
any_json json = text_or "erro ao serializar bloco" json

unfoldable pub previous_block_text : ℤ → Bool → String → String
previous_block_text latest_height found presented_json =
    if leb_ℤ latest_height (pos 0)
    then "nenhum bloco anterior"
    else if not found
    then "bloco anterior não encontrado"
    else presented_json

-- PreviousBlock, where `json` is what json.MarshalIndent makes of the block.
unfoldable pub previous_block : ℤ → Option String → Bool → String
unfolding any_json previous_block_text
previous_block latest_height json found = previous_block_text latest_height found (any_json json)
