-- ===== src/Loadgen.antt =====
-- tools/loadgen/main.go: how the load generator collects and shards the payers and counts reasons. HTTP,
-- the clock and what is printed are left out.
pub mod Shards
pub mod Picking
pub mod Amounts
pub mod Picks
use Prim.Native.Char.{Char}
use Prim.Native.String.{[] as empty_text, ◌∷◌ as ◌∷ˢ◌}
use text.Mathlib.Text.{starts_with}
use pixie_block.Base.{
  ℕ, zero, suc, String, Bool, true, false, not, ◌&&◌, ◌||◌, ◌⊎◌, inl, inr, ◌++◌, List, [], ◌∷◌,
  Option, none, some, ◌==◌, length, get_elem?, nat_eq, ltb, if◌then◌else◌, ◌+◌, ◌/◌,
}
use pixie_block.Base.Int.{ℤ, pos, leb_ℤ, ltb_ℤ, quot, pos_part}
use pixie_block.Base.Int64.{add64, sub64, mul64}
use pixie_block.Base.Dict.{Dict, insert, lookup}
use pixie_block.Base.Result.{ok, err}
use pixie_block.Errors
use pixie_block.Errors.{Error, Result}

pub record ListedAccount : Type 0 where
  pub id : String
  pub type : String
  pub balance : ℤ

pub record Liquidity : Type 0 where
  pub balances : Dict ℤ
  pub payers : List String
  pub payees : List ListedAccount

abbrev pub tax_options : List (List String)
tax_options =
    [] ∷ ("IBS" ∷ []) ∷ ("CBS" ∷ []) ∷ ("IBS" ∷ "CBS" ∷ []) ∷ ("FGTS" ∷ []) ∷ ("IRRF" ∷ []) ∷ []

abbrev pub tax_rate_bps : Dict ℤ
tax_rate_bps =
    ("IBS", pos 1700)
    ∷ ("CBS", pos 1100)
    ∷ ("INSS-PATRONAL", pos 2000)
    ∷ ("INSS-FUNCIONARIO", pos 2000)
    ∷ ("IRRF", pos 1500)
    ∷ ("FGTS", pos 800)
    ∷ ("RAT", pos 1500)
    ∷ []

-- `m[key]`, 0 for a key that is missing.
abbrev pub value_at : String → Dict ℤ → ℤ
value_at key d = elim (lookup key d) [ none ↦ pos 0 | some v ↦ v ]

-- `for _, code := range taxes { total += ... }`
abbrev tax_loop : ℤ → ℤ → List String → ℤ
tax_loop amount total [] = total
tax_loop amount total (code ∷ codes) =
    tax_loop amount (add64 total (quot (mul64 (value_at code tax_rate_bps) amount) 10_000)) codes

unfoldable pub tax_total_at_rates : ℤ → List String → ℤ
tax_total_at_rates amount taxes = tax_loop amount (pos 0) taxes

-- The accounts of persons and merchants, and which of them can pay.
unfoldable pub collect : ℤ → List ListedAccount → Liquidity → Liquidity
collect min_amount [] l = l
collect min_amount (a ∷ as') l =
    let able : List String =
      if leb_ℤ min_amount a.balance then l.payers ++ a.id ∷ [] else l.payers in
    let next : Liquidity = record {
      balances = insert a.id a.balance l.balances;
      payers = able;
      payees = l.payees ++ a ∷ [];
    } in
    collect min_amount as' (if a.type == "person" || a.type == "merchant" then next else l)

-- How many workers run, where `workers` is the flag's value.
unfoldable pub num_workers : ℤ → List String → ℕ
num_workers workers payers =
    let n = length payers in
    let half = n / 2 in
    let capped = if ltb 32 half then 32 else half in
    let chosen =
      if ltb_ℤ workers (pos 1) then (if ltb capped 1 then 1 else capped) else pos_part workers in
    if ltb n chosen then n else chosen

-- `for i := worker; i < len(payers); i += workers { out = append(out, payers[i]) }` on fuel.
unfoldable pub shard_loop : ℕ → ℕ → ℕ → List String → List String
shard_loop zero i workers payers = []
shard_loop (suc fuel) i workers payers =
    let rest = shard_loop fuel (i + workers) workers payers in
    elim (get_elem? payers i) [ none ↦ [] | some payer ↦ payer ∷ rest ]

-- The fuel is one step for each payer.
unfoldable pub shard_payers : List String → ℕ → ℕ → List String
unfolding shard_loop
shard_payers payers worker workers =
    let shard = shard_loop (length payers) worker workers payers in
    if nat_eq (length shard) 0 then payers else shard

-- `strings.Contains(s, part)`, which looks at every suffix.
abbrev pub contains_text : String → String → Bool
contains_text part empty_text = starts_with empty_text part
contains_text part (c ∷ˢ s) = starts_with (c ∷ˢ s) part || contains_text part s

unfoldable pub normalize_reason : String → String
normalize_reason reason =
    if reason == ""
    then "unknown"
    else if starts_with reason "insufficient balance"
    then "insufficient_balance"
    else if contains_text "connection refused" reason || contains_text "connect: connection" reason
    then "connection_error"
    else if contains_text "Timeout" reason || contains_text "timeout" reason
    then "timeout"
    else reason

unfoldable pub record_reason : String → Dict ℤ → Dict ℤ
unfolding normalize_reason
record_reason reason reasons =
    let key = normalize_reason reason in insert key (add64 (value_at key reasons) (pos 1)) reasons
