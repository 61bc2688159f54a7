-- ===== src/Config/Splits.antt =====
-- config/config.go: which tax tables Taxes.Validate accepts.
use pixie_block.Base.{
  String, ⊤, List, [], ◌∷◌, ◌≡◌, refl, ◌↔◌, arith, member, length, ◌==◌, true, false, if◌then◌else◌,
  eq_iff, nat_eq,
}
use pixie_block.Base.Int.{pos, ◌≤ℤ◌}
use pixie_block.Base.Dict.{Dict, contains, insert, lookup-insert}
use pixie_block.Base.Result.{ok}
use pixie_block.Domain.{TaxSplit}
use pixie_block.Ledger.State.{allow_all}
use pixie_block.Config.{Taxes, validate, check_splits, check_split}

-- A rate that is not negative, and a tax account with a name that the genesis allows.
pub record IsSplit (ids : List String) (split : TaxSplit) : Type 0 where
  pub rate : pos 0 ≤ℤ split.rate_bps
  pub named : (split.tax_account == "") ≡ false
  pub allowed : member split.tax_account ids ≡ true

abbrev pub AreSplits : List String → Dict TaxSplit → Type 0
AreSplits allowed [] = ⊤
AreSplits allowed ((code, split) ∷ rest) = IsSplit allowed split × AreSplits allowed rest

pub contains-allow_all :
    (id : String) (d : Dict ⊤) (ids : List String)
    → contains id (allow_all d ids) ≡ (if member id ids then true else contains id d)
contains-allow_all id d [] = refl
contains-allow_all id d (i ∷ ids) =
    ground (arith, contains-allow_all id (insert i tt d) ids, lookup-insert id i tt d, eq_iff i id)

check_split-IsSplit :
    (ids : List String) (code : String) (split : TaxSplit)
    → (check_split (allow_all [] ids) code split ≡ ok tt) ↔ IsSplit ids split
unfolding check_split
check_split-IsSplit ids code split = (
  (λ h. record {
    rate = ground arith;
    named = ground arith;
    allowed = ground (arith, contains-allow_all split.tax_account [] ids);
  }),
  λ v. ground (arith, contains-allow_all split.tax_account [] ids, v.rate, v.named, v.allowed),
)

check_splits-AreSplits :
    (ids : List String) (d : Dict TaxSplit)
    → (check_splits (allow_all [] ids) d ≡ ok tt) ↔ AreSplits ids d
unfolding check_splits
check_splits-AreSplits ids [] = ((λ h. tt), λ h. refl)
check_splits-AreSplits ids ((code, split) ∷ rest) =
    ground (arith, check_split-IsSplit ids code split, check_splits-AreSplits ids rest)

-- Taxes.Validate accepts a tax table exactly if it has an entry and every entry has a rate of zero or
-- more and a non-empty tax account that stands in the list of allowed tax accounts.
pub validate-AreSplits :
    (ids : List String) (t : Taxes)
    → (validate ids t ≡ ok tt)
      ↔ ((nat_eq (length t.tax_split) 0 ≡ false) × AreSplits ids t.tax_split)
unfolding validate
validate-AreSplits ids t = ground (arith, check_splits-AreSplits ids t.tax_split)
