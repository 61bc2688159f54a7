-- ===== src/Loadgen/Amounts.antt =====
-- tools/loadgen/main.go: the amounts of pickTx.
use pixie_block.Base.{◌&&◌, ◌≡◌, ap, ◌∙◌, arith, if◌then◌else◌}
use pixie_block.Base.Int.{ℤ, pos, ltb_ℤ, leb_ℤ, ◌+ℤ◌, ◌-ℤ◌, ◌≤ℤ◌, int_laws, quot}
use pixie_block.Base.Int64.{add64, sub64, wrap64, wrap64_exact, IsInt64-of_bounds, max_int64}
use pixie_block.Loadgen.Picking.{cap_amount}

pub cap_amount-le :
    (min_amount max_amount bal : ℤ)
    → (cap_amount min_amount max_amount bal ≤ℤ bal)
      × (cap_amount min_amount max_amount bal ≤ℤ max_amount)
cap_amount-le min_amount max_amount bal = least (quot bal 8)
  where
    least :
        (soft : ℤ)
        → let hard = if ltb_ℤ bal max_amount then bal else max_amount in
          let cap = if leb_ℤ min_amount soft && ltb_ℤ soft hard then soft else hard in
          (cap ≤ℤ bal) × (cap ≤ℤ max_amount)
    least soft = ground arith

-- The amounts do not wrap.
pub width_exact :
    (least cap : ℤ)
    → pos 1 ≤ℤ least
    → least ≤ℤ cap
    → cap ≤ℤ max_int64
    → add64 (sub64 cap least) (pos 1) ≡ cap -ℤ least +ℤ pos 1
unfolding add64 sub64
width_exact least cap positive reaches below =
    let difference : wrap64 (cap -ℤ least) ≡ cap -ℤ least =
      wrap64_exact _
        (IsInt64-of_bounds _ (omega (int_laws, reaches)) (omega (int_laws, positive, below))) in
    ap (λ z. wrap64 (z +ℤ pos 1)) difference
    ∙ wrap64_exact _
        (IsInt64-of_bounds _ (omega (int_laws, reaches)) (omega (int_laws, positive, below)))

pub amount_exact :
    (least cap extra : ℤ)
    → pos 1 ≤ℤ least
    → cap ≤ℤ max_int64
    → pos 0 ≤ℤ extra
    → extra +ℤ pos 1 ≤ℤ cap -ℤ least +ℤ pos 1
    → (add64 least extra ≡ least +ℤ extra)
      × (least ≤ℤ add64 least extra)
      × (add64 least extra ≤ℤ cap)
unfolding add64
amount_exact least cap extra positive below low high =
    let exact : wrap64 (least +ℤ extra) ≡ least +ℤ extra =
      wrap64_exact _
        (IsInt64-of_bounds _ (omega (int_laws, positive, low)) (omega (int_laws, high, below))) in
    (exact, rw exact (omega (int_laws, low)), rw exact (omega (int_laws, high)))

pub taken_exact :
    (bal amount : ℤ)
    → pos 0 ≤ℤ amount
    → amount ≤ℤ bal
    → bal ≤ℤ max_int64
    → sub64 bal amount ≡ bal -ℤ amount
unfolding sub64
taken_exact bal amount low covered below =
    wrap64_exact _ (IsInt64-of_bounds _ (omega (int_laws, covered)) (omega (int_laws, low, below)))
