-- ===== src/Api/Currency.antt =====
-- `Currency` of internal/api/server.gen.go: any text, of which five are valid.
use Prim.Native.String.{String}
use text.Mathlib.Text.{◌==◌}
use ve_xchange_api.Prelude.{Bool, true, false, if◌then◌else◌}

abbrev pub Currency : Type 0
Currency = String

abbrev pub eur_bcv : Currency
eur_bcv = "eur_bcv"

abbrev pub usd_bcv : Currency
usd_bcv = "usd_bcv"

abbrev pub usdt : Currency
usdt = "usdt"

abbrev pub usdt_compra : Currency
usdt_compra = "usdt_compra"

abbrev pub usdt_venta : Currency
usdt_venta = "usdt_venta"

unfoldable pub valid : Currency → Bool
valid e =
    if e == eur_bcv
    then true
    else if e == usd_bcv
    then true
    else if e == usdt
    then true
    else if e == usdt_compra
    then true
    else if e == usdt_venta
    then true
    else false
