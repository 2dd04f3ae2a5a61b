-- ===== src/Live/Filters.antt =====
-- aitos/exchange/symbol_filters.py. `Decimal(str(x))` and `float(d)` are the standard library's: a
-- decimal is a whole number of the smallest units that prices and quantities are written in.
pub mod Steps
use Prim.Native.String.{String}
use text.Mathlib.Text.{◌==◌ as str_eq}
use project_alpha.Common.{ℕ, ◌*◌, ◌/◌, Option, none, some, List, [], ◌∷◌, Bool, if◌then◌else◌}
use project_alpha.Float.{Float, ◌*◌ as times, lit, le}
use project_alpha.Float.Int.{ℤ, pos, negsuc, ◌*ℤ◌, div_ℕ, pos_part}

-- A float as a decimal, in units, and back.
pub record Decimals (W : Type 0) : Type 0 where
  pub to_units : W → ℤ
  pub of_units : ℤ → W

pub record SymbolFilters (W : Type 0) : Type 0 where
  pub symbol : String
  pub step_size : W
  pub tick_size : W
  pub min_notional : W
  pub quantity_precision : ℕ
  pub price_precision : ℕ

-- A filter of `/fapi/v1/exchangeInfo`, by its `filterType`.
pub data RawFilter (W : Type 0) : Type 0 where
  lot_size : W → RawFilter W
  price_filter : W → RawFilter W
  -- `notional`, and `minNotional`.
  min_notional_filter : Option W → Option W → RawFilter W
  other_filter : RawFilter W

pub record RawSymbol (W : Type 0) : Type 0 where
  pub symbol : String
  pub filters : List (RawFilter W)
  pub quantity_precision : Option ℕ
  pub price_precision : Option ℕ

abbrev pub FilterMap : Type 0 → Type 0
FilterMap W = List (String × SymbolFilters W)

abbrev pub or_else : {A : Type 0} → A → Option A → A
or_else d none = d
or_else d (some a) = a

-- `(value_dec / step_dec).to_integral_value(rounding=ROUND_DOWN)`, times the step.
unfoldable pub whole_steps : ℤ → ℤ → ℤ
whole_steps value (pos step) = div_ℕ value step *ℤ pos step
whole_steps value (negsuc n) = value

module _ {W : Type 0} where
  -- `filters.get(symbol)`
  abbrev pub filters_of : String → FilterMap W → Option (SymbolFilters W)
  filters_of symbol [] = none
  filters_of symbol ((s, x) ∷ rest) = if str_eq symbol s then some x else filters_of symbol rest

  -- `result[symbol] = x`
  abbrev pub put_filters : String → SymbolFilters W → FilterMap W → FilterMap W
  put_filters symbol x [] = (symbol, x) ∷ []
  put_filters symbol x ((s, y) ∷ rest) =
      if str_eq symbol s then (symbol, x) ∷ rest else (s, y) ∷ put_filters symbol x rest

  -- `result.update(filters)`
  abbrev pub update_filters : FilterMap W → FilterMap W → FilterMap W
  update_filters [] old = old
  update_filters ((s, x) ∷ rest) old = update_filters rest (put_filters s x old)

module _ {W : Type 0} ⦃f : Float W⦄ where
  module _ (d : Decimals W) where
    unfoldable pub round_to_step : W → W → W
    unfolding whole_steps
    round_to_step value step =
        if le step (lit 0 0)
        then value
        else d.of_units (whole_steps (d.to_units value) (d.to_units step))

    abbrev pub round_quantity : SymbolFilters W → W → W
    round_quantity x quantity = round_to_step quantity x.step_size

    abbrev pub round_price : SymbolFilters W → W → W
    round_price x price = round_to_step price x.tick_size

  unfoldable pub meets_min_notional : SymbolFilters W → W → W → Bool
  meets_min_notional x price quantity = le x.min_notional (times price quantity)

  -- One turn of the loop over a symbol's filters.
  abbrev pub with_filter : RawFilter W → SymbolFilters W → SymbolFilters W
  with_filter (lot_size step) x = record x { step_size = step }
  with_filter (price_filter tick) x = record x { tick_size = tick }
  with_filter (min_notional_filter notional least) x = record x {
    min_notional = or_else (or_else (lit 0 0) least) notional;
  }
  with_filter other_filter x = x

  abbrev pub with_filters : List (RawFilter W) → SymbolFilters W → SymbolFilters W
  with_filters [] x = x
  with_filters (r ∷ rs) x = with_filters rs (with_filter r x)

  unfoldable pub parse_symbol : RawSymbol W → SymbolFilters W
  parse_symbol r = with_filters r.filters (record {
    symbol = r.symbol;
    step_size = lit 0 0;
    tick_size = lit 0 0;
    min_notional = lit 0 0;
    quantity_precision = or_else 0 r.quantity_precision;
    price_precision = or_else 0 r.price_precision;
  })

  pub parse_into : List (RawSymbol W) → FilterMap W → FilterMap W
  unfolding parse_symbol
  parse_into [] result = result
  parse_into (r ∷ rs) result = parse_into rs (put_filters r.symbol (parse_symbol r) result)

  unfoldable pub parse_exchange_info : List (RawSymbol W) → FilterMap W
  unfolding parse_into
  parse_exchange_info symbols = parse_into symbols []
