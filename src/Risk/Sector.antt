-- ===== src/Risk/Sector.antt =====
-- aitos/risk/sector.py. A symbol is taken apart into its characters, so that `/`, `-` and `_` can
-- be removed; upper-casing is that of ASCII, in which exchange symbols are written.
use Prim.Native.Char.{code}
use Prim.Native.String.{String}
use project_alpha.Common.{
  ℕ, ◌-◌, Bool, true, false, ◌&&◌, ◌||◌, List, [], ◌∷◌, leb, ◌==◌, if◌then◌else◌,
}

abbrev pub codes : String → List ℕ
codes String.[] = []
codes (String.◌∷◌ c s) = code c ∷ codes s

abbrev pub same_codes : List ℕ → List ℕ → Bool
same_codes [] [] = true
same_codes (x ∷ xs) (y ∷ ys) = x == y && same_codes xs ys
same_codes _ _ = false

abbrev pub is_separator : ℕ → Bool
is_separator c = c == b'/' || c == b'-' || c == b'_'

abbrev pub upper : ℕ → ℕ
upper c = if leb b'a' c && leb c b'z' then c - 32 else c

-- `symbol.replace("/", "").replace("-", "").replace("_", "").upper()`
unfoldable pub normalize_codes : List ℕ → List ℕ
normalize_codes [] = []
normalize_codes (c ∷ cs) =
    if is_separator c then normalize_codes cs else upper c ∷ normalize_codes cs

unfoldable pub normalize_symbol : String → List ℕ
unfolding normalize_codes
normalize_symbol symbol = normalize_codes (codes symbol)

unfoldable pub symbol_sectors : List (String × String)
symbol_sectors =
    ("BTCUSDT", "crypto-major")
    ∷ ("ETHUSDT", "crypto-major")
    ∷ ("SOLUSDT", "layer1")
    ∷ ("BNBUSDT", "exchange-token")
    ∷ ("ADAUSDT", "layer1")
    ∷ ("AVAXUSDT", "layer1")
    ∷ ("DOTUSDT", "layer1")
    ∷ ("ATOMUSDT", "layer1")
    ∷ ("NEARUSDT", "layer1")
    ∷ ("APTUSDT", "layer1")
    ∷ ("SUIUSDT", "layer1")
    ∷ ("SEIUSDT", "layer1")
    ∷ ("TONUSDT", "layer1")
    ∷ ("TRXUSDT", "layer1")
    ∷ ("XRPUSDT", "payments")
    ∷ ("LINKUSDT", "oracle-infrastructure")
    ∷ ("FILUSDT", "storage-infrastructure")
    ∷ ("ARUSDT", "storage-infrastructure")
    ∷ ("UNIUSDT", "defi")
    ∷ ("AAVEUSDT", "defi")
    ∷ ("MKRUSDT", "defi")
    ∷ ("CRVUSDT", "defi")
    ∷ ("LDOUSDT", "defi")
    ∷ ("SUSHIUSDT", "defi")
    ∷ ("DOGEUSDT", "meme")
    ∷ ("SHIBUSDT", "meme")
    ∷ ("PEPEUSDT", "meme")
    ∷ ("BONKUSDT", "meme")
    ∷ ("WIFUSDT", "meme")
    ∷ ("USDCUSDT", "stablecoin")
    ∷ ("USDTUSDT", "stablecoin")
    ∷ ("DAIUSDT", "stablecoin")
    ∷ []

-- `SYMBOL_SECTORS.get(normalized, "other")`
pub sector_of : List (String × String) → List ℕ → String
sector_of [] normalized = "other"
sector_of ((symbol, sector) ∷ rest) normalized =
    if same_codes (codes symbol) normalized then sector else sector_of rest normalized

unfoldable pub sector_for_symbol : String → String
unfolding sector_of normalize_symbol symbol_sectors
sector_for_symbol symbol = sector_of symbol_sectors (normalize_symbol symbol)
