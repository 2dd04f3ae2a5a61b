-- ===== src/Common/Text.antt =====
-- Python's `str` as a list of character codes, and the equality of texts.
use Prim.Native.Char.{code}
use Prim.Native.String.{String}
use text.Mathlib.Text.{◌==◌ as str_eq}
use text.Mathlib.TextEquality.{eq_iff}
use project_alpha.Common.{
  true, ◌≡◌, ◌∙◌, sym, refl, inl, inr, Bool-cases, arith, ℕ, ◌+◌, Bool, ◌&&◌, ◌||◌, List, [], ◌∷◌,
  all, leb, ◌==◌, if◌then◌else◌,
}

-- `c.isspace()`
abbrev pub is_space : ℕ → Bool
is_space c =
    (leb 9 c && leb c 13)
    || (leb 28 c && leb c 32)
    || c == 133
    || c == 160
    || c == 5_760
    || (leb 8_192 c && leb c 8_202)
    || c == 8_232
    || c == 8_233
    || c == 8_239
    || c == 8_287
    || c == 12_288

abbrev pub char_codes : String → List ℕ
char_codes String.[] = []
char_codes (String.◌∷◌ c s) = code c ∷ char_codes s

-- `not s.strip()`
unfoldable pub is_blank_text : String → Bool
is_blank_text s = all is_space (char_codes s)

-- `s.lstrip()`
abbrev pub strip_left : List ℕ → List ℕ
strip_left [] = []
strip_left (c ∷ cs) = let rest = strip_left cs in if is_space c then rest else c ∷ cs

-- `s.rstrip()`
abbrev pub strip_right : List ℕ → List ℕ
strip_right [] = []
strip_right (c ∷ cs) = if all is_space (c ∷ cs) then [] else c ∷ strip_right cs

-- `c.lower()` on ASCII.
abbrev pub lower : ℕ → ℕ
lower c = if leb b'A' c && leb c b'Z' then c + 32 else c

pub str_eq_self : (k : String) → str_eq k k ≡ true
str_eq_self k = (eq_iff k k).1 refl

pub str_eq_comm : (k d : String) → str_eq k d ≡ str_eq d k
str_eq_comm k d = elim (Bool-cases (str_eq k d)) [
  | inl same ↦ same ∙ sym ((eq_iff d k).1 (sym ((eq_iff k d).0 same)))
  | inr differ ↦ elim (Bool-cases (str_eq d k)) [
    | inl same ↦ let back = (eq_iff k d).1 (sym ((eq_iff d k).0 same)) in absurd (ground arith)
    | inr differ' ↦ differ ∙ sym differ'
  ]
]
