-- ===== src/Policy/Models/Champion.antt =====
-- The champions of aitos/learning/model_registry.py.
use Prim.Native.String.{String}
use text.Mathlib.Text.{◌==◌ as str_eq}
use project_alpha.Common.{
  ◌≡◌, refl, arith, true, false, ◌&&◌, ◌++◌, Option, none, some, List, [], ◌∷◌, inl, inr, Result,
  ok, err, Result-cases, Bool-cases, All,
}
use project_alpha.Policy.Models.{
  ModelArtifact, champion, RegistryError, is_champion, archive_champion, promote_row, promote_rows,
  promote, get_champion,
}

-- A champion of the name has the version.
abbrev pub IsSoleChampion : String → String → ModelArtifact → Type 0
IsSoleChampion name version r =
    str_eq r.name name ≡ true → is_champion r.status ≡ true → str_eq r.version version ≡ true

-- A turn that does not raise: it adds one row, which is no other champion of the name.
promote_row-ok :
    (name version : String) (r : ModelArtifact)
    (rest : Result RegistryError (List ModelArtifact × Option ModelArtifact))
    {rows : List ModelArtifact} {found : Option ModelArtifact}
    → promote_row name version (archive_champion name r) rest ≡ ok (rows, found)
    → (r' : ModelArtifact) × (rs : List ModelArtifact) × (found' : Option ModelArtifact) × (rest
        ≡ ok (rs, found'))
      × (rows ≡ r' ∷ rs)
      × IsSoleChampion name version r'
promote_row-ok name version r (err e) k = absurd (ground arith)
promote_row-ok name version r (ok (rs, none)) k =
    let q = archive_champion name r in
    elim (Bool-cases (str_eq q.name name && str_eq q.version version)) [
      | inl hit ↦
          (record q { status = champion }, rs, none, refl, ground arith, λ n c. ground arith)
      | inr miss ↦ (q, rs, none, refl, ground arith, λ n c. ground arith)
    ]
promote_row-ok name version r (ok (rs, some a)) k =
    let q = archive_champion name r in
    elim (Bool-cases (str_eq q.name name && str_eq q.version version)) [
      | inl hit ↦
          (record q { status = champion }, rs, some a, refl, ground arith, λ n c. ground arith)
      | inr miss ↦ (q, rs, some a, refl, ground arith, λ n c. ground arith)
    ]

pub promote_rows-All :
    (name version : String) (rs : List ModelArtifact) {rows : List ModelArtifact}
    {found : Option ModelArtifact}
    → promote_rows name version rs ≡ ok (rows, found)
    → All (IsSoleChampion name version) rows
unfolding promote_rows
promote_rows-All name version [] {rows} e = let left : rows ≡ [] = ground arith in rw left tt
promote_rows-All name version (r ∷ rs) e =
    let (r', rest, found', before, same, sole) =
      promote_row-ok name version r (promote_rows name version rs) e in
    rw same (sole, promote_rows-All name version rs before)

-- After a promotion that does not raise, every champion among the rows of that name has the
-- promoted version.
pub promote-IsSoleChampion :
    (name version : String) (rows : List ModelArtifact) {rows' : List ModelArtifact}
    {a : ModelArtifact}
    → promote name version rows ≡ ok (rows', a)
    → All (IsSoleChampion name version) rows'
unfolding promote
promote-IsSoleChampion name version rows {rows'} e =
    elim (Result-cases (promote_rows name version rows)) [
      | inl ((rs, none), done) ↦ let clash = rw done at e in cc
      | inl ((rs, some b), done) ↦
          let same : rows' ≡ rs = let k = rw done at e in ground arith in
          rw same (promote_rows-All name version rows done)
      | inr (x, failed) ↦ let clash = rw failed at e in cc
    ]

-- A row that is no champion, at the end, leaves the champion of every name.
pub get_champion-append :
    (name : String) (rows : List ModelArtifact) (a : ModelArtifact)
    → is_champion a.status ≡ false
    → get_champion name (rows ++ a ∷ []) ≡ get_champion name rows
unfolding get_champion
get_champion-append name [] a h = ground arith
get_champion-append name (r ∷ rs) a h = ground (arith, get_champion-append name rs a h)
