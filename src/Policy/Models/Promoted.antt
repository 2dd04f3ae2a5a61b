-- ===== src/Policy/Models/Promoted.antt =====
-- Which champions `ModelRegistry.promote` of aitos/learning/model_registry.py moves.
use Prim.Native.String.{String}
use text.Mathlib.Text.{◌==◌ as str_eq}
use text.Mathlib.TextEquality.{eq_iff}
use project_alpha.Common.{
  ◌≡◌, refl, sym, ◌∙◌, ap, arith, true, false, ◌&&◌, if◌then◌else◌, Option, none, some, List, [],
  ◌∷◌, inl, inr, ◌⊎◌, Result, ok, err, All, Result-cases, Bool-cases,
}
use project_alpha.Common.Text.{str_eq_comm}
use project_alpha.Policy.Models.Champion.{IsSoleChampion, promote_rows-All}
use project_alpha.Policy.Models.{
  ModelArtifact, champion, RegistryError, is_champion, archive_champion, promote_row, promote_rows,
  promote, get_champion,
}

-- The row is the promoted one.
abbrev IsPromoted : String → String → ModelArtifact → Type 0
IsPromoted name version r =
    (str_eq r.name name ≡ true) × (is_champion r.status ≡ true) × (str_eq r.version version ≡ true)

rows_at :
    (name version : String) (r : ModelArtifact) (rs : List ModelArtifact)
    (found' : Option ModelArtifact) {rows : List ModelArtifact} {found : Option ModelArtifact}
    → str_eq r.name name ≡ true
    → str_eq r.version version ≡ true
    → promote_row name version (archive_champion name r) (ok (rs, found')) ≡ ok (rows, found)
    → rows ≡ record r { status = champion } ∷ rs
rows_at name version r rs none own hit k = ground arith
rows_at name version r rs (some a) own hit k = ground arith

-- A turn that does not raise adds one row in the place of `r`, which keeps the name and, under
-- another name, all else. If a row was found by the end, it is this one or a later one.
promote_row-turn :
    (name version : String) (r : ModelArtifact)
    (rest : Result RegistryError (List ModelArtifact × Option ModelArtifact))
    {rows : List ModelArtifact} {found : Option ModelArtifact}
    → promote_row name version (archive_champion name r) rest ≡ ok (rows, found)
    → (r' : ModelArtifact) × (rs : List ModelArtifact) × (found' : Option ModelArtifact) × (rest
        ≡ ok (rs, found'))
      × (rows ≡ r' ∷ rs)
      × (r'.name ≡ r.name)
      × (str_eq r.name name ≡ false → r' ≡ r)
      × (IsPromoted name version r' ⊎ (found ≡ found'))
promote_row-turn name version r (err e) k = absurd (ground arith)
promote_row-turn name version r (ok (rs, found')) {rows} {found} k =
    elim (Bool-cases (str_eq r.name name)) [
      | inr other ↦ (r, rs, found', refl, ground arith, refl, λ h. refl, inr (ground arith))
      | inl own ↦ elim (Bool-cases (str_eq r.version version)) [
        | inr miss ↦ (
          archive_champion name r,
          rs,
          found',
          refl,
          ground arith,
          ground arith,
          λ h. absurd (ground arith),
          inr (ground arith),
        )
        | inl hit ↦ (
          record r { status = champion },
          rs,
          found',
          refl,
          rows_at name version r rs found' own hit k,
          refl,
          λ h. absurd (ground arith),
          inl (own, refl, hit),
        )
      ]
    ]

promote_rows-other :
    (name version n : String) (rs : List ModelArtifact) {rows : List ModelArtifact}
    {found : Option ModelArtifact}
    → str_eq n name ≡ false
    → promote_rows name version rs ≡ ok (rows, found)
    → get_champion n rows ≡ get_champion n rs
unfolding promote_rows get_champion
promote_rows-other name version n [] {rows} differ e =
    let left : rows ≡ [] = ground arith in rw left refl
promote_rows-other name version n (r ∷ rs) differ e =
    let (r', rest, found', before, same, named, kept, promoted) =
      promote_row-turn name version r (promote_rows name version rs) e in
    let behind = promote_rows-other name version n rs differ before in
    elim (Bool-cases (str_eq r.name name)) [
      | inr other ↦
          rw (same, kept other)
            (ap (λ o. if str_eq r.name n && is_champion r.status then some r else o) behind)
      | inl own ↦
          let away : str_eq r.name n ≡ false =
            ap (λ m. str_eq m n) ((eq_iff r.name name).0 own) ∙ str_eq_comm name n ∙ differ in
          let away' : str_eq r'.name n ≡ false = ap (λ m. str_eq m n) named ∙ away in
          rw (same, away, away') behind
    ]

promote_rows-champion :
    (name version : String) (rs : List ModelArtifact) {rows : List ModelArtifact}
    {found : Option ModelArtifact} {a : ModelArtifact}
    → promote_rows name version rs ≡ ok (rows, found)
    → found ≡ some a
    → All (IsSoleChampion name version) rows
    → (r : ModelArtifact) × (get_champion name rows ≡ some r) × (str_eq r.version version ≡ true)
unfolding promote_rows get_champion
promote_rows-champion name version [] {rows} {found} e h sole = absurd (ground arith)
promote_rows-champion name version (r ∷ rs) {rows} {found} {a} e h sole =
    let (r', rest, found', before, same, named, kept, promoted) =
      promote_row-turn name version r (promote_rows name version rs) e in
    let sole' : All (IsSoleChampion name version) (r' ∷ rest) = rw same at sole in
    rw same (elim (Bool-cases (str_eq r'.name name && is_champion r'.status)) [
      | inl first ↦ (r', rw first refl, sole'.0 (ground arith) (ground arith))
      | inr later ↦ elim promoted [
        | inl (own, up, hit) ↦ absurd (ground arith)
        | inr passed ↦
            let (c, is_c, has_version) =
              promote_rows-champion name version rs before (sym passed ∙ h) sole'.1 in
            (c, rw later is_c, has_version)
      ]
    ])

-- A promotion that does not raise makes a row with the promoted version the champion of its name,
-- and leaves the champion of every other name.
pub promote-get_champion :
    (name version : String) (rows : List ModelArtifact) {rows' : List ModelArtifact}
    {a : ModelArtifact}
    → promote name version rows ≡ ok (rows', a)
    → ((r : ModelArtifact) × (get_champion name rows' ≡ some r) × (str_eq r.version version ≡ true))
      × ((n : String) → str_eq n name ≡ false → get_champion n rows' ≡ get_champion n rows)
unfolding promote
promote-get_champion name version rows {rows'} e =
    elim (Result-cases (promote_rows name version rows)) [
      | inl ((rs, none), done) ↦ let clash = rw done at e in absurd (ground arith)
      | inl ((rs, some b), done) ↦
          let same : rows' ≡ rs = let k = rw done at e in ground arith in
          rw same (
            promote_rows-champion name version rows done refl
                (promote_rows-All name version rows done),
            λ n differ. promote_rows-other name version n rows differ done,
          )
      | inr (x, failed) ↦ let clash = rw failed at e in absurd (ground arith)
    ]
