-- ===== src/Policy/Models.antt =====
-- `ModelRegistry` of aitos/learning/model_registry.py over the rows of its file. Of an artifact, the
-- fields that the registry reads; a call that raises writes nothing.
pub mod Champion
pub mod Promoted
use Prim.Native.String.{String}
use text.Mathlib.Text.{◌==◌ as str_eq}
use project_alpha.Common.{
  Bool, true, false, ◌&&◌, Option, none, some, List, [], ◌∷◌, ◌++◌, any, if◌then◌else◌, Result, ok,
  err,
}

-- The valid statuses.
pub data ModelStatus : Type 0 where
  candidate champion rejected archived : ModelStatus

pub record ModelArtifact : Type 0 where
  pub name : String
  pub version : String
  pub kind : String
  pub status : ModelStatus

pub data RegistryError : Type 0 where
  already_registered not_a_candidate unknown_candidate : RegistryError

abbrev pub is_champion : ModelStatus → Bool
is_champion champion = true
is_champion _ = false

abbrev pub is_candidate : ModelStatus → Bool
is_candidate candidate = true
is_candidate _ = false

unfoldable pub register :
    List ModelArtifact → ModelArtifact → Result RegistryError (List ModelArtifact)
register rows a =
    if any (λ r. str_eq r.name a.name && str_eq r.version a.version) rows
    then err already_registered
    else ok (rows ++ a ∷ [])

abbrev pub archive_champion : String → ModelArtifact → ModelArtifact
archive_champion name r =
    if str_eq r.name name && is_champion r.status then record r { status = archived } else r

abbrev pub push_row :
    ModelArtifact
    → Result RegistryError (List ModelArtifact × Option ModelArtifact)
    → Result RegistryError (List ModelArtifact × Option ModelArtifact)
push_row r (ok (rows, found)) = ok (r ∷ rows, found)
push_row r (err e) = err e

-- A row that is made champion is what is found, unless a later one is.
abbrev pub push_found :
    ModelArtifact
    → Result RegistryError (List ModelArtifact × Option ModelArtifact)
    → Result RegistryError (List ModelArtifact × Option ModelArtifact)
push_found r (ok (rows, none)) = ok (r ∷ rows, some r)
push_found r (ok (rows, some found)) = ok (r ∷ rows, some found)
push_found r (err e) = err e

-- One turn of the loop, with `r` after the first `if` and `rest` the turns behind it.
abbrev pub promote_row :
    String
    → String
    → ModelArtifact
    → Result RegistryError (List ModelArtifact × Option ModelArtifact)
    → Result RegistryError (List ModelArtifact × Option ModelArtifact)
promote_row name version r rest =
    if str_eq r.name name && str_eq r.version version
    then (if is_candidate r.status
        then push_found (record r { status = champion }) rest
        else err not_a_candidate)
    else push_row r rest

-- The loop of `promote`.
pub promote_rows :
    String
    → String
    → List ModelArtifact
    → Result RegistryError (List ModelArtifact × Option ModelArtifact)
promote_rows name version [] = ok ([], none)
promote_rows name version (r ∷ rs) =
    promote_row name version (archive_champion name r) (promote_rows name version rs)

abbrev pub found_or_unknown :
    Result RegistryError (List ModelArtifact × Option ModelArtifact)
    → Result RegistryError (List ModelArtifact × ModelArtifact)
found_or_unknown (err e) = err e
found_or_unknown (ok (rows, none)) = err unknown_candidate
found_or_unknown (ok (rows, some a)) = ok (rows, a)

unfoldable pub promote :
    String → String → List ModelArtifact → Result RegistryError (List ModelArtifact × ModelArtifact)
unfolding promote_rows
promote name version rows = found_or_unknown (promote_rows name version rows)

pub get_champion : String → List ModelArtifact → Option ModelArtifact
get_champion name [] = none
get_champion name (r ∷ rs) =
    if str_eq r.name name && is_champion r.status then some r else get_champion name rs
