-- ===== src/Feed/Sequence/Gaps.antt =====
-- What a validator that demands contiguous ids accepts.
use Prim.Native.String.{String}
use project_alpha.Common.{
  ℕ, suc, ◌≡◌, refl, ◌≢◌, true, false, none, some, List, [], ◌∷◌, arith, inl, inr, ◌⊎◌,
}
use project_alpha.Feed.Sequence.{
  L2SequenceValidator, gap, no_gap, answer, is_no_gap, check_sequence, check_known,
  recovery_request, accepted,
}

-- Each id follows the one before it, the first one `n`.
abbrev pub IsConsecutive : ℕ → List ℕ → Type 0
IsConsecutive n [] = Unit
IsConsecutive n (x ∷ xs) = (x ≡ suc n) × IsConsecutive x xs

-- With contiguous ids demanded, an id is accepted as the successor of the last one, or refused with
-- nothing changed.
check_sequence-cases :
    (v : L2SequenceValidator) (n id : ℕ)
    → v.require_contiguous ≡ true
    → v.last ≡ some n
    → ((check_sequence v (some id) ≡ (answer no_gap n id, record v { last = some id }))
        × (id ≡ suc n))
      ⊎ ((is_no_gap (check_sequence v (some id)).0.kind ≡ false)
          × ((check_sequence v (some id)).1 ≡ v))
unfolding check_sequence check_known
check_sequence-cases v n id c k = ground arith

-- What a validator that demands contiguous ids and has seen `n` accepts of a stream is n + 1,
-- n + 2 and so on without a gap, whatever duplicates, old ids and gaps the stream holds.
pub accepted-IsConsecutive :
    (v : L2SequenceValidator) (n : ℕ) (ids : List ℕ)
    → v.require_contiguous ≡ true
    → v.last ≡ some n
    → IsConsecutive n (accepted v ids)
unfolding accepted
accepted-IsConsecutive v n [] c k = tt
accepted-IsConsecutive v n (id ∷ ids) c k = elim (check_sequence-cases v n id c k) [
  | inl (taken, follows) ↦
      rw taken (follows, accepted-IsConsecutive (record v { last = some id }) id ids c refl)
  | inr (refused, same) ↦ rw (refused, same) (accepted-IsConsecutive v n ids c k)
]

-- A gap asks for recovery and leaves the validator as it was: the id is past the expected one, and
-- the request names the last id that was accepted and the one that was observed.
gap_requests_recovery :
    (v : L2SequenceValidator) (n id : ℕ) (exchange symbol market : String)
    → v.last ≡ some n
    → (check_sequence v (some id)).0.kind ≡ gap
    → ((check_sequence v (some id)).1 ≡ v)
      × (recovery_request exchange symbol market (check_sequence v (some id)).0 ≢ none)
unfolding check_sequence check_known recovery_request
gap_requests_recovery v n id exchange symbol market k g = ground arith
