-- ===== src/Learning/WalkForward/Windows.antt =====
-- The windows of a walk-forward evaluation: when the loop ends, and where the windows lie.
use project_alpha.Common.{
  ℕ, zero, suc, ◌+◌, ◌*◌, ◌≤◌, ◌<◌, ◌≡◌, refl, arith, ◌↔◌, ◌⊎◌, ltb, inl, inr, none, some, List, [],
  ◌∷◌, true, false, leb, Bool-cases, Option-cases,
}
use project_alpha.Learning.WalkForward.{
  TestWindow, Schedule, day, last_test_end, window_at, windows_from, test_windows,
}

-- Each window trains on the days before its test, tests on the days behind it, starts no earlier
-- than the one before it ends, and ends before the holdout begins.
unfoldable pub AreUnseen : Schedule → ℕ → List TestWindow → Type 0
AreUnseen s from [] = Unit
AreUnseen s from (w ∷ ws) =
    (from ≤ w.test_start)
    × (w.train_end ≡ w.test_start)
    × (w.train_start + s.train_days * day ≡ w.train_end)
    × (w.test_end ≡ w.test_start + s.test_days * day)
    × (w.test_end ≤ last_test_end s)
    × AreUnseen s w.test_end ws

windows_from-AreUnseen :
    (fuel : ℕ) (s : Schedule) (cursor : ℕ) {ws : List TestWindow}
    → s.train_days * day ≤ cursor
    → windows_from fuel s cursor ≡ some ws
    → AreUnseen s cursor ws
unfolding windows_from AreUnseen
windows_from-AreUnseen zero s cursor {ws} trained e = absurd (ground arith)
windows_from-AreUnseen (suc fuel) s cursor {ws} trained e =
    let next = cursor + s.test_days * day in
    elim (Bool-cases (leb next (last_test_end s))) [
      | inl room ↦ elim (Option-cases (windows_from fuel s next)) [
        | inl out ↦ let k = rw (room, out) at e in absurd (ground arith)
        | inr (later, found) ↦
            let k = rw (room, found) at e in
            let all : window_at s cursor ∷ later ≡ ws = cc in
            rw (← all) (
              omega arith,
              refl,
              omega arith,
              refl,
              ground arith,
              windows_from-AreUnseen fuel s next (omega arith) found,
            )
      ]
      | inr past ↦ let k = rw past at e in let all : [] ≡ ws = cc in rw (← all) tt
    ]

-- The loop is left when the fuel is enough for the days of testing that are left.
windows_from-ends :
    (fuel : ℕ) (s : Schedule) (cursor : ℕ)
    → last_test_end s < cursor + suc fuel * (s.test_days * day)
    → (ws : List TestWindow) × (windows_from (suc fuel) s cursor ≡ some ws)
unfolding windows_from
windows_from-ends zero s cursor enough =
    let past : leb (cursor + s.test_days * day) (last_test_end s) ≡ false = ground arith in
    ([], rw past refl)
windows_from-ends (suc fuel) s cursor enough =
    let next = cursor + s.test_days * day in
    elim (Bool-cases (leb next (last_test_end s))) [
      | inl room ↦
          let (ws, e) = windows_from-ends fuel s next (omega arith) in
          (window_at s cursor ∷ ws, rw (room, e) refl)
      | inr past ↦ ([], rw past refl)
    ]

windows_from-sticks :
    (fuel : ℕ) (s : Schedule) (cursor : ℕ)
    → s.test_days ≡ 0
    → cursor ≤ last_test_end s
    → windows_from fuel s cursor ≡ none
unfolding windows_from
windows_from-sticks zero s cursor no_days room = refl
windows_from-sticks (suc fuel) s cursor no_days room =
    let stays : cursor + s.test_days * day ≡ cursor = rw no_days (omega arith) in
    let again : leb cursor (last_test_end s) ≡ true = ground arith in
    rw (stays, again, windows_from-sticks fuel s cursor no_days room) refl

mul_ge : (m n : ℕ) → 0 < n → m ≤ m * n
mul_ge zero n h = omega arith
mul_ge (suc m) n h = omega (arith, mul_ge m n h)

-- The loop over the windows ends, with some fuel, exactly when a test takes at least one day or no
-- test fits between the first training period and the holdout.
pub test_windows-ends_iff :
    (s : Schedule)
    → ((fuel : ℕ) × (ws : List TestWindow) × (test_windows fuel s ≡ some ws))
      ↔ ((0 < s.test_days) ⊎ (last_test_end s < s.start + s.train_days * day))
unfolding test_windows
test_windows-ends_iff s =
    let cursor = s.start + s.train_days * day in
    (
      λ (fuel, ws, e). elim (Bool-cases (ltb 0 s.test_days)) [
        | inl some_days ↦ inl (ground arith)
        | inr no_days ↦ elim (Bool-cases (ltb (last_test_end s) cursor)) [
          | inl past ↦ inr (ground arith)
          | inr room ↦
              let sticks = windows_from-sticks fuel s cursor (ground arith) (ground arith) in
              absurd (ground arith)
        ]
      ],
      λ p. elim p [
        | inl some_days ↦
            let fuel = last_test_end s in
            let enough = mul_ge (suc fuel) (s.test_days * day) (omega arith) in
            let (ws, e) = windows_from-ends fuel s cursor (omega arith) in (suc fuel, ws, e)
        | inr past ↦ let (ws, e) = windows_from-ends zero s cursor (omega arith) in (1, ws, e)
      ],
    )

-- Whenever the loop ends: each window trains on the days right before its test, tests on the days
-- behind it, starts its test no earlier than the window before it ends, and ends before the
-- holdout begins.
pub test_windows-AreUnseen :
    (fuel : ℕ) (s : Schedule) {ws : List TestWindow}
    → test_windows fuel s ≡ some ws
    → AreUnseen s (s.start + s.train_days * day) ws
unfolding test_windows
test_windows-AreUnseen fuel s e =
    windows_from-AreUnseen fuel s (s.start + s.train_days * day) (omega arith) e
