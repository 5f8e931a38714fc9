-- ===== src/Command/Pilot/Health.antt =====
-- Waiting for the application (enova/entry/command/pilot.py).
use enova.Prelude.{
  ◌≡◌, refl, sym, arith, ℕ, zero, suc, ◌+◌, ◌≤◌, ◌<◌, Bool, true, false, Option, Bool-cases, subst,
  ◌==◌, ==_iff, ◌⊎◌, inl, inr,
}
use enova.Value.{Value}
use enova.Command.Pilot.{App, is_up, check, check_health}

-- How the loop ends: with the first call that answers "running", or with none.
abbrev pub Checked : (ℕ → Option Value) → ℕ → ℕ → Bool × ℕ → Type 0
Checked healthz i n (e, asked) =
    ((e ≡ false)
      × (i < asked)
      × (asked ≤ i + n)
      × ((j : ℕ) × (suc j ≡ asked) × (is_up (healthz j) ≡ true))
      × ((j : ℕ) → i ≤ j → suc j < asked → is_up (healthz j) ≡ false))
    ⊎ ((e ≡ true) × (asked ≡ i + n) × ((j : ℕ) → i ≤ j → j < i + n → is_up (healthz j) ≡ false))

step_Checked :
    (healthz : ℕ → Option Value) (i n : ℕ) (p : Bool × ℕ)
    → is_up (healthz i) ≡ false
    → Checked healthz (suc i) n p
    → Checked healthz i (suc n) p
step_Checked healthz i n (e, asked) down (inl (fine, low, high, (j, last, up), before)) =
    inl (fine, omega arith, omega arith, (j, last, up), first_down)
  where
    first_down : (j : ℕ) → i ≤ j → suc j < asked → is_up (healthz j) ≡ false
    first_down j from to = elim (Bool-cases (j == i)) [
      | inl same ↦ subst (λ k. is_up (healthz k) ≡ false) (sym ((==_iff j i).0 same)) down
      | inr other ↦ before j (ground (arith, other, from)) to
    ]
step_Checked healthz i n (e, asked) down (inr (failed, all, before)) =
    inr (failed, omega arith, all_down)
  where
    all_down : (j : ℕ) → i ≤ j → j < i + suc n → is_up (healthz j) ≡ false
    all_down j from to = elim (Bool-cases (j == i)) [
      | inl same ↦ subst (λ k. is_up (healthz k) ≡ false) (sym ((==_iff j i).0 same)) down
      | inr other ↦ before j (ground (arith, other, from)) (omega arith)
    ]

check-Checked_from :
    (healthz : ℕ → Option Value) (n i : ℕ) → Checked healthz i n (check healthz n i true)
unfolding check
check-Checked_from healthz zero i =
    inr (refl, omega arith, (λ j low high. let empty : ⊥ = omega arith in elim empty [ ]))
check-Checked_from healthz (suc n) i = elim (Bool-cases (is_up (healthz i))) [
  | inl up ↦ rw up (
      inl (
        refl,
        omega arith,
        omega arith,
        (i, refl, up),
        λ j low high. let empty : ⊥ = omega arith in elim empty [ ],
      ))
  | inr down ↦ rw down (
      step_Checked healthz i n (check healthz n (suc i) true) down
        (check-Checked_from healthz n (suc i)))
]

-- The pilot asks for the application's health at most `count` times, and at least once, and never after an
-- answer that it runs: it goes on after the first such answer, and raises if all of the calls failed.
-- (Without a call it goes on, so `count` is not 0.)
pub check_health-Checked :
    (app : App) (count : ℕ) → 1 ≤ count → Checked app.healthz 0 count (check_health app count)
unfolding check
check_health-Checked app zero some_ = let empty : ⊥ = omega arith in elim empty [ ]
check_health-Checked app (suc n) some_ = check-Checked_from app.healthz (suc n) 0
