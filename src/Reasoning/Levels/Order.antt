-- ===== src/Reasoning/Levels/Order.antt =====
-- `_topological_levels` for any list of steps: each level waits only for earlier ones, and the
-- rounds given are enough.
use noema.Prelude.{
  ℕ, zero, suc, ◌+◌, ◌≤◌, true, false, ◌≡◌, refl, ap, if◌then◌else◌, inl, inr, List, [], ◌∷◌, ◌++◌,
  length, Bool-cases, arith,
}
use noema.Reasoning.Levels.{
  all_in, ready, waiting, names, is_empty, levels_from, topological_levels,
}
use noema.Reasoning.Plan.{StepName, CoTStep}

-- Every step's dependencies are among the given names.
unfoldable pub AreReady : List StepName → List CoTStep → Type 0
AreReady added [] = Unit
AreReady added (s ∷ ss) = (all_in s.depends_on added ≡ true) × AreReady added ss

-- Each level's dependencies are names of steps of the levels before it, or given.
unfoldable pub IsOrdered : List StepName → List (List CoTStep) → Type 0
unfolding AreReady
IsOrdered added [] = Unit
IsOrdered added (l ∷ ls) = AreReady added l × IsOrdered (added ++ names l) ls

ready-AreReady : (added : List StepName) → (ss : List CoTStep) → AreReady added (ready added ss)
unfolding AreReady ready
ready-AreReady added [] = tt
ready-AreReady added (s ∷ ss) = elim (Bool-cases (all_in s.depends_on added)) [
  | inl y ↦ rw (y) (y, ready-AreReady added ss)
  | inr n ↦ rw (n) (ready-AreReady added ss)
]

length-ready-waiting :
    (added : List StepName)
    → (ss : List CoTStep) → length (ready added ss) + length (waiting added ss) ≡ length ss
unfolding ready waiting
length-ready-waiting added [] = refl
length-ready-waiting added (s ∷ ss) = let ih = length-ready-waiting added ss in ground arith

levels_from-IsOrdered :
    (fuel : ℕ)
    → (added : List StepName) → (ss : List CoTStep) → IsOrdered added (levels_from fuel added ss)
unfolding levels_from IsOrdered
levels_from-IsOrdered zero added ss = tt
levels_from-IsOrdered (suc fuel) added ss =
    let ih = levels_from-IsOrdered fuel (added ++ names (ready added ss)) (waiting added ss) in
    elim (Bool-cases (is_empty (ready added ss))) [
      | inl y ↦ rw (y) tt
      | inr n ↦ rw (n) (ready-AreReady added ss, ih)
    ]

-- In the levels of any list of steps, every dependency of a step is the name of a step of an
-- earlier level.
pub topological_levels-IsOrdered : (steps : List CoTStep) → IsOrdered [] (topological_levels steps)
unfolding topological_levels
topological_levels-IsOrdered steps = levels_from-IsOrdered (length steps) [] steps

is_empty-length : (l : List CoTStep) → is_empty l ≡ false → 1 ≤ length l
unfolding is_empty
is_empty-length [] e = ground arith
is_empty-length (s ∷ ss) e = ground arith

-- Two numbers of rounds, each at least the number of the remaining steps, give the same levels,
-- whatever names are already added: with so many rounds the loop ends by itself.
pub levels_from-enough :
    (fuel fuel' : ℕ)
    → (added : List StepName) → (ss : List CoTStep) → length ss ≤ fuel
    → length ss ≤ fuel'
    → levels_from fuel added ss ≡ levels_from fuel' added ss
unfolding levels_from ready is_empty
levels_from-enough zero zero added ss le le' = refl
levels_from-enough zero (suc fuel') added [] le le' = refl
levels_from-enough (suc fuel) zero added [] le le' = refl
levels_from-enough zero (suc fuel') added (s ∷ ss) le le' = ground arith
levels_from-enough (suc fuel) zero added (s ∷ ss) le le' = ground arith
levels_from-enough (suc fuel) (suc fuel') added ss le le' =
    let parts = length-ready-waiting added ss in
    elim (Bool-cases (is_empty (ready added ss))) [
      | inl y ↦ rw (y) refl
      | inr n ↦
          let some_taken = is_empty-length (ready added ss) n in
          ap (λ rest. if is_empty (ready added ss) then [] else ready added ss ∷ rest)
            (levels_from-enough fuel fuel' (added ++ names (ready added ss)) (waiting added ss)
              (omega arith) (omega arith))
    ]
