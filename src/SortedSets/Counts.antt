-- ===== src/SortedSets/Counts.antt =====
-- How many members of a sorted set have a score that passes a test.
use stask_service.Prelude.{
  ℕ, ◌+◌, Text, Bool, if◌then◌else◌, none, [], ◌∷◌, ◌≡◌, refl, arith, Bool-cases, inl, inr,
}
use stask_service.SortedSets.{SortedSet, comes_before, place, zadd, zrem, zscore}

abbrev pub one_if : Bool → ℕ
one_if b = if b then 1 else 0

abbrev pub count_scores : (ℕ → Bool) → SortedSet → ℕ
count_scores test [] = 0
count_scores test ((m, s) ∷ z) = one_if (test s) + count_scores test z

place-count :
    (test : ℕ → Bool) (m : Text) (s : ℕ) (z : SortedSet)
    → count_scores test (place m s z) ≡ one_if (test s) + count_scores test z
unfolding place
place-count test m s [] = refl
place-count test m s ((n, t) ∷ z) = elim (Bool-cases (comes_before m s n t)) [
  | inl e ↦ rw e refl
  | inr e ↦ rw e (omega (arith, place-count test m s z))
]

zrem-absent : (m : Text) (z : SortedSet) → zscore m z ≡ none → zrem m z ≡ z
unfolding zrem zscore
zrem-absent m [] h = refl
zrem-absent m ((n, t) ∷ z) h = ground (arith, zrem-absent m z)

-- a new member counts once
pub zadd-count :
    (test : ℕ → Bool) (m : Text) (s : ℕ) (z : SortedSet)
    → zscore m z ≡ none
    → count_scores test (zadd m s z) ≡ one_if (test s) + count_scores test z
unfolding zadd
zadd-count test m s z h = rw (zrem-absent m z h) (place-count test m s z)
