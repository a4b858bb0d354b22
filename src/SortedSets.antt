-- ===== src/SortedSets.antt =====
-- Redis sorted sets with whole scores: ZADD, ZADD NX, ZREM, ZCARD, ZSCORE, ZRANGE, ZRANGEBYSCORE.
-- A set is the list of its members by score, and by the member where scores are equal.
pub mod Scores
pub mod Counts
use stask_service.Prelude.{
  ℕ, suc, ◌≤◌, Text, text_eq, Bool, true, false, ◌&&◌, ◌||◌, ltb, leb, ◌==◌, if◌then◌else◌, length,
  take, Option, none, some, List, [], ◌∷◌,
}

abbrev pub SortedSet : Type 0
SortedSet = List (Text × ℕ)

-- the order of two members by their bytes
text_lt : Text → Text → Bool
text_lt [] [] = false
text_lt [] (y ∷ ys) = true
text_lt (x ∷ xs) [] = false
text_lt (x ∷ xs) (y ∷ ys) = ltb x y || x == y && text_lt xs ys

comes_before : Text → ℕ → Text → ℕ → Bool
unfolding text_lt
comes_before m s n t = ltb s t || s == t && text_lt m n

place : Text → ℕ → SortedSet → SortedSet
unfolding comes_before
place m s [] = (m, s) ∷ []
place m s ((n, t) ∷ z) =
    let rest = place m s z in if comes_before m s n t then (m, s) ∷ (n, t) ∷ z else (n, t) ∷ rest

unfoldable pub zrem : Text → SortedSet → SortedSet
zrem m [] = []
zrem m ((n, t) ∷ z) = let rest = zrem m z in if text_eq n m then rest else (n, t) ∷ rest

unfoldable pub zscore : Text → SortedSet → Option ℕ
zscore m [] = none
zscore m ((n, t) ∷ z) = if text_eq n m then some t else zscore m z

unfoldable pub zadd : Text → ℕ → SortedSet → SortedSet
unfolding place zrem
zadd m s z = place m s (zrem m z)

unfoldable pub zadd_nx : Text → ℕ → SortedSet → SortedSet
unfolding place zscore
zadd_nx m s z = elim (zscore m z) [ none ↦ place m s z | some t ↦ z ]

abbrev pub zcard : SortedSet → ℕ
zcard z = length z

unfoldable pub members : SortedSet → List Text
members [] = []
members ((m, s) ∷ z) = m ∷ members z

-- ZRANGEBYSCORE -inf top
up_to : ℕ → SortedSet → SortedSet
up_to top [] = []
up_to top ((m, s) ∷ z) = let rest = up_to top z in if leb s top then (m, s) ∷ rest else rest

unfoldable pub range_by_score : ℕ → ℕ → SortedSet → List Text
unfolding up_to members
range_by_score top limit z = take limit (members (up_to top z))
