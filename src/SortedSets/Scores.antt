-- ===== src/SortedSets/Scores.antt =====
-- Scores after a member was added or removed.
use stask_service.Prelude.{
  ℕ, Text, text_eq, text_eq_refl, text_eq_iff, false, none, some, [], ◌∷◌, ◌≡◌, ◌≢◌, refl, arith,
}
use stask_service.SortedSets.{SortedSet, place, zadd, zadd_nx, zrem, zscore}

place-zscore :
    (m : Text) (s : ℕ) (z : SortedSet) → zscore m z ≡ none → zscore m (place m s z) ≡ some s
unfolding zscore place
place-zscore m s [] h = rw (text_eq_refl m) refl
place-zscore m s ((n, t) ∷ z) h = ground (arith, text_eq_refl m, place-zscore m s z)

place-zscore_other :
    (m : Text) (s : ℕ) (k : Text) (z : SortedSet)
    → text_eq m k ≡ false
    → zscore k (place m s z) ≡ zscore k z
unfolding zscore place
place-zscore_other m s k [] h = rw h refl
place-zscore_other m s k ((n, t) ∷ z) h = ground (arith, place-zscore_other m s k z)

pub zrem-zscore : (m : Text) (z : SortedSet) → zscore m (zrem m z) ≡ none
unfolding zscore zrem
zrem-zscore m [] = refl
zrem-zscore m ((n, t) ∷ z) = ground (arith, zrem-zscore m z)

pub zrem-zscore_other :
    (m k : Text) (z : SortedSet) → text_eq m k ≡ false → zscore k (zrem m z) ≡ zscore k z
unfolding zscore zrem
zrem-zscore_other m k [] h = refl
zrem-zscore_other m k ((n, t) ∷ z) h =
    ground (arith, zrem-zscore_other m k z, text_eq_iff n m, text_eq_iff n k, text_eq_iff m k)

pub zadd-zscore : (m : Text) (s : ℕ) (z : SortedSet) → zscore m (zadd m s z) ≡ some s
unfolding zadd
zadd-zscore m s z = place-zscore m s (zrem m z) (zrem-zscore m z)

pub zadd-zscore_other :
    (m : Text) (s : ℕ) (k : Text) (z : SortedSet)
    → text_eq m k ≡ false
    → zscore k (zadd m s z) ≡ zscore k z
unfolding zadd
zadd-zscore_other m s k z h =
    ground (arith, place-zscore_other m s k (zrem m z), zrem-zscore_other m k z)

pub zadd_nx-zscore_new :
    (m : Text) (s : ℕ) (z : SortedSet) → zscore m z ≡ none → zscore m (zadd_nx m s z) ≡ some s
unfolding zadd_nx
zadd_nx-zscore_new m s z h = ground (arith, place-zscore m s z)

pub zadd_nx-old : (m : Text) (s t : ℕ) (z : SortedSet) → zscore m z ≡ some t → zadd_nx m s z ≡ z
unfolding zadd_nx
zadd_nx-old m s t z h = ground arith

pub zadd_nx-zscore_other :
    (m : Text) (s : ℕ) (k : Text) (z : SortedSet)
    → text_eq m k ≡ false
    → zscore k (zadd_nx m s z) ≡ zscore k z
unfolding zadd_nx
zadd_nx-zscore_other m s k z h = ground (arith, place-zscore_other m s k z)

place-nonempty : (m : Text) (s : ℕ) (z : SortedSet) → place m s z ≢ []
unfolding place
place-nonempty m s [] h = ground arith
place-nonempty m s ((n, t) ∷ z) h = ground arith

pub zadd-nonempty : (m : Text) (s : ℕ) (z : SortedSet) → zadd m s z ≢ []
unfolding zadd
zadd-nonempty m s z = place-nonempty m s (zrem m z)
