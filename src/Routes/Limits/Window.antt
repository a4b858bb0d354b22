-- ===== src/Routes/Limits/Window.antt =====
-- The sliding window of the rate limit: how many requests of one caller it lets through.
use stask_service.Prelude.{
  ℕ, ◌+◌, ◌≤◌, ◌<◌, Text, Bool, true, false, ltb, leb, ◌&&◌, length, none, List, [], ◌∷◌, ◌++◌, ◌≡◌,
  refl, arith, Bool-cases, inl, inr,
}
use stask_service.SortedSets.{SortedSet, zadd, zscore}
use stask_service.SortedSets.Counts.{one_if, count_scores, zadd-count}
use stask_service.Execute.Settle.{str_of}
use stask_service.Routes.Limits.{drop_old, rate_limit_script}

abbrev pub name_of : ℕ → ℕ → Text
name_of now member = str_of now ++ b':' ∷ str_of member

abbrev noted : Bool → ℕ → List ℕ → List ℕ
noted true t passed = t ∷ passed
noted false t passed = passed

-- A caller's requests, in the order of their times: the time of the last one, the window after it,
-- and the times of those that passed. No member is drawn twice within a window.
pub data Run (window limit : ℕ) : ℕ → SortedSet → List ℕ → Type 0 where
  starts : Run window limit 0 [] []
  comes :
      {now : ℕ} {z : SortedSet} {passed : List ℕ} (t member : ℕ)
      → Run window limit now z passed
      → now ≤ t
      → zscore (name_of t member) (drop_old window t z) ≡ none
      → Run window limit t
          (rate_limit_script t window limit member z).1
          (noted (rate_limit_script t window limit member z).0 t passed)

-- how many of the times lie in the window that ends at `top`
abbrev pub count_within : ℕ → ℕ → List ℕ → ℕ
count_within window top [] = 0
count_within window top (t ∷ ts) =
    one_if (leb t top && ltb top (t + window)) + count_within window top ts

module _ (window : ℕ) where
  -- whether a score is still kept at a moment
  abbrev recent : ℕ → ℕ → Bool
  recent top s = ltb top (s + window)

  abbrev count_recent : ℕ → List ℕ → ℕ
  count_recent top [] = 0
  count_recent top (t ∷ ts) = one_if (recent top t) + count_recent top ts

  within_recent : (top : ℕ) (ts : List ℕ) → count_within window top ts ≤ count_recent top ts
  within_recent top [] = ground arith
  within_recent top (t ∷ ts) = ground (arith, within_recent top ts)

  drop_old-recent :
      (now top : ℕ) (z : SortedSet)
      → now ≤ top
      → count_scores (recent top) (drop_old window now z) ≡ count_scores (recent top) z
  unfolding drop_old
  drop_old-recent now top [] h = refl
  drop_old-recent now top ((m, s) ∷ z) h = elim (Bool-cases (leb (s + window) now)) [
    | inl e ↦ rw e (ground (arith, drop_old-recent now top z h))
    | inr e ↦ rw e (ground (arith, drop_old-recent now top z h))
  ]

  count_scores-length : (test : ℕ → Bool) (z : SortedSet) → count_scores test z ≤ length z
  count_scores-length test [] = ground arith
  count_scores-length test ((m, s) ∷ z) = ground (arith, count_scores-length test z)

  all_scores : (z : SortedSet) → count_scores (λ s. true) z ≡ length z
  all_scores [] = refl
  all_scores ((m, s) ∷ z) = ground (arith, all_scores z)

  drop_old-length : (now : ℕ) (z : SortedSet) → length (drop_old window now z) ≤ length z
  unfolding drop_old
  drop_old-length now [] = ground arith
  drop_old-length now ((m, s) ∷ z) = ground (arith, drop_old-length now z)

module _ (window limit : ℕ) where
  kept_length :
      (t member : ℕ) (z : SortedSet)
      → length z ≤ limit
      → zscore (name_of t member) (drop_old window t z) ≡ none
      → length (rate_limit_script t window limit member z).1 ≤ limit
  unfolding rate_limit_script
  kept_length t member z le fresh =
      let kept = drop_old window t z in
      elim (Bool-cases (leb limit (length kept))) [
        | inl e ↦ rw e (omega (arith, drop_old-length window t z, le))
        | inr e ↦ rw e (
            ground (
              arith,
              e,
              zadd-count (λ s. true) (name_of t member) t kept fresh,
              all_scores window kept,
              all_scores window (zadd (name_of t member) t kept),
            ))
      ]

  recent_kept :
      (now t member top : ℕ) (z : SortedSet) (passed : List ℕ)
      → t ≤ top
      → zscore (name_of t member) (drop_old window t z) ≡ none
      → count_recent window top passed ≤ count_scores (recent window top) z
      → count_recent window top (noted (rate_limit_script t window limit member z).0 t passed)
        ≤ count_scores (recent window top) (rate_limit_script t window limit member z).1
  unfolding rate_limit_script
  recent_kept now t member top z passed le fresh h =
      let kept = drop_old window t z in
      elim (Bool-cases (leb limit (length kept))) [
        | inl e ↦ rw e (omega (arith, drop_old-recent window t top z le, h))
        | inr e ↦ rw e (
            omega (
              arith,
              zadd-count (recent window top) (name_of t member) t kept fresh,
              drop_old-recent window t top z le,
              h,
            ))
      ]

  Run-length :
      {now : ℕ} {z : SortedSet} {passed : List ℕ} → Run window limit now z passed → length z ≤ limit
  Run-length starts = ground arith
  Run-length (comes {now} {z} {passed} t member r le fresh) =
      kept_length t member z (Run-length r) fresh

  Run-recent :
      {now : ℕ} {z : SortedSet} {passed : List ℕ} (top : ℕ)
      → Run window limit now z passed
      → now ≤ top
      → count_recent window top passed ≤ count_scores (recent window top) z
  Run-recent top starts h = ground arith
  Run-recent top (comes {now} {z} {passed} t member r le fresh) h =
      recent_kept now t member top z passed h fresh (Run-recent top r (omega (arith, le, h)))

  noted_later :
      (b : Bool) (t top : ℕ) (passed : List ℕ)
      → top < t
      → count_within window top (noted b t passed) ≡ count_within window top passed
  noted_later true t top passed h = ground (arith, h)
  noted_later false t top passed h = refl

  -- Of the requests of one caller, in the order of their times, no member of the sorted set being
  -- drawn twice within a window: of those whose times lie in any one window, at most `limit`
  -- passed the rate limit.
  pub Run_bound :
      {now : ℕ} {z : SortedSet} {passed : List ℕ} (top : ℕ)
      → Run window limit now z passed
      → count_within window top passed ≤ limit
  Run_bound top starts = ground arith
  Run_bound top (comes {now} {z} {passed} t member r le fresh) = elim (Bool-cases (leb t top)) [
    | inl e ↦
        let now_run = comes t member r le fresh in
        let last = noted (rate_limit_script t window limit member z).0 t passed in
        let after = (rate_limit_script t window limit member z).1 in
        omega (
          arith,
          within_recent window top last,
          Run-recent top now_run (ground (arith, e)),
          count_scores-length window (recent window top) after,
          Run-length now_run,
        )
    | inr e ↦
        let b = (rate_limit_script t window limit member z).0 in
        omega (arith, noted_later b t top passed (ground (arith, e)), Run_bound top r)
  ]
