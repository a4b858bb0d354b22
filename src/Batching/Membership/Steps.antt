-- ===== src/Batching/Membership/Steps.antt =====
-- Batches through any sequence of joins, leaves and claims, and what the key "due" does to them.
use stask_service.Prelude.{
  ℕ, Text, text_eq, text_eq_iff, text_eq_refl, text_eq_comm, true, false, ◌==◌, if◌then◌else◌,
  Option, none, some, codes, ◌≡◌, refl, sym, subst, ◌∙◌, Bool-cases, not, ◌&&◌, inl, inr, [], ◌∷◌,
  arith,
}
use stask_service.SortedSets.{SortedSet, zrem, zscore, zcard, members}
use stask_service.SortedSets.Scores.{zadd_nx-zscore_other, zrem-zscore_other}
use stask_service.Batching.Params.{sanitize_key}
use stask_service.Batching.Membership.{
  Sets, due_key, join_script, claim_script, leave_script, expire,
}
use stask_service.Batching.Membership.Deadlines.{
  IsTimed, is_empty, is_missing, join_script-IsTimed, join_script-waits, zrem-empty,
  claim_script-members, leave_script-members, leave_script-index, claim_script-IsTimed,
  leave_script-IsTimed,
}

-- One script, at a key that is not that of the index of deadlines
pub data Script : Sets → Sets → Type 0 where
  joins :
      (tid : Text) (ts due_at : ℕ) (key : Text) (sets : Sets)
      → text_eq key due_key ≡ false
      → Script sets (join_script tid ts due_at key sets).1
  leaves :
      (tid key : Text) (sets : Sets)
      → text_eq key due_key ≡ false
      → Script sets (leave_script tid key sets)
  claims :
      (key : Text) (sets : Sets)
      → text_eq key due_key ≡ false
      → Script sets (claim_script key sets).1

-- any number of scripts
pub data Run : Sets → Sets → Type 0 where
  done : (s : Sets) → Run s s
  step : (s t u : Sets) → Run s t → Script t u → Run s u

-- any number of scripts, and of members whose key has expired in between
pub data Lapse : Sets → Sets → Type 0 where
  starts : (s : Sets) → Lapse s s
  runs : (s t u : Sets) → Lapse s t → Script t u → Lapse s u
  expires :
      (s t : Sets) (key : Text) → Lapse s t → text_eq key due_key ≡ false → Lapse s (expire key t)

-- what of a batch a script at another key leaves as it is
abbrev Same : Text → Sets → Sets → Type 0
Same key s t = (t key ≡ s key) × (zscore key (t due_key) ≡ zscore key (s due_key))

-- it is not so that the batch has members and no deadline
abbrev pub HasDeadline : Text → Sets → Type 0
HasDeadline key sets = (not (is_empty (sets key)) && is_missing (zscore key (sets due_key))) ≡ false

module _ (key : Text) (own : text_eq key due_key ≡ false) where
  own_sym : text_eq due_key key ≡ false
  own_sym = text_eq_comm due_key key ∙ own

  join_script-Same :
      (tid : Text) (ts due_at : ℕ) (j : Text) (s : Sets)
      → text_eq j due_key ≡ false
      → text_eq j key ≡ false
      → Same key s (join_script tid ts due_at j s).1
  unfolding join_script
  join_script-Same tid ts due_at j s other ne = (
    rw (own_sym, ne) refl,
    rw (text_eq_refl due_key, other) (zadd_nx-zscore_other j due_at key (s due_key) ne),
  )

  claim_script-Same :
      (j : Text) (s : Sets)
      → text_eq j due_key ≡ false
      → text_eq j key ≡ false
      → Same key s (claim_script j s).1
  unfolding claim_script
  claim_script-Same j s other ne = (
    rw (own_sym, ne) refl,
    rw (text_eq_refl due_key, other) (zrem-zscore_other j key (s due_key) ne),
  )

  leave_script-Same :
      (tid j : Text) (s : Sets)
      → text_eq j due_key ≡ false
      → text_eq j key ≡ false
      → Same key s (leave_script tid j s)
  unfolding leave_script
  leave_script-Same tid j s other ne = elim (Bool-cases (zcard (zrem tid (s j)) == 0)) [
    | inl e ↦ (
      rw (text_eq_refl j, e, own_sym, ne) refl,
      rw (text_eq_refl j, e, text_eq_refl due_key, other) (zrem-zscore_other j key (s due_key) ne),
    )
    | inr e ↦ (rw (text_eq_refl j, e, ne) refl, rw (text_eq_refl j, e, other) refl)
  ]

  Same-IsTimed : (s t : Sets) → Same key s t → IsTimed key s → IsTimed key t
  Same-IsTimed s t (m, d) h = rw (m, d) h

  Script-IsTimed : {s t : Sets} → Script s t → IsTimed key s → IsTimed key t
  Script-IsTimed (joins tid ts due_at j s other) h = elim (Bool-cases (text_eq j key)) [
    | inl e ↦ rw ((text_eq_iff j key).0 e) (join_script-IsTimed tid ts due_at key s own)
    | inr e ↦
        Same-IsTimed s (join_script tid ts due_at j s).1
          (join_script-Same tid ts due_at j s other e) h
  ]
  Script-IsTimed (leaves tid j s other) h = elim (Bool-cases (text_eq j key)) [
    | inl e ↦ rw ((text_eq_iff j key).0 e) (leave_script-IsTimed tid key s own h)
    | inr e ↦ Same-IsTimed s (leave_script tid j s) (leave_script-Same tid j s other e) h
  ]
  Script-IsTimed (claims j s other) h = elim (Bool-cases (text_eq j key)) [
    | inl e ↦ rw ((text_eq_iff j key).0 e) (claim_script-IsTimed key s own)
    | inr e ↦ Same-IsTimed s (claim_script j s).1 (claim_script-Same j s other e) h
  ]

  -- After any sequence of joins, leaves and claims, at this key and at others, none of which is
  -- that of the index of deadlines, and while no key expires: a batch that started timed has a
  -- deadline exactly while it has members.
  pub Run-IsTimed : {s t : Sets} → Run s t → IsTimed key s → IsTimed key t
  Run-IsTimed (done s) h = h
  Run-IsTimed (step s t u r k) h = Script-IsTimed k (Run-IsTimed r h)

  -- a batch with members has a deadline
  abbrev IsWatched : Sets → Type 0
  IsWatched sets = is_empty (sets key) ≡ false → is_missing (zscore key (sets due_key)) ≡ false

  IsWatched-HasDeadline : (s : Sets) → IsWatched s → HasDeadline key s
  IsWatched-HasDeadline s h = elim (Bool-cases (is_empty (s key))) [
    | inl e ↦ rw e refl
    | inr e ↦ rw (e, h e) refl
  ]

  HasDeadline-IsWatched : (s : Sets) → HasDeadline key s → IsWatched s
  HasDeadline-IsWatched s h e =
      subst (λ b. (not b && is_missing (zscore key (s due_key))) ≡ false) e h

  Same-IsWatched : (s t : Sets) → Same key s t → IsWatched s → IsWatched t
  Same-IsWatched s t (m, d) h = rw (m, d) h

  claim_script-IsWatched : (s : Sets) → IsWatched (claim_script key s).1
  claim_script-IsWatched s = rw (claim_script-members key own s) (λ e. cc)

  still :
      (batch rest deadlines : SortedSet)
      → (is_empty rest ≡ false → is_empty batch ≡ false)
      → (is_empty batch ≡ false → is_missing (zscore key deadlines) ≡ false)
      → is_empty (if zcard rest == 0 then [] else rest) ≡ false
      → is_missing (zscore key (if zcard rest == 0 then zrem key deadlines else deadlines)) ≡ false
  still batch [] deadlines k h e = cc
  still batch (p ∷ rest) deadlines k h e =
      let nonempty : (zcard (p ∷ rest) == 0) ≡ false = ground arith in rw nonempty (h (k refl))

  leave_script-IsWatched :
      (tid : Text) (s : Sets) → IsWatched s → IsWatched (leave_script tid key s)
  leave_script-IsWatched tid s h =
      rw (leave_script-members key own s tid, leave_script-index key own s tid)
        (still (s key) (zrem tid (s key)) (s due_key) (zrem-empty tid (s key)) h)

  Script-IsWatched : {s t : Sets} → Script s t → IsWatched s → IsWatched t
  Script-IsWatched (joins tid ts due_at j s other) h = elim (Bool-cases (text_eq j key)) [
    | inl e ↦ rw ((text_eq_iff j key).0 e) (λ n. join_script-waits tid ts due_at key s own)
    | inr e ↦
        Same-IsWatched s (join_script tid ts due_at j s).1
          (join_script-Same tid ts due_at j s other e) h
  ]
  Script-IsWatched (leaves tid j s other) h = elim (Bool-cases (text_eq j key)) [
    | inl e ↦ rw ((text_eq_iff j key).0 e) (leave_script-IsWatched tid s h)
    | inr e ↦ Same-IsWatched s (leave_script tid j s) (leave_script-Same tid j s other e) h
  ]
  Script-IsWatched (claims j s other) h = elim (Bool-cases (text_eq j key)) [
    | inl e ↦ rw ((text_eq_iff j key).0 e) (claim_script-IsWatched s)
    | inr e ↦ Same-IsWatched s (claim_script j s).1 (claim_script-Same j s other e) h
  ]

  expire-IsWatched :
      (j : Text) (s : Sets) → text_eq j due_key ≡ false → IsWatched s → IsWatched (expire j s)
  unfolding expire
  expire-IsWatched j s other h = elim (Bool-cases (text_eq j key)) [
    | inl e ↦ rw e (λ n. cc)
    | inr e ↦ rw (e, other) h
  ]

  Lapse-IsWatched : {s t : Sets} → Lapse s t → IsWatched s → IsWatched t
  Lapse-IsWatched (starts s) h = h
  Lapse-IsWatched (runs s t u r k) h = Script-IsWatched k (Lapse-IsWatched r h)
  Lapse-IsWatched (expires s t j r other) h = expire-IsWatched j t other (Lapse-IsWatched r h)

  -- After any sequence of joins, leaves and claims, at this key and at others, none of which is
  -- that of the index of deadlines, with members whose keys expire at any moment: a batch never
  -- has members and no deadline, so that none waits for ever.
  pub Lapse-HasDeadline : {s t : Sets} → Lapse s t → HasDeadline key s → HasDeadline key t
  Lapse-HasDeadline {s = s} {t = t} r h =
      IsWatched-HasDeadline t (Lapse-IsWatched r (HasDeadline-IsWatched s h))

-- The key "due" passes the cleaning of a key unchanged. A claim of the batch that has it takes the
-- keys of all batches with a deadline for its members, leaves every other batch its members, and
-- leaves none a deadline.
pub claim_script-forgets :
    (sets : Sets) (key : Text)
    → text_eq key due_key ≡ false
    → (sanitize_key (codes "due") ≡ due_key)
      × (((claim_script due_key sets).0 ≡ members (sets due_key))
          × (((claim_script due_key sets).1 key ≡ sets key)
              × (zscore key ((claim_script due_key sets).1 due_key) ≡ none)))
unfolding claim_script sanitize_key stask_service.Prelude.strip zscore zrem
claim_script-forgets sets key own =
    let other : text_eq due_key key ≡ false = text_eq_comm due_key key ∙ own in
    (refl, (refl, (rw other refl, rw (text_eq_refl due_key) refl)))
