-- ===== src/Batching/Membership/Deadlines.antt =====
-- The scripts of a batch: the first member sets the deadline, one claim takes all the members, and
-- a batch has a deadline as long as it has members. The batch whose key is that of the index of
-- deadlines is not meant.
use stask_service.Prelude.{
  ℕ, Text, text_eq, text_eq_iff, text_eq_refl, text_eq_comm, Bool, true, false, ◌==◌, if◌then◌else◌,
  Option, none, some, [], ◌∷◌, ◌≡◌, ◌≢◌, refl, sym, ◌∙◌, arith, Option-cases, inl, inr, Bool-cases,
}
use stask_service.SortedSets.{SortedSet, zadd, zadd_nx, zrem, zscore, zcard}
use stask_service.SortedSets.Scores.{
  zadd_nx-zscore_new, zadd_nx-zscore_other, zadd_nx-old, zrem-zscore, zadd-nonempty,
}
use stask_service.Service.{put_at}
use stask_service.Batching.Membership.{Sets, due_key, join_script, claim_script, leave_script}

abbrev pub is_empty : SortedSet → Bool
is_empty [] = true
is_empty (p ∷ z) = false

abbrev pub is_missing : Option ℕ → Bool
is_missing none = true
is_missing (some d) = false

-- A batch has a deadline exactly while it has members.
abbrev pub IsTimed : Text → Sets → Type 0
IsTimed key sets = is_empty (sets key) ≡ is_missing (zscore key (sets due_key))

-- the deadline that stands, or else a new one
abbrev pub standing : Option ℕ → ℕ → ℕ
standing none due_at = due_at
standing (some d) due_at = d

pub put_at-here : (key : Text) (z : SortedSet) (sets : Sets) → put_at key z sets key ≡ z
put_at-here key z sets = rw (text_eq_refl key) refl

pub put_at-other :
    (key j : Text) (z : SortedSet) (sets : Sets)
    → text_eq key j ≡ false
    → put_at key z sets j ≡ sets j
put_at-other key j z sets h = rw h refl

-- a batch at a key of its own, and what the scripts do there
module _ (key : Text) (own : text_eq key due_key ≡ false) (sets : Sets) where
  own_sym : text_eq due_key key ≡ false
  own_sym = text_eq_comm due_key key ∙ own

  pub join_script-members :
      (tid : Text) (ts due_at : ℕ)
      → (join_script tid ts due_at key sets).1 key ≡ zadd tid ts (sets key)
  unfolding join_script
  join_script-members tid ts due_at = rw (own_sym, text_eq_refl key) refl

  pub join_script-index :
      (tid : Text) (ts due_at : ℕ)
      → (join_script tid ts due_at key sets).1 due_key ≡ zadd_nx key due_at (sets due_key)
  unfolding join_script
  join_script-index tid ts due_at = rw (text_eq_refl due_key, own) refl

  pub claim_script-members : (claim_script key sets).1 key ≡ []
  unfolding claim_script
  claim_script-members = rw (own_sym, text_eq_refl key) refl

  pub claim_script-index : (claim_script key sets).1 due_key ≡ zrem key (sets due_key)
  unfolding claim_script
  claim_script-index = rw (text_eq_refl due_key, own) refl

  pub leave_script-members :
      (tid : Text)
      → leave_script tid key sets key
        ≡ (if zcard (zrem tid (sets key)) == 0 then [] else zrem tid (sets key))
  unfolding leave_script
  leave_script-members tid = elim (Bool-cases (zcard (zrem tid (sets key)) == 0)) [
    | inl e ↦ rw (text_eq_refl key, e, own_sym, text_eq_refl key) refl
    | inr e ↦ rw (text_eq_refl key, e, text_eq_refl key) refl
  ]

  pub leave_script-index :
      (tid : Text)
      → leave_script tid key sets due_key
        ≡ (if zcard (zrem tid (sets key)) == 0 then zrem key (sets due_key) else sets due_key)
  unfolding leave_script
  leave_script-index tid = elim (Bool-cases (zcard (zrem tid (sets key)) == 0)) [
    | inl e ↦ rw (text_eq_refl key, e, text_eq_refl due_key, own) refl
    | inr e ↦ rw (text_eq_refl key, e, own) refl
  ]

-- A join of a batch at a key of its own answers with the deadline that stands for the batch, and
-- with its own one if there is none; that deadline is the one in the index afterwards, and those of
-- the other batches stay.
pub join_script-deadline :
    (tid : Text) (ts due_at : ℕ) (key other : Text) (sets : Sets)
    → text_eq key due_key ≡ false
    → let r = join_script tid ts due_at key sets in
      (r.0.1 ≡ some (standing (zscore key (sets due_key)) due_at))
      × (zscore other (r.1 due_key)
          ≡ (if text_eq key other then r.0.1 else zscore other (sets due_key)))
unfolding join_script
join_script-deadline tid ts due_at key other sets own =
    rw (text_eq_refl due_key, own)
      (elim (Option-cases (zscore key (sets due_key))) [
        | inl n ↦ ground (
          arith,
          zadd_nx-zscore_new key due_at (sets due_key),
          text_eq_iff key other,
          zadd_nx-zscore_other key due_at other (sets due_key),
        )
        | inr (d, p) ↦
            ground (arith, zadd_nx-old key due_at d (sets due_key), text_eq_iff key other)
      ])

full : (z : SortedSet) → z ≢ [] → is_empty z ≡ false
full [] e = elim (e refl) [ ]
full (q ∷ z) e = refl

-- the deadline of a batch that is joined
pub join_script-waits :
    (tid : Text) (ts due_at : ℕ) (key : Text) (sets : Sets)
    → text_eq key due_key ≡ false
    → is_missing (zscore key ((join_script tid ts due_at key sets).1 due_key)) ≡ false
join_script-waits tid ts due_at key sets own =
    rw (join_script-index key own sets tid ts due_at)
      (elim (Option-cases (zscore key (sets due_key))) [
        | inl n ↦ rw (zadd_nx-zscore_new key due_at (sets due_key) n) refl
        | inr (d, p) ↦ rw (zadd_nx-old key due_at d (sets due_key) p, p) refl
      ])

-- Joining, leaving and claiming keep a batch timed.
pub join_script-IsTimed :
    (tid : Text) (ts due_at : ℕ) (key : Text) (sets : Sets)
    → text_eq key due_key ≡ false
    → IsTimed key (join_script tid ts due_at key sets).1
join_script-IsTimed tid ts due_at key sets own =
    rw
      (
        join_script-members key own sets tid ts due_at,
        full (zadd tid ts (sets key)) (zadd-nonempty tid ts (sets key)),
        join_script-waits tid ts due_at key sets own,
      )
      refl

pub claim_script-IsTimed :
    (key : Text) (sets : Sets) → text_eq key due_key ≡ false → IsTimed key (claim_script key sets).1
claim_script-IsTimed key sets own =
    rw
      (
        claim_script-members key own sets,
        claim_script-index key own sets,
        zrem-zscore key (sets due_key),
      )
      refl

pub zrem-empty : (tid : Text) (z : SortedSet) → is_empty (zrem tid z) ≡ false → is_empty z ≡ false
unfolding zrem
zrem-empty tid [] h = h
zrem-empty tid (p ∷ z) h = refl

rest-IsTimed :
    (key : Text) (batch rest deadlines : SortedSet)
    → (is_empty rest ≡ false → is_empty batch ≡ false)
    → is_empty batch ≡ is_missing (zscore key deadlines)
    → is_empty (if zcard rest == 0 then [] else rest)
      ≡ is_missing (zscore key (if zcard rest == 0 then zrem key deadlines else deadlines))
rest-IsTimed key batch [] deadlines k h = rw (zrem-zscore key deadlines) refl
rest-IsTimed key batch (p ∷ rest) deadlines k h =
    let nonempty : (zcard (p ∷ rest) == 0) ≡ false = ground arith in rw nonempty (sym (k refl) ∙ h)

pub leave_script-IsTimed :
    (tid key : Text) (sets : Sets)
    → text_eq key due_key ≡ false
    → IsTimed key sets
    → IsTimed key (leave_script tid key sets)
leave_script-IsTimed tid key sets own h =
    rw (leave_script-members key own sets tid, leave_script-index key own sets tid)
      (rest-IsTimed key (sets key) (zrem tid (sets key)) (sets due_key) (zrem-empty tid (sets key))
        h)
