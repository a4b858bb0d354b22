-- ===== src/Store/Search/Wanted.antt =====
-- What the WHERE clause of a search asks for, said without it.
use stask_service.Prelude.{
  ℕ, ◌+◌, ◌<◌, Text, text_eq, text_eq_iff, Bool, true, false, not, ltb, lt→ltb, ◌&&◌, ◌||◌, ◌==◌,
  Option, none, some, [], ◌∷◌, ◌≡◌, ◌≢◌, refl, sym, subst, ◌∙◌, arith, Bool-cases, and-true, inl,
  inr,
}
use stask_service.Schemas.{Status, status_eq}
use stask_service.Rows.{Row}
use stask_service.Gate.{is_blank}
use stask_service.Policy.Resolve.{starts_with}
use stask_service.Store.Search.{Query, validate_search_params, id_matches, status_matches, clause}
use stask_service.Store.Search.Like.{like-escape_like_prefix}

-- A parameter that is missing asks for nothing. The row is not older than `since_seconds` at `ts`.
pub record Wanted (q : Query) (ts : ℕ) (r : Row) : Type 0 where
  pub status : (st : Status) → q.status ≡ some st → status_eq r.status st ≡ true
  pub model : q.model ≢ [] → r.task_data.model ≡ q.model
  pub task_id : q.task_id ≢ [] → r.task_id ≡ q.task_id
  pub task_id_prefix : q.task_id_prefix ≢ [] → starts_with r.task_id q.task_id_prefix ≡ true
  pub since_seconds : q.since_seconds ≢ 0 → ts < r.created_at + q.since_seconds

-- no query has an id and a prefix
abbrev pub IsOneWay : Query → Type 0
IsOneWay q = not (is_blank q.task_id) && not (is_blank q.task_id_prefix) ≡ false

pub validate_search_params-IsOneWay : (q : Query) → validate_search_params q ≡ true → IsOneWay q
unfolding validate_search_params
validate_search_params-IsOneWay q h =
    elim (Bool-cases (not (is_blank q.task_id) && not (is_blank q.task_id_prefix))) [
      | inl e ↦ absurd (ground (arith, h, e))
      | inr e ↦ e
    ]

blank-empty : (s : Text) → is_blank s ≡ true → s ≡ []
blank-empty [] h = refl
blank-empty (c ∷ s) h = cc

blank-full : (s : Text) → is_blank s ≡ false → s ≢ []
blank-full [] h e = cc
blank-full (c ∷ s) h e = cc

nonempty-full : (s : Text) → s ≢ [] → is_blank s ≡ false
nonempty-full [] h = absurd (h refl)
nonempty-full (c ∷ s) h = refl

or-left : (b c : Bool) → b || c ≡ true → b ≡ false → c ≡ true
or-left b c h e = ground (arith, h, e)

some-injective : {x y : Status} → some x ≡ some y → x ≡ y
some-injective h = cc

status_matches-asked :
    (o : Option Status) (r : Row)
    → status_matches o r ≡ true
    → (st : Status) → o ≡ some st
    → status_eq r.status st ≡ true
unfolding status_matches
status_matches-asked none r h st e = cc
status_matches-asked (some x) r h st e =
    subst (λ y. status_eq r.status y ≡ true) (some-injective e) h

asked-status_matches :
    (o : Option Status) (r : Row)
    → ((st : Status) → o ≡ some st → status_eq r.status st ≡ true)
    → status_matches o r ≡ true
unfolding status_matches
asked-status_matches none r h = refl
asked-status_matches (some x) r h = h x refl

id_matches-id :
    (q : Query) (r : Row) → id_matches q r ≡ true → q.task_id ≢ [] → r.task_id ≡ q.task_id
unfolding id_matches
id_matches-id q r h full =
    let given = nonempty-full q.task_id full in
    (text_eq_iff r.task_id q.task_id).0 (ground (arith, h, given))

id_matches-prefix :
    (q : Query) (r : Row)
    → IsOneWay q
    → id_matches q r ≡ true
    → q.task_id_prefix ≢ []
    → starts_with r.task_id q.task_id_prefix ≡ true
unfolding id_matches
id_matches-prefix q r one h full =
    let given = nonempty-full q.task_id_prefix full in
    sym (like-escape_like_prefix q.task_id_prefix r.task_id) ∙ ground (arith, h, given, one)

Wanted-id_matches : (q : Query) (r : Row) (ts : ℕ) → Wanted q ts r → id_matches q r ≡ true
unfolding id_matches
Wanted-id_matches q r ts w = elim (Bool-cases (is_blank q.task_id)) [
  | inr e ↦ rw e ((text_eq_iff r.task_id q.task_id).1 (w.task_id (blank-full q.task_id e)))
  | inl e ↦ rw e (elim (Bool-cases (is_blank q.task_id_prefix)) [
    | inl f ↦ rw f refl
    | inr f ↦ rw f (
        like-escape_like_prefix q.task_id_prefix r.task_id
        ∙ w.task_id_prefix (blank-full q.task_id_prefix f))
  ])
]

recent_or : (since ts end : ℕ) → (since ≢ 0 → ts < end) → (since == 0) || ltb ts end ≡ true
recent_or since ts end h = elim (Bool-cases (since == 0)) [
  | inl e ↦ rw e refl
  | inr e ↦ rw e (lt→ltb ts end (h (λ z. ground (arith, z, e))))
]

model_or :
    (q : Query) (r : Row) (ts : ℕ)
    → Wanted q ts r
    → is_blank q.model || text_eq r.task_data.model q.model ≡ true
model_or q r ts w = elim (Bool-cases (is_blank q.model)) [
  | inl e ↦ rw e refl
  | inr e ↦ rw e ((text_eq_iff r.task_data.model q.model).1 (w.model (blank-full q.model e)))
]

-- The clause holds of the rows that are wanted, and of no others.
pub clause-Wanted :
    (q : Query) (ts : ℕ) (r : Row) → IsOneWay q → clause q ts r ≡ true → Wanted q ts r
unfolding clause
clause-Wanted q ts r one h =
    let (st, h₁) = and-true (status_matches q.status r) _ h in
    let (md, h₂) = and-true (is_blank q.model || text_eq r.task_data.model q.model) _ h₁ in
    let (tid, since) = and-true (id_matches q r) _ h₂ in
    record {
      status = status_matches-asked q.status r st;
      model = λ full.
          (text_eq_iff r.task_data.model q.model).0
            (or-left (is_blank q.model) _ md (nonempty-full q.model full));
      task_id = id_matches-id q r tid;
      task_id_prefix = id_matches-prefix q r one tid;
      since_seconds = λ n. ground (arith, since, n);
    }

Wanted-clause : (q : Query) (ts : ℕ) (r : Row) → Wanted q ts r → clause q ts r ≡ true
unfolding clause
Wanted-clause q ts r w =
    rw (asked-status_matches q.status r w.status, model_or q r ts w, Wanted-id_matches q r ts w)
      (recent_or q.since_seconds ts (r.created_at + q.since_seconds) w.since_seconds)

pub clause-unwanted : (q : Query) (ts : ℕ) (r : Row) → clause q ts r ≡ false → Wanted q ts r → ⊥
clause-unwanted q ts r h w = ground (arith, h, Wanted-clause q ts r w)
