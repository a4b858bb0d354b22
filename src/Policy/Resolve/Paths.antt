-- ===== src/Policy/Resolve/Paths.antt =====
-- `_match_path`: the longest prefix that covers the endpoint wins.
use stask_service.Prelude.{
  ℕ, ◌≤◌, Text, true, false, ◌&&◌, ltb, if◌then◌else◌, length, All, Option, none, some, [], ◌∷◌,
  ◌≡◌, arith, Bool-cases, inl, inr,
}
use stask_service.Policy.{Entry, Table}
use stask_service.Policy.Validate.Soundness.{IsSound, TableIsSound}
use stask_service.Policy.Resolve.{covers, longer, match_from, match_path}

-- what a pick says of one key: if the key covers the path, the pick is at least as long
abbrev pub Rivals : Text → Option (Text × Entry) → Text × Entry → Type 0
Rivals path none q = covers q.0 path ≡ false
Rivals path (some b) q = (covers q.0 path && ltb (length b.0) (length q.0)) ≡ false

-- the second pick is no shorter than the first
abbrev NoShorter : Option (Text × Entry) → Option (Text × Entry) → Type 0
NoShorter none r = Unit
NoShorter (some b) none = ⊥
NoShorter (some b) (some r) = length b.0 ≤ length r.0

abbrev pub Covering : Text → Option (Text × Entry) → Type 0
Covering path none = Unit
Covering path (some b) = covers b.0 path ≡ true

abbrev step : Option (Text × Entry) → Text × Entry → Text → Option (Text × Entry)
step best q path = if covers q.0 path && longer q.0 best then some q else best

NoShorter-trans : (a b c : Option (Text × Entry)) → NoShorter a b → NoShorter b c → NoShorter a c
NoShorter-trans none b c p q = tt
NoShorter-trans (some a) none c p q = elim p [ ]
NoShorter-trans (some a) (some b) none p q = elim q [ ]
NoShorter-trans (some a) (some b) (some c) p q = omega arith

step-NoShorter :
    (path : Text) (best : Option (Text × Entry)) (q : Text × Entry)
    → NoShorter best (step best q path)
unfolding longer
step-NoShorter path none q = tt
step-NoShorter path (some b) q =
    elim (Bool-cases (covers q.0 path && ltb (length b.0) (length q.0))) [
      | inl e ↦ rw e (ground arith)
      | inr e ↦ rw e (omega arith)
    ]

step-Rivals :
    (path : Text) (best r : Option (Text × Entry)) (q : Text × Entry)
    → NoShorter (step best q path) r
    → Rivals path r q
unfolding longer
step-Rivals path none none q n = ground arith
step-Rivals path none (some r) q n = ground arith
step-Rivals path (some b) none q n = ground arith
step-Rivals path (some b) (some r) q n = ground arith

step-Covering :
    (path : Text) (best : Option (Text × Entry)) (q : Text × Entry)
    → Covering path best
    → Covering path (step best q path)
unfolding longer
step-Covering path none q h = ground arith
step-Covering path (some b) q h = ground arith

match_from-NoShorter :
    (path : Text) (t : Table) (best : Option (Text × Entry))
    → NoShorter best (match_from best t path)
unfolding match_from
match_from-NoShorter path [] none = tt
match_from-NoShorter path [] (some b) = omega arith
match_from-NoShorter path (q ∷ t) best =
    NoShorter-trans best (step best q path) (match_from (step best q path) t path)
      (step-NoShorter path best q) (match_from-NoShorter path t (step best q path))

match_from-Rivals :
    (path : Text) (t : Table) (best : Option (Text × Entry))
    → All (Rivals path (match_from best t path)) t
unfolding match_from
match_from-Rivals path [] best = tt
match_from-Rivals path (q ∷ t) best = (
  step-Rivals path best (match_from (step best q path) t path) q
      (match_from-NoShorter path t (step best q path)),
  match_from-Rivals path t (step best q path),
)

match_from-Covering :
    (path : Text) (t : Table) (best : Option (Text × Entry))
    → Covering path best
    → Covering path (match_from best t path)
unfolding match_from
match_from-Covering path [] best h = h
match_from-Covering path (q ∷ t) best h =
    match_from-Covering path t (step best q path) (step-Covering path best q h)

-- The pick covers the path, and no key that covers it is longer; where nothing is picked, no key
-- covers the path.
pub match_path-longest :
    (path : Text) (t : Table)
    → Covering path (match_path t path) × All (Rivals path (match_path t path)) t
unfolding match_path
match_path-longest path t = (match_from-Covering path t none tt, match_from-Rivals path t none)

abbrev pub EntryIsSound : ℕ → Option (Text × Entry) → Type 0
EntryIsSound ttl none = Unit
EntryIsSound ttl (some q) = IsSound ttl q.1

step-EntryIsSound :
    (ttl : ℕ) (path : Text) (best : Option (Text × Entry)) (q : Text × Entry)
    → EntryIsSound ttl best
    → IsSound ttl q.1
    → EntryIsSound ttl (step best q path)
step-EntryIsSound ttl path best q h s = elim (Bool-cases (covers q.0 path && longer q.0 best)) [
  | inl e ↦ rw e s
  | inr e ↦ rw e h
]

match_from-EntryIsSound :
    (ttl : ℕ) (path : Text) (t : Table) (best : Option (Text × Entry))
    → EntryIsSound ttl best
    → TableIsSound ttl t
    → EntryIsSound ttl (match_from best t path)
unfolding match_from
match_from-EntryIsSound ttl path [] best h s = h
match_from-EntryIsSound ttl path (q ∷ t) best h s =
    match_from-EntryIsSound ttl path t (step best q path) (step-EntryIsSound ttl path best q h s.0)
      s.1

pub match_path-EntryIsSound :
    (ttl : ℕ) (path : Text) (t : Table) → TableIsSound ttl t → EntryIsSound ttl (match_path t path)
unfolding match_path
match_path-EntryIsSound ttl path t s = match_from-EntryIsSound ttl path t none tt s
