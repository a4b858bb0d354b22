-- ===== src/Dispatch/Backoff.antt =====
-- How long a task that found no slot waits for its next attempt.
use stask_service.Prelude.{some, ℕ, ◌+◌, ◌*◌, ◌%◌, ◌≤◌, Text, ◌≡◌, refl, max, arith, subst, sym}
use stask_service.Rows.{TaskData}
use stask_service.SortedSets.{zscore}
use stask_service.SortedSets.Scores.{zadd-zscore}
use stask_service.Service
use stask_service.Service.{World, Service, Result, raised, pure, gets, external, ◌>>=◌}
use stask_service.Service.Keeps.{Keeps, Keeps-gets, Keeps-bind, Keeps-external}
use stask_service.Service.Triples.{
  Triple, Triple-external, Post, Triple-bind, Triple-gets, Triple-keeps, Triple-pure,
  Triple-external, Triple-weak,
}
use native.Mathlib.Nat.{mul-le-mul}
use stask_service.Store.{get_meta, patch_data}
use stask_service.Dispatch.{backoff, jittered, random, requeue, schedule, attempts_of}

-- a draw changes a delay by a tenth at most
jittered_bounds :
    (draw delay ceiling : ℕ)
    → delay ≤ ceiling
    → (1 ≤ jittered draw delay) × (1000 * jittered draw delay ≤ max 1000 (1100 * ceiling))
unfolding jittered
jittered_bounds draw delay ceiling h =
    let factor : 900 + draw % 201 ≤ 1100 = omega arith in
    (omega arith, omega (arith, mul-le-mul h factor))

backoff_bound : (ceiling attempts : ℕ) → backoff ceiling attempts ≤ ceiling
unfolding backoff
backoff_bound ceiling attempts = omega arith

module _ (P : ℕ → Type 0) where
  abbrev At : World → Type 0
  At w = P w.clock

  get_meta-At : (tid : Text) → Keeps At (get_meta tid)
  unfolding get_meta
  get_meta-At tid = Keeps-external (λ w s h. h) _ (λ w h. h)

  random-At : Keeps At random
  unfolding random pure
  random-At = record { at = λ w h. h }

  patch_data-At : (tid : Text) (f : TaskData → TaskData) → Keeps At (patch_data tid f)
  unfolding patch_data
  patch_data-At tid f =
      Keeps-bind _ _ (Keeps-gets _) (λ t. Keeps-external (λ w s h. h) _ (λ w h. h))

step {ℓ} :
    {A : Type ℓ} {Q : World → Type 0} {S : ℕ → World → Type 0} (m : Service A) (k : A → Service ℕ)
    → Keeps Q m
    → ((a : A) → Triple Q (k a) S (λ w. Unit))
    → Triple Q (m >>= k) S (λ w. Unit)
step m k q f =
    Triple-bind m k (Triple-weak m (λ w h. h) (λ a w h. h) (λ w h. tt) (Triple-keeps m q)) f

-- the moment lies after now, at most a tenth beyond the ceiling or one second away
abbrev pub IsSoon : ℕ → ℕ → ℕ → Type 0
IsSoon ts ceiling due_at =
    (ts + 1 ≤ due_at) × (1000 * due_at ≤ 1000 * ts + max 1000 (1100 * ceiling))

soon :
    (ts draw ceiling attempts : ℕ)
    → IsSoon ts ceiling (ts + jittered draw (backoff ceiling attempts))
soon ts draw ceiling attempts =
    let (low, high) =
      jittered_bounds draw (backoff ceiling attempts) ceiling (backoff_bound ceiling attempts) in
    (omega arith, omega arith)

-- the due index holds the moment
abbrev pub IsPlanned : Text → ℕ → World → Type 0
IsPlanned tid due_at w = zscore tid w.due ≡ some due_at

requeue-IsSoon :
    (ts : ℕ) (tid : Text) (ceiling : ℕ)
    → Triple
        (λ w. w.clock ≡ ts)
        (requeue tid ceiling)
        (λ due_at w. IsSoon ts ceiling due_at × IsPlanned tid due_at w)
        (λ w. Unit)
unfolding requeue schedule
requeue-IsSoon ts tid ceiling =
    let same = λ (c : ℕ). c ≡ ts in
    step _ _ (get_meta-At same tid) λ row. step _ _ (random-At same) λ draw.
      Triple-bind _ _ (Triple-gets {R = λ t w. (t ≡ ts) × (w.clock ≡ ts)} _ (λ w h. (h, h))) λ t.
        let both = λ (c : ℕ). (t ≡ ts) × (c ≡ ts) in
        let due_at = t + jittered draw (backoff ceiling (attempts_of row + 1)) in
        step _ _ (patch_data-At both tid _) λ _.
          Triple-bind _ _
            (Triple-external {R = λ _ w. IsSoon ts ceiling due_at × IsPlanned tid due_at w}
              (λ w s h. h) _
              (λ w h. (
                subst
                    (λ x.
                      IsSoon ts ceiling (x + jittered draw (backoff ceiling (attempts_of row + 1))))
                    (sym h.0) (soon ts draw ceiling (attempts_of row + 1)),
                zadd-zscore tid due_at w.due,
              ))
              (λ w h. tt) (λ w h. tt))
            (λ _. Triple-pure _ (λ w h. h))

abbrev pub DueSoon : Text → ℕ → ℕ → Result ℕ → World → Type 0
DueSoon tid ts ceiling (Service.ok due_at) w = IsSoon ts ceiling due_at × IsPlanned tid due_at w
DueSoon tid ts ceiling (raised e) w = Unit

read :
    (tid : Text) (ts ceiling : ℕ) (r : Result ℕ) (w : World)
    → Post (λ due_at w. IsSoon ts ceiling due_at × IsPlanned tid due_at w) (λ w. Unit) r w
    → DueSoon tid ts ceiling r w
read tid ts ceiling (Service.ok due_at) w h = h
read tid ts ceiling (raised e) w h = tt

-- A task that is put off is in the due index, for a moment at least one second from now, and at most
-- the ceiling and a tenth of it from now, or one second.
pub requeue-DueSoon :
    (tid : Text) (ceiling : ℕ) (w : World)
    → DueSoon tid w.clock ceiling (requeue tid ceiling w).0 (requeue tid ceiling w).1
requeue-DueSoon tid ceiling w =
    read tid w.clock ceiling (requeue tid ceiling w).0 (requeue tid ceiling w).1
      ((requeue-IsSoon w.clock tid ceiling).after w refl)
