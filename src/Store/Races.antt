-- ===== src/Store/Races.antt =====
-- Who wins: of several that race for the same move, at most one does.
use stask_service.Prelude.{
  ℕ, suc, ◌≤◌, Text, Bool, true, false, if◌then◌else◌, All, Option, List, [], ◌∷◌, ◌≡◌, refl, arith,
  Bool-cases, inl, inr,
}
use stask_service.Schemas.{Status, is_among}
use stask_service.Rows.{Row, TaskData, releasing}
use stask_service.Service.{World, Service, Result, ok, raised, when}
use stask_service.Service.Keeps.{Keeps, Keeps-catch, Keeps-pure, Keeps-if, Keeps-external}
use stask_service.Service.Triples.{
  Triple, Post, Triple-bind, Triple-gets, Triple-external, Triple-keeps, Triple-pure, Triple-weak,
}
use stask_service.Store.{
  update_where, count_where, cas_test, cas_change, cas, patch_change, with_batch_state, claim_test,
  claim_for_release, cache_status,
}

-- no row matches after every matching row was changed into one that does not
pub count_where-update_where :
    (test : Row → Bool) (change : Row → Row)
    → ((r : Row) → test r ≡ true → test (change r) ≡ false)
    → (rs : List Row) → count_where test (update_where test change rs) ≡ 0
unfolding count_where update_where
count_where-update_where test change k [] = refl
count_where-update_where test change k (r ∷ rs) = elim (Bool-cases (test r)) [
  | inl e ↦ rw (e, k r e, count_where-update_where test change k rs) refl
  | inr e ↦ rw (e, e, count_where-update_where test change k rs) refl
]

claim_test-spent :
    (tid : Text) (ts : ℕ) (r : Row)
    → claim_test tid (patch_change (with_batch_state releasing) ts r) ≡ false
claim_test-spent tid ts r = ground arith

cas_test-spent :
    (tid : Text) (froms : List Status) (to : Status) (patch : TaskData → TaskData) (reason : Text)
    (url : Option Text) (ts : ℕ) (r : Row)
    → is_among to froms ≡ false
    → cas_test tid froms (cas_change to patch reason url ts r) ≡ false
unfolding cas_change
cas_test-spent tid froms to patch reason url ts r h = ground (arith, h)

-- no row of the world passes the test
abbrev pub Spent : (Row → Bool) → World → Type 0
Spent test w = count_where test w.rows ≡ 0

abbrev pub is_win : Result Bool → Bool
is_win (ok b) = b
is_win (raised e) = false

-- The workers try one after the other; each entry of the list is what happens before one tries. A
-- worker whose call fails has not won.
abbrev pub wins : Service Bool → List (World → World) → World → ℕ
wins m [] w = 0
wins m (f ∷ between) w =
    let (r, v) = m (f w) in let rest = wins m between v in if is_win r then suc rest else rest

-- A move for which only the rows that pass the test are eligible: one that wins leaves none of
-- them, and where none is left it does not win.
record IsRace (test : Row → Bool) (m : Service Bool) : Type 0 where
  spends : Triple (λ w. Unit {0}) m (λ b w. b ≡ true → Spent test w) (λ w. Unit {0})
  late : Triple (Spent test) m (λ b w. (b ≡ false) × Spent test w) (Spent test)

module _ (test : Row → Bool) where
  won :
      (r : Result Bool) (w : World)
      → Post (λ b w. b ≡ true → Spent test w) (λ w. Unit {0}) r w
      → is_win r ≡ true
      → Spent test w
  won (ok b) w h e = h e
  won (raised x) w h e = ground arith

  lost :
      (r : Result Bool) (w : World)
      → Post (λ b w. (b ≡ false) × Spent test w) (Spent test) r w
      → (is_win r ≡ false) × Spent test w
  lost (ok b) w h = h
  lost (raised x) w h = (refl, h)

-- what happens in between gives no row a new chance
abbrev pub Between : (Row → Bool) → List (World → World) → Type 0
Between test between = All (λ f. (v : World) → Spent test v → Spent test (f v)) between

module _ {test : Row → Bool} {m : Service Bool} (race : IsRace test m) where
  wins-none :
      (between : List (World → World)) (w : World)
      → Between test between
      → Spent test w
      → wins m between w ≡ 0
  wins-none [] w k h = refl
  wins-none (f ∷ between) w k h =
      let (none_won, spent) = lost test (m (f w)).0 (m (f w)).1 (race.late.after (f w) (k.0 w h)) in
      rw (none_won, wins-none between (m (f w)).1 k.1 spent) refl

  wins-one :
      (between : List (World → World)) (w : World) → Between test between → wins m between w ≤ 1
  wins-one [] w k = omega arith
  wins-one (f ∷ between) w k = elim (Bool-cases (is_win (m (f w)).0)) [
    | inl e ↦
        let spent = won test (m (f w)).0 (m (f w)).1 (race.spends.after (f w) tt) e in
        rw (e, wins-none between (m (f w)).1 k.1 spent) (omega arith)
    | inr e ↦ rw e (wins-one between (m (f w)).1 k.1)
  ]

claim-IsRace : (tid : Text) → IsRace (claim_test tid) (claim_for_release tid)
unfolding claim_for_release
claim-IsRace tid =
    let spent = λ (ts : ℕ) (w : World).
      count_where-update_where (claim_test tid) (patch_change (with_batch_state releasing) ts)
        (λ r h. claim_test-spent tid ts r) w.rows in
    record {
      spends =
          Triple-bind _ _ (Triple-gets {R = λ ts w. Unit} _ (λ w h. tt))
            λ ts. Triple-external (λ w s h. tt) _ (λ w h e. spent ts w) (λ w h. tt) (λ w h. tt);
      late = Triple-bind _ _ (Triple-gets {R = λ ts w. Spent (claim_test tid) w} _ (λ w h. h)) λ ts.
          Triple-external (λ w s h. h) _ (λ w h. (rw h refl, spent ts w)) (λ w h. h)
            (λ w h. spent ts w);
    }

-- Of any number of workers that claim one task for its release at most one wins, however the calls
-- end, as long as nothing in between makes the task claimable again.
pub claim_for_release-wins :
    (tid : Text) (between : List (World → World)) (w : World)
    → Between (claim_test tid) between
    → wins (claim_for_release tid) between w ≤ 1
claim_for_release-wins tid between w k = wins-one (claim-IsRace tid) between w k

module _ (tid : Text) (froms : List Status) (to : Status) (patch : TaskData → TaskData)
    (reason : Text) (url : Option Text) where
  cache-Keeps :
      (P : List Row → Type 0) (b : Bool) → Keeps (λ w. P w.rows) (when b (cache_status tid to))
  unfolding cache_status
  cache-Keeps P b =
      Keeps-if b _ _
        (Keeps-catch _ _ (Keeps-external (λ w s h. h) _ (λ w h. h)) (λ e. Keeps-pure tt))
        (Keeps-pure tt)

  cas-IsRace :
      is_among to froms ≡ false → IsRace (cas_test tid froms) (cas tid froms to patch reason url)
  unfolding cas
  cas-IsRace h =
      let spent = λ (ts : ℕ) (w : World).
        count_where-update_where (cas_test tid froms) (cas_change to patch reason url ts)
          (λ r e. cas_test-spent tid froms to patch reason url ts r h) w.rows in
      let none_left = λ (rs : List Row). count_where (cas_test tid froms) rs ≡ 0 in
      record {
        spends = Triple-bind _ _ (Triple-gets {R = λ ts w. Unit} _ (λ w h. tt)) λ ts.
            Triple-bind _ _
              (Triple-external {R = λ b w. none_left w.rows} (λ w s h. tt) _ (λ w h. spent ts w)
                (λ w h. tt) (λ w h. tt))
              λ b.
                Triple-bind _ _
                  (Triple-weak _ (λ w h. h) (λ a w h. h) (λ w h. tt)
                    (Triple-keeps _ (cache-Keeps none_left b)))
                  (λ _. Triple-pure b (λ w h e. h));
        late = Triple-bind _ _ (Triple-gets {R = λ ts w. none_left w.rows} _ (λ w h. h)) λ ts.
            Triple-bind _ _
              (Triple-external {R = λ b w. (b ≡ false) × none_left w.rows} (λ w s h. h) _
                (λ w h. (rw h refl, spent ts w)) (λ w h. h) (λ w h. spent ts w))
              λ b.
                Triple-bind _ _
                  (Triple-weak _ (λ w h. h) (λ a w h. h) (λ w h. h.1)
                    (Triple-keeps _ (cache-Keeps (λ rs. (b ≡ false) × none_left rs) b)))
                  (λ _. Triple-pure b (λ w h. h));
      }

  -- Of any number of writers that make one transition out of given states, the new state not being
  -- one of them, at most one wins, however the calls end, as long as nothing in between brings the
  -- task back into one of these states.
  pub cas-wins :
      (between : List (World → World)) (w : World)
      → is_among to froms ≡ false
      → Between (cas_test tid froms) between
      → wins (cas tid froms to patch reason url) between w ≤ 1
  cas-wins between w h k = wins-one (cas-IsRace h) between w k
