-- ===== src/Store/Growth.antt =====
-- Rows are never lost, and each follows the state machine: what holds between the table before and
-- after any write of app/services/taskstore/_write.py.
use stask_service.Prelude.{
  ℕ, Text, All, Bool, true, false, Option, none, List, [], ◌∷◌, ◌++◌, ◌≡◌, refl, arith, Bool-cases,
  inl, inr, subst, sym,
}
use stask_service.Schemas.{
  Status, queued, in_progress, foreign, is_among, terminal, active, pending,
}
use stask_service.Schemas.Lifecycle.{
  may_become, may_become_refl, may_become_trans, may_become-terminal,
}
use stask_service.Rows.{Row, TaskData, BatchState, releasing}
use stask_service.Service.{World, Service, external, when, pure}
use stask_service.Service.Keeps.{
  Keeps, Steady, Keeps-external, Keeps-pure, Keeps-gets, Keeps-bind, Keeps-catch, Keeps-if,
  keeps_rules,
}
use stask_service.Store.{
  update_where, has_id, exists, get, get_meta, cache_status, cached_status, get_status, create,
  cas_test, cas_change, cas, patch_change, patch_data, with_batch_state, claim_test,
  claim_for_release, unclaim_for_release,
}

-- A row may have moved along the state machine; its identity and its birth stay, and so does the
-- end of a task that has ended.
pub record Follows (r s : Row) : Type 0 where
  pub same_id : s.task_id ≡ r.task_id
  pub same_birth : s.created_at ≡ r.created_at
  pub same_owner : s.user_id ≡ r.user_id
  pub legal : may_become r.status s.status ≡ true
  pub ended : is_among r.status terminal ≡ true → s.finish_time ≡ r.finish_time

pub Follows-refl : (r : Row) → Follows r r
Follows-refl r = record {
  same_id = refl;
  same_birth = refl;
  same_owner = refl;
  legal = may_become_refl r.status;
  ended = λ _. refl;
}

pub Follows-trans : {r s t : Row} → Follows r s → Follows s t → Follows r t
Follows-trans {r} {s} {t} p q =
    ground
      (arith, may_become_trans r.status s.status t.status, may_become-terminal r.status s.status)

-- A new row is QUEUED at first.
abbrev pub Born : Row → Type 0
Born r = may_become queued r.status ≡ true

-- The first table grew into the second.
abbrev pub Grows : List Row → List Row → Type 0
Grows [] ss = All Born ss
Grows (r ∷ rs) [] = ⊥
Grows (r ∷ rs) (s ∷ ss) = Follows r s × Grows rs ss

pub Grows-refl : (rs : List Row) → Grows rs rs
Grows-refl [] = tt
Grows-refl (r ∷ rs) = (Follows-refl r, Grows-refl rs)

Born-Follows : {r s : Row} → Born r → Follows r s → Born s
Born-Follows {r} {s} b f = may_become_trans queued r.status s.status b f.legal

All-Born : (ss ts : List Row) → All Born ss → Grows ss ts → All Born ts
All-Born [] ts b g = g
All-Born (s ∷ ss) [] b g = elim g [ ]
All-Born (s ∷ ss) (t ∷ ts) b g = (Born-Follows b.0 g.0, All-Born ss ts b.1 g.1)

pub Grows-trans : (rs ss ts : List Row) → Grows rs ss → Grows ss ts → Grows rs ts
Grows-trans [] ss ts p q = All-Born ss ts p q
Grows-trans (r ∷ rs) (s ∷ ss) (t ∷ ts) p q = (Follows-trans p.0 q.0, Grows-trans rs ss ts p.1 q.1)
Grows-trans (r ∷ rs) [] ts p q = elim p [ ]
Grows-trans (r ∷ rs) (s ∷ ss) [] p q = elim q [ ]

Grows-append : (rs ss : List Row) → All Born ss → Grows rs (rs ++ ss)
Grows-append [] ss b = b
Grows-append (r ∷ rs) ss b = (Follows-refl r, Grows-append rs ss b)

Grows-update :
    (test : Row → Bool) (change : Row → Row)
    → ((r : Row) → test r ≡ true → Follows r (change r))
    → (rs : List Row) → Grows rs (update_where test change rs)
unfolding update_where
Grows-update test change k [] = tt
Grows-update test change k (r ∷ rs) = elim (Bool-cases (test r)) [
  | inl e ↦ (rw e (k r e), Grows-update test change k rs)
  | inr e ↦ (rw e (Follows-refl r), Grows-update test change k rs)
]

-- A move that the state machine allows: from each state in the list, none of them final.
abbrev pub Moves : List Status → Status → Type 0
Moves froms to =
    (s : Status)
    → is_among s froms ≡ true
    → (may_become s to ≡ true) × (is_among s terminal ≡ false)

pub pending-Moves : (to : Status) → may_become queued to ≡ true → Moves pending to
pending-Moves to h queued m = (h, refl)
pending-Moves to h (foreign x) m = ground arith
pending-Moves to h _ m = ground arith

pub active-Moves :
    (to : Status) → may_become in_progress to ≡ true → may_become queued to ≡ true → Moves active to
active-Moves to h k queued m = (k, refl)
active-Moves to h k in_progress m = (h, refl)
active-Moves to h k (foreign x) m = ground arith
active-Moves to h k _ m = ground arith

cas-Follows :
    (tid : Text) (froms : List Status) (to : Status) (patch : TaskData → TaskData) (reason : Text)
    (url : Option Text) (ts : ℕ) (r : Row)
    → Moves froms to
    → cas_test tid froms r ≡ true
    → Follows r (cas_change to patch reason url ts r)
unfolding cas_change
cas-Follows tid froms to patch reason url ts r moves h =
    let m : is_among r.status froms ≡ true = ground arith in
    record {
      same_id = refl;
      same_birth = refl;
      same_owner = refl;
      legal = (moves r.status m).0;
      ended = λ t. ground (arith, (moves r.status m).1);
    }

patch-Follows :
    (patch : TaskData → TaskData) (ts : ℕ) (r : Row) → Follows r (patch_change patch ts r)
patch-Follows patch ts r = record {
  same_id = refl;
  same_birth = refl;
  same_owner = refl;
  legal = may_become_refl r.status;
  ended = λ _. refl;
}

-- The table of the world grew out of the given one.
abbrev pub GrownFrom : List Row → World → Type 0
GrownFrom rs w = Grows rs w.rows

-- What the others do while a handler waits keeps the table, too.
abbrev pub OthersKeep : List Row → List (World → World) → Type 0
OthersKeep rs others = All (λ f. (w : World) → GrownFrom rs w → GrownFrom rs (f w)) others

module _ (rs : List Row) where
  Grown-steady : Steady (GrownFrom rs)
  Grown-steady w s h = h

  grown_update :
      (test : Row → Bool) (change : Row → Row)
      → ((r : Row) → test r ≡ true → Follows r (change r))
      → (w : World) → GrownFrom rs w
      → Grows rs (update_where test change w.rows)
  grown_update test change k w h =
      Grows-trans rs w.rows (update_where test change w.rows) h (Grows-update test change k w.rows)

  -- a round trip that leaves the table alone
  pub external-Grown {ℓ} :
      {A : Type ℓ} (f : World → A × World)
      → ((v : World) → (f v).1.rows ≡ v.rows)
      → Keeps (GrownFrom rs) (external f)
  external-Grown f same =
      Keeps-external Grown-steady f (λ v h. subst (λ t. Grows rs t) (sym (same v)) h)

  pub cache_status-Grown : (tid : Text) (s : Status) → Keeps (GrownFrom rs) (cache_status tid s)
  unfolding cache_status
  cache_status-Grown tid s = Keeps-catch _ _ (external-Grown _ (λ v. refl)) (λ e. Keeps-pure tt)

  pub exists-Grown : (tid : Text) → Keeps (GrownFrom rs) (exists tid)
  unfolding exists
  exists-Grown tid = external-Grown _ (λ v. refl)

  pub get-Grown : (tid : Text) → Keeps (GrownFrom rs) (get tid)
  unfolding get
  get-Grown tid = external-Grown _ (λ v. refl)

  pub get_meta-Grown : (tid : Text) → Keeps (GrownFrom rs) (get_meta tid)
  unfolding get_meta
  get_meta-Grown tid = external-Grown _ (λ v. refl)

  pub cached_status-Grown : (tid : Text) → Keeps (GrownFrom rs) (cached_status tid)
  unfolding cached_status
  cached_status-Grown tid = Keeps-catch _ _ (external-Grown _ (λ v. refl)) (λ e. Keeps-pure none)

  pub get_status-Grown : (tid : Text) → Keeps (GrownFrom rs) (get_status tid)
  unfolding get_status
  get_status-Grown tid = external-Grown _ (λ v. refl)

  pub create-Grown :
      (tid action : Text) (d : TaskData) (u : ℕ) → Keeps (GrownFrom rs) (create tid action d u)
  unfolding create
  create-Grown tid action d u = Keeps-bind _ _ (Keeps-gets _) λ ts.
      Keeps-bind _ _
        (Keeps-external Grown-steady _
          (λ v h. Grows-trans rs v.rows _ h (Grows-append v.rows _ (refl, tt))))
        (λ _. cache_status-Grown tid queued)

  pub when-Grown :
      (b : Bool) (m : Service (Unit {0})) → Keeps (GrownFrom rs) m → Keeps (GrownFrom rs) (when b m)
  when-Grown b m k = Keeps-if b m (pure tt) k (Keeps-pure tt)

  pub cas-Grown :
      (tid : Text) (froms : List Status) (to : Status) (patch : TaskData → TaskData) (reason : Text)
      (url : Option Text)
      → Moves froms to
      → Keeps (GrownFrom rs) (cas tid froms to patch reason url)
  unfolding cas
  cas-Grown tid froms to patch reason url moves = Keeps-bind _ _ (Keeps-gets _) λ ts.
      Keeps-bind _ _
        (Keeps-external Grown-steady _ (λ v h.
          grown_update (cas_test tid froms) (cas_change to patch reason url ts)
            (λ r t. cas-Follows tid froms to patch reason url ts r moves t) v h))
        λ won. Keeps-bind _ _ (when-Grown won _ (cache_status-Grown tid to)) (λ _. Keeps-pure won)

  pub patch_data-Grown :
      (tid : Text) (patch : TaskData → TaskData) → Keeps (GrownFrom rs) (patch_data tid patch)
  unfolding patch_data
  patch_data-Grown tid patch = Keeps-bind _ _ (Keeps-gets _) λ ts.
      Keeps-external Grown-steady _ (λ v h.
        grown_update (has_id tid) (patch_change patch ts) (λ r t. patch-Follows patch ts r) v h)

  pub claim_for_release-Grown : (tid : Text) → Keeps (GrownFrom rs) (claim_for_release tid)
  unfolding claim_for_release
  claim_for_release-Grown tid = Keeps-bind _ _ (Keeps-gets _) λ ts.
      Keeps-external Grown-steady _ (λ v h.
        grown_update (claim_test tid) (patch_change (with_batch_state releasing) ts)
          (λ r t. patch-Follows (with_batch_state releasing) ts r) v h)

  pub unclaim_for_release-Grown :
      (tid : Text) (s : BatchState) → Keeps (GrownFrom rs) (unclaim_for_release tid s)
  unfolding unclaim_for_release
  unclaim_for_release-Grown tid s = patch_data-Grown tid (with_batch_state s)

pub ruleset grown_rules = (
  keeps_rules, cache_status-Grown, cached_status-Grown, get_status-Grown, exists-Grown, get-Grown,
  get_meta-Grown, create-Grown, when-Grown, cas-Grown, patch_data-Grown, claim_for_release-Grown,
  unclaim_for_release-Grown,
)
