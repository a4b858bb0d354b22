-- ===== src/Batching/Rebuild.antt =====
-- app/services/batching.py: `rebuild_from_db`, with the query `batch_waiting` of
-- app/services/taskstore/_batch.py and `_rebuild_batch_index` of app/services/sweeper.py.
use stask_service.Prelude.{
  ℕ, Text, text_eq, Bool, true, false, leb, ◌&&◌, ◌==◌, if◌then◌else◌, min, take, Option, none,
  some, List, [], ◌∷◌, ◌++◌, refl,
}
use stask_service.Schemas.{queued, status_eq}
use stask_service.Rows.{Row, BatchState, waiting}
use stask_service.SortedSets.{SortedSet, zadd_nx}
use stask_service.Policy.{normalize_model}
use stask_service.Gate.{is_blank}
use stask_service.Service.{
  Service, put_at, pure, raise, decode_error, external, quietly, ◌>>=◌, ◌>>◌,
}
use stask_service.Service.Keeps.{
  Keeps, Keeps-pure, Keeps-raise, Keeps-catch, Keeps-bind, Keeps-gets,
}
use stask_service.Store.{now}
use stask_service.Store.Growth.{GrownFrom, external-Grown}
use stask_service.Batching.Params.{sanitize_key}
use stask_service.Batching.Membership.{due_key}
use stask_service.Batching.Ticker.{release_model}
use stask_service.Batching.Ticker.Growth.{release_model-Grown}

abbrev is_in_batch : BatchState → Bool
is_in_batch waiting = true
is_in_batch _ = false

abbrev pub is_member : Row → Bool
is_member r = status_eq r.status queued && is_in_batch r.task_data.batch_state

filter_members : List Row → List Row
filter_members [] = []
filter_members (r ∷ rs) = let rest = filter_members rs in if is_member r then r ∷ rest else rest

-- `_row_to_dict`: `dict` of a row of `fetchall` raises, since it is a tuple of columns, no mapping
abbrev dicts : List Row → Service (List Row)
dicts [] = pure []
dicts (r ∷ rs) = raise decode_error

unfoldable pub batch_waiting : Service (List Row)
unfolding filter_members
batch_waiting = external (λ w. (take 500 (filter_members w.rows), w)) >>= dicts

-- the rows of each key
abbrev pub Groups : Type 0
Groups = List (Text × List Row)

abbrev pub key_of : Row → Text
key_of r =
    let d = r.task_data in
    sanitize_key (if is_blank d.batch_key then normalize_model d.model else d.batch_key)

unfoldable pub add_row : Row → Groups → Groups
add_row r [] = (key_of r, r ∷ []) ∷ []
add_row r ((k, rows) ∷ gs) =
    let rest = add_row r gs in
    if text_eq k (key_of r) then (k, rows ++ r ∷ []) ∷ gs else (k, rows) ∷ rest

unfoldable pub group_rows : Groups → List Row → Groups
group_rows gs [] = gs
group_rows gs (r ∷ rs) = group_rows (add_row r gs) rs

-- the least deadline that a member stored, if any stored one
least : List Row → Option ℕ
least [] = none
least (r ∷ rs) =
    let rest = least rs in
    let t = r.task_data.batch_due_at in
    if t == 0 then rest else some (elim rest [ none ↦ t | some u ↦ min t u ])

unfoldable pub due_of : ℕ → List Row → ℕ
unfolding least
due_of ts rows = elim (least rows) [ none ↦ ts | some t ↦ t ]

add_members : ℕ → List Row → SortedSet → SortedSet
add_members ts [] z = z
add_members ts (r ∷ rs) z = add_members ts rs (zadd_nx r.task_id ts z)

-- one pipeline: it adds what is missing and changes nothing that is there
restore : ℕ → Text → List Row → Service (Unit {0})
unfolding add_members
restore ts key rows = external (λ w.
    let restored = put_at key (add_members ts rows (w.batches key)) w.batches in
    (
      tt,
      record w {
        batches = put_at due_key (zadd_nx key (due_of ts rows) (restored due_key)) restored;
      },
    ))

-- the first loop: the keys that are overdue
restore_all : ℕ → Groups → Service (List Text)
unfolding restore
restore_all ts [] = pure []
restore_all ts ((key, rows) ∷ gs) =
    let rest = restore_all ts gs in
    (do
      restore ts key rows
      overdue ← rest
      pure (if leb (due_of ts rows) ts then key ∷ overdue else overdue))

release_keys : List Text → Service (Unit {0})
release_keys [] = pure tt
release_keys (key ∷ keys) = let rest = release_keys keys in (do _ ← release_model key; rest)

unfoldable pub rebuild_from_db : Service (Unit {0})
unfolding restore_all release_keys
rebuild_from_db = do
  ts ← now
  rows ← batch_waiting
  overdue ← restore_all ts (group_rows [] rows)
  release_keys overdue

-- `_rebuild_batch_index`
unfoldable pub rebuild_batch_index : Service (Unit {0})
rebuild_batch_index = quietly rebuild_from_db

module _ (rs : List Row) where
  restore_all-Grown : (ts : ℕ) (gs : Groups) → Keeps (GrownFrom rs) (restore_all ts gs)
  unfolding restore_all restore
  restore_all-Grown ts [] = Keeps-pure _
  restore_all-Grown ts ((key, rows) ∷ gs) =
      Keeps-bind _ _ (external-Grown rs _ (λ v. refl))
        λ x. Keeps-bind _ _ (restore_all-Grown ts gs) (λ o. Keeps-pure _)

  release_keys-Grown : (keys : List Text) → Keeps (GrownFrom rs) (release_keys keys)
  unfolding release_keys
  release_keys-Grown [] = Keeps-pure tt
  release_keys-Grown (key ∷ keys) =
      Keeps-bind _ _ (release_model-Grown rs key) (λ x. release_keys-Grown keys)

  dicts-Grown : (rows : List Row) → Keeps (GrownFrom rs) (dicts rows)
  dicts-Grown [] = Keeps-pure []
  dicts-Grown (r ∷ rows) = Keeps-raise _

  batch_waiting-Grown : Keeps (GrownFrom rs) batch_waiting
  unfolding batch_waiting
  batch_waiting-Grown = Keeps-bind _ _ (external-Grown rs _ (λ v. refl)) dicts-Grown

  pub rebuild_batch_index-Grown : Keeps (GrownFrom rs) rebuild_batch_index
  unfolding rebuild_batch_index rebuild_from_db
  rebuild_batch_index-Grown =
      Keeps-catch _ _
        (Keeps-bind _ _ (Keeps-gets _) λ ts. Keeps-bind _ _ batch_waiting-Grown λ rows.
          Keeps-bind _ _ (restore_all-Grown ts (group_rows [] rows)) (λ o. release_keys-Grown o))
        (λ e. Keeps-pure tt)
