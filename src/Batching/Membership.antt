-- ===== src/Batching/Membership.antt =====
-- app/services/batching.py: joining, leaving and claiming a batch, with the scripts of app/redis.py.
-- The expiry of the members' key is a step of its own in Steps, at any moment.
pub mod Deadlines
pub mod Steps
pub mod Growth
use stask_service.Prelude.{
  ℕ, suc, ◌+◌, max, Text, codes, Bool, true, false, ◌==◌, if◌then◌else◌, Option, none, some, List,
  [], ◌∷◌,
}
use stask_service.SortedSets.{
  SortedSet, zadd, zadd_nx, zrem, zscore, zcard, members, range_by_score,
}
use stask_service.Service.{World, Service, gets, pure, external, send_off, quietly, put_at, ◌>>=◌}
use stask_service.Store.{now}

-- What K_BATCH_DUE adds to the prefix of K_BATCH. A batch may have this key too.
abbrev pub due_key : Text
due_key = codes "due"

-- The sorted sets under the prefix of K_BATCH: the members of each batch at its key, and at
-- `due_key` the deadlines of all batches
abbrev pub Sets : Type 0
Sets = Text → SortedSet

-- LUA_BATCH_JOIN, without the EXPIRE of the members
unfoldable pub join_script : Text → ℕ → ℕ → Text → Sets → (ℕ × Option ℕ) × Sets
join_script tid ts due_at key sets =
    let joined = put_at key (zadd tid ts (sets key)) sets in
    let timed = put_at due_key (zadd_nx key due_at (joined due_key)) joined in
    ((zcard (timed key), zscore key (timed due_key)), timed)

-- LUA_BATCH_CLAIM
unfoldable pub claim_script : Text → Sets → List Text × Sets
claim_script key sets =
    let taken = put_at key [] sets in
    (members (sets key), put_at due_key (zrem key (taken due_key)) taken)

-- LUA_BATCH_LEAVE
unfoldable pub leave_script : Text → Text → Sets → Sets
leave_script tid key sets =
    let rest = put_at key (zrem tid (sets key)) sets in
    let gone = put_at key [] rest in
    if zcard (rest key) == 0 then put_at due_key (zrem key (gone due_key)) gone else rest

-- what the expiry of a key of members does
unfoldable pub expire : Text → Sets → Sets
expire key sets = put_at key [] sets

unfoldable pub join : Text → Text → ℕ → Service (ℕ × ℕ)
join tid key batch_wait = do
  ts ← now
  let due_at = ts + max 1 batch_wait
  reply ← external (λ w.
      let (r, sets) = join_script tid ts due_at key w.batches in (r, record w { batches = sets }))
  pure (reply.0, elim reply.1 [ none ↦ due_at | some score ↦ score ])

unfoldable pub leave : Text → Text → Service (Unit {0})
leave tid key = quietly (send_off (λ w. record w { batches = leave_script tid key w.batches }))

unfoldable pub claim : Text → Service (List Text)
claim key =
    external
      (λ w. let (tids, sets) = claim_script key w.batches in (tids, record w { batches = sets }))

unfoldable pub due_keys : ℕ → Service (List Text)
due_keys moment = external (λ w. (range_by_score moment 100 (w.batches due_key), w))
