-- ===== src/Policy/Resolve/Promises.antt =====
-- What the policy of a task promises, whatever value is stored for the table.
use stask_service.Prelude.{
  ℕ, ◌+◌, ◌≤◌, ◌<◌, Text, codes, text_eq, true, false, Option, none, some, [], ◌∷◌, ◌++◌, ◌≡◌,
  arith, Bool-cases, inl, inr,
}
use stask_service.Policy.{
  Json, ResolvedPolicy, Entry, Table, max_batch, max_batch_wait, max_limit, tokenceiling_margin,
  no_entry, default_key, normalize_model, layered_at_submit, queues,
}
use stask_service.Policy.Validate.{parse}
use stask_service.Policy.Validate.Soundness.{IsSound, TableIsSound, parse-TableIsSound}
use stask_service.Policy.Resolve.{
  find_entry, match_path, resolved_from, by_default, by_path, by_model, resolve_in, resolve,
}
use stask_service.Policy.Resolve.Paths.{EntryIsSound, match_path-EntryIsSound}

pub record Promises (ttl : ℕ) (p : ResolvedPolicy) : Type 0 where
  pub batch_bound : p.batch ≤ max_batch
  pub wait_bound : p.batch_wait ≤ max_batch_wait
  pub waits : 2 ≤ p.batch → (0 < p.batch_wait) × (p.batch_wait + tokenceiling_margin ≤ ttl)
  pub rejects : 0 < p.reject_when_full → (layered_at_submit p ≡ true) × (queues p ≡ false)
  pub limits : (p.limit_model_token ≤ max_limit) × (p.limit_global ≤ max_limit)

resolved_from-Promises :
    (ttl : ℕ) (e : Entry) (source : Text) (default_limit : ℕ)
    → IsSound ttl e
    → Promises ttl (resolved_from e source default_limit)
unfolding resolved_from layered_at_submit queues
resolved_from-Promises ttl e source default_limit s = record {
  batch_bound = s.batch_bound;
  wait_bound = s.wait_bound;
  waits = λ h. (s.waits h, s.fits (s.waits h));
  rejects = λ h. let (a, b) = s.rejects h in (ground arith, ground arith);
  limits = (s.model_token_bound, s.global_bound);
}

no_entry-IsSound : (ttl : ℕ) → IsSound ttl no_entry
no_entry-IsSound ttl = ground arith

abbrev FoundIsSound : ℕ → Option Entry → Type 0
FoundIsSound ttl none = Unit
FoundIsSound ttl (some e) = IsSound ttl e

find_entry-IsSound :
    (ttl : ℕ) (k : Text) (t : Table) → TableIsSound ttl t → FoundIsSound ttl (find_entry k t)
unfolding find_entry
find_entry-IsSound ttl k [] s = tt
find_entry-IsSound ttl k ((j, x) ∷ t) s = elim (Bool-cases (text_eq j k)) [
  | inl e ↦ rw e s.0
  | inr e ↦ rw e (find_entry-IsSound ttl k t s.1)
]

by_default-Promises :
    (ttl : ℕ) (o : Option Entry) (default_limit : ℕ)
    → FoundIsSound ttl o
    → Promises ttl (by_default o default_limit)
by_default-Promises ttl none default_limit s =
    resolved_from-Promises ttl no_entry (codes "settings") default_limit (no_entry-IsSound ttl)
by_default-Promises ttl (some e) default_limit s =
    resolved_from-Promises ttl e (codes "default") default_limit s

by_path-Promises :
    (ttl : ℕ) (o : Option (Text × Entry)) (t : Table) (default_limit : ℕ)
    → EntryIsSound ttl o
    → TableIsSound ttl t
    → Promises ttl (by_path o t default_limit)
by_path-Promises ttl none t default_limit s h =
    by_default-Promises ttl (find_entry default_key t) default_limit
      (find_entry-IsSound ttl default_key t h)
by_path-Promises ttl (some (key, e)) t default_limit s h =
    resolved_from-Promises ttl e (codes "path:" ++ key) default_limit s

by_model-Promises :
    (ttl : ℕ) (o : Option Entry) (name path : Text) (t : Table) (default_limit : ℕ)
    → FoundIsSound ttl o
    → TableIsSound ttl t
    → Promises ttl (by_model o name path t default_limit)
by_model-Promises ttl none name path t default_limit s h =
    by_path-Promises ttl (match_path t path) t default_limit (match_path-EntryIsSound ttl path t h)
      h
by_model-Promises ttl (some e) name path t default_limit s h =
    resolved_from-Promises ttl e (codes "model:" ++ name) default_limit s

pub resolve_in-Promises :
    (ttl : ℕ) (model path : Text) (t : Table) (default_limit : ℕ)
    → TableIsSound ttl t
    → Promises ttl (resolve_in model path t default_limit)
unfolding resolve_in
resolve_in-Promises ttl model path t default_limit h =
    by_model-Promises ttl (find_entry (normalize_model model) t) (normalize_model model) path t
      default_limit (find_entry-IsSound ttl (normalize_model model) t h) h

-- Whatever value is stored for the table, every policy keeps the bounds, waits for a positive time
-- that fits the life of a token session where it batches, and never queues a task that it would
-- rather reject.
pub resolve-Promises :
    (json_loads : Text → Option Json) (ttl : ℕ) (model path : Text) (policies : Json)
    (default_limit : ℕ)
    → Promises ttl (resolve json_loads ttl model path policies default_limit)
unfolding resolve
resolve-Promises json_loads ttl model path policies default_limit =
    resolve_in-Promises ttl model path (parse json_loads ttl policies) default_limit
      (parse-TableIsSound json_loads ttl policies)
