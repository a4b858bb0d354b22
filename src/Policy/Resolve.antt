-- ===== src/Policy/Resolve.antt =====
-- app/services/modelpolicy.py, `_match_path` and `resolve`: the policy of one task.
pub mod Paths
pub mod Promises
use stask_service.Prelude.{
  ℕ, ◌+◌, ◌≤◌, Text, text_eq, codes, strip, lower, Bool, true, false, not, ◌&&◌, ◌||◌, ltb, leb,
  ◌==◌, if◌then◌else◌, length, Option, none, some, List, [], ◌∷◌, ◌++◌,
}
use stask_service.Prelude.Int.{ℤ, pos, negsuc}
use stask_service.Prelude.Decimal.{int_of_text}
use stask_service.Policy.{
  Json, null, real, boolean, number, text, array, object, Fields, end, field, default_key,
  max_batch, max_batch_wait, max_limit, max_entries, tokenceiling_margin, normalize_model,
  ResolvedPolicy, Entry, Table, Checked, valid, invalid, ◌>>=◌, ◌>>◌, fail_if, or_zero, no_entry,
}
use stask_service.Policy.Validate.{parse}

unfoldable pub find_entry : Text → Table → Option Entry
find_entry k [] = none
find_entry k ((j, e) ∷ t) = let rest = find_entry k t in if text_eq j k then some e else rest

unfoldable pub starts_with : Text → Text → Bool
starts_with s [] = true
starts_with [] (p ∷ ps) = false
starts_with (c ∷ s) (p ∷ ps) = c == p && starts_with s ps

drop_slashes : Text → Text
drop_slashes [] = []
drop_slashes (c ∷ s) =
    let rest = drop_slashes s in
    if c == b'/' then (elim rest [ [] ↦ [] | d ∷ r ↦ c ∷ d ∷ r ]) else c ∷ rest

-- `key` is a prefix of an endpoint that covers `path`
unfoldable pub covers : Text → Text → Bool
unfolding drop_slashes
covers key path =
    starts_with key (codes "/")
    && (text_eq path key
        || starts_with path (drop_slashes key ++ codes "/")
        || starts_with path key)

longer : Text → Option (Text × Entry) → Bool
longer key none = true
longer key (some (k, e)) = ltb (length k) (length key)

match_from : Option (Text × Entry) → Table → Text → Option (Text × Entry)
unfolding longer
match_from best [] path = best
match_from best ((key, e) ∷ t) path =
    match_from (if covers key path && longer key best then some (key, e) else best) t path

unfoldable pub match_path : Table → Text → Option (Text × Entry)
unfolding match_from
match_path t path = match_from none t path

resolved_from : Entry → Text → ℕ → ResolvedPolicy
resolved_from e source default_limit = record {
  batch = or_zero e.batch;
  batch_wait = or_zero e.batch_wait;
  limit_per_token = elim e.limit_per_token [ none ↦ default_limit | some n ↦ n ];
  limit_model_token = or_zero e.limit_model_token;
  limit_global = or_zero e.limit_global;
  source = source;
  reject_when_full = or_zero e.reject_when_full;
}

abbrev by_default : Option Entry → ℕ → ResolvedPolicy
by_default none default_limit = resolved_from no_entry (codes "settings") default_limit
by_default (some e) default_limit = resolved_from e (codes "default") default_limit

abbrev by_path : Option (Text × Entry) → Table → ℕ → ResolvedPolicy
by_path none table default_limit = by_default (find_entry default_key table) default_limit
by_path (some (key, e)) table default_limit = resolved_from e (codes "path:" ++ key) default_limit

abbrev by_model : Option Entry → Text → Text → Table → ℕ → ResolvedPolicy
by_model none name path table default_limit = by_path (match_path table path) table default_limit
by_model (some e) name path table default_limit =
    resolved_from e (codes "model:" ++ name) default_limit

-- the policy by a table that `parse` has made
unfoldable pub resolve_in : Text → Text → Table → ℕ → ResolvedPolicy
unfolding resolved_from
resolve_in model path table default_limit =
    let name = normalize_model model in
    by_model (find_entry name table) name path table default_limit

unfoldable pub resolve : (Text → Option Json) → ℕ → Text → Text → Json → ℕ → ResolvedPolicy
resolve json_loads ttl model path policies default_limit =
    resolve_in model path (parse json_loads ttl policies) default_limit
