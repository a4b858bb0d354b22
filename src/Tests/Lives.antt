-- ===== src/Tests/Lives.antt =====
-- A task that is canceled while others wait, and a purge.
use stask_service.Prelude.{ℕ, ◌++◌, Text, codes, none, false, true, [], ◌∷◌, ◌≡◌, refl, arith}
use stask_service.Schemas.{success}
use stask_service.Rows.{Row}
use stask_service.Service.{World}
use stask_service.Service.Triples.{Post}
use stask_service.Store.{first_where, has_id}
use stask_service.Sweeper.{purge_results}
use stask_service.Sweeper.Queries.{is_expired}
use stask_service.Sweeper.Purge.{count_where, purge_results-Clean}
use stask_service.Routes.{Request, Draws}
use stask_service.Workers.{stale}
use stask_service.System.{
  Deployment, Events, next, done, submits, asks, cancels, ticks, sweeps, elsewhere, asleep, awake,
  perform_all,
}
use stask_service.System.Refinement.{Lives, perform_all-Lives}
use stask_service.Tests.Worlds.{some_row, empty_world}
use stask_service.Tests.Bodies.{some_coders}
use stask_service.Tests.Callbacks.{hook_parts, some_libraries, some_settings}
use stask_service.Tests.Configured.{some_dynconf}

abbrev some_deployment : Deployment
some_deployment = record {
  routes = record {
    coders = some_coders;
    urlsplit = λ url. hook_parts;
    fromisoformat = λ s. none;
    loads = λ raw. none;
    sha256_hex = λ s. codes "0123456789abcdef0123456789abcdef";
    set_status = λ raw s. none;
  };
  settings = record {
    admission = record {
      async_deny_prefixes = [];
      async_allow_prefixes = codes "/v1" ∷ [];
      upstream_allowlist = [];
      upstream_base_url = codes "https://hook";
    };
    generic = true;
    sk_session_ttl_seconds = 7200;
  };
  admin_key = codes "k";
  tools = record {
    coders = some_coders;
    loads = λ raw. none;
    is_base64 = λ raw. false;
    decode_replace = λ raw. raw;
    callbacks = some_libraries;
    callback_settings = some_settings;
    sweep_enabled = true;
  };
  dynconf = some_dynconf;
}

abbrev gpt_1 : Text
gpt_1 = codes "gpt_1"

abbrev some_draws : Draws
some_draws = record { uuid4_hex = []; member = 0; milliseconds = 0 }

-- a submission with an idempotency key, which makes the id of its task
abbrev some_request : Request
some_request = record {
  method = codes "POST";
  path = codes "v1/images";
  query = [];
  headers =
      (codes "authorization", codes "Bearer sk") ∷ (codes "idempotency-key", codes "once") ∷ [];
  body = codes "{}";
  wait = 0;
}

abbrev task_0 : Text
task_0 = codes "task_0123456789abcdef0123456789abcdef"

abbrev delete_request : Request
delete_request = record some_request {
  method = codes "DELETE";
  path = codes "v1/images/" ++ task_0;
}

-- a submission; then a query that sleeps while the task is canceled; then the world changes
abbrev some_events : Events
some_events = next (submits awake some_draws some_request) (
    next (asks (asleep (next (cancels delete_request) done) awake) delete_request)
      (next (elsewhere empty_world) (next (ticks awake) (next (sweeps stale) done))))

perform_all-Lives_example :
    Lives
      (first_where (has_id task_0) empty_world.rows)
      (first_where (has_id task_0) (perform_all some_deployment some_events empty_world).rows)
perform_all-Lives_example = perform_all-Lives some_deployment some_events empty_world task_0

abbrev old_row : Row
old_row = record some_row {
  status = success;
  finish_time = 150;
  task_data = record some_row.task_data { upstream_response = codes "{}" };
}

abbrev old_world : World
old_world = record empty_world { clock = 9000; rows = old_row ∷ some_row ∷ [] }

abbrev old : ℕ
old = count_where (is_expired 3600 9000) old_world.rows

purge_results-Clean_example :
    Post
      (λ n v. (n ≡ old) × (count_where (is_expired 3600 9000) v.rows ≡ 0))
      (λ v. ⊥)
      (purge_results old_world).0
      (purge_results old_world).1
purge_results-Clean_example = purge_results-Clean old_world refl refl (ground arith)
