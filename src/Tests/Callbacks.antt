-- ===== src/Tests/Callbacks.antt =====
-- A callback whose receiver answers 500 three times.
use stask_service.Prelude.{◌+◌, ◌-◌, ◌≤◌, ℕ, suc, Text, codes, length, [], ◌∷◌, ◌≡◌, refl, arith}
use stask_service.Schemas.{success}
use stask_service.Rows.{Row}
use stask_service.Service.{World, response}
use stask_service.Admission.{Parts}
use stask_service.Notify.{Libraries, Settings, Payload}
use stask_service.Notify.Chain.{chain, chain-ends}
use stask_service.Tests.Worlds.{some_row, empty_world}

abbrev hook : Text
hook = codes "https://hook/done"

abbrev pub hook_parts : Parts
hook_parts = record {
  scheme = codes "https";
  netloc = codes "hook";
  username = [];
  password = [];
  hostname = codes "hook";
  path = codes "/done";
  query = [];
  fragment = [];
}

abbrev pub some_libraries : Libraries
some_libraries = record {
  urlsplit = λ url. hook_parts;
  hmac_sha256 = λ secret text. codes "ff";
  dumps = λ p. p.task_id;
}

abbrev pub some_settings : Settings
some_settings = record { callback_secret = codes "key"; callback_allowlist = codes "hook" ∷ [] }

abbrev ended_row : Row
ended_row = record some_row {
  status = success;
  finish_time = 150;
  task_data = record some_row.task_data { callback_url = hook };
}

abbrev pub calling_world : World
calling_world = record empty_world {
  rows = ended_row ∷ [];
  replies = response 500 [] [] ∷ response 500 [] [] ∷ response 500 [] [] ∷ [];
}

abbrev gpt_1 : Text
gpt_1 = codes "gpt_1"

-- three answers with 500 and then no further reply: five posts
five_posts : length (chain some_libraries some_settings gpt_1 7 1 calling_world).posts ≡ 5
unfolding chain stask_service.Notify.deliver stask_service.Service.◌>>=◌
    stask_service.Store.get_meta stask_service.Service.external stask_service.Store.first_where
    stask_service.Prelude.text_eq stask_service.Store.meta stask_service.Notify.url_allowed
    stask_service.Prelude.lower stask_service.Prelude.strip stask_service.Admission.has_code
    stask_service.Service.gets stask_service.Notify.post stask_service.Service.pure
    stask_service.Notify.try_later stask_service.Sessions.publish_notify
    stask_service.Store.patch_data
five_posts = refl

chain-ends_example :
    (chain some_libraries some_settings gpt_1 10 1 calling_world
      ≡ chain some_libraries some_settings gpt_1 5 1 calling_world)
    × (length (chain some_libraries some_settings gpt_1 10 1 calling_world).posts ≤ 0 + suc (5 - 1))
chain-ends_example =
    chain-ends some_libraries some_settings gpt_1 4 9 1 calling_world (ground arith) (ground arith)
