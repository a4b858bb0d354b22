-- ===== src/Tests/Found.antt =====
-- An answer that names one picture twice.
use stask_service.Prelude.{
  ℕ, Text, codes, Bool, true, false, Option, some, length, [], ◌∷◌, ◌≡◌, refl,
}
use stask_service.Policy.{Json, text, array, object, Items, nil, cons, Fields, end, field}
use stask_service.Artifacts.Parse.{parse_result}
use stask_service.Artifacts.Tidy.{AreTidy}
use stask_service.Artifacts.Results.{parse_result-AreTidy}

abbrev picture : Json
picture = object (field (codes "url") (text (codes "https://cdn/a.png")) end)

abbrev answer : Json
answer = object (field (codes "data") (array (cons picture (cons picture nil))) end)

abbrev no_base64 : Text → Bool
no_base64 s = false

abbrev answered : Text → Option Json
answered raw = some answer

-- it is found once
once : length (parse_result no_base64 answered []).items ≡ 1
unfolding parse_result stask_service.Artifacts.Parse.after_known
    stask_service.Artifacts.Tiers.tier_known stask_service.Artifacts.Tiers.envelopes
    stask_service.Artifacts.Tiers.walk_path stask_service.Artifacts.Tiers.get
    stask_service.Prelude.text_eq stask_service.Artifacts.valid_url
    stask_service.Policy.Resolve.starts_with stask_service.Prelude.lower stask_service.Prelude.strip
    stask_service.Artifacts.add
once = refl

parse_result-AreTidy_example : AreTidy (parse_result no_base64 answered (codes "{}")).items
parse_result-AreTidy_example = parse_result-AreTidy no_base64 answered (codes "{}")
