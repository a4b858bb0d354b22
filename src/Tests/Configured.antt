-- ===== src/Tests/Configured.antt =====
-- Settings that are overridden in Redis, one of them out of range.
use stask_service.Prelude.{
  Text, codes, text_eq, Bool, true, Option, none, some, List, [], ◌∷◌, ◌≡◌, refl, ◌⊎◌, arith, leb,
  ◌&&◌, Bool-cases, inl, inr,
}
use stask_service.Prelude.Decimal.{int_of_text}
use stask_service.Prelude.Int.{pos}
use stask_service.Policy.{Json, number, Fields, end, field}
use stask_service.Service.{World, raised}
use stask_service.Service.Triples.{Post}
use stask_service.Dynconf.{
  Kind, int, bool, json, Value, whole, switch, policies, mutable, find, Libraries, Cache,
  value_error, setting_keys, parse, set_many, get_runtime_config,
}
use stask_service.Dynconf.Ranges.{FitsFound, IsSnapshot, get_runtime_config-AreInRange}
use stask_service.Dynconf.Atomic.{IsWritten, set_many_all_or_none}
use stask_service.Execute.Settle.{str_of}
use stask_service.Tests.Worlds.{empty_world}

abbrev smallest : Option Kind → Value
smallest none = whole 0
smallest (some (int low high)) = whole low
smallest (some bool) = switch true
smallest (some json) = policies []

abbrev loads_number : Text → Option Json
loads_number s = elim (int_of_text s) [ none ↦ none | some z ↦ some (number z) ]

abbrev dumps_number : Value → Text
dumps_number (whole n) = str_of n
dumps_number v = []

abbrev pub some_dynconf : Libraries
some_dynconf = record {
  loads = loads_number;
  dumps = dumps_number;
  int_of_float = λ raw. raised value_error;
  env = λ key. smallest (find key mutable);
  ttl = 7200;
}

abbrev no_cache : Cache
no_cache = record { values = []; at = 0 }

abbrev tuned_world : World
tuned_world = record empty_world {
  overrides =
      (codes "max_slots", codes "20")
      ∷ (codes "retry_max", codes "11")
      ∷ (codes "retry", codes "1")
      ∷ [];
}

abbrev are_ordered : List (Text × Kind) → Bool
are_ordered [] = true
are_ordered ((key, int low high) ∷ specs) = leb low high && are_ordered specs
are_ordered ((key, _) ∷ specs) = are_ordered specs

smallest-fits :
    (key : Text) (specs : List (Text × Kind))
    → are_ordered specs ≡ true
    → FitsFound 7200 (find key specs) (smallest (find key specs))
unfolding find
smallest-fits key [] h = tt
smallest-fits key ((k, int low high) ∷ specs) h = elim (Bool-cases (text_eq k key)) [
  | inl e ↦ rw e (ground (arith, h), ground (arith, h))
  | inr e ↦ rw e (smallest-fits key specs (ground (arith, h)))
]
smallest-fits key ((k, bool) ∷ specs) h = elim (Bool-cases (text_eq k key)) [
  | inl e ↦ rw e tt
  | inr e ↦ rw e (smallest-fits key specs h)
]
smallest-fits key ((k, json) ∷ specs) h = elim (Bool-cases (text_eq k key)) [
  | inl e ↦ rw e (tt, omega arith)
  | inr e ↦ rw e (smallest-fits key specs h)
]

get_runtime_config-AreInRange_example :
    Post
      (λ r v. IsSnapshot some_dynconf r)
      (λ v. ⊥)
      (get_runtime_config some_dynconf no_cache tuned_world).0
      (get_runtime_config some_dynconf no_cache tuned_world).1
get_runtime_config-AreInRange_example =
    get_runtime_config-AreInRange some_dynconf no_cache tuned_world
      (λ key. smallest-fits key mutable refl) tt

-- a value out of range and a key that no setting has are left out
kept_values : parse some_dynconf tuned_world.overrides ≡ (codes "max_slots", whole 20) ∷ []
unfolding parse find text_eq stask_service.Dynconf.coerce_stored int_of_text
    stask_service.Dynconf.coerce
kept_values = refl

abbrev some_updates : Fields
some_updates =
    field (codes "max_slots") (number (pos 20)) (field (codes "retry_max") (number (pos 3)) end)

set_many_all_or_none_example :
    Post
      (λ r v. IsWritten some_dynconf true tuned_world.overrides some_updates v.overrides)
      (λ v.
        (v.overrides ≡ tuned_world.overrides)
        ⊎ IsWritten some_dynconf true tuned_world.overrides some_updates v.overrides)
      (set_many some_dynconf true some_updates no_cache tuned_world).0
      (set_many some_dynconf true some_updates no_cache tuned_world).1
set_many_all_or_none_example =
    set_many_all_or_none some_dynconf true some_updates no_cache tuned_world
