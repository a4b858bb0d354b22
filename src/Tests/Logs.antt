-- ===== src/Tests/Logs.antt =====
-- Headers and bodies that are logged.
use stask_service.Prelude.{Text, codes, true, none, some, List, [], ◌∷◌, ◌≡◌, refl}
use stask_service.Policy.{Fields, text, array, object, nil, cons, end, field}
use stask_service.Routes.{header}
use stask_service.Logdigest.{log_headers, parsed_json, shrink}
use stask_service.Logdigest.Headers.{header-log_headers}
use stask_service.Logdigest.Small.{fits, parsed_json-fits}

abbrev sent_headers : List (Text × Text)
sent_headers = (codes "Authorization", codes "Bearer sk") ∷ (codes "accept", codes "*/*") ∷ []

header-log_headers_example : header (codes "Authorization") (log_headers sent_headers) ≡ none
unfolding stask_service.Logdigest.is_credential stask_service.Prelude.lower
    stask_service.Prelude.text_eq
header-log_headers_example = header-log_headers (codes "Authorization") sent_headers

-- five levels, of which the last is cut
abbrev deep : Fields
deep =
    field (codes "a")
      (array (cons (array (cons (array (cons (array (cons (text (codes "x")) nil)) nil)) nil)) nil))
      end

abbrev shrunk : Fields
shrunk =
    field (codes "a") (array (cons (array (cons (array (cons (text (8230 ∷ [])) nil)) nil)) nil))
      end

parsed_json-fits_example : fits (object shrunk) 4 ≡ true
unfolding shrink parsed_json
parsed_json-fits_example = parsed_json-fits (λ _. some (object deep)) (codes "{}") shrunk refl
