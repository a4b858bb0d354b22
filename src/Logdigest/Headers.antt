-- ===== src/Logdigest/Headers.antt =====
-- The headers that go into a log.
use stask_service.Prelude.{
  Text, codes, text_eq, text_eq_iff, lower, Bool, true, false, if◌then◌else◌, any, Option, none,
  some, List, [], ◌∷◌, ◌≡◌, refl, ap, ◌∙◌,
}
use stask_service.Routes.{header}
use stask_service.Logdigest.{is_credential, log_headers}

-- the names of the headers that may carry a token, in lower case
abbrev pub secret_names : List Text
secret_names =
    codes "authorization"
    ∷ codes "cookie"
    ∷ codes "set-cookie"
    ∷ codes "proxy-authorization"
    ∷ codes "x-api-key"
    ∷ codes "api-key"
    ∷ []

-- a header that may carry a token, however its name is written
abbrev pub is_secret : Text → Bool
is_secret name = any (text_eq (lower name)) secret_names

is_credential-is_secret : (k : Text) → is_credential k ≡ is_secret k
unfolding is_credential
is_credential-is_secret k = refl

header-choice :
    (b : Bool) (k : Text) (x y : List (Text × Text))
    → header k (if b then x else y) ≡ (if b then header k x else header k y)
header-choice true k x y = refl
header-choice false k x y = refl

-- `c` and `d` say that two names are secret, `t` that they are equal
choices :
    (c d t : Bool) (found logged sent : Option Text)
    → (t ≡ true → c ≡ d)
    → logged ≡ (if d then none else sent)
    → (if c then logged else (if t then found else logged))
      ≡ (if d then none else (if t then found else sent))
choices true true t found logged sent same h = h
choices true false false found logged sent same h = h
choices true false true found logged sent same h = cc (same refl)
choices false true false found logged sent same h = h
choices false true true found logged sent same h = cc (same refl)
choices false false true found logged sent same h = refl
choices false false false found logged sent same h = h

none_either : (b : Bool) (o : Option Text) → o ≡ none → o ≡ (if b then none else o)
none_either true o h = h
none_either false o h = refl

-- Whatever headers a call to an upstream has: of a header whose name is, in any mixture of upper and
-- lower case, `authorization`, `cookie`, `set-cookie`, `proxy-authorization`, `x-api-key` or
-- `api-key` nothing is logged, and every other header is logged as it is sent.
pub header-log_headers :
    (k : Text) (headers : List (Text × Text))
    → header k (log_headers headers) ≡ (if is_secret k then none else header k headers)
unfolding header log_headers
header-log_headers k [] = none_either (is_secret k) none refl
header-log_headers k ((j, v) ∷ headers) = rw (is_credential-is_secret j) (
    header-choice (is_secret j) k (log_headers headers) ((j, v) ∷ log_headers headers)
    ∙ choices (is_secret j) (is_secret k) (text_eq j k) (some v) (header k (log_headers headers))
        (header k headers) (λ e. ap is_secret ((text_eq_iff j k).0 e))
        (header-log_headers k headers))
