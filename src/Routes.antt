-- ===== src/Routes.antt =====
-- app/routers/proxy.py and app/deps: what a request carries, who sends it, and what bounds its rate.
-- SHA-256, a random UUID, `urlsplit`, `datetime.fromisoformat` and `json.loads` are arguments. The
-- names of headers are in lower case, as the framework hands them on.
pub mod Limits
pub mod Submitting
pub mod Asking
pub mod Admin
pub mod Ops
use stask_service.Prelude.{
  ℕ, ◌*◌, Text, codes, text_eq, strip, lower, Bool, true, false, ltb, ◌==◌, if◌then◌else◌, length,
  take, Option, none, some, List, [], ◌∷◌,
}
use stask_service.Prelude.Int.{ℤ}
use stask_service.Policy.{Json, text, object}
use stask_service.Policy.Validate.{find_field}
use stask_service.Admission
use stask_service.Admission.{Parts}
use stask_service.Admission.Requests.{Headers}
use stask_service.Gate.{is_blank}
use stask_service.Codec.{Coders}
use stask_service.Flow.Replay.{contains}

pub record Request : Type 0 where
  pub method : Text
  pub path : Text  -- what follows `/async/`
  pub query : Text
  pub headers : Headers
  pub body : Text
  pub wait : ℕ  -- the parameter of a query

-- what the libraries compute; `loads` reads the bytes of a body
pub record Libraries : Type 0 where
  pub coders : Coders
  pub urlsplit : Text → Parts
  pub fromisoformat : Text → Option ℤ
  pub loads : Text → Option Json
  pub sha256_hex : Text → Text
  pub set_status : Text → Text → Option Text

pub record Settings : Type 0 where
  pub admission : Admission.Settings
  pub generic : Bool  -- `auth_mode`
  pub sk_session_ttl_seconds : ℕ

-- what is drawn while a request is served
pub record Draws : Type 0 where
  pub uuid4_hex : Text
  pub member : ℕ  -- `math.random` of the script
  pub milliseconds : ℕ  -- of the current second

unfoldable pub header : Text → Headers → Option Text
header name [] = none
header name ((k, v) ∷ headers) = if text_eq k name then some v else header name headers

abbrev pub or_empty : Option Text → Text
or_empty none = []
or_empty (some s) = s

lstrip_slash : Text → Text
lstrip_slash [] = []
lstrip_slash (c ∷ s) = let rest = lstrip_slash s in if c == b'/' then rest else c ∷ s

-- `none` is an AdmissionError with 400
unfoldable pub normalize_path : Text → Option Text
unfolding lstrip_slash
normalize_path path =
    let normalized = b'/' ∷ lstrip_slash path in
    if contains (codes "..") normalized then none else some normalized

model_of : Option Json → Text
unfolding find_field
model_of (some (object fields)) = elim (find_field (codes "model") fields) [
  | none ↦ []
  | some v ↦ elim v [ text s ↦ strip s | _ ↦ [] ]
]
model_of _ = []

unfoldable pub extract_model : (Text → Option Json) → Text → Text → Text
unfolding model_of
extract_model loads body content_type =
    if is_blank body
    then []
    else if ltb (256 * 1024) (length body)
    then []
    else if contains (codes "json") (lower content_type)
    then model_of (loads body)
    else []

pub record Caller : Type 0 where
  pub raw_token : Text
  pub token_hash : Text

-- `header.partition(" ")`, without the blank
unfoldable pub partition : Text → Text × Text
partition [] = ([], [])
partition (c ∷ s) = let rest = partition s in if c == b' ' then ([], s) else (c ∷ rest.0, rest.1)

unfoldable pub token_hash : (Text → Text) → Text → Text
token_hash sha256_hex raw_token = take 32 (sha256_hex raw_token)

-- `none` is a 401
unfoldable pub require_caller : (Text → Text) → Headers → Option Caller
unfolding partition
require_caller sha256_hex headers =
    let p = partition (or_empty (header (codes "authorization") headers)) in
    if text_eq (lower p.0) (codes "bearer")
    then if is_blank (strip p.1)
      then none
      else some (record { raw_token = strip p.1; token_hash = token_hash sha256_hex (strip p.1) })
    else none
