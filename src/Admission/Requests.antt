-- ===== src/Admission/Requests.antt =====
-- app/services/admission.py: the headers that are kept for the upstream, and the id of a task in a
-- path.
use stask_service.Prelude.{
  ℕ, ◌-◌, Text, codes, text_eq, lower, Bool, true, false, any, ltb, leb, ◌&&◌, ◌||◌, ◌==◌,
  if◌then◌else◌, length, Option, none, some, List, [], ◌∷◌,
}
use stask_service.Admission.{rstrip_slash}

abbrev pub Headers : Type 0
Headers = List (Text × Text)

drop_headers : List Text
drop_headers =
    codes "host"
    ∷ codes "content-length"
    ∷ codes "connection"
    ∷ codes "keep-alive"
    ∷ codes "transfer-encoding"
    ∷ codes "upgrade"
    ∷ codes "proxy-authenticate"
    ∷ codes "proxy-authorization"
    ∷ codes "te"
    ∷ codes "trailer"
    ∷ codes "authorization"
    ∷ codes "cookie"
    ∷ codes "accept-encoding"
    ∷ codes "idempotency-key"
    ∷ codes "x-callback-url"
    ∷ codes "x-upstream-base-url"
    ∷ codes "x-forwarded-for"
    ∷ codes "x-forwarded-proto"
    ∷ codes "x-forwarded-host"
    ∷ codes "x-real-ip"
    ∷ []

unfoldable pub is_dropped : Text → Bool
unfolding drop_headers
is_dropped name = any (text_eq (lower name)) drop_headers

unfoldable pub clean_headers : Headers → Headers
clean_headers [] = []
clean_headers ((k, v) ∷ headers) =
    let rest = clean_headers headers in if is_dropped k then rest else (k, v) ∷ rest

abbrev pub is_hex : ℕ → Bool
is_hex c = leb b'0' c && leb c b'9' || leb b'a' c && leb c b'f'

abbrev pub is_slug : ℕ → Bool
is_slug c = leb b'a' c && leb c b'z' || (leb b'0' c && leb c b'9' || c == b'_')

all_of : (ℕ → Bool) → Text → Bool
all_of test [] = true
all_of test (c ∷ s) = test c && all_of test s

-- an underscore and then 32 hexadecimal digits
is_tail : Text → Bool
unfolding all_of
is_tail [] = false
is_tail (c ∷ s) = c == b'_' && (length s == 32 && all_of is_hex s)

-- so many characters of a slug, but at least one, and then a tail
has_shape : ℕ → Bool → Text → Bool
unfolding is_tail
has_shape n started [] = false
has_shape n started (c ∷ s) =
    let rest = has_shape (n - 1) true s in
    if started && is_tail (c ∷ s) then true else ltb 0 n && (is_slug c && rest)

-- `$` also matches before a line feed that ends the text
drop_newline : Text → Text
drop_newline [] = []
drop_newline (c ∷ []) = if c == 10 then [] else c ∷ []
drop_newline (c ∷ d ∷ s) = c ∷ drop_newline (d ∷ s)

-- TASK_ID_RE.match
unfoldable pub is_task_id : Text → Bool
unfolding has_shape drop_newline
is_task_id s = has_shape 20 false (drop_newline s)

-- `path.rstrip("/").rsplit("/", 1)[-1]`
last_segment : Text → Text
last_segment [] = []
last_segment (c ∷ s) =
    let rest = last_segment s in
    if any (λ d. d == b'/') s then rest else if c == b'/' then s else c ∷ s

unfoldable pub extract_task_id : Text → Option Text
unfolding last_segment rstrip_slash
extract_task_id path =
    let segment = last_segment (rstrip_slash path) in
    if is_task_id segment then some segment else none
