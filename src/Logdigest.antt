-- ===== src/Logdigest.antt =====
-- app/services/logdigest.py: what of a request and of an answer goes into a log. `json.loads` of
-- bytes, `json.dumps` and the tolerant decoding of UTF-8 are arguments.
pub mod Headers
pub mod Small
use stask_service.Prelude.{
  ℕ, zero, suc, ◌+◌, ◌*◌, Text, codes, text_eq, lower, Bool, true, false, any, ltb, leb, ◌&&◌,
  if◌then◌else◌, length, take, Option, none, some, List, [], ◌∷◌, ◌++◌,
}
use stask_service.Policy.{Json, Items, Fields, text, array, object, nil, cons, end, field}
use stask_service.Gate.{is_blank}
use stask_service.Policy.Resolve.{starts_with}
use stask_service.Execute.Settle.{str_of}

abbrev pub log_body_limit : ℕ
log_body_limit = 4000

abbrev pub log_str_limit : ℕ
log_str_limit = 500

abbrev pub log_list_limit : ℕ
log_list_limit = 20

abbrev pub log_parse_limit : ℕ
log_parse_limit = 256 * 1024

abbrev pub log_head_bytes : ℕ
log_head_bytes = 800

credential_headers : List Text
credential_headers =
    codes "authorization"
    ∷ codes "cookie"
    ∷ codes "set-cookie"
    ∷ codes "proxy-authorization"
    ∷ codes "x-api-key"
    ∷ codes "api-key"
    ∷ []

-- the character U+2026
abbrev ellipsis : ℕ
ellipsis = 8230

unfoldable pub clip : Text → ℕ → Text
clip s limit =
    if leb (length s) limit
    then s
    else take limit s
      ++ ellipsis ∷ codes "<truncated, "
      ++ str_of (length s)
      ++ codes " chars total>"

unfoldable pub is_credential : Text → Bool
unfolding credential_headers
is_credential name = any (text_eq (lower name)) credential_headers

unfoldable pub log_headers : List (Text × Text) → List (Text × Text)
log_headers [] = []
log_headers ((k, v) ∷ headers) =
    let rest = log_headers headers in if is_credential k then rest else (k, v) ∷ rest

next : Option ℕ → Option ℕ
next none = none
next (some n) = some (suc n)

-- `s.find(part)`, `none` being -1
find : Text → Text → Option ℕ
unfolding next
find part [] = if is_blank part then some 0 else none
find part (c ∷ s) = let rest = find part s in if starts_with (c ∷ s) part then some 0 else next rest

shrink_text_at : Text → Option ℕ → Text
shrink_text_at s none = clip s log_str_limit
shrink_text_at s (some marker) =
    if starts_with s (codes "data:") && (ltb 0 marker && ltb marker 64)
    then codes "<inline "
      ++ take marker s
      ++ codes ";base64 ~"
      ++ str_of (length s)
      ++ codes " chars>"
    else clip s log_str_limit

unfoldable pub shrink_text : Text → Text
unfolding find shrink_text_at
shrink_text s = shrink_text_at s (find (codes ";base64,") s)

-- the number of items
unfoldable pub count : Items → ℕ
count nil = 0
count (cons v vs) = suc (count vs)

more : ℕ → Text
more n = ellipsis ∷ b'<' ∷ str_of n ++ codes " more>"

-- what stands where the nesting is too deep
abbrev pub cut : ℕ → Json → Json
cut depth v = if leb 4 depth then text (ellipsis ∷ []) else v

-- `_shrink`; the second argument of `shrink_items` is how many items are kept still
unfoldable mutual
  unfolding shrink_text count more

  pub shrink : Json → ℕ → Json
  shrink (text s) depth = cut depth (text (shrink_text s))
  shrink (array vs) depth = cut depth (array (shrink_items vs log_list_limit (depth + 1)))
  shrink (object fs) depth = cut depth (object (shrink_fields fs (depth + 1)))
  shrink v depth = cut depth v

  pub shrink_items : Items → ℕ → ℕ → Items
  shrink_items nil left depth = nil
  shrink_items (cons v vs) zero depth = cons (text (more (count (cons v vs)))) nil
  shrink_items (cons v vs) (suc left) depth = cons (shrink v depth) (shrink_items vs left depth)

  pub shrink_fields : Fields → ℕ → Fields
  shrink_fields end depth = end
  shrink_fields (field key v fs) depth = field key (shrink v depth) (shrink_fields fs depth)

-- an object, or None
fields_of : Json → Option Fields
fields_of (object fs) = some fs
fields_of _ = none

of_loaded : Option Json → Option Fields
unfolding fields_of
of_loaded none = none
of_loaded (some (object fs)) = fields_of (shrink (object fs) 0)
of_loaded (some _) = none

module _ (loads : Text → Option Json) where
  unfoldable pub parsed_json : Text → Option Fields
  unfolding of_loaded
  parsed_json raw =
      if is_blank raw
      then none
      else if ltb log_parse_limit (length raw)
      then none
      else of_loaded (loads raw)

  unfoldable pub json_field : Text → Text → Fields
  json_field key raw = elim (parsed_json raw) [ none ↦ end | some fs ↦ field key (object fs) end ]

  module _ (dumps : Json → Text) (decode_replace : Text → Text) where
    digest_of : Text → Option Json → Text
    digest_of raw (some (array vs)) = clip (dumps (shrink (array vs) 0)) log_body_limit
    digest_of raw (some (object fs)) = clip (dumps (shrink (object fs) 0)) log_body_limit
    digest_of raw _ = clip (decode_replace raw) log_body_limit

    unfoldable pub digest : Text → Text
    unfolding digest_of
    digest raw =
        if is_blank raw
        then []
        else if ltb log_parse_limit (length raw)
        then decode_replace (take log_head_bytes raw)
          ++ ellipsis ∷ codes "<not parsed, "
          ++ str_of (length raw)
          ++ codes " bytes total>"
        else digest_of raw (loads raw)
