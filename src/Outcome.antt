-- ===== src/Outcome.antt =====
-- app/services/outcome.py: the message that is taken out of the answer of an upstream that refused.
-- `json.loads` of bytes and the tolerant decoding of UTF-8 are arguments.
use stask_service.Prelude.{
  ℕ, suc, Text, codes, strip, is_space, Bool, true, false, not, ltb, ◌&&◌, if◌then◌else◌, length,
  take, Option, none, some, List, [], ◌∷◌, ◌++◌,
}
use stask_service.Prelude.Int.{ℤ, pos, negsuc}
use stask_service.Policy.{Json, text, number, object, Fields}
use stask_service.Policy.Validate.{find_field}
use stask_service.Gate.{is_blank}
use stask_service.Flow.Replay.{contains}
use stask_service.Execute.Settle.{str_of}

abbrev pub reason_detail_limit : ℕ
reason_detail_limit = 300

message_keys : List Text
message_keys =
    codes "message"
    ∷ codes "msg"
    ∷ codes "error_msg"
    ∷ codes "errorMessage"
    ∷ codes "detail"
    ∷ codes "reason"
    ∷ codes "error_message"
    ∷ codes "description"
    ∷ []

code_keys : List Text
code_keys =
    codes "code" ∷ codes "error_code" ∷ codes "errorCode" ∷ codes "type" ∷ codes "status" ∷ []

-- `str` of an integer
str_of_int : ℤ → Text
str_of_int (pos n) = str_of n
str_of_int (negsuc n) = b'-' ∷ str_of (suc n)

-- a text that is not blank, or an integer
text_of : Option Json → Text
unfolding str_of_int
text_of (some (text s)) = strip s
text_of (some (number z)) = str_of_int z
text_of _ = []

unfoldable pub first_str : Fields → List Text → Text
unfolding find_field text_of
first_str node [] = []
first_str node (key ∷ keys) =
    let rest = first_str node keys in
    let found = text_of (find_field key node) in if is_blank found then rest else found

-- `none` where the value is not an object
child : Text → Fields → Option Fields
unfolding find_field
child key node = elim (find_field key node) [
  | none ↦ none
  | some v ↦ elim v [ object fields ↦ some fields | _ ↦ none ]
]

children : List Text → Fields → List Fields
unfolding child
children [] node = []
children (key ∷ keys) node =
    let rest = children keys node in elim (child key node) [ none ↦ rest | some c ↦ c ∷ rest ]

-- `{"error": "…"}`
flat_error : Fields → Text
unfolding find_field
flat_error node = elim (find_field (codes "error") node) [
  | none ↦ []
  | some v ↦ elim v [ text s ↦ strip s | _ ↦ [] ]
]

with_code : Text → Text → Text
with_code message code =
    if not (is_blank code) && not (contains code message)
    then message ++ codes " (" ++ code ++ codes ")"
    else message

first_message : List Fields → Text
unfolding with_code message_keys code_keys
first_message [] = []
first_message (node ∷ nodes) =
    let rest = first_message nodes in
    let message = first_str node message_keys in
    if is_blank message then rest else with_code message (first_str node code_keys)

unfoldable pub extract_from_json : Option Json → Text
unfolding children flat_error first_message
extract_from_json (some (text s)) = strip s
extract_from_json (some (object fields)) =
    if is_blank (flat_error fields)
    then first_message (
        fields
        ∷ children
            (codes "error" ∷ codes "data" ∷ codes "result" ∷ codes "response" ∷ codes "body" ∷ [])
            fields)
    else flat_error fields
extract_from_json _ = []

-- `" ".join(s.split())`; `gap` says that blanks came after a word
join_words : Bool → Bool → Text → Text
join_words started gap [] = []
join_words started gap (c ∷ s) =
    let blank = join_words started true s in
    let later = join_words true false s in
    if is_space c then blank else if started && gap then b' ' ∷ c ∷ later else c ∷ later

module _ (loads : Text → Option Json) (decode_replace : Text → Text) where
  unfoldable pub preview : Text → ℕ → Text
  preview raw limit =
      let head = strip (decode_replace (take limit raw)) in
      if ltb limit (length raw)
      then head ++ codes " ...(truncated, " ++ str_of (length raw) ++ codes " bytes total)"
      else head

  unfoldable pub upstream_error_detail : Text → Text → Text
  unfolding join_words
  upstream_error_detail raw content_type =
      if is_blank raw
      then []
      else if is_blank (extract_from_json (loads raw))
      then take reason_detail_limit (join_words false false (preview raw reason_detail_limit))
      else take reason_detail_limit (extract_from_json (loads raw))
