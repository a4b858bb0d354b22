-- ===== src/Artifacts/Parse.antt =====
-- app/services/artifacts.py: the bytes that stand in the answer itself, `parse_result`, and what is
-- stored of it. `loads` is `json.loads`, which fails on a text that is no JSON, and `is_base64` the
-- check of `base64.b64decode` with `validate`. No tier raises on a decoded value here, so the branch for
-- an exception, with its tier `partial`, is left out.
use stask_service.Prelude.{
  ℕ, ◌+◌, Text, codes, text_eq, strip, lower, Bool, true, false, not, any, ltb, leb, ◌&&◌, ◌||◌,
  ◌==◌, if◌then◌else◌, length, Option, none, some, List, [], ◌∷◌, ◌++◌,
}
use stask_service.Policy.{Json, Items, Fields, text, array, object, nil, cons, end, field}
use stask_service.Gate.{is_blank}
use stask_service.Policy.Resolve.{starts_with}
use stask_service.Flow.Replay.{contains}
use stask_service.Artifacts.{
  Kind, image, video, audio, kind_eq, Artifact, Collector, nothing, found, kind_from_key,
  kind_from_mime, or_kind, is_input, add,
}
use stask_service.Artifacts.Tiers.{envelopes, tier_known, walk, stops}

abbrev pub min_b64_len : ℕ
min_b64_len = 512

-- `[\w.+-]`
is_word : ℕ → Bool
is_word c =
    leb b'a' c && leb c b'z'
    || leb b'A' c && leb c b'Z'
    || leb b'0' c && leb c b'9'
    || c == b'_'
    || c == b'.'
    || c == b'+'
    || c == b'-'

-- the longest beginning of such characters, and the rest
span : Text → Text × Text
unfolding is_word
span [] = ([], [])
span (c ∷ s) = let rest = span s in if is_word c then (c ∷ rest.0, rest.1) else ([], c ∷ s)

without : Text → Text → Text
without [] s = s
without (p ∷ ps) [] = []
without (p ∷ ps) (c ∷ s) = without ps s

-- `;base64,` and at least one character
after_mime : Text → Text → Option (Text × Text)
unfolding without
after_mime mime s =
    let data' = without (codes ";base64,") s in
    if starts_with (lower s) (codes ";base64,") && not (is_blank data')
    then some (lower mime, data')
    else none

after_slash : Text → Text × Text → Option (Text × Text)
unfolding after_mime
after_slash first (second, s) =
    if is_blank second then none else after_mime (first ++ b'/' ∷ second) s

after_first : Text × Text → Option (Text × Text)
unfolding after_slash span
after_first (first, []) = none
after_first (first, c ∷ s) =
    if is_blank first then none else if c == b'/' then after_slash first (span s) else none

-- the MIME type and the bytes of a `data:` URI
unfoldable pub data_uri : Text → Option (Text × Text)
unfolding after_first span without
data_uri s =
    if starts_with (lower s) (codes "data:")
    then after_first (span (without (codes "data:") s))
    else none

pub is_explicit : Text → Bool
is_explicit name = contains (codes "b64") name || contains (codes "base64") name

pub is_weak : Text → Bool
is_weak name = any (text_eq name) (codes "image" ∷ codes "audio" ∷ codes "video" ∷ [])

pub data Tier : Type 0 where
  known walked inline no_tier : Tier

pub record ParseResult : Type 0 where
  pub items : List Artifact
  pub tier : Tier

-- `to_dict`
pub record Summary : Type 0 where
  pub key : Text
  pub type : Kind
  pub mime_type : Text
  pub url : Text
  pub inline : Bool

pub record Stored : Type 0 where
  pub artifacts : List Summary
  pub result_url : Text
  pub artifact_count : ℕ
  pub artifact_parser : Tier

summary : Artifact → Summary
summary a = record {
  key = a.key;
  type = a.type;
  mime_type = a.mime_type;
  url = a.url;
  inline = not (is_blank a.inline_b64);
}

summaries : List Artifact → List Summary
unfolding summary
summaries [] = []
summaries (a ∷ as') = summary a ∷ summaries as'

-- the first item with a URL that passes the test
first_url : (Artifact → Bool) → List Artifact → Text
first_url test [] = []
first_url test (a ∷ as') =
    let rest = first_url test as' in if test a && not (is_blank a.url) then a.url else rest

of_kind : Kind → Artifact → Bool
of_kind k a = kind_eq a.type k

or_next : Text → Text → Text
or_next [] t = t
or_next (c ∷ s) t = c ∷ s

unfoldable pub primary_url : List Artifact → Text
unfolding or_next first_url of_kind
primary_url items = or_next (first_url (of_kind video) items) (
    or_next (first_url (of_kind image) items)
      (or_next (first_url (of_kind audio) items) (first_url (λ a. true) items)))

module _ (is_base64 : Text → Bool) where
  pub looks_base64 : ℕ → Text → Bool
  looks_base64 min_len value = if ltb (length value) min_len then false else is_base64 value

  unfoldable pub add_b64 : Text → Text → Collector → Collector
  unfolding looks_base64 is_explicit is_weak
  add_b64 s hint c =
      let name = lower (strip hint) in
      if is_explicit name || is_weak name
      then (if looks_base64 (if is_explicit name then 1 else min_b64_len) s
          then add (or_kind (kind_from_key hint) image) [] s [] c
          else c)
      else c

  unfoldable pub add_inline : Text → Text → Collector → Collector
  unfolding add_b64
  add_inline s hint c = elim (data_uri (strip s)) [
    | some (mime, bytes) ↦ add (kind_from_mime mime) [] bytes mime c
    | none ↦ add_b64 (strip s) hint c
  ]

  -- `_tier_inline`
  unfoldable mutual
    pub inline_walk : Json → Text → ℕ → Collector → Collector
    inline_walk (text s) hint depth c = if stops depth c then c else add_inline s hint c
    inline_walk (array vs) hint depth c =
        let inner = inline_items vs hint depth c in if stops depth c then c else inner
    inline_walk (object fs) hint depth c =
        let inner = inline_fields fs hint depth c in if stops depth c then c else inner
    inline_walk _ hint depth c = c

    pub inline_items : Items → Text → ℕ → Collector → Collector
    inline_items nil hint depth c = c
    inline_items (cons v vs) hint depth c =
        inline_items vs hint depth (inline_walk v hint (depth + 1) c)

    pub inline_fields : Fields → Text → ℕ → Collector → Collector
    inline_fields end hint depth c = c
    inline_fields (field key v fs) hint depth c =
        let inner = inline_walk v key (depth + 1) c in
        inline_fields fs hint depth (if is_input (lower (strip key)) then c else inner)

  -- every tier goes on with what the one before it collected
  unfoldable pub after_known : Json → Collector
  after_known v = tier_known (envelopes v) nothing

  unfoldable pub after_walk : Json → Collector
  after_walk v = walk v [] 0 (after_known v)

  unfoldable pub after_inline : Json → Collector
  after_inline v = inline_walk v [] 0 (after_walk v)

  unfoldable pub of_json : Json → ParseResult
  of_json v =
      if found (after_known v)
      then record { items = (after_known v).items; tier = known }
      else if found (after_walk v)
      then record { items = (after_walk v).items; tier = walked }
      else record {
        items = (after_inline v).items;
        tier = if found (after_inline v) then inline else no_tier;
      }

  unfoldable pub of_loaded : Option Json → ParseResult
  unfolding of_json
  of_loaded none = record { items = []; tier = no_tier }
  of_loaded (some v) = of_json v

  module _ (loads : Text → Option Json) where
    unfoldable pub parse_result : Text → ParseResult
    unfolding of_loaded
    parse_result payload = of_loaded (loads payload)

    unfoldable pub parse_for_store : Text → Stored
    unfolding summaries
    parse_for_store payload =
        let r = parse_result payload in
        record {
          artifacts = summaries r.items;
          result_url = primary_url r.items;
          artifact_count = length r.items;
          artifact_parser = r.tier;
        }
