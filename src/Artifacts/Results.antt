-- ===== src/Artifacts/Results.antt =====
-- What holds of the artifacts that are found in an answer.
use stask_service.Prelude.{
  ℕ, ◌+◌, Text, strip, lower, Bool, true, false, ◌||◌, if◌then◌else◌, Option, none, some, List, [],
  ◌∷◌, ◌≡◌, refl, arith,
}
use stask_service.Policy.{
  Json, Items, Fields, text, array, object, nil, cons, end, field, null, real, boolean, number,
}
use stask_service.Gate.{is_blank}
use stask_service.Artifacts.{
  Kind, Collector, nothing, found, add, is_input, is_container, kind_from_key, kind_from_mime,
  valid_url,
}
use stask_service.Artifacts.Tiers.{
  envelopes, tier_known, add_url, add_nodes, add_paths, known_paths, url_of, walk_path, get, walk,
  walk_items, walk_fields, stops, is_nested,
}
use stask_service.Artifacts.Parse.{
  ParseResult, inline_walk, inline_items, inline_fields, add_inline, add_b64, data_uri,
  looks_base64, is_explicit, is_weak, min_b64_len, after_known, after_walk, after_inline, of_json,
  of_loaded, parse_result,
}
use stask_service.Artifacts.Tidy.{IsTidy, AreTidy, add-IsTidy}

nothing-IsTidy : IsTidy nothing
nothing-IsTidy = record {
  later = tt;
  tidy = record { distinct = tt; few = omega arith; whole = tt };
}

by_if : (b : Bool) (c d : Collector) → IsTidy c → IsTidy d → IsTidy (if b then c else d)
by_if true c d h k = h
by_if false c d h k = k

blank_or : (b : Bool) → (b || true) ≡ true
blank_or true = refl
blank_or false = refl

add_url-IsTidy :
    (url : Text) (k : Option Kind) (c : Collector) → IsTidy c → IsTidy (add_url url k c)
unfolding add_url
add_url-IsTidy url k c h =
    by_if (is_blank url) _ _ h (add-IsTidy _ url [] [] c (blank_or (is_blank url)) h)

add_nodes-IsTidy :
    (name : Text) (k : Option Kind) (nodes : List Fields) (c : Collector)
    → IsTidy c
    → IsTidy (add_nodes name k nodes c)
unfolding add_nodes
add_nodes-IsTidy name k [] c h = h
add_nodes-IsTidy name k (node ∷ nodes) c h =
    add_nodes-IsTidy name k nodes _ (add_url-IsTidy (url_of (get name node)) k c h)

add_paths-IsTidy :
    (paths : List (List Text × Text × Option Kind)) (env : Fields) (c : Collector)
    → IsTidy c
    → IsTidy (add_paths paths env c)
unfolding add_paths
add_paths-IsTidy [] env c h = h
add_paths-IsTidy ((path, name, kind) ∷ paths) env c h =
    add_paths-IsTidy paths env _ (add_nodes-IsTidy name kind (walk_path env path) c h)

tier_known-IsTidy : (envs : List Fields) (c : Collector) → IsTidy c → IsTidy (tier_known envs c)
unfolding tier_known
tier_known-IsTidy [] c h = h
tier_known-IsTidy (env ∷ envs) c h =
    let k = add_paths-IsTidy known_paths env c h in
    by_if (found (add_paths known_paths env c)) _ _ k (tier_known-IsTidy envs _ k)

by_option :
    (o : Option Kind) (c d : Collector)
    → IsTidy c
    → IsTidy d
    → IsTidy (elim o [ some k ↦ c | none ↦ d ])
by_option none c d h k = k
by_option (some x) c d h k = h

mutual
  unfolding walk

  walk-IsTidy :
      (v : Json) (hint : Text) (depth : ℕ) (c : Collector) → IsTidy c → IsTidy (walk v hint depth c)
  walk-IsTidy null hint depth c h = h
  walk-IsTidy real hint depth c h = h
  walk-IsTidy (boolean b) hint depth c h = h
  walk-IsTidy (number z) hint depth c h = h
  walk-IsTidy (text s) hint depth c h =
      by_if (stops depth c) _ _ h (add_url-IsTidy (valid_url s) (kind_from_key hint) c h)
  walk-IsTidy (array vs) hint depth c h =
      by_if (stops depth c) _ _ h (walk_items-IsTidy vs hint depth c h)
  walk-IsTidy (object fs) hint depth c h =
      by_if (stops depth c) _ _ h (walk_fields-IsTidy fs hint depth c h)

  walk_items-IsTidy :
      (vs : Items) (hint : Text) (depth : ℕ) (c : Collector)
      → IsTidy c
      → IsTidy (walk_items vs hint depth c)
  walk_items-IsTidy nil hint depth c h = h
  walk_items-IsTidy (cons v vs) hint depth c h =
      walk_items-IsTidy vs hint depth _ (walk-IsTidy v hint (depth + 1) c h)

  walk_fields-IsTidy :
      (fs : Fields) (hint : Text) (depth : ℕ) (c : Collector)
      → IsTidy c
      → IsTidy (walk_fields fs hint depth c)
  walk_fields-IsTidy end hint depth c h = h
  walk_fields-IsTidy (field key v fs) hint depth c h =
      let k = walk-IsTidy v key (depth + 1) c h in
      let k' = walk-IsTidy v hint (depth + 1) c h in
      walk_fields-IsTidy fs hint depth _ (
        by_if (is_input (lower (strip key))) _ _ h (
          by_option (kind_from_key key) _ _ k
            (by_if (is_container (lower (strip key)) || is_nested v) _ _ k' h)))

module _ (is_base64 : Text → Bool) where
  add_b64-IsTidy : (s hint : Text) (c : Collector) → IsTidy c → IsTidy (add_b64 is_base64 s hint c)
  unfolding add_b64
  add_b64-IsTidy s hint c h =
      by_if (is_explicit (lower (strip hint)) || is_weak (lower (strip hint))) _ _
        (by_if
          (looks_base64 is_base64 (if is_explicit (lower (strip hint)) then 1 else min_b64_len) s) _
          _ (add-IsTidy _ [] s [] c refl h) h)
        h

  of_uri :
      (o : Option (Text × Text)) (c d : Collector)
      → IsTidy c
      → IsTidy d
      → IsTidy
          (elim o [ some (mime, bytes) ↦ add (kind_from_mime mime) [] bytes mime c | none ↦ d ])
  of_uri none c d h k = k
  of_uri (some (mime, bytes)) c d h k = add-IsTidy (kind_from_mime mime) [] bytes mime c refl h

  add_inline-IsTidy :
      (s hint : Text) (c : Collector) → IsTidy c → IsTidy (add_inline is_base64 s hint c)
  unfolding add_inline
  add_inline-IsTidy s hint c h =
      of_uri (data_uri (strip s)) c (add_b64 is_base64 (strip s) hint c) h
        (add_b64-IsTidy (strip s) hint c h)

  mutual
    unfolding inline_walk

    inline-IsTidy :
        (v : Json) (hint : Text) (depth : ℕ) (c : Collector)
        → IsTidy c
        → IsTidy (inline_walk is_base64 v hint depth c)
    inline-IsTidy null hint depth c h = h
    inline-IsTidy real hint depth c h = h
    inline-IsTidy (boolean b) hint depth c h = h
    inline-IsTidy (number z) hint depth c h = h
    inline-IsTidy (text s) hint depth c h =
        by_if (stops depth c) _ _ h (add_inline-IsTidy s hint c h)
    inline-IsTidy (array vs) hint depth c h =
        by_if (stops depth c) _ _ h (inline_items-IsTidy vs hint depth c h)
    inline-IsTidy (object fs) hint depth c h =
        by_if (stops depth c) _ _ h (inline_fields-IsTidy fs hint depth c h)

    inline_items-IsTidy :
        (vs : Items) (hint : Text) (depth : ℕ) (c : Collector)
        → IsTidy c
        → IsTidy (inline_items is_base64 vs hint depth c)
    inline_items-IsTidy nil hint depth c h = h
    inline_items-IsTidy (cons v vs) hint depth c h =
        inline_items-IsTidy vs hint depth _ (inline-IsTidy v hint (depth + 1) c h)

    inline_fields-IsTidy :
        (fs : Fields) (hint : Text) (depth : ℕ) (c : Collector)
        → IsTidy c
        → IsTidy (inline_fields is_base64 fs hint depth c)
    inline_fields-IsTidy end hint depth c h = h
    inline_fields-IsTidy (field key v fs) hint depth c h =
        inline_fields-IsTidy fs hint depth _
          (by_if (is_input (lower (strip key))) _ _ h (inline-IsTidy v key (depth + 1) c h))

  after_known-IsTidy : (v : Json) → IsTidy (after_known is_base64 v)
  unfolding after_known
  after_known-IsTidy v = tier_known-IsTidy (envelopes v) nothing nothing-IsTidy

  after_walk-IsTidy : (v : Json) → IsTidy (after_walk is_base64 v)
  unfolding after_walk
  after_walk-IsTidy v = walk-IsTidy v [] 0 (after_known is_base64 v) (after_known-IsTidy v)

  after_inline-IsTidy : (v : Json) → IsTidy (after_inline is_base64 v)
  unfolding after_inline
  after_inline-IsTidy v = inline-IsTidy v [] 0 (after_walk is_base64 v) (after_walk-IsTidy v)

  items_if :
      (b : Bool) (r r' : ParseResult)
      → AreTidy r.items
      → AreTidy r'.items
      → AreTidy (if b then r else r').items
  items_if true r r' h k = h
  items_if false r r' h k = k

  of_json-AreTidy : (v : Json) → AreTidy (of_json is_base64 v).items
  unfolding of_json
  of_json-AreTidy v = items_if (found (after_known is_base64 v)) _ _ (after_known-IsTidy v).tidy (
      items_if (found (after_walk is_base64 v)) _ _ (after_walk-IsTidy v).tidy
        (after_inline-IsTidy v).tidy)

  of_loaded-AreTidy : (o : Option Json) → AreTidy (of_loaded is_base64 o).items
  unfolding of_loaded
  of_loaded-AreTidy none = nothing-IsTidy.tidy
  of_loaded-AreTidy (some v) = of_json-AreTidy v

-- Whatever an upstream answers: no two of the artifacts that are found in it have one key, there
-- are at most 32, and each has a MIME type and either a URL or bytes.
pub parse_result-AreTidy :
    (is_base64 : Text → Bool) (loads : Text → Option Json) (payload : Text)
    → AreTidy (parse_result is_base64 loads payload).items
unfolding parse_result
parse_result-AreTidy is_base64 loads payload = of_loaded-AreTidy is_base64 (loads payload)
