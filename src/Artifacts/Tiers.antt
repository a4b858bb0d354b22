-- ===== src/Artifacts/Tiers.antt =====
-- app/services/artifacts.py: the three tiers of `parse_result`, and what is stored of its result.
-- `loads` is `json.loads`, which fails on a text that is no JSON, and `is_base64` the check of
-- `base64.b64decode` with `validate`. A parsed text has no cycles and no shared parts, so nothing is
-- visited twice.
use stask_service.Prelude.{
  ℕ, zero, suc, ◌+◌, Text, codes, text_eq, strip, lower, Bool, true, false, ltb, leb, ◌||◌,
  if◌then◌else◌, length, Option, none, some, List, [], ◌∷◌, ◌++◌,
}
use stask_service.Policy.{Json, Items, Fields, null, text, array, object, nil, cons, end, field}
use stask_service.Gate.{is_blank}
use stask_service.Artifacts.{
  Kind, image, video, audio, file, Collector, found, max_depth, max_artifacts, valid_url,
  kind_from_url, kind_from_key, or_kind, is_container, is_input, add,
}

-- a container path, a field, and the kind where the path tells it
pub known_paths : List (List Text × Text × Option Kind)
known_paths =
    ([], codes "url", none)
    ∷ (codes "data" ∷ [], codes "url", none)
    ∷ (codes "data" ∷ [], codes "image_url", some image)
    ∷ (codes "data" ∷ [], codes "video_url", some video)
    ∷ (codes "data" ∷ [], codes "audio_url", some audio)
    ∷ (codes "content" ∷ [], codes "video_url", some video)
    ∷ (codes "content" ∷ [], codes "last_frame_url", some image)
    ∷ (codes "content" ∷ [], codes "audio_url", some audio)
    ∷ ([], codes "image_url", some image)
    ∷ ([], codes "video_url", some video)
    ∷ ([], codes "audio_url", some audio)
    ∷ ([], codes "file_url", some file)
    ∷ (codes "images" ∷ [], codes "url", some image)
    ∷ (codes "image" ∷ [], codes "url", some image)
    ∷ (codes "video" ∷ [], codes "url", some video)
    ∷ (codes "audio" ∷ [], codes "url", some audio)
    ∷ (codes "output" ∷ [], codes "url", none)
    ∷ (codes "outputs" ∷ [], codes "url", none)
    ∷ (codes "task_result" ∷ codes "images" ∷ [], codes "url", some image)
    ∷ (codes "task_result" ∷ codes "videos" ∷ [], codes "url", some video)
    ∷ (codes "file" ∷ [], codes "download_url", none)
    ∷ (codes "files" ∷ [], codes "download_url", none)
    ∷ (codes "result" ∷ [], codes "url", none)
    ∷ (codes "results" ∷ [], codes "url", none)
    ∷ (codes "artifacts" ∷ [], codes "url", none)
    ∷ []

wrappers : List Text
wrappers = codes "response" ∷ codes "result" ∷ codes "data" ∷ codes "output" ∷ codes "body" ∷ []

-- `node.get(key)`: None where the key is missing
unfoldable pub get : Text → Fields → Json
get key end = null
get key (field k v fs) = let rest = get key fs in if text_eq k key then v else rest

objects_at : List Text → Fields → List Fields
objects_at [] node = []
objects_at (key ∷ keys) node =
    let rest = objects_at keys node in elim (get key node) [ object fs ↦ fs ∷ rest | _ ↦ rest ]

unwrap : List Fields → List Fields
unfolding objects_at wrappers
unwrap [] = []
unwrap (node ∷ nodes) = objects_at wrappers node ++ unwrap nodes

layers : ℕ → List Fields → List Fields
layers zero frontier = []
layers (suc n) frontier = let inner = unwrap frontier in inner ++ layers n inner

-- `_envelopes`: the root and three layers below it
unfoldable pub envelopes : Json → List Fields
unfolding layers unwrap
envelopes (object root) = root ∷ layers 3 (root ∷ [])
envelopes _ = []

-- a list is spread
spread : Items → List Json
spread nil = []
spread (cons v vs) = v ∷ spread vs

child_of : Text → Json → List Json
unfolding spread
child_of key (object fs) = elim (get key fs) [ array vs ↦ spread vs | v ↦ v ∷ [] ]
child_of key _ = []

children : Text → List Json → List Json
unfolding child_of
children key [] = []
children key (v ∷ vs) = child_of key v ++ children key vs

descend : List Text → List Json → List Json
unfolding children
descend [] current = current
descend (key ∷ path) current = descend path (children key current)

objects_in : List Json → List Fields
objects_in [] = []
objects_in (object fs ∷ vs) = fs ∷ objects_in vs
objects_in (_ ∷ vs) = objects_in vs

ends_of : List Json → List Fields
unfolding objects_in spread
ends_of [] = []
ends_of (array vs ∷ rest) = objects_in (spread vs) ++ ends_of rest
ends_of (object fs ∷ rest) = fs ∷ ends_of rest
ends_of (_ ∷ rest) = ends_of rest

unfoldable pub walk_path : Fields → List Text → List Fields
unfolding descend ends_of
walk_path node path = ends_of (descend path (object node ∷ []))

abbrev pub url_of : Json → Text
url_of (text s) = valid_url s
url_of _ = []

-- a URL that was found: its extension first, then what is declared
unfoldable pub add_url : Text → Option Kind → Collector → Collector
add_url url declared c =
    if is_blank url then c else add (kind_from_url url (or_kind declared file)) url [] [] c

unfoldable pub add_nodes : Text → Option Kind → List Fields → Collector → Collector
unfolding add_url
add_nodes name kind [] c = c
add_nodes name kind (node ∷ nodes) c =
    add_nodes name kind nodes (add_url (url_of (get name node)) kind c)

unfoldable pub add_paths : List (List Text × Text × Option Kind) → Fields → Collector → Collector
unfolding add_nodes
add_paths [] env c = c
add_paths ((path, name, kind) ∷ paths) env c =
    add_paths paths env (add_nodes name kind (walk_path env path) c)

unfoldable pub tier_known : List Fields → Collector → Collector
unfolding add_paths known_paths
tier_known [] c = c
tier_known (env ∷ envs) c =
    let d = add_paths known_paths env c in
    let rest = tier_known envs d in if found d then d else rest

-- the guard of both recursive tiers
abbrev pub stops : ℕ → Collector → Bool
stops depth c = ltb max_depth depth || leb max_artifacts (length c.items)

unfoldable pub is_nested : Json → Bool
is_nested (array vs) = true
is_nested (object fs) = true
is_nested _ = false

-- `_tier_walk`
unfoldable mutual
  unfolding add_url is_nested

  pub walk : Json → Text → ℕ → Collector → Collector
  walk (text s) hint depth c =
      if stops depth c then c else add_url (valid_url s) (kind_from_key hint) c
  walk (array vs) hint depth c =
      let inner = walk_items vs hint depth c in if stops depth c then c else inner
  walk (object fs) hint depth c =
      let inner = walk_fields fs hint depth c in if stops depth c then c else inner
  walk _ hint depth c = c

  pub walk_items : Items → Text → ℕ → Collector → Collector
  walk_items nil hint depth c = c
  walk_items (cons v vs) hint depth c = walk_items vs hint depth (walk v hint (depth + 1) c)

  pub walk_fields : Fields → Text → ℕ → Collector → Collector
  walk_fields end hint depth c = c
  walk_fields (field key v fs) hint depth c =
      let name = lower (strip key) in
      let under_key = walk v key (depth + 1) c in
      let under_hint = walk v hint (depth + 1) c in
      walk_fields fs hint depth (
        if is_input name then c else elim (kind_from_key key) [
          | some k ↦ under_key
          | none ↦ if is_container name || is_nested v then under_hint else c
        ])
