-- ===== src/Artifacts.antt =====
-- app/services/artifacts.py: what a URL, a key and a text tell of an artifact, and the collector.
-- Texts are ASCII where the source matches them without regard to case.
pub mod Tiers
pub mod Parse
pub mod Keys
pub mod Tidy
pub mod Results
use stask_service.Prelude.{
  ℕ, suc, ◌+◌, Text, codes, text_eq, strip, lower, Bool, true, false, not, any, leb, ◌&&◌, ◌||◌,
  ◌==◌, if◌then◌else◌, length, take, Option, none, some, List, [], ◌∷◌, ◌++◌,
}
use stask_service.Gate.{is_blank}
use stask_service.Policy.Resolve.{starts_with}
use stask_service.Flow.Replay.{contains}
use stask_service.Execute.Settle.{str_of}

pub data Kind : Type 0 where
  image video audio file : Kind

abbrev pub kind_eq : Kind → Kind → Bool
kind_eq image image = true
kind_eq video video = true
kind_eq audio audio = true
kind_eq file file = true
kind_eq _ _ = false

abbrev pub kind_name : Kind → Text
kind_name image = codes "image"
kind_name video = codes "video"
kind_name audio = codes "audio"
kind_name file = codes "file"

abbrev pub max_depth : ℕ
max_depth = 8

abbrev pub max_artifacts : ℕ
max_artifacts = 32

ext_mime : List (Text × Text)
ext_mime =
    (codes "png", codes "image/png")
    ∷ (codes "jpg", codes "image/jpeg")
    ∷ (codes "jpeg", codes "image/jpeg")
    ∷ (codes "webp", codes "image/webp")
    ∷ (codes "gif", codes "image/gif")
    ∷ (codes "bmp", codes "image/bmp")
    ∷ (codes "svg", codes "image/svg+xml")
    ∷ (codes "mp4", codes "video/mp4")
    ∷ (codes "webm", codes "video/webm")
    ∷ (codes "mov", codes "video/quicktime")
    ∷ (codes "mp3", codes "audio/mpeg")
    ∷ (codes "wav", codes "audio/wav")
    ∷ (codes "flac", codes "audio/flac")
    ∷ (codes "ogg", codes "audio/ogg")
    ∷ (codes "m4a", codes "audio/mp4")
    ∷ (codes "aac", codes "audio/aac")
    ∷ (codes "pdf", codes "application/pdf")
    ∷ (codes "zip", codes "application/zip")
    ∷ (codes "glb", codes "model/gltf-binary")
    ∷ (codes "gltf", codes "model/gltf+json")
    ∷ (codes "obj", codes "model/obj")
    ∷ (codes "fbx", codes "application/octet-stream")
    ∷ []

abbrev pub mime_kind_default : Kind → Text
mime_kind_default image = codes "image/png"
mime_kind_default video = codes "video/mp4"
mime_kind_default audio = codes "audio/mpeg"
mime_kind_default file = codes "application/octet-stream"

key_hints : List (Text × Kind)
key_hints =
    (codes "image", image)
    ∷ (codes "img", image)
    ∷ (codes "thumbnail", image)
    ∷ (codes "cover", image)
    ∷ (codes "last_frame", image)
    ∷ (codes "first_frame", image)
    ∷ (codes "picture", image)
    ∷ (codes "photo", image)
    ∷ (codes "video", video)
    ∷ (codes "movie", video)
    ∷ (codes "audio", audio)
    ∷ (codes "voice", audio)
    ∷ (codes "speech", audio)
    ∷ (codes "music", audio)
    ∷ (codes "song", audio)
    ∷ (codes "sound", audio)
    ∷ (codes "tts", audio)
    ∷ (codes "model", file)
    ∷ (codes "mesh", file)
    ∷ (codes "3d", file)
    ∷ (codes "file", file)
    ∷ (codes "attachment", file)
    ∷ (codes "document", file)
    ∷ []

container_keys : List Text
container_keys =
    codes "data"
    ∷ codes "result"
    ∷ codes "results"
    ∷ codes "output"
    ∷ codes "outputs"
    ∷ codes "content"
    ∷ codes "contents"
    ∷ codes "response"
    ∷ codes "artifacts"
    ∷ codes "files"
    ∷ codes "items"
    ∷ codes "parts"
    ∷ codes "list"
    ∷ codes "choices"
    ∷ codes "media"
    ∷ codes "assets"
    ∷ codes "task_result"
    ∷ codes "generations"
    ∷ []

input_keys : List Text
input_keys =
    codes "request"
    ∷ codes "input"
    ∷ codes "inputs"
    ∷ codes "parameters"
    ∷ codes "params"
    ∷ codes "payload"
    ∷ codes "prompt"
    ∷ codes "messages"
    ∷ codes "body"
    ∷ codes "config"
    ∷ codes "options"
    ∷ codes "usage"
    ∷ codes "metadata"
    ∷ codes "meta"
    ∷ []

-- `name in keys`
abbrev pub among : Text → List Text → Bool
among name keys = any (text_eq name) keys

unfoldable pub is_container : Text → Bool
unfolding container_keys
is_container name = among name container_keys

unfoldable pub is_input : Text → Bool
unfolding input_keys
is_input name = among name input_keys

pub record Artifact : Type 0 where
  pub key : Text
  pub type : Kind
  pub mime_type : Text
  pub url : Text
  pub inline_b64 : Text

pub record Collector : Type 0 where
  pub seen : List Text
  pub counters : Kind → ℕ
  pub items : List Artifact

abbrev pub nothing : Collector
nothing = record { seen = []; counters = λ k. 0; items = [] }

abbrev pub found : Collector → Bool
found c = elim c.items [ [] ↦ false | ◌∷◌ a as' ↦ true ]

-- `_valid_url`: the empty text where the value is no URL
unfoldable pub valid_url : Text → Text
valid_url s =
    let t = strip s in
    if starts_with (lower t) (codes "http://") || starts_with (lower t) (codes "https://")
    then t
    else []

-- `s.split(c, 1)[0]`
before : ℕ → Text → Text
before c [] = []
before c (d ∷ s) = let rest = before c s in if d == c then [] else d ∷ rest

-- what follows the last dot, if there is one
after_dot : Text → Option Text
after_dot [] = none
after_dot (c ∷ s) =
    let rest = after_dot s in
    elim rest [ some t ↦ some t | none ↦ if c == b'.' then some s else none ]

mime_of : List (Text × Text) → Text → Text
mime_of [] ext = []
mime_of ((e, m) ∷ table) ext = let rest = mime_of table ext in if text_eq e ext then m else rest

mime_of_option : Option Text → Text
unfolding ext_mime mime_of
mime_of_option none = []
mime_of_option (some ext) = mime_of ext_mime (lower ext)

unfoldable pub mime_from_url : Text → Text
unfolding before after_dot mime_of_option
mime_from_url url =
    if is_blank url then [] else mime_of_option (after_dot (before b'#' (before b'?' url)))

-- the kind that a MIME type begins with
unfoldable pub kind_of_mime : Text → Option Kind
kind_of_mime mime =
    if starts_with mime (codes "image/")
    then some image
    else if starts_with mime (codes "video/")
    then some video
    else if starts_with mime (codes "audio/")
    then some audio
    else none

abbrev pub or_kind : Option Kind → Kind → Kind
or_kind none k = k
or_kind (some j) k = j

unfoldable pub kind_from_url : Text → Kind → Kind
kind_from_url url fallback = or_kind (kind_of_mime (mime_from_url url)) fallback

unfoldable pub kind_from_mime : Text → Kind
kind_from_mime mime = or_kind (kind_of_mime mime) file

ends_with : Text → Text → Bool
ends_with [] part = is_blank part
ends_with (c ∷ s) part = let rest = ends_with s part in if text_eq (c ∷ s) part then true else rest

is_link : Text → Bool
unfolding ends_with
is_link name =
    among name
      (codes "url" ∷ codes "uri" ∷ codes "link" ∷ codes "download_url" ∷ codes "content_url" ∷ [])
    || (ends_with name (codes "_url")
        || (ends_with name (codes "_uri") || ends_with name (codes "_link")))

hinted : List (Text × Kind) → Text → Option Kind
unfolding is_link
hinted [] name = if is_link name then some file else none
hinted ((token, k) ∷ hints) name =
    let rest = hinted hints name in if contains token name then some k else rest

-- `none` stands for the empty text
unfoldable pub kind_from_key : Text → Option Kind
unfolding key_hints hinted
kind_from_key key =
    let name = lower (strip key) in if is_blank name then none else hinted key_hints name

abbrev pub or_text : Text → Text → Text
or_text [] t = t
or_text (c ∷ s) t = c ∷ s

-- the key of the n-th artifact of a kind
unfoldable pub key_of : Kind → ℕ → Text
key_of k n = if n == 1 then kind_name k else kind_name k ++ b'_' ∷ str_of n

abbrev pub fingerprint : Text → Text → Text
fingerprint url inline_b64 = or_text url (take 128 inline_b64)

abbrev pub count : Kind → (Kind → ℕ) → Kind → ℕ
count k counters j = if kind_eq k j then suc (counters j) else counters j

abbrev pub noted : Kind → Text → Text → Text → Collector → Collector
noted kind url inline_b64 mime c = record {
  seen = fingerprint url inline_b64 ∷ c.seen;
  counters = count kind c.counters;
  items =
      c.items
      ++ record {
        key = key_of kind (suc (c.counters kind));
        type = kind;
        mime_type = or_text mime (or_text (mime_from_url url) (mime_kind_default kind));
        url = url;
        inline_b64 = inline_b64;
      }
        ∷ [];
}

-- `_Collector.add`
unfoldable pub add : Kind → Text → Text → Text → Collector → Collector
add kind url inline_b64 mime c =
    if leb max_artifacts (length c.items)
    then c
    else if is_blank (fingerprint url inline_b64)
    then c
    else if among (fingerprint url inline_b64) c.seen
    then c
    else noted kind url inline_b64 mime c
