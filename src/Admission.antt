-- ===== src/Admission.antt =====
-- app/services/admission.py: which paths are taken, and where a task may be sent. `urlsplit` of the
-- standard library is an argument; a blank `username` or `password` stands for none.
pub mod Upstreams
pub mod Requests
use stask_service.Prelude.{
  ℕ, Text, codes, text_eq, strip, lower, Bool, true, false, not, ◌&&◌, ◌||◌, ◌==◌, if◌then◌else◌,
  List, [], ◌∷◌, ◌++◌,
}
use stask_service.Policy.Resolve.{starts_with}
use stask_service.Gate.{is_blank}

pub record Settings : Type 0 where
  pub async_deny_prefixes : List Text
  pub async_allow_prefixes : List Text
  pub upstream_allowlist : List Text
  pub upstream_base_url : Text

-- the codes of an AdmissionError
pub data Refusal : Type 0 where
  path_denied path_not_allowed : Refusal
  upstream_invalid_scheme upstream_userinfo upstream_invalid upstream_not_allowed : Refusal

pub data Admitted (A : Type 0) : Type 0 where
  admitted : A → Admitted A
  refused : ℕ → Refusal → Admitted A

any_covers : List Text → Text → Bool
any_covers [] path = false
any_covers (p ∷ ps) path =
    let rest = any_covers ps path in if not (is_blank p) && starts_with path p then true else rest

-- Deny comes before allow; an empty list of allowed prefixes takes no path.
unfoldable pub check_path : Settings → Text → Admitted (Unit {0})
unfolding any_covers
check_path s path =
    if any_covers s.async_deny_prefixes path
    then refused 403 path_denied
    else if any_covers s.async_allow_prefixes path
    then admitted tt
    else refused 403 path_not_allowed

unfoldable pub has_code : ℕ → Text → Bool
has_code k [] = false
has_code k (c ∷ s) = let rest = has_code k s in if c == k then true else rest

-- `host.split(":")[0]`
before_colon : Text → Text
before_colon [] = []
before_colon (c ∷ s) = let rest = before_colon s in if c == b':' then [] else c ∷ rest

-- one entry of the list, stripped and in lower case
entry_matches : Text → Text → Bool
unfolding before_colon
entry_matches host item =
    if is_blank item
    then false
    else if has_code b':' item
    then text_eq host item
    else text_eq (before_colon host) item

any_matches : List Text → Text → Bool
unfolding entry_matches
any_matches [] host = false
any_matches (entry ∷ entries) host =
    let rest = any_matches entries host in
    if entry_matches host (lower (strip entry)) then true else rest

-- no list means no limit
unfoldable pub host_matches : List Text → Text → Bool
unfolding any_matches
host_matches [] host = true
host_matches (entry ∷ entries) host = any_matches (entry ∷ entries) host

-- what `urlsplit` returns
pub record Parts : Type 0 where
  pub scheme : Text
  pub netloc : Text
  pub username : Text
  pub password : Text
  pub hostname : Text
  pub path : Text
  pub query : Text
  pub fragment : Text

-- `rstrip("/")`
rstrip_slash : Text → Text
rstrip_slash [] = []
rstrip_slash (c ∷ s) =
    let rest = rstrip_slash s in if is_blank rest && (c == b'/') then [] else c ∷ rest

abbrev pub is_http : Text → Bool
is_http scheme = text_eq scheme (codes "http") || text_eq scheme (codes "https")

abbrev pub has_userinfo : Parts → Bool
has_userinfo p = not (is_blank p.username) || (not (is_blank p.password) || has_code b'@' p.netloc)

abbrev pub raw_upstream : Settings → Text → Text
raw_upstream s header = if is_blank (strip header) then s.upstream_base_url else strip header

resolve_parts : Settings → Parts → Admitted Text
unfolding rstrip_slash
resolve_parts s p =
    if not (is_http p.scheme)
    then refused 400 upstream_invalid_scheme
    else if has_userinfo p
    then refused 400 upstream_userinfo
    else if is_blank p.hostname
    then refused 400 upstream_invalid
    else if not (is_blank p.query) || not (is_blank p.fragment)
    then refused 400 upstream_invalid
    else if host_matches s.upstream_allowlist (lower p.netloc)
    then admitted (p.scheme ++ codes "://" ++ lower p.netloc ++ rstrip_slash p.path)
    else refused 400 upstream_not_allowed

-- a missing header is the empty text
unfoldable pub resolve_upstream : (Text → Parts) → Settings → Text → Admitted Text
unfolding resolve_parts
resolve_upstream urlsplit s header = resolve_parts s (urlsplit (raw_upstream s header))
