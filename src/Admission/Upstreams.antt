-- ===== src/Admission/Upstreams.antt =====
-- Where the token of a user may be sent.
use stask_service.Prelude.{
  ℕ, Text, text_eq, text_eq_iff, codes, lower, strip, true, false, ◌&&◌, ◌==◌, List, [], ◌∷◌, ◌++◌,
  ◌≡◌, ◌≢◌, refl, ap, ◌∙◌, ◌⊎◌, inl, inr, All, Bool-cases, ==→eq, and-true, arith,
}
use stask_service.Gate.{is_blank}
use stask_service.Admission.{
  Settings, admitted, Parts, has_code, before_colon, entry_matches, any_matches, host_matches,
  is_http, raw_upstream, resolve_parts, resolve_upstream, rstrip_slash,
}

-- An entry without a port names a host with any port, an entry with a port names that one only.
abbrev pub Names : Text → Text → Type 0
Names item host =
    (host ≡ item) ⊎ ((port : Text) × ((host ≡ item ++ b':' ∷ port) × (has_code b':' item ≡ false)))

-- one of the entries is not blank and names the host
abbrev pub IsNamed : List Text → Text → Type 0
IsNamed [] host = ⊥
IsNamed (entry ∷ entries) host =
    ((lower (strip entry) ≢ []) × Names (lower (strip entry)) host) ⊎ IsNamed entries host

abbrev pub IsListed : List Text → Text → Type 0
IsListed [] host = Unit
IsListed (entry ∷ entries) host = IsNamed (entry ∷ entries) host

-- an address that may get the token of a user
pub record IsSafe (s : Settings) (p : Parts) (base : Text) : Type 0 where
  pub is_web : (p.scheme ≡ codes "http") ⊎ (p.scheme ≡ codes "https")
  pub names_nobody : (p.username ≡ []) × ((p.password ≡ []) × All (λ c. c ≢ b'@') p.netloc)
  pub has_host : p.hostname ≢ []
  pub asks_nothing : (p.query ≡ []) × (p.fragment ≡ [])
  pub is_listed : IsListed s.upstream_allowlist (lower p.netloc)
  pub path : Text
  pub slashes : Text
  pub split : p.path ≡ path ++ slashes
  pub are_slashes : All (λ c. c ≡ b'/') slashes
  pub are_all : (t : Text) → path ≢ t ++ b'/' ∷ []
  pub shape : base ≡ p.scheme ++ codes "://" ++ lower p.netloc ++ path

-- the guards that an address passed
record Passed (s : Settings) (p : Parts) (base : Text) : Type 0 where
  web : is_http p.scheme ≡ true
  user : is_blank p.username ≡ true
  password : is_blank p.password ≡ true
  at_sign : has_code b'@' p.netloc ≡ false
  host : is_blank p.hostname ≡ false
  query : is_blank p.query ≡ true
  fragment : is_blank p.fragment ≡ true
  listed : host_matches s.upstream_allowlist (lower p.netloc) ≡ true
  result : base ≡ p.scheme ++ codes "://" ++ lower p.netloc ++ rstrip_slash p.path

admitted-Passed :
    (s : Settings) (p : Parts) (base : Text) → resolve_parts s p ≡ admitted base → Passed s p base
unfolding resolve_parts
admitted-Passed s p base h = record {
  web = ground (arith, h);
  user = ground (arith, h);
  password = ground (arith, h);
  at_sign = ground (arith, h);
  host = ground (arith, h);
  query = ground (arith, h);
  fragment = ground (arith, h);
  listed = ground (arith, h);
  result = ground (arith, h);
}

blank-empty : (s : Text) → is_blank s ≡ true → s ≡ []
blank-empty [] h = refl
blank-empty (c ∷ s) h = cc

full-nonempty : (s : Text) → is_blank s ≡ false → s ≢ []
full-nonempty [] h e = cc
full-nonempty (c ∷ s) h e = cc

is_http-scheme : (s : Text) → is_http s ≡ true → (s ≡ codes "http") ⊎ (s ≡ codes "https")
is_http-scheme s h = elim (Bool-cases (text_eq s (codes "http"))) [
  | inl e ↦ inl ((text_eq_iff s (codes "http")).0 e)
  | inr e ↦ inr ((text_eq_iff s (codes "https")).0 (ground (arith, h, e)))
]

has_code-absent : (k : ℕ) (s : Text) → has_code k s ≡ false → All (λ c. c ≢ k) s
unfolding has_code
has_code-absent k [] h = tt
has_code-absent k (c ∷ s) h = ((λ e. ground (arith, h, e)), has_code-absent k s (ground (arith, h)))

-- a host is what stands before its first colon, or that with a port
before_colon-split :
    (host : Text)
    → (host ≡ before_colon host) ⊎ ((port : Text) × (host ≡ before_colon host ++ b':' ∷ port))
unfolding before_colon
before_colon-split [] = inl refl
before_colon-split (c ∷ s) = elim (Bool-cases (c == b':')) [
  | inl e ↦ rw e (inr (s, ap (λ d. d ∷ s) (==→eq c b':' e)))
  | inr e ↦ rw e (elim (before_colon-split s) [
    | inl same ↦ inl (ap (λ t. c ∷ t) same)
    | inr (port, same) ↦ inr (port, ap (λ t. c ∷ t) same)
  ])
]

before_colon-Names :
    (host item : Text) → has_code b':' item ≡ false → before_colon host ≡ item → Names item host
before_colon-Names host item h e = elim (before_colon-split host) [
  | inl same ↦ inl (same ∙ e)
  | inr (port, same) ↦ inr (port, (same ∙ ap (λ t. t ++ b':' ∷ port) e, h))
]

entry_matches-Names :
    (host item : Text) → entry_matches host item ≡ true → (item ≢ []) × Names item host
unfolding entry_matches
entry_matches-Names host [] h = cc
entry_matches-Names host (c ∷ item) h = (
  (λ e. cc),
  elim (Bool-cases (has_code b':' (c ∷ item))) [
    | inl e ↦ inl ((text_eq_iff host (c ∷ item)).0 (ground (arith, h, e)))
    | inr e ↦
        before_colon-Names host (c ∷ item) e
          ((text_eq_iff (before_colon host) (c ∷ item)).0 (ground (arith, h, e)))
  ],
)

any_matches-IsNamed :
    (entries : List Text) (host : Text) → any_matches entries host ≡ true → IsNamed entries host
unfolding any_matches
any_matches-IsNamed [] host h = cc
any_matches-IsNamed (entry ∷ entries) host h =
    elim (Bool-cases (entry_matches host (lower (strip entry)))) [
      | inl e ↦ inl (entry_matches-Names host (lower (strip entry)) e)
      | inr e ↦ inr (any_matches-IsNamed entries host (ground (arith, h, e)))
    ]

host_matches-IsListed :
    (entries : List Text) (host : Text) → host_matches entries host ≡ true → IsListed entries host
unfolding host_matches
host_matches-IsListed [] host h = tt
host_matches-IsListed (entry ∷ entries) host h = any_matches-IsNamed (entry ∷ entries) host h

-- what `rstrip_slash` takes away
stripped : (s : Text) → (t : Text) × ((s ≡ rstrip_slash s ++ t) × All (λ c. c ≡ b'/') t)
unfolding rstrip_slash
stripped [] = ([], (refl, tt))
stripped (c ∷ s) =
    let (t, (split, slashes)) = stripped s in
    elim (Bool-cases (is_blank (rstrip_slash s) && (c == b'/'))) [
      | inl e ↦
          let (blank, slash) = and-true (is_blank (rstrip_slash s)) (c == b'/') e in
          rw e (
            c ∷ t,
            (
              ap (λ u. c ∷ u) (split ∙ ap (λ u. u ++ t) (blank-empty (rstrip_slash s) blank)),
              (==→eq c b'/' slash, slashes),
            ),
          )
      | inr e ↦ rw e (t, (ap (λ u. c ∷ u) split, slashes))
    ]

empty-end : (t : Text) → [] ≢ t ++ b'/' ∷ []
empty-end [] e = cc
empty-end (c ∷ t) e = cc

slash_only : (s : Text) (c : ℕ) → s ≡ [] → c ≡ b'/' → is_blank s && (c == b'/') ≡ true
slash_only s c blank slash = rw (blank, slash) refl

kept_end :
    (s : Text) (c : ℕ) (t : Text)
    → is_blank s && (c == b'/') ≡ false
    → ((t : Text) → s ≢ t ++ b'/' ∷ [])
    → c ∷ s ≢ t ++ b'/' ∷ []
kept_end s c [] kept below h =
    let blank : s ≡ [] = cc in
    let slash : c ≡ b'/' = cc in
    let ends : is_blank s && (c == b'/') ≡ true = slash_only s c blank slash in cc
kept_end s c (d ∷ t) kept below h = let same : s ≡ t ++ b'/' ∷ [] = cc in below t same

-- No slash stands at the end of what is left.
rstrip_slash-end : (s t : Text) → rstrip_slash s ≢ t ++ b'/' ∷ []
unfolding rstrip_slash
rstrip_slash-end [] t = empty-end t
rstrip_slash-end (c ∷ s) t =
    let below = rstrip_slash-end s in
    elim (Bool-cases (is_blank (rstrip_slash s) && (c == b'/'))) [
      | inl e ↦ rw e (empty-end t)
      | inr e ↦ rw e (kept_end (rstrip_slash s) c t e below)
    ]

-- An address that is accepted has the scheme `http` or `https`, a host, no user, no password and no
-- `@` in its host, no query and no fragment. Where there is a list of hosts, an entry of it that is
-- not blank is, in lower case, that host with its port, or has no port and is that host before its
-- port. The result is that scheme and host in lower case with the path, less the slashes at its
-- end.
pub resolve_upstream-IsSafe :
    (urlsplit : Text → Parts) (s : Settings) (header base : Text)
    → resolve_upstream urlsplit s header ≡ admitted base
    → IsSafe s (urlsplit (raw_upstream s header)) base
unfolding resolve_upstream
resolve_upstream-IsSafe urlsplit s header base h =
    let p = urlsplit (raw_upstream s header) in
    let passed = admitted-Passed s p base h in
    let (slashes, (split, are_slashes)) = stripped p.path in
    record {
      is_web = is_http-scheme p.scheme passed.web;
      names_nobody = (
        blank-empty p.username passed.user,
        (blank-empty p.password passed.password, has_code-absent b'@' p.netloc passed.at_sign),
      );
      has_host = full-nonempty p.hostname passed.host;
      asks_nothing = (blank-empty p.query passed.query, blank-empty p.fragment passed.fragment);
      is_listed = host_matches-IsListed s.upstream_allowlist (lower p.netloc) passed.listed;
      path = rstrip_slash p.path;
      slashes = slashes;
      split = split;
      are_slashes = are_slashes;
      are_all = rstrip_slash-end p.path;
      shape = passed.result;
    }
