-- ===== src/Artifacts/Tidy.antt =====
-- What holds of every list of artifacts that is collected.
use stask_service.Prelude.{
  ℕ, suc, ◌<◌, ◌≤◌, Text, Bool, true, false, not, leb, ◌&&◌, ◌||◌, if◌then◌else◌, length, All, List,
  [], ◌∷◌, ◌++◌, ◌≡◌, ◌≢◌, refl, sym, arith, Bool-cases, inl, inr, length-append,
}
use stask_service.Gate.{is_blank}
use stask_service.Artifacts.{
  Kind, image, video, audio, file, kind_eq, Artifact, Collector, max_artifacts, mime_kind_default,
  mime_from_url, or_text, key_of, fingerprint, count, noted, add, among,
}
use stask_service.Artifacts.Keys.{key_of-injective}

abbrev pub HasKey : Text → Artifact → Type 0
HasKey key a = a.key ≡ key

-- no two items have one key
abbrev pub AreDistinct : List Artifact → Type 0
AreDistinct [] = Unit
AreDistinct (a ∷ as') = All (λ b. b.key ≢ a.key) as' × AreDistinct as'

-- an item has a URL or bytes, and not both, and a MIME type
abbrev pub is_whole : Artifact → Bool
is_whole a =
    (if is_blank a.url then not (is_blank a.inline_b64) else is_blank a.inline_b64)
    && not (is_blank a.mime_type)

abbrev pub IsWhole : Artifact → Type 0
IsWhole a = is_whole a ≡ true

pub record AreTidy (items : List Artifact) : Type 0 where
  pub distinct : AreDistinct items
  pub few : length items ≤ 32
  pub whole : All IsWhole items

-- no key of a later number is taken
abbrev IsLater : (Kind → ℕ) → Text → Type 0
IsLater counters key = (k : Kind) (m : ℕ) → counters k < m → key ≢ key_of k m

pub record IsTidy (c : Collector) : Type 0 where
  pub later : All (λ a. IsLater c.counters a.key) c.items
  pub tidy : AreTidy c.items

kind_eq_refl : (k : Kind) → kind_eq k k ≡ true
kind_eq_refl image = refl
kind_eq_refl video = refl
kind_eq_refl audio = refl
kind_eq_refl file = refl

count_grows : (kind k : Kind) (counters : Kind → ℕ) → counters k ≤ count kind counters k
count_grows kind k counters = ground arith

All-append {ℓ κ} :
    {A : Type ℓ} (P : A → Type κ) (xs : List A) (x : A) → All P xs → P x → All P (xs ++ x ∷ [])
All-append P [] x h p = (p, tt)
All-append P (y ∷ ys) x h p = (h.0, All-append P ys x h.1 p)

All-weak {ℓ κ} :
    {A : Type ℓ} (P Q : A → Type κ) (xs : List A) → ((x : A) → P x → Q x) → All P xs → All Q xs
All-weak P Q [] f h = tt
All-weak P Q (x ∷ xs) f h = (f x h.0, All-weak P Q xs f h.1)

AreDistinct-append :
    (as' : List Artifact) (b : Artifact)
    → All (λ a. b.key ≢ a.key) as'
    → AreDistinct as'
    → AreDistinct (as' ++ b ∷ [])
AreDistinct-append [] b new h = (tt, tt)
AreDistinct-append (a ∷ as') b new h =
    (All-append (λ x. x.key ≢ a.key) as' b h.0 new.0, AreDistinct-append as' b new.1 h.1)

default_nonempty : (kind : Kind) → is_blank (mime_kind_default kind) ≡ false
default_nonempty image = refl
default_nonempty video = refl
default_nonempty audio = refl
default_nonempty file = refl

nonblank_or : (s t : Text) → is_blank t ≡ false → is_blank (or_text s t) ≡ false
nonblank_or [] t h = h
nonblank_or (c ∷ s) t h = refl

source :
    (url inline_b64 : Text)
    → (is_blank url || is_blank inline_b64) ≡ true
    → is_blank (fingerprint url inline_b64) ≡ false
    → (if is_blank url then not (is_blank inline_b64) else is_blank inline_b64) ≡ true
source [] [] sole full = ground (arith, full)
source [] (c ∷ s) sole full = refl
source (c ∷ s) [] sole full = refl
source (c ∷ s) (d ∷ t) sole full = ground (arith, sole)

few_more :
    (xs : List Artifact) (x : Artifact)
    → leb max_artifacts (length xs) ≡ false
    → length (xs ++ x ∷ []) ≤ 32
few_more xs x h = ground (arith, h, length-append xs (x ∷ []))

new-IsWhole :
    (kind : Kind) (url inline_b64 mime key : Text)
    → (is_blank url || is_blank inline_b64) ≡ true
    → is_blank (fingerprint url inline_b64) ≡ false
    → IsWhole (record {
      key = key;
      type = kind;
      mime_type = or_text mime (or_text (mime_from_url url) (mime_kind_default kind));
      url = url;
      inline_b64 = inline_b64;
    })
new-IsWhole kind url inline_b64 mime key sole full =
    rw
      (
        source url inline_b64 sole full,
        nonblank_or mime _ (nonblank_or (mime_from_url url) _ (default_nonempty kind)),
      )
      refl

-- the key of the new item is new, and stays before the later ones
new-IsLater :
    (kind : Kind) (counters : Kind → ℕ)
    → IsLater (count kind counters) (key_of kind (suc (counters kind)))
new-IsLater kind counters k m lt same =
    let e = key_of-injective kind k (suc (counters kind)) m same in
    ground (arith, e.0, e.1, lt, kind_eq_refl kind)

noted-IsTidy :
    (kind : Kind) (url inline_b64 mime : Text) (c : Collector)
    → leb max_artifacts (length c.items) ≡ false
    → (is_blank url || is_blank inline_b64) ≡ true
    → is_blank (fingerprint url inline_b64) ≡ false
    → IsTidy c
    → IsTidy (noted kind url inline_b64 mime c)
noted-IsTidy kind url inline_b64 mime c room sole full h = record {
  later =
      All-append (λ a. IsLater (count kind c.counters) a.key) c.items _
        (All-weak (λ a. IsLater c.counters a.key) (λ a. IsLater (count kind c.counters) a.key)
          c.items (λ a old k m lt. old k m (omega (arith, lt, count_grows kind k c.counters)))
          h.later)
        (new-IsLater kind c.counters);
  tidy = record {
    distinct =
        AreDistinct-append c.items _
          (All-weak (λ a. IsLater c.counters a.key)
            (λ a. key_of kind (suc (c.counters kind)) ≢ a.key) c.items
            (λ a old same. old kind (suc (c.counters kind)) (omega arith) (sym same)) h.later)
          h.tidy.distinct;
    few = few_more c.items _ room;
    whole =
        All-append IsWhole c.items _ h.tidy.whole
          (new-IsWhole kind url inline_b64 mime (key_of kind (suc (c.counters kind))) sole full);
  };
}

-- Whatever is added.
pub add-IsTidy :
    (kind : Kind) (url inline_b64 mime : Text) (c : Collector)
    → (is_blank url || is_blank inline_b64) ≡ true
    → IsTidy c
    → IsTidy (add kind url inline_b64 mime c)
unfolding add
add-IsTidy kind url inline_b64 mime c sole h =
    elim (Bool-cases (leb max_artifacts (length c.items))) [
      | inl e ↦ rw e h
      | inr room ↦ elim (Bool-cases (is_blank (fingerprint url inline_b64))) [
        | inl e ↦ rw (room, e) h
        | inr full ↦ elim (Bool-cases (among (fingerprint url inline_b64) c.seen)) [
          | inl e ↦ rw (room, full, e) h
          | inr e ↦ rw (room, full, e) (noted-IsTidy kind url inline_b64 mime c room sole full h)
        ]
      ]
    ]
