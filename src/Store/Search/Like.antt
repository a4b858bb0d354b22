-- ===== src/Store/Search/Like.antt =====
-- A search by the beginning of an id.
use stask_service.Prelude.{
  ℕ, Text, true, false, ◌&&◌, ◌==◌, ==→eq, [], ◌∷◌, ◌++◌, ◌≡◌, refl, Bool-cases, inl, inr, ap, ◌∙◌,
  ◌⊎◌,
}
use stask_service.Gate.{is_blank}
use stask_service.Policy.Resolve.{starts_with}
use stask_service.Store.Search.{
  backslash, escape_code, escape_like_prefix, equals, on_suffix, on_head, like,
}

-- a character that LIKE does not read as itself
abbrev IsSpecial : ℕ → Type 0
IsSpecial c = (c ≡ b'%') ⊎ ((c ≡ b'_') ⊎ (c ≡ backslash))

abbrev IsPlain : ℕ → Type 0
IsPlain c = (c == b'%' ≡ false) × ((c == b'_' ≡ false) × (c == backslash ≡ false))

code_cases : (c : ℕ) → IsSpecial c ⊎ IsPlain c
code_cases c = elim (Bool-cases (c == b'%')) [
  | inl e ↦ inl (inl (==→eq _ _ e))
  | inr e ↦ elim (Bool-cases (c == b'_')) [
    | inl f ↦ inl (inr (inl (==→eq _ _ f)))
    | inr f ↦ elim (Bool-cases (c == backslash)) [
      | inl g ↦ inl (inr (inr (==→eq _ _ g)))
      | inr g ↦ inr (e, (f, g))
    ]
  ]
]

escaped :
    (c : ℕ) (s : Text)
    → IsSpecial c
    → escape_like_prefix (c ∷ s) ≡ backslash ∷ c ∷ escape_like_prefix s
unfolding escape_like_prefix escape_code
escaped c s (inl e) = rw e refl
escaped c s (inr (inl e)) = rw e refl
escaped c s (inr (inr e)) = rw e refl

kept : (c : ℕ) (s : Text) → IsPlain c → escape_like_prefix (c ∷ s) ≡ c ∷ escape_like_prefix s
unfolding escape_like_prefix escape_code
kept c s (e, (f, g)) = rw g (rw e (rw f refl))

like-special : (c : ℕ) (p s : Text) → like (backslash ∷ c ∷ p) s ≡ on_head (equals c) (like p) s
unfolding like
like-special c p s = refl

like-plain : (c : ℕ) (p s : Text) → IsPlain c → like (c ∷ p) s ≡ on_head (equals c) (like p) s
unfolding like
like-plain c [] s (e, (f, g)) = rw e (rw f refl)
like-plain c (d ∷ p) s (e, (f, g)) = rw e (rw f (rw g refl))

on_suffix-blank : (s : Text) → on_suffix is_blank s ≡ true
unfolding on_suffix
on_suffix-blank [] = refl
on_suffix-blank (c ∷ s) = on_suffix-blank s

on_head-starts_with :
    (c : ℕ) (p q s : Text)
    → ((t : Text) → like q t ≡ starts_with t p)
    → on_head (equals c) (like q) s ≡ starts_with s (c ∷ p)
unfolding on_head starts_with
on_head-starts_with c p q [] h = refl
on_head-starts_with c p q (d ∷ s) h = ap (λ b. d == c && b) (h s)

-- The escaping is right: a LIKE with an escaped prefix and a percent sign behind it finds exactly
-- the texts that start with the prefix, whatever characters the prefix has.
pub like-escape_like_prefix :
    (p s : Text) → like (escape_like_prefix p ++ b'%' ∷ []) s ≡ starts_with s p
unfolding like escape_like_prefix escape_code starts_with
like-escape_like_prefix [] s = on_suffix-blank s
like-escape_like_prefix (c ∷ p) s = elim (code_cases c) [
  | inl h ↦ rw (escaped c p h) (
      like-special c (escape_like_prefix p ++ b'%' ∷ []) s
      ∙ on_head-starts_with c p (escape_like_prefix p ++ b'%' ∷ []) s (like-escape_like_prefix p))
  | inr h ↦ rw (kept c p h) (
      like-plain c (escape_like_prefix p ++ b'%' ∷ []) s h
      ∙ on_head-starts_with c p (escape_like_prefix p ++ b'%' ∷ []) s (like-escape_like_prefix p))
]
