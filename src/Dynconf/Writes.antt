-- ===== src/Dynconf/Writes.antt =====
-- app/services/dynconf.py: what a hash holds after several values were put into it.
use stask_service.Prelude.{
  Text, text_eq, text_eq_iff, text_eq_comm, Bool, true, false, if◌then◌else◌, Option, none, some,
  List, [], ◌∷◌, ◌≡◌, refl, Bool-cases, inl, inr, ap, sym, subst, ◌∙◌, text_eq_comm,
}
use stask_service.Dynconf.{find, put, put_all}

-- the first value that is there, or else the second
abbrev pub first {ℓ} : {A : Type ℓ} → Option A → Option A → Option A
first none o = o
first (some a) o = some a

module _ {ℓ} {A : Type ℓ} where
  pub put-find :
      (key : Text) (a : A) (j : Text) (xs : List (Text × A))
      → find j (put key a xs) ≡ (if text_eq key j then some a else find j xs)
  unfolding put find
  put-find key a j [] = refl
  put-find key a j ((k, b) ∷ xs) = elim (Bool-cases (text_eq k key)) [
    | inl e ↦
        let same : k ≡ key = (text_eq_iff k key).0 e in
        rw e (rw same (chosen (text_eq key j) (find j xs)))
    | inr e ↦ rw e (elim (Bool-cases (text_eq k j)) [
      | inl f ↦
          let other : text_eq key j ≡ false =
            ap (λ x. text_eq key x) (sym ((text_eq_iff k j).0 f)) ∙ (text_eq_comm key k ∙ e) in
          rw (f, other) refl
      | inr f ↦ rw f (put-find key a j xs)
    ])
  ]
    where
      chosen :
          (c : Bool) (o : Option A)
          → (if c then some a else o) ≡ (if c then some a else (if c then some b else o))
      chosen true o = refl
      chosen false o = refl

  -- no key stands twice
  abbrev pub AreDistinct : List (Text × A) → Type ℓ
  AreDistinct [] = Unit
  AreDistinct ((k, a) ∷ xs) = (find k xs ≡ none) × AreDistinct xs

  pub put-AreDistinct :
      (key : Text) (a : A) (xs : List (Text × A)) → AreDistinct xs → AreDistinct (put key a xs)
  unfolding put find
  put-AreDistinct key a [] h = (refl, tt)
  put-AreDistinct key a ((k, b) ∷ xs) h = elim (Bool-cases (text_eq k key)) [
    | inl e ↦ rw e (h.0, h.1)
    | inr e ↦
        rw e (put-find key a k xs ∙ rw (text_eq_comm key k, e) h.0, put-AreDistinct key a xs h.1)
  ]

pub put_all-find :
    (p hash : List (Text × Text)) (j : Text)
    → AreDistinct p
    → find j (put_all p hash) ≡ first (find j p) (find j hash)
unfolding put_all find
put_all-find [] hash j h = refl
put_all-find ((k, t) ∷ p) hash j h = elim (Bool-cases (text_eq k j)) [
  | inl e ↦
      let absent : find j p ≡ none = subst (λ x. find x p ≡ none) ((text_eq_iff k j).0 e) h.0 in
      put_all-find p (put k t hash) j h.1 ∙ rw (e, absent, put-find k t j hash, e) refl
  | inr e ↦ put_all-find p (put k t hash) j h.1 ∙ rw (e, put-find k t j hash, e) refl
]
