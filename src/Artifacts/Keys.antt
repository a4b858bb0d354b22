-- ===== src/Artifacts/Keys.antt =====
-- The keys of artifacts tell their kind and their number apart.
use stask_service.Prelude.{
  ℕ, zero, suc, ◌+◌, ◌-◌, ◌*◌, ◌/◌, ◌%◌, ◌<◌, Text, ltb, [], ◌∷◌, ◌++◌, ◌≡◌, refl, sym, ◌∙◌, ap,
  arith, Bool-cases, inl, inr,
}
use stask_service.Execute.Settle.{str_of, digits}
use stask_service.Artifacts.{Kind, image, video, audio, file, key_of}

-- the number that digits are written for
value : ℕ → Text → ℕ
value acc [] = acc
value acc (c ∷ s) = value (acc * 10 + (c - b'0')) s

value-append :
    (acc : ℕ) (s : Text) (c : ℕ) → value acc (s ++ c ∷ []) ≡ value acc s * 10 + (c - b'0')
unfolding value
value-append acc [] c = refl
value-append acc (d ∷ s) c = value-append (acc * 10 + (d - b'0')) s c

value-digits : (fuel n : ℕ) → n < fuel → value 0 (digits fuel n) ≡ n
unfolding value digits
value-digits zero n h = absurd (omega arith)
value-digits (suc fuel) n h = elim (Bool-cases (ltb n 10)) [
  | inl e ↦ rw e (omega arith)
  | inr e ↦
      rw
        (
          e,
          value-append 0 (digits fuel (n / 10)) (b'0' + n % 10),
          value-digits fuel (n / 10) (ground (arith, e)),
        )
        (omega arith)
]

str_of-injective : (n m : ℕ) → str_of n ≡ str_of m → n ≡ m
unfolding str_of
str_of-injective n m h =
    sym (value-digits (suc n) n (omega arith))
    ∙ ap (value 0) h
    ∙ value-digits (suc m) m (omega arith)

same_kind : (k : Kind) (n m : ℕ) → key_of k n ≡ key_of k m → n ≡ m
unfolding key_of
same_kind image n m h = ground (arith, h, str_of-injective n m)
same_kind video n m h = ground (arith, h, str_of-injective n m)
same_kind audio n m h = ground (arith, h, str_of-injective n m)
same_kind file n m h = ground (arith, h, str_of-injective n m)

-- The key of an artifact determines its kind and its number.
pub key_of-injective : (j k : Kind) (n m : ℕ) → key_of j n ≡ key_of k m → (j ≡ k) × (n ≡ m)
unfolding key_of
key_of-injective image image n m h = (refl, same_kind image n m h)
key_of-injective image video n m h = ground (arith, h)
key_of-injective image audio n m h = ground (arith, h)
key_of-injective image file n m h = ground (arith, h)
key_of-injective video image n m h = ground (arith, h)
key_of-injective video video n m h = (refl, same_kind video n m h)
key_of-injective video audio n m h = ground (arith, h)
key_of-injective video file n m h = ground (arith, h)
key_of-injective audio image n m h = ground (arith, h)
key_of-injective audio video n m h = ground (arith, h)
key_of-injective audio audio n m h = (refl, same_kind audio n m h)
key_of-injective audio file n m h = ground (arith, h)
key_of-injective file image n m h = ground (arith, h)
key_of-injective file video n m h = ground (arith, h)
key_of-injective file audio n m h = ground (arith, h)
key_of-injective file file n m h = (refl, same_kind file n m h)
