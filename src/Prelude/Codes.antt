-- ===== src/Prelude/Codes.antt =====
-- Texts as lists of code points. The service's own texts (header values, model names, hashes) are
-- ASCII, and `str.strip` and `str.lower` are written out for that range.
use Prim.Native.Nat.{ℕ, ◌+◌}
use Prim.Native.Char.{code}
use Prim.Native.String.{String}
use mathlib.Core.Path.{◌≡◌, refl}
use mathlib.Core.Logic.{◌↔◌}
use mathlib.Core.Bool.{Bool, true, false, ◌&&◌, ◌||◌}
use mathlib.Core.List.{List, [], ◌∷◌, ◌++◌, map, reverse, reverse-cons, reverse-reverse}
use native.Mathlib.Omega.{arith}
use stask_service.Prelude.Tests.{◌==◌, leb, if◌then◌else◌}

abbrev pub Text : Type 0
Text = List ℕ

abbrev pub codes : String → Text
codes String.[] = []
codes (String.◌∷◌ c s) = code c ∷ codes s

unfoldable pub text_eq : Text → Text → Bool
text_eq [] [] = true
text_eq [] (y ∷ ys) = false
text_eq (x ∷ xs) [] = false
text_eq (x ∷ xs) (y ∷ ys) = x == y && text_eq xs ys

pub text_eq_refl : (a : Text) → text_eq a a ≡ true
unfolding text_eq
text_eq_refl [] = refl
text_eq_refl (x ∷ xs) = ground (arith, text_eq_refl xs)

text_eq→eq : (a b : Text) → text_eq a b ≡ true → a ≡ b
unfolding text_eq
text_eq→eq [] [] h = refl
text_eq→eq [] (y ∷ ys) h = cc
text_eq→eq (x ∷ xs) [] h = cc
text_eq→eq (x ∷ xs) (y ∷ ys) h = ground (arith, text_eq→eq xs ys)

pub text_eq_iff : (a b : Text) → (text_eq a b ≡ true) ↔ (a ≡ b)
text_eq_iff a b = (text_eq→eq a b, λ e. rw e (text_eq_refl b))

pub text_eq_comm : (a b : Text) → text_eq a b ≡ text_eq b a
unfolding text_eq
text_eq_comm [] [] = refl
text_eq_comm [] (y ∷ ys) = refl
text_eq_comm (x ∷ xs) [] = refl
text_eq_comm (x ∷ xs) (y ∷ ys) = ground (arith, text_eq_comm xs ys)

-- the ASCII characters that `str.strip` removes: 9 to 13, 28 to 31 and the space
abbrev pub is_space : ℕ → Bool
is_space c = c == 32 || leb 9 c && leb c 13 || leb 28 c && leb c 31

drop_spaces : Text → Text
drop_spaces [] = []
drop_spaces (c ∷ s) = let rest = drop_spaces s in if is_space c then rest else c ∷ s

unfoldable pub strip : Text → Text
unfolding drop_spaces
strip s = reverse (drop_spaces (reverse (drop_spaces s)))

abbrev pub lower_code : ℕ → ℕ
lower_code c = if leb b'A' c && leb c b'Z' then c + 32 else c

unfoldable pub lower : Text → Text
lower s = map lower_code s

-- no character of the text is a space
abbrev pub no_space : Text → Bool
no_space [] = true
no_space (c ∷ s) = if is_space c then false else no_space s

no_space-append : (s t : Text) → no_space s ≡ true → no_space t ≡ true → no_space (s ++ t) ≡ true
no_space-append [] t h k = k
no_space-append (c ∷ s) t h k = ground (arith, no_space-append s t)

no_space-reverse : (s : Text) → no_space s ≡ true → no_space (reverse s) ≡ true
no_space-reverse [] h = refl
no_space-reverse (c ∷ s) h =
    rw (reverse-cons c s)
      (no_space-append (reverse s) (c ∷ []) (no_space-reverse s (ground arith)) (ground arith))

drop_spaces-fixed : (s : Text) → no_space s ≡ true → drop_spaces s ≡ s
unfolding drop_spaces
drop_spaces-fixed [] h = refl
drop_spaces-fixed (c ∷ s) h = ground arith

-- A text without spaces is its own `strip`.
pub strip-fixed : (s : Text) → no_space s ≡ true → strip s ≡ s
unfolding strip
strip-fixed s h =
    rw (
      drop_spaces-fixed s h,
      drop_spaces-fixed (reverse s) (no_space-reverse s h),
      reverse-reverse s,
    )
