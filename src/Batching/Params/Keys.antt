-- ===== src/Batching/Params/Keys.antt =====
-- What the cleaning leaves of a key, and the range of the numbers of a client.
use stask_service.Prelude.{
  is_space, no_space, strip-fixed, ◌≢◌, subst, and-true, ℕ, zero, suc, ◌≤◌, Text, strip, true,
  false, length, length-take, take, map, all, Option, none, some, [], ◌∷◌, ◌≡◌, refl, ap, arith,
}
use stask_service.Prelude.Int.{ℤ, pos, negsuc}
use stask_service.Prelude.Decimal.{int_of_text}
use stask_service.Policy.{max_batch}
use stask_service.Batching.Params.{
  Header, Code, size_header, wait_header, invalid_batch_size, batch_wait_too_long, Parsed, parsed,
  rejected, Overrides, positive, parse_positive_int, at_most, limited, is_safe, make_safe,
  max_key_len, sanitize_key, key_of, with_size, parse_overrides, not_blank,
}

parsed-injective : {A : Type 0} {a b : A} → parsed a ≡ parsed b → a ≡ b
parsed-injective h = cc

length-map : (f : ℕ → ℕ) (s : Text) → length (map f s) ≡ length s
length-map f [] = refl
length-map f (c ∷ s) = ap suc (length-map f s)

make_safe-safe : (c : ℕ) → is_safe (make_safe c) ≡ true
make_safe-safe c = ground arith

map-safe : (s : Text) → all is_safe (map make_safe s) ≡ true
map-safe [] = refl
map-safe (c ∷ s) = ground (arith, make_safe-safe c, map-safe s)

-- the length and the characters of a clean key, among them the colon
sanitize_key-safe :
    (raw : Text)
    → (length (sanitize_key raw) ≤ max_key_len) × (all is_safe (sanitize_key raw) ≡ true)
unfolding sanitize_key
sanitize_key-safe raw = (
  omega (
    arith,
    length-map make_safe (take max_key_len (strip raw)),
    length-take max_key_len (strip raw),
  ),
  map-safe (take max_key_len (strip raw)),
)

safe-no_space : (c : ℕ) → is_safe c ≡ true → is_space c ≡ false
safe-no_space c h = ground arith

make_safe-fixed : (c : ℕ) → is_safe c ≡ true → make_safe c ≡ c
make_safe-fixed c h = rw h refl

all_safe-no_space : (s : Text) → all is_safe s ≡ true → no_space s ≡ true
all_safe-no_space [] h = refl
all_safe-no_space (c ∷ s) h =
    let (p, q) = and-true (is_safe c) (all is_safe s) h in
    rw (safe-no_space c p) (all_safe-no_space s q)

map-make_safe-fixed : (s : Text) → all is_safe s ≡ true → map make_safe s ≡ s
map-make_safe-fixed [] h = refl
map-make_safe-fixed (c ∷ s) h =
    let (p, q) = and-true (is_safe c) (all is_safe s) h in
    cc (make_safe-fixed c p, map-make_safe-fixed s q)

take-all : (n : ℕ) (s : Text) → length s ≤ n → take n s ≡ s
take-all zero [] h = refl
take-all zero (c ∷ s) h = absurd (omega arith)
take-all (suc n) [] h = refl
take-all (suc n) (c ∷ s) h = ap (λ t. c ∷ t) (take-all n s (omega arith))

sanitize_key-fixed : (s : Text) → length s ≤ max_key_len → all is_safe s ≡ true → sanitize_key s ≡ s
unfolding sanitize_key
sanitize_key-fixed s short safe =
    rw (strip-fixed s (all_safe-no_space s safe), take-all max_key_len s short)
      (map-make_safe-fixed s safe)

-- what is clean is not changed
sanitize_key-sanitize_key : (raw : Text) → sanitize_key (sanitize_key raw) ≡ sanitize_key raw
sanitize_key-sanitize_key raw =
    let (short, safe) = sanitize_key-safe raw in sanitize_key-fixed (sanitize_key raw) short safe

-- what a client may declare
pub record InRange (max_wait : ℕ) (o : Overrides) : Type 0 where
  pub size : (n : ℕ) → o.size ≡ some n → (1 ≤ n) × (n ≤ max_batch)
  pub wait : (n : ℕ) → o.wait ≡ some n → (1 ≤ n) × (n ≤ max_wait)
  pub key : (k : Text) → o.key ≡ some k → (k ≢ []) × (sanitize_key k ≡ k)

limited-range :
    (top : ℕ) (c : Code) (h : Header) (o : Option Text) (r : Option ℕ)
    → limited top c h o ≡ parsed r
    → (n : ℕ) → r ≡ some n
    → (1 ≤ n) × (n ≤ top)
unfolding limited parse_positive_int
limited-range top c h none r e n k = ground arith
limited-range top c h (some raw) r e n k = range (int_of_text (strip raw)) e
  where
    range : (z : Option ℤ) → at_most top c h (positive h z) ≡ parsed r → (1 ≤ n) × (n ≤ top)
    range none p = cc
    range (some (pos m)) p = ground arith
    range (some (negsuc m)) p = cc

not_blank-some : (s k : Text) → not_blank s ≡ some k → (k ≢ []) × (s ≡ k)
not_blank-some [] k h = cc
not_blank-some (c ∷ s) k h = (λ e. cc, cc)

key_of-range : (o : Option Text) (k : Text) → key_of o ≡ some k → (k ≢ []) × (sanitize_key k ≡ k)
unfolding key_of
key_of-range none k h = cc
key_of-range (some raw) k h =
    let (nonempty, same) = not_blank-some (sanitize_key raw) k h in
    (nonempty, subst (λ s. sanitize_key s ≡ s) same (sanitize_key-sanitize_key raw))

with_size-InRange :
    (max_wait : ℕ) (s w : Parsed (Option ℕ)) (k : Option Text) (o : Overrides)
    → ((r : Option ℕ) → s ≡ parsed r → (n : ℕ) → r ≡ some n → (1 ≤ n) × (n ≤ max_batch))
    → ((r : Option ℕ) → w ≡ parsed r → (n : ℕ) → r ≡ some n → (1 ≤ n) × (n ≤ max_wait))
    → ((j : Text) → k ≡ some j → (j ≢ []) × (sanitize_key j ≡ j))
    → with_size s w k ≡ parsed o
    → InRange max_wait o
unfolding with_size
with_size-InRange max_wait (parsed s) (parsed w) k o hs hw hk h =
    subst (InRange max_wait) (parsed-injective h)
      (record { size = hs s refl; wait = hw w refl; key = hk })
with_size-InRange max_wait (parsed s) (rejected c g) k o hs hw hk h = cc
with_size-InRange max_wait (rejected c g) w k o hs hw hk h = cc

-- What the parser accepts is in range: sizes from 1 to 1000, waits from 1 to the limit, and keys
-- that are not empty and already clean.
pub parse_overrides-InRange :
    (size wait key : Option Text) (max_wait : ℕ) (o : Overrides)
    → parse_overrides size wait key max_wait ≡ parsed o
    → InRange max_wait o
unfolding parse_overrides
parse_overrides-InRange size wait key max_wait o h =
    with_size-InRange max_wait (limited max_batch invalid_batch_size size_header size)
      (limited max_wait batch_wait_too_long wait_header wait) (key_of key) o
      (limited-range max_batch invalid_batch_size size_header size)
      (limited-range max_wait batch_wait_too_long wait_header wait) (key_of-range key) h
