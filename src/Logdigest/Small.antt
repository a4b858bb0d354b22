-- ===== src/Logdigest/Small.antt =====
-- The size of a value that goes into a log.
use stask_service.Prelude.{
  ℕ, zero, suc, ◌+◌, ◌≤◌, Text, Bool, true, false, leb, ltb, ◌&&◌, if◌then◌else◌, Option, none,
  some, ◌≡◌, refl, arith, Bool-cases, length, inl, inr, le→leb,
}
use stask_service.Policy.{
  Json, Items, Fields, null, real, boolean, number, text, array, object, nil, cons, end, field,
}
use stask_service.Gate.{is_blank}
use stask_service.Logdigest.{
  log_list_limit, log_parse_limit, count, cut, shrink, shrink_items, shrink_fields, fields_of,
  of_loaded, parsed_json,
}

-- At most so many levels of arrays and objects, and no array of more than 21 items.
unfoldable mutual
  pub fits : Json → ℕ → Bool
  fits (array vs) zero = false
  fits (array vs) (suc n) = leb (count vs) (suc log_list_limit) && all_fit vs n
  fits (object fs) zero = false
  fits (object fs) (suc n) = fields_fit fs n
  fits _ n = true

  pub all_fit : Items → ℕ → Bool
  all_fit nil n = true
  all_fit (cons v vs) n = fits v n && all_fit vs n

  pub fields_fit : Fields → ℕ → Bool
  fields_fit end n = true
  fields_fit (field key v fs) n = fits v n && fields_fit fs n

count-shrink_items : (vs : Items) (left depth : ℕ) → count (shrink_items vs left depth) ≤ suc left
unfolding count shrink_items
count-shrink_items nil left depth = omega arith
count-shrink_items (cons v vs) zero depth = omega arith
count-shrink_items (cons v vs) (suc left) depth = omega (arith, count-shrink_items vs left depth)

-- what is cut fits everywhere
fits-cut :
    (depth n : ℕ) (v : Json) → (leb 4 depth ≡ false → fits v n ≡ true) → fits (cut depth v) n ≡ true
unfolding fits
fits-cut depth n v h = elim (Bool-cases (leb 4 depth)) [ inl e ↦ rw e refl | inr e ↦ rw e (h e) ]

-- a level that is not cut is one of the first four
level : (depth n : ℕ) → 4 ≤ depth + suc n → 4 ≤ depth + 1 + n
level depth n h = omega (arith, h)

too_deep : (depth : ℕ) → 4 ≤ depth + 0 → leb 4 depth ≡ false → false ≡ true
too_deep depth h e = ground (arith, h, e)

fits_array :
    (vs : Items) (n : ℕ)
    → count vs ≤ suc log_list_limit
    → all_fit vs n ≡ true
    → fits (array vs) (suc n) ≡ true
unfolding fits
fits_array vs n few h = rw (le→leb _ _ few) h

mutual
  unfolding shrink fits

  shrink-fits : (v : Json) (depth n : ℕ) → 4 ≤ depth + n → fits (shrink v depth) n ≡ true
  shrink-fits null depth n h = fits-cut depth n null (λ _. refl)
  shrink-fits real depth n h = fits-cut depth n real (λ _. refl)
  shrink-fits (boolean b) depth n h = fits-cut depth n (boolean b) (λ _. refl)
  shrink-fits (number z) depth n h = fits-cut depth n (number z) (λ _. refl)
  shrink-fits (text s) depth n h = fits-cut depth n _ (λ _. refl)
  shrink-fits (array vs) depth zero h = fits-cut depth zero _ (too_deep depth h)
  shrink-fits (array vs) depth (suc n) h = fits-cut depth (suc n) _ (λ _.
      fits_array _ n (count-shrink_items vs log_list_limit (depth + 1))
        (shrink_items-fit vs log_list_limit (depth + 1) n (level depth n h)))
  shrink-fits (object fs) depth zero h = fits-cut depth zero _ (too_deep depth h)
  shrink-fits (object fs) depth (suc n) h =
      fits-cut depth (suc n) _ (λ _. shrink_fields-fit fs (depth + 1) n (level depth n h))

  shrink_items-fit :
      (vs : Items) (left depth n : ℕ)
      → 4 ≤ depth + n
      → all_fit (shrink_items vs left depth) n ≡ true
  shrink_items-fit nil left depth n h = refl
  shrink_items-fit (cons v vs) zero depth n h = refl
  shrink_items-fit (cons v vs) (suc left) depth n h =
      rw (shrink-fits v depth n h) (shrink_items-fit vs left depth n h)

  shrink_fields-fit :
      (fs : Fields) (depth n : ℕ) → 4 ≤ depth + n → fields_fit (shrink_fields fs depth) n ≡ true
  shrink_fields-fit end depth n h = refl
  shrink_fields-fit (field key v fs) depth n h =
      rw (shrink-fits v depth n h) (shrink_fields-fit fs depth n h)

fields_of-fits :
    (v : Json) (fs : Fields) → fits v 4 ≡ true → fields_of v ≡ some fs → fits (object fs) 4 ≡ true
unfolding fields_of
fields_of-fits (object gs) fs h e = cc
fields_of-fits (array vs) fs h e = cc
fields_of-fits (text s) fs h e = cc
fields_of-fits (number z) fs h e = cc
fields_of-fits (boolean b) fs h e = cc
fields_of-fits null fs h e = cc
fields_of-fits real fs h e = cc

of_loaded-fits : (v : Option Json) (fs : Fields) → of_loaded v ≡ some fs → fits (object fs) 4 ≡ true
unfolding of_loaded
of_loaded-fits none fs e = cc
of_loaded-fits (some (object gs)) fs e =
    fields_of-fits (shrink (object gs) 0) fs (shrink-fits (object gs) 0 4 (omega arith)) e
of_loaded-fits (some (array vs)) fs e = cc
of_loaded-fits (some (text s)) fs e = cc
of_loaded-fits (some (number z)) fs e = cc
of_loaded-fits (some (boolean b)) fs e = cc
of_loaded-fits (some null) fs e = cc
of_loaded-fits (some real) fs e = cc

when_passed :
    (b c : Bool) (o : Option Fields) (fs : Fields)
    → (if b then none else (if c then none else o)) ≡ some fs
    → o ≡ some fs
when_passed true c o fs e = cc
when_passed false true o fs e = cc
when_passed false false o fs e = e

-- What is logged of a body as fields is nested at most four levels deep, and no array in it has
-- more than 21 items, whatever the body holds.
pub parsed_json-fits :
    (loads : Text → Option Json) (raw : Text) (fs : Fields)
    → parsed_json loads raw ≡ some fs
    → fits (object fs) 4 ≡ true
unfolding parsed_json
parsed_json-fits loads raw fs e =
    of_loaded-fits (loads raw) fs
      (when_passed (is_blank raw) (ltb log_parse_limit (length raw)) (of_loaded (loads raw)) fs e)
