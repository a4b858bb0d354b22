-- ===== src/Policy/Validate/Entries.antt =====
-- How many entries a table has that the write side accepts.
use stask_service.Prelude.{
  ℕ, ◌+◌, ◌≤◌, Text, text_eq, ltb, Option, none, some, length, [], ◌∷◌, ◌≡◌, arith, subst, strip,
  Bool-cases, inl, inr,
}
use stask_service.Policy.{
  Json, null, text, object, Fields, end, field, max_entries, Entry, Table, valid, fail_if,
}
use stask_service.Policy.Validate.{
  is_blank, put_entry, count_fields, validate_node, validate_fields, validate_json, of_loaded,
  validate,
}
use stask_service.Policy.Validate.Soundness.{bind-valid, valid-injective}

pub length-put_entry : (k : Text) (e : Entry) (t : Table) → length (put_entry k e t) ≤ length t + 1
unfolding put_entry
length-put_entry k e [] = omega arith
length-put_entry k e ((j, x) ∷ t) = elim (Bool-cases (text_eq j k)) [
  | inl p ↦ rw p (omega arith)
  | inr p ↦ rw p (omega (arith, length-put_entry k e t))
]

length-validate_fields :
    (ttl : ℕ) (fs : Fields) (out t : Table)
    → validate_fields ttl fs out ≡ valid t
    → length t ≤ length out + count_fields fs
unfolding validate_fields count_fields
length-validate_fields ttl end out t h =
    subst (λ x. length x ≤ length out + 0) (valid-injective h) (omega arith)
length-validate_fields ttl (field key node fs) out t h =
    let (u, hu, h₁) = bind-valid (fail_if (is_blank (strip key))) _ t h in
    let (v, hv, h₂) = bind-valid (fail_if (ltb 128 (length (strip key)))) _ t h₁ in
    let (e, he, h₃) = bind-valid (validate_node ttl node) _ t h₂ in
    omega (
      arith,
      length-put_entry (strip key) e out,
      length-validate_fields ttl fs (put_entry (strip key) e out) t h₃,
    )

few : (n : ℕ) (u : Unit {0}) → fail_if (ltb max_entries n) ≡ valid u → n ≤ max_entries
few n u h = ground (arith, h)

length-validate_json :
    (ttl : ℕ) (v : Json) (t : Table) → validate_json ttl v ≡ valid t → length t ≤ max_entries
unfolding validate_json
length-validate_json ttl (object fs) t h =
    let (u, hu, h₁) = bind-valid (fail_if (ltb max_entries (count_fields fs))) _ t h in
    omega (arith, few (count_fields fs) u hu, length-validate_fields ttl fs [] t h₁)
length-validate_json ttl null t h = cc
length-validate_json ttl _ t h = cc

no_entries : (t : Table) → [] ≡ t → length t ≤ max_entries
no_entries t e = subst (λ x. length x ≤ max_entries) e (omega arith)

-- A table that passes the check has at most so many entries.
pub length-validate :
    (json_loads : Text → Option Json) (ttl : ℕ) (raw : Json) (t : Table)
    → validate json_loads ttl raw ≡ valid t
    → length t ≤ max_entries
unfolding validate
length-validate json_loads ttl null t h = no_entries t (valid-injective h)
length-validate json_loads ttl (text s) t h = loaded s h
  where
    loaded : (s : Text) → validate json_loads ttl (text s) ≡ valid t → length t ≤ max_entries
    loaded [] h = no_entries t (valid-injective h)
    loaded (c ∷ s) h = from (json_loads (c ∷ s)) h
      where
        from : (o : Option Json) → of_loaded ttl o ≡ valid t → length t ≤ max_entries
        from none h = cc
        from (some v) h = length-validate_json ttl v t h
length-validate json_loads ttl (object fs) t h = length-validate_json ttl (object fs) t h
length-validate json_loads ttl _ t h = cc
