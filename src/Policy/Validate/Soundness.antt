-- ===== src/Policy/Validate/Soundness.antt =====
-- What a table that the write side accepts promises to every task that it governs.
use stask_service.Prelude.{
  codes, sym, subst, ℕ, ◌+◌, ◌≤◌, ◌<◌, Text, text_eq, ltb, Option, none, some, [], ◌∷◌, ◌≡◌, refl,
  inl, inr, arith, Bool-cases, strip, All, length,
}
use stask_service.Prelude.Int.{ℤ, pos, negsuc}
use stask_service.Prelude.Decimal.{int_of_text}
use stask_service.Policy.{
  Json, null, number, text, object, Fields, end, field, max_batch, max_batch_wait, max_limit,
  max_entries, tokenceiling_margin, Entry, Table, Checked, valid, invalid, ◌>>=◌, fail_if, or_zero,
}
use stask_service.Policy.Validate.{
  find_field, in_range, range_of_text, check_field, declared, has_unknown, check_entry, parse_entry,
  validate_node, is_blank, put_entry, validate_fields, validate_json, of_loaded, validate, parse,
  count_fields,
}

-- An entry keeps its ranges, and the fields fit together; `ttl` is the life of a token session.
pub record IsSound (ttl : ℕ) (e : Entry) : Type 0 where
  pub batch_bound : or_zero e.batch ≤ max_batch
  pub wait_bound : or_zero e.batch_wait ≤ max_batch_wait
  pub token_bound : (n : ℕ) → e.limit_per_token ≡ some n → n ≤ max_limit
  pub model_token_bound : or_zero e.limit_model_token ≤ max_limit
  pub global_bound : or_zero e.limit_global ≤ max_limit
  pub reject_bound : or_zero e.reject_when_full ≤ 1
  pub waits : 2 ≤ or_zero e.batch → 0 < or_zero e.batch_wait
  pub fits : 0 < or_zero e.batch_wait → or_zero e.batch_wait + tokenceiling_margin ≤ ttl
  pub rejects :
      0 < or_zero e.reject_when_full
      → (or_zero e.batch < 2) × (0 < or_zero e.limit_model_token + or_zero e.limit_global)

abbrev pub Within : ℕ → Option ℕ → Type 0
Within high o = (n : ℕ) → o ≡ some n → n ≤ high

in_range-Within :
    (low high : ℕ) (z : ℤ) (o : Option ℕ) → in_range low high z ≡ valid o → Within high o
unfolding in_range
in_range-Within low high (pos k) o h n e = ground arith
in_range-Within low high (negsuc k) o h n e = cc

range_of_text-Within :
    (low high : ℕ) (z : Option ℤ) (o : Option ℕ)
    → range_of_text low high z ≡ valid o
    → Within high o
unfolding range_of_text
range_of_text-Within low high none o h n e = cc
range_of_text-Within low high (some z) o h n e = in_range-Within low high z o h n e

check_field-Within :
    (low high : ℕ) (v : Option Json) (o : Option ℕ)
    → check_field low high v ≡ valid o
    → Within high o
unfolding check_field
check_field-Within low high none o h n e = ground arith
check_field-Within low high (some (number z)) o h n e = in_range-Within low high z o h n e
check_field-Within low high (some (text s)) o h n e =
    range_of_text-Within low high (int_of_text s) o h n e
check_field-Within low high (some null) o h n e = cc
check_field-Within low high (some _) o h n e = cc

declared-Within :
    (low high : ℕ) (key : Text) (node : Fields) (o : Option ℕ)
    → declared low high key node ≡ valid o
    → Within high o
unfolding declared
declared-Within low high key node o h = check_field-Within low high (find_field key node) o h

-- the ranges alone
pub record IsBounded (e : Entry) : Type 0 where
  pub batch : Within max_batch e.batch
  pub batch_wait : Within max_batch_wait e.batch_wait
  pub limit_per_token : Within max_limit e.limit_per_token
  pub limit_model_token : Within max_limit e.limit_model_token
  pub limit_global : Within max_limit e.limit_global
  pub reject_when_full : Within 1 e.reject_when_full

pub valid-injective {ℓ} : {A : Type ℓ} {a b : A} → valid a ≡ valid b → a ≡ b
valid-injective h = cc

pub bind-valid {ℓ κ} :
    {A : Type ℓ} {B : Type κ} (m : Checked A) (f : A → Checked B) (b : B)
    → (m >>= f) ≡ valid b
    → (a : A) × (m ≡ valid a) × (f a ≡ valid b)
bind-valid (valid a) f b h = (a, refl, h)
bind-valid invalid f b h = cc

parse_entry-IsBounded : (node : Fields) (e : Entry) → parse_entry node ≡ valid e → IsBounded e
unfolding parse_entry
parse_entry-IsBounded node e h =
    let (a, ha, h₁) = bind-valid (declared 0 max_batch (codes "batch") node) _ e h in
    let (b, hb, h₂) = bind-valid (declared 1 max_batch_wait (codes "batch_wait") node) _ e h₁ in
    let (c, hc, h₃) = bind-valid (declared 0 max_limit (codes "limit_per_token") node) _ e h₂ in
    let (d, hd, h₄) = bind-valid (declared 0 max_limit (codes "limit_model_token") node) _ e h₃ in
    let (g, hg, h₅) = bind-valid (declared 0 max_limit (codes "limit_global") node) _ e h₄ in
    let (r, hr, h₆) = bind-valid (declared 0 1 (codes "reject_when_full") node) _ e h₅ in
    subst IsBounded (valid-injective h₆) (record {
      batch = declared-Within 0 max_batch (codes "batch") node a ha;
      batch_wait = declared-Within 1 max_batch_wait (codes "batch_wait") node b hb;
      limit_per_token = declared-Within 0 max_limit (codes "limit_per_token") node c hc;
      limit_model_token = declared-Within 0 max_limit (codes "limit_model_token") node d hd;
      limit_global = declared-Within 0 max_limit (codes "limit_global") node g hg;
      reject_when_full = declared-Within 0 1 (codes "reject_when_full") node r hr;
    })

or_zero-Within : (high : ℕ) (o : Option ℕ) → Within high o → or_zero o ≤ high
or_zero-Within high none w = omega arith
or_zero-Within high (some n) w = w n refl

check_entry-same : (ttl : ℕ) (e x : Entry) → check_entry ttl e ≡ valid x → x ≡ e
unfolding check_entry
check_entry-same ttl e x h = ground arith

check_entry-IsSound :
    (ttl : ℕ) (e : Entry) → IsBounded e → check_entry ttl e ≡ valid e → IsSound ttl e
unfolding check_entry
check_entry-IsSound ttl e b h = record {
  batch_bound = or_zero-Within max_batch e.batch b.batch;
  wait_bound = or_zero-Within max_batch_wait e.batch_wait b.batch_wait;
  token_bound = b.limit_per_token;
  model_token_bound = or_zero-Within max_limit e.limit_model_token b.limit_model_token;
  global_bound = or_zero-Within max_limit e.limit_global b.limit_global;
  reject_bound = or_zero-Within 1 e.reject_when_full b.reject_when_full;
  waits = λ p. ground arith;
  fits = λ p. ground arith;
  rejects = λ p. ground arith;
}

validate_node-IsSound :
    (ttl : ℕ) (v : Json) (e : Entry) → validate_node ttl v ≡ valid e → IsSound ttl e
unfolding validate_node
validate_node-IsSound ttl (object node) e h =
    let (u, hu, h₁) = bind-valid (fail_if (has_unknown node)) _ e h in
    let (x, hx, h₂) = bind-valid (parse_entry node) _ e h₁ in
    let same : e ≡ x = check_entry-same ttl x e h₂ in
    subst (IsSound ttl) (sym same) (
      check_entry-IsSound ttl x (parse_entry-IsBounded node x hx)
        (subst (λ y. check_entry ttl x ≡ valid y) same h₂))
validate_node-IsSound ttl null e h = cc
validate_node-IsSound ttl _ e h = cc

abbrev pub TableIsSound : ℕ → Table → Type 0
TableIsSound ttl t = All (λ p. IsSound ttl p.1) t

pub put_entry-TableIsSound :
    (ttl : ℕ) (k : Text) (e : Entry) (t : Table)
    → IsSound ttl e
    → TableIsSound ttl t
    → TableIsSound ttl (put_entry k e t)
unfolding put_entry
put_entry-TableIsSound ttl k e [] h s = (h, tt)
put_entry-TableIsSound ttl k e ((j, x) ∷ t) h s = elim (Bool-cases (text_eq j k)) [
  | inl p ↦ rw p (h, s.1)
  | inr p ↦ rw p (s.0, put_entry-TableIsSound ttl k e t h s.1)
]

validate_fields-TableIsSound :
    (ttl : ℕ) (fs : Fields) (out t : Table)
    → TableIsSound ttl out
    → validate_fields ttl fs out ≡ valid t
    → TableIsSound ttl t
unfolding validate_fields
validate_fields-TableIsSound ttl end out t s h = subst (TableIsSound ttl) (valid-injective h) s
validate_fields-TableIsSound ttl (field key node fs) out t s h =
    let (u, hu, h₁) = bind-valid (fail_if (is_blank (strip key))) _ t h in
    let (v, hv, h₂) = bind-valid (fail_if (ltb 128 (length (strip key)))) _ t h₁ in
    let (e, he, h₃) = bind-valid (validate_node ttl node) _ t h₂ in
    validate_fields-TableIsSound ttl fs (put_entry (strip key) e out) t
      (put_entry-TableIsSound ttl (strip key) e out (validate_node-IsSound ttl node e he) s) h₃

validate_json-TableIsSound :
    (ttl : ℕ) (v : Json) (t : Table) → validate_json ttl v ≡ valid t → TableIsSound ttl t
unfolding validate_json
validate_json-TableIsSound ttl (object fs) t h =
    let (u, hu, h₁) = bind-valid (fail_if (ltb max_entries (count_fields fs))) _ t h in
    validate_fields-TableIsSound ttl fs [] t tt h₁
validate_json-TableIsSound ttl null t h = cc
validate_json-TableIsSound ttl _ t h = cc

of_loaded-TableIsSound :
    (ttl : ℕ) (o : Option Json) (t : Table) → of_loaded ttl o ≡ valid t → TableIsSound ttl t
unfolding of_loaded
of_loaded-TableIsSound ttl none t h = cc
of_loaded-TableIsSound ttl (some v) t h = validate_json-TableIsSound ttl v t h

validate_text-TableIsSound :
    (json_loads : Text → Option Json) (ttl : ℕ) (s : Text) (t : Table)
    → validate json_loads ttl (text s) ≡ valid t
    → TableIsSound ttl t
unfolding validate
validate_text-TableIsSound json_loads ttl [] t h = subst (TableIsSound ttl) (valid-injective h) tt
validate_text-TableIsSound json_loads ttl (c ∷ s) t h =
    of_loaded-TableIsSound ttl (json_loads (c ∷ s)) t h

-- Every entry of a table that passes the check is sound.
pub validate-TableIsSound :
    (json_loads : Text → Option Json) (ttl : ℕ) (raw : Json) (t : Table)
    → validate json_loads ttl raw ≡ valid t
    → TableIsSound ttl t
unfolding validate
validate-TableIsSound json_loads ttl null t h = subst (TableIsSound ttl) (valid-injective h) tt
validate-TableIsSound json_loads ttl (text s) t h = validate_text-TableIsSound json_loads ttl s t h
validate-TableIsSound json_loads ttl (object fs) t h =
    validate_json-TableIsSound ttl (object fs) t h
validate-TableIsSound json_loads ttl _ t h = cc

-- and so is what the read side makes of any stored value
pub parse-TableIsSound :
    (json_loads : Text → Option Json) (ttl : ℕ) (raw : Json)
    → TableIsSound ttl (parse json_loads ttl raw)
unfolding parse
parse-TableIsSound json_loads ttl raw = read (validate json_loads ttl raw) refl
  where
    read :
        (c : Checked Table)
        → validate json_loads ttl raw ≡ c
        → TableIsSound ttl (elim c [ valid t ↦ t | invalid ↦ [] ])
    read (valid t) e = validate-TableIsSound json_loads ttl raw t e
    read invalid e = tt
