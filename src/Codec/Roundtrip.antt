-- ===== src/Codec/Roundtrip.antt =====
-- A stored body reads back as it was.
use stask_service.Prelude.{
  ℕ, Text, text_eq, false, leb, length, some, ◌≡◌, ◌≢◌, refl, sym, ◌∙◌, [], ◌∷◌, Bool-cases,
  Option-cases, inl, inr,
}
use stask_service.Gate.{is_blank}
use stask_service.Codec.{Coders, AreCoders, plain, gzip_b64_mark, encode, decode}

pub not_blank : (s : Text) → s ≢ [] → is_blank s ≡ false
not_blank [] h = elim (h refl) [ ]
not_blank (x ∷ s) h = refl

module _ (c : Coders) (laws : AreCoders c) where
  gzip-decode : (raw : Text) → decode c (c.gzip_b64 raw) gzip_b64_mark ≡ some raw
  unfolding decode text_eq
  gzip-decode raw = laws.gzip raw

  plain-decode : (raw s : Text) → c.decode_utf8 raw ≡ some s → decode c s plain ≡ some raw
  unfolding decode text_eq
  plain-decode raw s h = rw (laws.utf8 raw s h) refl

  -- Whatever the threshold, a body that was stored reads back byte for byte.
  pub decode-encode :
      (raw : Text) (plain_max_bytes : ℕ)
      → decode c (encode c raw plain_max_bytes).0 (encode c raw plain_max_bytes).1 ≡ some raw
  unfolding encode
  decode-encode raw n = elim (Bool-cases (leb (length raw) n)) [
    | inl e ↦ elim (Option-cases (c.decode_utf8 raw)) [
      | inl u ↦ rw (e, u) (gzip-decode raw)
      | inr (s, u) ↦ rw (e, u) (plain-decode raw s u)
    ]
    | inr e ↦ rw e (gzip-decode raw)
  ]

  plain-nonempty : (raw s : Text) → c.decode_utf8 raw ≡ some s → raw ≢ [] → is_blank s ≡ false
  plain-nonempty raw [] h full = elim (full (sym (laws.utf8 raw [] h) ∙ laws.utf8_empty)) [ ]
  plain-nonempty raw (x ∷ s) h full = refl

  -- no body that has bytes is stored as the empty text
  pub encode-nonempty :
      (raw : Text) (plain_max_bytes : ℕ)
      → raw ≢ []
      → is_blank (encode c raw plain_max_bytes).0 ≡ false
  unfolding encode
  encode-nonempty raw n full = elim (Bool-cases (leb (length raw) n)) [
    | inl e ↦ elim (Option-cases (c.decode_utf8 raw)) [
      | inl u ↦ rw (e, u) (not_blank (c.gzip_b64 raw) (laws.gzip_nonempty raw))
      | inr (s, u) ↦ rw (e, u) (plain-nonempty raw s u full)
    ]
    | inr e ↦ rw e (not_blank (c.gzip_b64 raw) (laws.gzip_nonempty raw))
  ]
