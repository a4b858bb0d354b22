-- ===== src/Codec.antt =====
-- app/services/codec.py: how a body is stored in the JSON column. Bytes are lists of numbers. UTF-8,
-- gzip and base64 are an interface: the functions that the module calls and what it relies on.
pub mod Roundtrip
use stask_service.Prelude.{
  ℕ, Text, text_eq, codes, Bool, true, false, leb, if◌then◌else◌, length, Option, none, some, List,
  [], ◌∷◌, ◌≡◌, ◌≢◌, refl, ◌||◌,
}

-- `decode_utf8` fails on bytes that are not UTF-8; `gzip_b64` is base64 of gzip, and its inverse
-- fails on a text that is corrupted.
pub record Coders : Type 0 where
  pub decode_utf8 : Text → Option Text
  pub encode_utf8 : Text → Text
  pub gzip_b64 : Text → Text
  pub gunzip_b64 : Text → Option Text

-- what the libraries document
pub record AreCoders (c : Coders) : Type 0 where
  pub utf8 : (raw s : Text) → c.decode_utf8 raw ≡ some s → c.encode_utf8 s ≡ raw
  pub utf8_empty : c.encode_utf8 [] ≡ []
  pub gzip_nonempty : (raw : Text) → c.gzip_b64 raw ≢ []
  pub gzip : (raw : Text) → c.gunzip_b64 (c.gzip_b64 raw) ≡ some raw

abbrev pub plain : Text
plain = codes "plain"

abbrev pub gzip_b64_mark : Text
gzip_b64_mark = codes "gzip+b64"

module _ (c : Coders) where
  as_gzip : Text → Text × Text
  as_gzip raw = (c.gzip_b64 raw, gzip_b64_mark)

  as_plain : Option Text → Text → Text × Text
  unfolding as_gzip
  as_plain none raw = as_gzip raw
  as_plain (some s) raw = (s, plain)

  unfoldable pub encode : Text → ℕ → Text × Text
  unfolding as_plain as_gzip
  encode raw plain_max_bytes =
      if leb (length raw) plain_max_bytes then as_plain (c.decode_utf8 raw) raw else as_gzip raw

  -- `none` is a ValueError
  unfoldable pub decode : Text → Text → Option Text
  decode stored encoding =
      if text_eq encoding gzip_b64_mark
      then c.gunzip_b64 stored
      else if text_eq encoding plain || text_eq encoding []
      then some (c.encode_utf8 stored)
      else none
