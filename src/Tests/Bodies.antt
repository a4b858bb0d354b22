-- ===== src/Tests/Bodies.antt =====
-- Stored bodies with coders that mark a packed body by one byte in front.
use stask_service.Prelude.{Text, codes, Option, none, some, [], ◌∷◌, ◌≡◌, refl, arith}
use stask_service.Codec.{Coders, AreCoders, encode, decode}
use stask_service.Codec.Roundtrip.{decode-encode}

abbrev unpack : Text → Option Text
unpack [] = none
unpack (c ∷ s) = some s

abbrev pub some_coders : Coders
some_coders = record {
  decode_utf8 = some;
  encode_utf8 = λ s. s;
  gzip_b64 = λ raw. 1 ∷ raw;
  gunzip_b64 = unpack;
}

some_utf8 : (raw s : Text) → (◌≡◌ {A = Option Text} (some raw) (some s)) → s ≡ raw
some_utf8 raw s h = ground (arith, h)

some_coders-AreCoders : AreCoders some_coders
some_coders-AreCoders = record {
  utf8 = some_utf8;
  utf8_empty = refl;
  gzip_nonempty = λ raw h. ground (arith, h);
  gzip = λ raw. refl;
}

decode-encode_example :
    decode some_coders (encode some_coders (codes "abc") 2).0 (encode some_coders (codes "abc") 2).1
    ≡ some (codes "abc")
decode-encode_example = decode-encode some_coders some_coders-AreCoders (codes "abc") 2

abbrev no_object : Text → Text → Option Text
no_object raw s = none
