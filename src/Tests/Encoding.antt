-- ===== src/Tests/Encoding.antt =====
-- Base64 and the escapes at concrete inputs.
use audio_tool_api.Prelude.{◌≡◌, refl, [], ◌∷◌, All, IsByte, Bytes, codes, arith}
use audio_tool_api.Base64.{base64_encode, base64_decode}
use audio_tool_api.Escaping.{url_encode}
use audio_tool_api.Escaping.Decoding.{percent_decode, percent_decode-url_encode}
use audio_tool_api.Base64.RoundTrip.{base64_decode-base64_encode}

encode_many : base64_encode (codes "Many") ≡ codes "TWFueQ=="
unfolding base64_encode
encode_many = refl

decode_many : base64_decode [] (codes "TWFueQ==") ≡ codes "Many"
unfolding base64_decode
decode_many = refl

abbrev some_bytes : Bytes
some_bytes = 0 ∷ 255 ∷ 16 ∷ 128 ∷ []

some_bytes-IsByte : All IsByte some_bytes
some_bytes-IsByte = (omega arith, (omega arith, (omega arith, (omega arith, tt))))

base64_decode-base64_encode_example :
    base64_decode (7 ∷ 8 ∷ []) (base64_encode some_bytes) ≡ some_bytes
base64_decode-base64_encode_example =
    base64_decode-base64_encode (7 ∷ 8 ∷ []) some_bytes some_bytes-IsByte

url_encode_sign : url_encode (codes "a b/") ≡ codes "a%20b%2F"
unfolding url_encode
url_encode_sign = refl

percent_decode-url_encode_example : percent_decode (url_encode some_bytes) ≡ some_bytes
percent_decode-url_encode_example = percent_decode-url_encode some_bytes some_bytes-IsByte
