-- ===== src/Protocol/Hex.antt =====
-- Lower-case hexadecimal of daemon/protocol/pairing.go: `validLowerHex`, `ValidNonceFormat` and
-- `ValidTokenFormat`, and `hex.EncodeToString` of the standard library.
use Prim.Native.Char.{Char, code, len_utf8}
use Prim.Native.String.{len}
use Prim.Native.String.len
use sharing.Base.{
  ℕ, zero, suc, ◌+◌, ◌*◌, ◌/◌, ◌%◌, ◌<◌, String, ◌≡◌, refl, Bool, true, false, ◌&&◌, ◌||◌, List, [],
  ◌∷◌, length, leb, ◌==◌, arith, if◌then◌else◌,
}
use sharing.Protocol.Constants.{nonce_hex_len, token_hex_len}

-- The cases of the loop's `switch`.
abbrev is_lower_hex : ℕ → Bool
is_lower_hex c = leb b'0' c && leb c b'9' || leb b'a' c && leb c b'f'

-- The loop. Each byte of a character above U+007F is at least 0x80, so that the loop over bytes
-- refuses it as this loop over characters does.
unfoldable all_lower_hex : String → Bool
all_lower_hex String.[] = true
all_lower_hex (String.◌∷◌ c s) = is_lower_hex (code c) && all_lower_hex s

-- `validLowerHex`
unfoldable pub valid_lower_hex : String → ℕ → Bool
unfolding all_lower_hex
valid_lower_hex s want = if len s == want then all_lower_hex s else false

unfoldable pub valid_nonce_format : String → Bool
unfolding valid_lower_hex
valid_nonce_format s = valid_lower_hex s nonce_hex_len

unfoldable pub valid_token_format : String → Bool
unfolding valid_lower_hex
valid_token_format s = valid_lower_hex s token_hex_len

-- The table "0123456789abcdef"; the arguments are below 16.
unfoldable pub hex_digit : ℕ → Char
hex_digit zero = "0"
hex_digit (suc zero) = "1"
hex_digit (suc (suc zero)) = "2"
hex_digit (suc (suc (suc zero))) = "3"
hex_digit (suc (suc (suc (suc zero)))) = "4"
hex_digit (suc (suc (suc (suc (suc zero))))) = "5"
hex_digit (suc (suc (suc (suc (suc (suc zero)))))) = "6"
hex_digit (suc (suc (suc (suc (suc (suc (suc zero))))))) = "7"
hex_digit (suc (suc (suc (suc (suc (suc (suc (suc zero)))))))) = "8"
hex_digit (suc (suc (suc (suc (suc (suc (suc (suc (suc zero))))))))) = "9"
hex_digit (suc (suc (suc (suc (suc (suc (suc (suc (suc (suc zero)))))))))) = "a"
hex_digit (suc (suc (suc (suc (suc (suc (suc (suc (suc (suc (suc zero))))))))))) = "b"
hex_digit (suc (suc (suc (suc (suc (suc (suc (suc (suc (suc (suc (suc zero)))))))))))) = "c"
hex_digit (suc (suc (suc (suc (suc (suc (suc (suc (suc (suc (suc (suc (suc zero))))))))))))) = "d"
hex_digit (suc (suc (suc (suc (suc (suc (suc (suc (suc (suc (suc (suc (suc (suc zero)))))))))))))) =
    "e"
hex_digit
      (suc (suc (suc (suc (suc (suc (suc (suc (suc (suc (suc (suc (suc (suc (suc _))))))))))))))) =
    "f"

-- `hex.EncodeToString`
unfoldable pub encode_to_string : List ℕ → String
unfolding hex_digit
encode_to_string [] = String.[]
encode_to_string (b ∷ bytes) =
    String.◌∷◌ (hex_digit (b / 16)) (String.◌∷◌ (hex_digit (b % 16)) (encode_to_string bytes))

IsLowerHex-hex_digit :
    (n : ℕ) → (is_lower_hex (code (hex_digit n)) ≡ true) × (len_utf8 (hex_digit n) ≡ 1)
unfolding hex_digit
IsLowerHex-hex_digit zero = (refl, refl)
IsLowerHex-hex_digit (suc zero) = (refl, refl)
IsLowerHex-hex_digit (suc (suc zero)) = (refl, refl)
IsLowerHex-hex_digit (suc (suc (suc zero))) = (refl, refl)
IsLowerHex-hex_digit (suc (suc (suc (suc zero)))) = (refl, refl)
IsLowerHex-hex_digit (suc (suc (suc (suc (suc zero))))) = (refl, refl)
IsLowerHex-hex_digit (suc (suc (suc (suc (suc (suc zero)))))) = (refl, refl)
IsLowerHex-hex_digit (suc (suc (suc (suc (suc (suc (suc zero))))))) = (refl, refl)
IsLowerHex-hex_digit (suc (suc (suc (suc (suc (suc (suc (suc zero)))))))) = (refl, refl)
IsLowerHex-hex_digit (suc (suc (suc (suc (suc (suc (suc (suc (suc zero))))))))) = (refl, refl)
IsLowerHex-hex_digit (suc (suc (suc (suc (suc (suc (suc (suc (suc (suc zero)))))))))) = (refl, refl)
IsLowerHex-hex_digit (suc (suc (suc (suc (suc (suc (suc (suc (suc (suc (suc zero))))))))))) =
    (refl, refl)
IsLowerHex-hex_digit (suc (suc (suc (suc (suc (suc (suc (suc (suc (suc (suc (suc zero)))))))))))) =
    (refl, refl)
IsLowerHex-hex_digit
      (suc (suc (suc (suc (suc (suc (suc (suc (suc (suc (suc (suc (suc zero))))))))))))) =
    (refl, refl)
IsLowerHex-hex_digit
      (suc (suc (suc (suc (suc (suc (suc (suc (suc (suc (suc (suc (suc (suc zero)))))))))))))) =
    (refl, refl)
IsLowerHex-hex_digit
      (suc (suc (suc (suc (suc (suc (suc (suc (suc (suc (suc (suc (suc (suc (suc _))))))))))))))) =
    (refl, refl)

pub code-hex_digit : (n : ℕ) → n < 10 → (code (hex_digit n) ≡ 48 + n) × (len_utf8 (hex_digit n) ≡ 1)
unfolding hex_digit
code-hex_digit zero h = (refl, refl)
code-hex_digit (suc zero) h = (refl, refl)
code-hex_digit (suc (suc zero)) h = (refl, refl)
code-hex_digit (suc (suc (suc zero))) h = (refl, refl)
code-hex_digit (suc (suc (suc (suc zero)))) h = (refl, refl)
code-hex_digit (suc (suc (suc (suc (suc zero))))) h = (refl, refl)
code-hex_digit (suc (suc (suc (suc (suc (suc zero)))))) h = (refl, refl)
code-hex_digit (suc (suc (suc (suc (suc (suc (suc zero))))))) h = (refl, refl)
code-hex_digit (suc (suc (suc (suc (suc (suc (suc (suc zero)))))))) h = (refl, refl)
code-hex_digit (suc (suc (suc (suc (suc (suc (suc (suc (suc zero))))))))) h = (refl, refl)
code-hex_digit (suc (suc (suc (suc (suc (suc (suc (suc (suc (suc n)))))))))) h =
    absurd (omega arith)

all_lower_hex-encode_to_string : (bytes : List ℕ) → all_lower_hex (encode_to_string bytes) ≡ true
unfolding all_lower_hex encode_to_string
all_lower_hex-encode_to_string [] = refl
all_lower_hex-encode_to_string (b ∷ bytes) =
    rw (IsLowerHex-hex_digit (b / 16)).0
      (rw (IsLowerHex-hex_digit (b % 16)).0 (all_lower_hex-encode_to_string bytes))

len-encode_to_string : (bytes : List ℕ) → len (encode_to_string bytes) ≡ 2 * length bytes
unfolding encode_to_string
len-encode_to_string [] = omega (arith, len.nil)
len-encode_to_string (b ∷ bytes) =
    rw (len.cons, len.cons, (IsLowerHex-hex_digit (b / 16)).1, (IsLowerHex-hex_digit (b % 16)).1)
      (omega (arith, len-encode_to_string bytes))

-- The hexadecimal text of n bytes has 2 * n lowercase digits, as `validLowerHex` checks, so that 16
-- bytes give a nonce and 32 bytes a token of the right format.
valid_lower_hex-encode_to_string :
    (bytes : List ℕ) → valid_lower_hex (encode_to_string bytes) (2 * length bytes) ≡ true
unfolding valid_lower_hex
valid_lower_hex-encode_to_string bytes =
    ground (arith, len-encode_to_string bytes, all_lower_hex-encode_to_string bytes)
