-- ===== src/Protocol/Code.antt =====
-- `Code` and `ValidCodeFormat` of daemon/protocol/pairing.go, over SHA-256 of the standard library,
-- which is a parameter: the digest of a text's bytes, as a list of bytes.
use Prim.Native.Char.{code as code_of}
use Prim.Native.String.{len, ◌++◌}
use Prim.Native.String.len
use sharing.Base.Text.{str_gt, str_gt_total, str_gt_asymm}
use sharing.Base.{
  ℕ, zero, suc, ◌+◌, ◌-◌, ◌*◌, ◌/◌, ◌%◌, ◌<◌, String, ◌≡◌, refl, Bool, true, false, ◌&&◌, List, ◌∷◌,
  leb, ◌==◌, arith, ap, if◌then◌else◌,
}
use sharing.Protocol.Constants.{code_digits, code_modulus}
use sharing.Protocol.Hex.{hex_digit, code-hex_digit}

-- `binary.BigEndian.Uint32`; a digest has 32 bytes, and of a shorter list the source would panic.
unfoldable pub big_endian_uint32 : List ℕ → ℕ
big_endian_uint32 (a ∷ b ∷ c ∷ d ∷ rest) = ((a * 256 + b) * 256 + c) * 256 + d
big_endian_uint32 _ = 0

-- `%0*d`: the digits are written from the last one on, in front of what is there. The argument is
-- below 10 to the width, so that no further digit is wanted.
unfoldable fill_digits : ℕ → ℕ → String → String
fill_digits zero n acc = acc
fill_digits (suc width) n acc = fill_digits width (n / 10) (String.◌∷◌ (hex_digit (n % 10)) acc)

-- The text that is hashed.
unfoldable pub material : String → String → String → String
unfolding str_gt
material id_a id_b nonce =
    if str_gt id_a id_b
    then id_b ++ ":" ++ id_a ++ ":" ++ nonce
    else id_a ++ ":" ++ id_b ++ ":" ++ nonce

-- `Code`
unfoldable pub code : (String → List ℕ) → String → String → String → String
unfolding material big_endian_uint32 fill_digits
code sum256 id_a id_b nonce =
    let n = big_endian_uint32 (sum256 (material id_a id_b nonce)) % code_modulus in
    fill_digits code_digits n ""

abbrev is_digit : ℕ → Bool
is_digit c = leb b'0' c && leb c b'9'

unfoldable all_digits : String → Bool
all_digits String.[] = true
all_digits (String.◌∷◌ c s) = is_digit (code_of c) && all_digits s

-- The value that `strconv.ParseUint` reads in base 10 from a text of digits.
unfoldable parse_digits : ℕ → String → ℕ
parse_digits n String.[] = n
parse_digits n (String.◌∷◌ c s) = parse_digits (n * 10 + (code_of c - b'0')) s

-- `ValidCodeFormat`
unfoldable pub valid_code_format : String → Bool
unfolding all_digits parse_digits
valid_code_format s =
    if len s == code_digits
    then (if all_digits s then leb (parse_digits 0 s) 0xffffffff else false)
    else false

-- For any hash, the code of two ids and a nonce does not depend on the order of the ids, so that both
-- ends of a pairing derive the same one.
pub code_comm :
    (sum256 : String → List ℕ) (id_a id_b nonce : String)
    → code sum256 id_a id_b nonce ≡ code sum256 id_b id_a nonce
unfolding code material
code_comm sum256 a b nonce = ground (arith, str_gt_total a b, str_gt_asymm a b, str_gt_asymm b a)

-- A digit in front of a text of digits.
abbrev digit : ℕ → String → String
digit n s = String.◌∷◌ (hex_digit (n % 10)) s

len-digit : (n : ℕ) (s : String) → len (digit n s) ≡ 1 + len s
len-digit n s = rw len.cons (rw (code-hex_digit (n % 10) (omega arith)).1)

all_digits-digit : (n : ℕ) (s : String) → all_digits (digit n s) ≡ all_digits s
unfolding all_digits
all_digits-digit n s = rw (code-hex_digit (n % 10) (omega arith)).0 (ground arith)

parse_digits-digit :
    (m n : ℕ) (s : String) → parse_digits m (digit n s) ≡ parse_digits (m * 10 + n % 10) s
unfolding parse_digits
parse_digits-digit m n s =
    ap (λ (k : ℕ). parse_digits (m * 10 + k) s)
      (omega (arith, (code-hex_digit (n % 10) (omega arith)).0))

-- The value that six digits stand for.
abbrev number : ℕ → ℕ
number n = parse_digits 0 (fill_digits 6 n "")

number_lem : (n : ℕ) → number n ≡ n % 1000000
unfolding fill_digits
number_lem n = simp parse_digits-digit (unfold parse_digits in omega arith)

fill_digits_shape :
    (n : ℕ) → (len (fill_digits 6 n "") ≡ 6) × (all_digits (fill_digits 6 n "") ≡ true)
unfolding fill_digits
fill_digits_shape n = (simp len-digit, simp all_digits-digit (unfold all_digits in refl))

valid_of_shape :
    (s : String)
    → len s ≡ 6
    → all_digits s ≡ true
    → parse_digits 0 s < 1000000
    → valid_code_format s ≡ true
unfolding valid_code_format
valid_of_shape s l d p = rw (l, d) (ground arith)

-- For any hash, any ids and any nonce, the code has the format that `ValidCodeFormat` accepts.
pub valid_code_format-code :
    (sum256 : String → List ℕ) (id_a id_b nonce : String)
    → valid_code_format (code sum256 id_a id_b nonce) ≡ true
unfolding code
valid_code_format-code sum256 a b nonce =
    let n = big_endian_uint32 (sum256 (material a b nonce)) % code_modulus in
    valid_of_shape (fill_digits 6 n "") (fill_digits_shape n).0 (fill_digits_shape n).1
      (omega (arith, number_lem n))

-- Two codes are the same text only if the first four bytes of the digests, read as big-endian
-- numbers, agree modulo the size of the code space.
pub code_injective :
    (sum256 : String → List ℕ) (a b c d nonce nonce' : String)
    → code sum256 a b nonce ≡ code sum256 c d nonce'
    → big_endian_uint32 (sum256 (material a b nonce)) % code_modulus
      ≡ big_endian_uint32 (sum256 (material c d nonce')) % code_modulus
unfolding code
code_injective sum256 a b c d nonce nonce' h =
    let m = big_endian_uint32 (sum256 (material a b nonce)) % code_modulus in
    let n = big_endian_uint32 (sum256 (material c d nonce')) % code_modulus in
    omega (arith, number_lem m, number_lem n, ap (parse_digits 0) h)
