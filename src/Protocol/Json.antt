-- ===== src/Protocol/Json.antt =====
-- `encoding/json` as far as the daemon uses it to read frames: `json.Unmarshal` of a frame into a
-- struct whose fields are strings, integers and booleans. The text of a frame is taken parsed; what
-- stands in a nested array or object is not kept, since every struct that the daemon decodes is flat.
use Prim.Native.Char.{code}
use sharing.Base.{
  ℕ, String, Bool, true, false, ◌&&◌, ◌-◌, Option, none, some, List, [], ◌∷◌, leb, ◌==◌,
  if◌then◌else◌,
}
use sharing.Base.Int.{ℤ, pos, fits_int64}

-- `frac` is a number that is no integer literal, such as 1.5 or 1e3.
pub data Value : Type 0 where
  null frac arr obj : Value
  bool : Bool → Value
  num : ℤ → Value
  str : String → Value

abbrev pub Members : Type 0
Members = List (String × Value)

-- The bytes of a text frame: no JSON text, a JSON value that is no object, or an object.
pub data Frame : Type 0 where
  malformed : Frame
  scalar : Value → Frame
  object : Members → Frame

-- The characters of a key, with case folded as `encoding/json` does it: U+017F counts as an S, and
-- U+212A as a K.
fold_rune : ℕ → ℕ
fold_rune c =
    if leb b'a' c && leb c b'z'
    then c - 32
    else if c == 0x17f
    then b'S'
    else if c == 0x212a
    then b'K'
    else c

fold_name : String → List ℕ
unfolding fold_rune
fold_name String.[] = []
fold_name (String.◌∷◌ c s) = fold_rune (code c) ∷ fold_name s

eq_folded : List ℕ → List ℕ → Bool
eq_folded [] [] = true
eq_folded [] (b ∷ bs) = false
eq_folded (a ∷ as') [] = false
eq_folded (a ∷ as') (b ∷ bs) = a == b && eq_folded as' bs

-- Whether a member of that key is stored in the field of that name.
unfoldable matches : String → String → Bool
unfolding fold_name eq_folded
matches key name = eq_folded (fold_name key) (fold_name name)

-- One member is stored in a field. `none` is a type error, which decoding reports at its end; null
-- leaves the field as it is.
unfoldable store_string : Option String → Value → Option String
store_string none v = none
store_string (some a) (str s) = some s
store_string (some a) null = some a
store_string (some a) v = none

unfoldable store_int : Option ℤ → Value → Option ℤ
store_int none v = none
store_int (some a) (num n) = if fits_int64 n then some n else none
store_int (some a) null = some a
store_int (some a) v = none

unfoldable store_bool : Option Bool → Value → Option Bool
store_bool none v = none
store_bool (some a) (bool b) = some b
store_bool (some a) null = some a
store_bool (some a) v = none

-- The members in order, so that the last one of a name stands.
unfoldable store_all {ℓ} :
    {A : Type ℓ} → (Option A → Value → Option A) → String → Option A → Members → Option A
store_all store name a [] = a
store_all store name a ((key, v) ∷ members) =
    store_all store name (if matches key name then store a v else a) members

-- A field keeps its zero value if no member is stored in it.
unfoldable pub string_field : String → Members → Option String
unfolding store_all matches store_string
string_field name = store_all store_string name (some "")

unfoldable pub int_field : String → Members → Option ℤ
unfolding store_all matches store_int
int_field name = store_all store_int name (some (pos 0))

unfoldable pub bool_field : String → Members → Option Bool
unfolding store_all matches store_bool
bool_field name = store_all store_bool name (some false)

-- `json.Unmarshal(data, &s)`: null is accepted and stores nothing.
unfoldable pub unmarshal {ℓ} : {A : Type ℓ} → (Members → Option A) → Frame → Option A
unmarshal fields malformed = none
unmarshal fields (scalar null) = fields []
unmarshal fields (scalar v) = none
unmarshal fields (object members) = fields members

infixl 5 ◌>>=◌
abbrev pub ◌>>=◌ {ℓ κ} : {A : Type ℓ} {B : Type κ} → Option A → (A → Option B) → Option B
none >>= f = none
some a >>= f = f a
