-- ===== src/Peer/Addr.antt =====
-- `net.SplitHostPort`, `net.JoinHostPort` and `strconv.Itoa` of the standard library as daemon/peer
-- uses them, and `sourceKey` of daemon/peer/listener.go.
use Prim.Native.Char.{code}
use Prim.Native.String.{◌++◌}
use sharing.Base.{
  ℕ, zero, suc, ◌/◌, ◌%◌, String, Bool, false, ◌&&◌, ◌||◌, not, Option, none, some, ◌==◌,
  if◌then◌else◌,
}
use sharing.Base.Dict.{is_some}
use sharing.Protocol.Hex.{hex_digit}

-- The text up to the first character of that code, and the text behind it, if there is one.
unfoldable pub cut : ℕ → String → String × Option String
cut sep String.[] = (String.[], none)
cut sep (String.◌∷◌ c s) =
    let (before, behind) = cut sep s in
    if code c == sep then (String.[], some s) else (String.◌∷◌ c before, behind)

unfoldable pub contains : ℕ → String → Bool
contains sep s = is_some (cut sep s).1

-- A host without brackets: there is one colon, and no bracket anywhere.
unfoldable plain_host : String → Option String
unfolding cut contains
plain_host s = elim (cut b':' s).1 [
  | none ↦ none
  | some port ↦
      if contains b':' port || contains b'[' s || contains b']' s then none else some (cut b':' s).0
]

-- What stands behind the closing bracket: a colon and the port.
unfoldable is_port : String → Bool
unfolding cut contains
is_port String.[] = false
is_port (String.◌∷◌ c port) = code c == b':' && not (contains b':' port) && not (contains b']' port)

-- A host in brackets; the text is what follows the opening one.
unfoldable bracketed_host : String → Option String
unfolding cut contains is_port
bracketed_host s = elim (cut b']' s).1 [
  | none ↦ none
  | some rest ↦ if is_port rest && not (contains b'[' s) then some (cut b']' s).0 else none
]

-- The host of `net.SplitHostPort`; `none` is its error.
unfoldable pub split_host : String → Option String
unfolding plain_host bracketed_host
split_host String.[] = none
split_host (String.◌∷◌ c s) =
    if code c == b'[' then bracketed_host s else plain_host (String.◌∷◌ c s)

-- `net.JoinHostPort`
unfoldable pub join_host_port : String → String → String
unfolding cut contains
join_host_port host port =
    if contains b':' host then "[" ++ host ++ "]:" ++ port else host ++ ":" ++ port

-- `strconv.Itoa` of a number that is not negative; a port has at most five digits, and the fuel is
-- one round for each.
unfoldable itoa_digits : ℕ → ℕ → String → String
itoa_digits zero n acc = acc
itoa_digits (suc fuel) n acc =
    let acc' = String.◌∷◌ (hex_digit (n % 10)) acc in
    let rest = itoa_digits fuel (n / 10) acc' in if n / 10 == 0 then acc' else rest

unfoldable pub itoa : ℕ → String
unfolding itoa_digits
itoa n = itoa_digits 20 n ""

-- `sourceKey`
unfoldable pub source_key : String → String
unfolding split_host
source_key remote_addr = elim (split_host remote_addr) [ none ↦ remote_addr | some host ↦ host ]
