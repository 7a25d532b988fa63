-- ===== src/Server/Http.antt =====
-- The HTTP front of the control plane: daemon/server/http.go, and the upgrade of
-- daemon/server/websocket.go. `url.Parse` is an argument, and so is whether websocket.Accept succeeds.
use Prim.Native.Char.{code}
use sharing.Base.{
  ℕ, ◌+◌, ◌*◌, ◌-◌, ◌/◌, String, Bool, true, false, not, ◌&&◌, ◌||◌, Option, none, some, List, [],
  ◌∷◌, str_eq, leb, ltb, ◌==◌, if◌then◌else◌,
}
use sharing.Base.Time.{second}

-- The schemes of browser extensions.
abbrev extension_schemes : List String
extension_schemes = "chrome-extension://" ∷ "moz-extension://" ∷ "safari-web-extension://" ∷ []

-- What `strings.ToLower` makes of a character, as far as it can become a character of a scheme.
unfoldable lower_code : ℕ → ℕ
lower_code c = if leb b'A' c && leb c b'Z' then c + 32 else if c == 0x130 then b'i' else c

-- Whether the text begins with the prefix, case aside, and goes on behind it; `none` is that it does
-- not begin with it.
unfoldable longer_than : String → String → Option Bool
unfolding lower_code
longer_than String.[] String.[] = some false
longer_than String.[] (String.◌∷◌ c s) = some true
longer_than (String.◌∷◌ p ps) String.[] = none
longer_than (String.◌∷◌ p ps) (String.◌∷◌ c s) =
    let rest = longer_than ps s in if lower_code (code c) == code p then rest else none

-- The loop of `OriginAllowed` over the schemes.
unfoldable extension_origin : List String → String → Option Bool
unfolding longer_than
extension_origin [] origin = none
extension_origin (scheme ∷ schemes) origin = elim (longer_than scheme origin) [
  | some b ↦ some b
  | none ↦ extension_origin schemes origin
]

-- What `OriginAllowed` reads of a parsed URL; `user` is that there is a user.
pub record Url : Type 0 where
  pub scheme : String
  pub user : Bool
  pub path : String
  pub raw_query : String
  pub fragment : String
  pub hostname : String
  pub port : String

-- The digits of `strconv.Atoi`, with what was read before them.
unfoldable atoi_digits : ℕ → String → Option ℕ
atoi_digits n String.[] = some n
atoi_digits n (String.◌∷◌ c s) =
    let rest = atoi_digits (10 * n + (code c - b'0')) s in
    if leb b'0' (code c) && leb (code c) b'9' then rest else none

-- `strconv.Atoi` of a text that is not empty, for its positive results; a number that is too large
-- for it is too large for a port as well.
unfoldable pub positive_number : String → Option ℕ
unfolding atoi_digits
positive_number String.[] = none
positive_number (String.◌∷◌ c String.[]) = atoi_digits 0 (String.◌∷◌ c String.[])
positive_number (String.◌∷◌ c (String.◌∷◌ d s)) =
    atoi_digits 0 (if code c == b'+' then String.◌∷◌ d s else String.◌∷◌ c (String.◌∷◌ d s))

-- The checks of `OriginAllowed` on a URL.
unfoldable pub loopback_origin : Url → Bool
unfolding positive_number
loopback_origin u =
    str_eq u.scheme "http"
    && not (
        u.user
        || not (str_eq u.path "")
        || not (str_eq u.raw_query "")
        || not (str_eq u.fragment ""))
    && (str_eq u.hostname "localhost" || str_eq u.hostname "127.0.0.1")
    && not (str_eq u.port "")
    && elim (positive_number u.port) [ none ↦ false | some n ↦ ltb 0 n && leb n 65535 ]

-- `OriginAllowed`
unfoldable pub origin_allowed : (String → Option Url) → String → Bool
unfolding extension_origin loopback_origin
origin_allowed parse origin =
    if str_eq origin "" then false else elim (extension_origin extension_schemes origin) [
      | some b ↦ b
      | none ↦ elim (parse origin) [ none ↦ false | some u ↦ loopback_origin u ]
    ]

-- A request, as far as it is read, and what is answered: a status with a body, or the upgrade.
pub record Request : Type 0 where
  pub method : String
  pub path : String
  pub origin : String

pub data Body : Type 0 where
  empty info : Body
  health : ℕ → Body
  http_error : String → Body

pub data Answer : Type 0 where
  status : ℕ → Body → Answer
  upgraded accept_failed : Answer

-- An answer with the header Access-Control-Allow-Origin, if it is set.
pub record Response : Type 0 where
  pub allow_origin : Option String
  pub answer : Answer

abbrev method_not_allowed : Answer
method_not_allowed = status 405 (http_error "method not allowed")

-- `handleInfo`
unfoldable pub handle_info : Request → Answer
handle_info r = if not (str_eq r.method "GET") then method_not_allowed else status 200 info

-- `handleHealth`
unfoldable pub handle_health : ℕ → ℕ → Request → Answer
handle_health started now r =
    if not (str_eq r.method "GET")
    then method_not_allowed
    else status 200 (health ((now - started) / second))

-- `handleNotFound`
unfoldable pub handle_not_found : Request → Answer
handle_not_found r = status 404 (http_error "not found")

-- The guards of `handleWebSocket`.
unfoldable pub handle_web_socket : (String → Option Url) → Bool → Request → Answer
handle_web_socket parse accepted r =
    if not (str_eq r.method "GET")
    then method_not_allowed
    else if not (str_eq r.origin "") && not (origin_allowed parse r.origin)
    then status 403 (http_error "origin not allowed")
    else if accepted
    then upgraded
    else accept_failed

-- The routes of `New`, for a path that is clean: http.ServeMux redirects any other to the clean one.
unfoldable pub route : (String → Option Url) → Bool → ℕ → ℕ → Request → Answer
unfolding handle_info handle_health handle_web_socket handle_not_found
route parse accepted started now r =
    if str_eq r.path "/info"
    then handle_info r
    else if str_eq r.path "/health"
    then handle_health started now r
    else if str_eq r.path "/ws"
    then handle_web_socket parse accepted r
    else handle_not_found r

-- `withCORS` around the routes.
unfoldable pub with_cors : (String → Option Url) → Bool → ℕ → ℕ → Request → Response
unfolding route
with_cors parse accepted started now r = record {
  allow_origin =
      if str_eq r.origin ""
      then none
      else if origin_allowed parse r.origin
      then some r.origin
      else none;
  answer =
      if str_eq r.method "OPTIONS" then status 204 empty else route parse accepted started now r;
}
