-- ===== src/Discovery/Instance.antt =====
-- The name under which a daemon registers: `sanitizeInstance` and `instanceName` of
-- daemon/discovery/mdns.go.
use Prim.Native.Char.{code}
use Prim.Native.String.{◌++◌}
use sharing.Base.{
  ℕ, zero, suc, String, Bool, false, ◌&&◌, ◌||◌, not, leb, ltb, ◌==◌, str_eq, if◌then◌else◌,
}
use sharing.Protocol.Types.{SelfDevice}

abbrev pub instance_name_max_len : ℕ
instance_name_max_len = 40

abbrev pub instance_id_suffix_len : ℕ
instance_id_suffix_len = 8

abbrev pub instance_fallback_name : String
instance_fallback_name = "sharing"

-- The first case of the loop's `switch`.
abbrev pub is_alphanumeric : ℕ → Bool
is_alphanumeric c = leb b'a' c && leb c b'z' || leb b'A' c && leb c b'Z' || leb b'0' c && leb c b'9'

-- The loop of `sanitizeInstance`; `dash` is the flag of the source, `started` that the builder is
-- not empty.
unfoldable pub sanitize_loop : Bool → Bool → String → String
sanitize_loop dash started String.[] = String.[]
sanitize_loop dash started (String.◌∷◌ c s) =
    let kept = is_alphanumeric (code c) in
    let dashed = not kept && not dash && started in
    let rest = sanitize_loop (not kept && (dash || dashed)) (started || kept) s in
    if kept then String.◌∷◌ c rest else if dashed then String.◌∷◌ "-" rest else rest

-- `strings.Trim(s, "-")`, from the left and from the right.
unfoldable pub trim_left : String → String
trim_left String.[] = String.[]
trim_left (String.◌∷◌ c s) =
    let rest = trim_left s in if code c == b'-' then rest else String.◌∷◌ c s

unfoldable pub trim_right : String → String
trim_right String.[] = String.[]
trim_right (String.◌∷◌ c s) =
    let rest = trim_right s in
    if code c == b'-' && str_eq rest "" then String.[] else String.◌∷◌ c rest

unfoldable pub trim : String → String
unfolding trim_left trim_right
trim s = trim_right (trim_left s)

-- `len(s)` and `s[:n]` for a text of characters of one byte.
unfoldable pub size : String → ℕ
size String.[] = 0
size (String.◌∷◌ c s) = suc (size s)

unfoldable pub prefix : ℕ → String → String
prefix zero s = String.[]
prefix (suc n) String.[] = String.[]
prefix (suc n) (String.◌∷◌ c s) = String.◌∷◌ c (prefix n s)

-- `sanitizeInstance`
unfoldable pub sanitize_instance : String → String
unfolding sanitize_loop trim size prefix
sanitize_instance name =
    let s = trim (sanitize_loop false false name) in
    if ltb instance_name_max_len (size s) then trim (prefix instance_name_max_len s) else s

-- `instanceName`
unfoldable pub instance_name : SelfDevice → String
unfolding sanitize_instance size prefix
instance_name self =
    let sanitized = sanitize_instance self.name in
    let name = if str_eq sanitized "" then instance_fallback_name else sanitized in
    let id = sanitize_instance self.id in
    let suffix =
      if ltb instance_id_suffix_len (size id) then prefix instance_id_suffix_len id else id in
    if str_eq suffix "" then name else name ++ "-" ++ suffix
