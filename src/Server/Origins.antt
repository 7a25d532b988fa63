-- ===== src/Server/Origins.antt =====
-- Which pages may use the daemon: daemon/server/http.go and daemon/server/websocket.go.
use sharing.Base.{
  ℕ, String, ◌≡◌, refl, Bool, true, false, not, ◌&&◌, ◌||◌, Option, some, str_eq, arith,
  if◌then◌else◌,
}
use sharing.Server.Http.{
  Url, Request, Answer, upgraded, status, accept_failed, origin_allowed, handle_web_socket, route,
  with_cors, handle_info, handle_health, handle_not_found,
}

abbrev pub is_upgraded : Answer → Bool
is_upgraded upgraded = true
is_upgraded (status n body) = false
is_upgraded accept_failed = false

-- A caller that may have a socket: one that sends no origin, which no browser does, or an allowed one.
abbrev pub welcome : (String → Option Url) → String → Bool
welcome parse origin = str_eq origin "" || origin_allowed parse origin

guarded-if :
    (b w : Bool) (x y : Answer)
    → (is_upgraded x ≡ true → w ≡ true)
    → (is_upgraded y ≡ true → w ≡ true)
    → is_upgraded (if b then x else y) ≡ true
    → w ≡ true
guarded-if true w x y h k = h
guarded-if false w x y h k = k

refused-foreign :
    (e a : Bool) (x y : Answer)
    → is_upgraded x ≡ false
    → is_upgraded (if not e && not a then x else y) ≡ true
    → e || a ≡ true
refused-foreign true a x y h q = refl
refused-foreign false true x y h q = refl
refused-foreign false false x y h q = cc (h, q)

module _ (parse : String → Option Url) (accepted : Bool) (started now : ℕ) (r : Request) where
  handle_web_socket-guarded :
      is_upgraded (handle_web_socket parse accepted r) ≡ true → welcome parse r.origin ≡ true
  unfolding handle_web_socket
  handle_web_socket-guarded =
      guarded-if (not (str_eq r.method "GET")) _ _ _ (λ q. cc q)
        (refused-foreign (str_eq r.origin "") (origin_allowed parse r.origin) _ _ refl)

  route-guarded :
      is_upgraded (route parse accepted started now r) ≡ true → welcome parse r.origin ≡ true
  unfolding route handle_info handle_health handle_not_found
  route-guarded =
      guarded-if (str_eq r.path "/info") _ _ _
        (guarded-if (not (str_eq r.method "GET")) _ _ _ (λ q. cc q) (λ q. cc q))
        (guarded-if (str_eq r.path "/health") _ _ _
          (guarded-if (not (str_eq r.method "GET")) _ _ _ (λ q. cc q) (λ q. cc q))
          (guarded-if (str_eq r.path "/ws") _ _ _ handle_web_socket-guarded (λ q. cc q)))

  -- A request gets a socket only if it names no origin or an allowed one, whatever its method and its
  -- path are; and an answer lets the page that asked read it only if the origin is an allowed one, and
  -- then no other page.
  pub with_cors-guarded :
      (is_upgraded (with_cors parse accepted started now r).answer ≡ true
        → welcome parse r.origin ≡ true)
      × ((origin : String)
          → (with_cors parse accepted started now r).allow_origin ≡ some origin
          → (origin ≡ r.origin) × (origin_allowed parse r.origin ≡ true))
  unfolding with_cors
  with_cors-guarded = (
    guarded-if (str_eq r.method "OPTIONS") _ _ _ (λ q. cc q) route-guarded,
    λ origin h. (ground arith, ground arith),
  )
