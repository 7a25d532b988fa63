-- ===== src/Daemon/Banner.antt =====
-- The name on the banner: `mdnsInstanceName` of daemon/cmd/daemon/main.go, against the name that
-- daemon/discovery/mdns.go registers.
use Prim.Native.Char.{code, Char}
use Prim.Native.String.{◌++◌}
use text.Mathlib.TextEquality.{Char-path}
use sharing.Base.{
  ℕ, String, ◌≡◌, ◌≤◌, Bool, true, false, ◌&&◌, ◌||◌, not, ltb, ◌==◌, str_eq, eq_iff, if◌then◌else◌,
  arith, refl, Bool-cases, inl, inr, ap, ◌∙◌, sym,
}
use sharing.Protocol.Types.{SelfDevice}
use sharing.Discovery.Instance.{
  is_alphanumeric, sanitize_loop, trim_left, trim_right, trim, size, prefix, sanitize_instance,
  instance_name, instance_fallback_name,
}

-- The loop of `mdnsInstanceName`; `started` is `b.Len() > 0`.
unfoldable pub mdns_loop : Bool → Bool → String → String
mdns_loop prev_dash started String.[] = String.[]
mdns_loop prev_dash started (String.◌∷◌ c s) =
    let kept = is_alphanumeric (code c) in
    let written = not prev_dash && started in
    let rest =
      mdns_loop (if kept then false else if written then true else prev_dash) (kept || started) s in
    if kept then String.◌∷◌ c rest else if written then String.◌∷◌ "-" rest else rest

abbrev mdns_name_max_len : ℕ
mdns_name_max_len = 40

-- `mdnsInstanceName` of the name and the id of the configuration. The source cuts by bytes, which are
-- the characters of a label and of an id like a UUID.
unfoldable pub mdns_instance_name : String → String → String
mdns_instance_name name device_id =
    let whole = trim (mdns_loop false false name) in
    let cut =
      if ltb mdns_name_max_len (size whole) then trim (prefix mdns_name_max_len whole) else whole in
    let label = if str_eq cut "" then "sharing" else cut in
    let suffix = if ltb 8 (size device_id) then prefix 8 device_id else device_id in
    if str_eq suffix "" then label else label ++ "-" ++ suffix

-- Both loops do the same.
loops_agree :
    (c : Char) (s : String) (dash started : Bool)
    → ((d b : Bool) → mdns_loop d b s ≡ sanitize_loop d b s)
    → mdns_loop dash started (String.◌∷◌ c s) ≡ sanitize_loop dash started (String.◌∷◌ c s)
unfolding mdns_loop sanitize_loop
loops_agree c s true true h = elim (Bool-cases (is_alphanumeric (code c))) [
  | inl e ↦ rw e (ap (String.◌∷◌ c) (h false true))
  | inr e ↦ rw e (h true true)
]
loops_agree c s true false h = elim (Bool-cases (is_alphanumeric (code c))) [
  | inl e ↦ rw e (ap (String.◌∷◌ c) (h false true))
  | inr e ↦ rw e (h true false)
]
loops_agree c s false true h = elim (Bool-cases (is_alphanumeric (code c))) [
  | inl e ↦ rw e (ap (String.◌∷◌ c) (h false true))
  | inr e ↦ rw e (ap (String.◌∷◌ "-") (h true true))
]
loops_agree c s false false h = elim (Bool-cases (is_alphanumeric (code c))) [
  | inl e ↦ rw e (ap (String.◌∷◌ c) (h false true))
  | inr e ↦ rw e (h false false)
]

mdns_loop-eq-sanitize_loop :
    (dash started : Bool) (s : String) → mdns_loop dash started s ≡ sanitize_loop dash started s
unfolding mdns_loop sanitize_loop
mdns_loop-eq-sanitize_loop dash started String.[] = refl
mdns_loop-eq-sanitize_loop dash started (String.◌∷◌ c s) =
    loops_agree c s dash started (λ d b. mdns_loop-eq-sanitize_loop d b s)

-- Letters and digits with single hyphens between them, as in a UUID; `dash` is that a hyphen, or
-- nothing, stands before.
abbrev pub is_clean : Bool → String → Bool
is_clean dash String.[] = not dash
is_clean dash (String.◌∷◌ c s) =
    let kept = is_alphanumeric (code c) in
    (kept || code c == b'-' && not dash) && is_clean (not kept) s

module _ (c : Char) (s : String) (dash : Bool) (h : is_clean dash (String.◌∷◌ c s) ≡ true) where
  clean-tail : is_clean (not (is_alphanumeric (code c))) s ≡ true
  clean-tail = ground arith

  clean-head : is_alphanumeric (code c) ≡ false → (code c ≡ b'-') × (dash ≡ false)
  clean-head e = ground (arith, e)

-- Once it has begun, the loop leaves a clean text as it is.
sanitize_loop-clean :
    (dash : Bool) (s : String) → is_clean dash s ≡ true → sanitize_loop dash true s ≡ s
unfolding sanitize_loop
sanitize_loop-clean dash String.[] h = refl
sanitize_loop-clean dash (String.◌∷◌ c s) h = elim (Bool-cases (is_alphanumeric (code c))) [
  | inl e ↦ rw e (
      ap (String.◌∷◌ c) (
        sanitize_loop-clean false s (ap (λ k. is_clean (not k) s) (sym e) ∙ clean-tail c s dash h)))
  | inr e ↦
      let (hyphen, after) = clean-head c s dash h e in
      let same = Char-path c "-" hyphen in
      rw (e, after)
        (ap (λ x. String.◌∷◌ x (sanitize_loop true true s)) (sym same)
          ∙ ap (String.◌∷◌ c) (
              sanitize_loop-clean true s
                (ap (λ k. is_clean (not k) s) (sym e) ∙ clean-tail c s dash h)))
]

sanitize_loop-clean_first : (s : String) → is_clean true s ≡ true → sanitize_loop false false s ≡ s
unfolding sanitize_loop
sanitize_loop-clean_first String.[] h = refl
sanitize_loop-clean_first (String.◌∷◌ c s) h = elim (Bool-cases (is_alphanumeric (code c))) [
  | inl e ↦ rw e (
      ap (String.◌∷◌ c) (
        sanitize_loop-clean false s (ap (λ k. is_clean (not k) s) (sym e) ∙ clean-tail c s true h)))
  | inr e ↦ cc ((clean-head c s true h e).1)
]

not_hyphen : (n : ℕ) → is_alphanumeric n ≡ true → (n == b'-') ≡ false
not_hyphen n h = ground arith

first_kept :
    (c : Char) (s : String)
    → is_clean true (String.◌∷◌ c s) ≡ true
    → is_alphanumeric (code c) ≡ true
first_kept c s h = ground arith

trim_left-clean : (s : String) → is_clean true s ≡ true → trim_left s ≡ s
unfolding trim_left
trim_left-clean String.[] h = refl
trim_left-clean (String.◌∷◌ c s) h = rw (not_hyphen (code c) (first_kept c s h)) refl

if-no :
    (b : Bool) (c : Char) (s : String)
    → (if b && false then "" else String.◌∷◌ c s) ≡ String.◌∷◌ c s
if-no true c s = refl
if-no false c s = refl

not_ltb : (n m : ℕ) → m ≤ n → ltb n m ≡ false
not_ltb n m h = ground arith

not_empty : (s : String) → is_clean true s ≡ true → str_eq s "" ≡ false
unfolding size
not_empty String.[] h = cc h
not_empty (String.◌∷◌ c s) h = elim (Bool-cases (str_eq (String.◌∷◌ c s) "")) [
  | inl e ↦ ground (arith, ap size ((eq_iff (String.◌∷◌ c s) "").0 e))
  | inr e ↦ e
]

trim_right-clean : (dash : Bool) (s : String) → is_clean dash s ≡ true → trim_right s ≡ s
unfolding trim_right
trim_right-clean dash String.[] h = refl
trim_right-clean dash (String.◌∷◌ c s) h =
    let t = clean-tail c s dash h in
    rw (trim_right-clean (not (is_alphanumeric (code c))) s t)
      (elim (Bool-cases (is_alphanumeric (code c))) [
        | inl e ↦ rw (not_hyphen (code c) e) refl
        | inr e ↦
            let k = ap (λ k. is_clean (not k) s) (sym e) ∙ t in
            rw (not_empty s k) (if-no (code c == b'-') c s)
      ])

-- A clean text that is short enough is its own label.
sanitize_instance-clean :
    (s : String) → is_clean true s ≡ true → size s ≤ 40 → sanitize_instance s ≡ s
unfolding sanitize_instance trim
sanitize_instance-clean s h short =
    rw (sanitize_loop-clean_first s h, trim_left-clean s h, trim_right-clean true s h)
      (rw (not_ltb 40 (size s) short) refl)

-- A name under which a device with a clean id is registered.
abbrev joined : String → String → String
joined name suffix =
    let label = if str_eq name "" then instance_fallback_name else name in
    if str_eq suffix "" then label else label ++ "-" ++ suffix

abbrev shortened : String → String
shortened id = if ltb 8 (size id) then prefix 8 id else id

mdns_instance_name-joined :
    (name id : String) → mdns_instance_name name id ≡ joined (sanitize_instance name) (shortened id)
unfolding mdns_instance_name sanitize_instance
mdns_instance_name-joined name id = rw (mdns_loop-eq-sanitize_loop false false name) refl

instance_name-joined :
    (self : SelfDevice)
    → sanitize_instance self.id ≡ self.id
    → instance_name self ≡ joined (sanitize_instance self.name) (shortened self.id)
unfolding instance_name
instance_name-joined self e = rw e refl

-- For an id like a UUID, letters and digits with single hyphens between them, the banner prints the
-- name that is registered, whatever the device is called.
pub mdns_instance_name-eq-instance_name :
    (self : SelfDevice)
    → is_clean true self.id ≡ true
    → size self.id ≤ 40
    → mdns_instance_name self.name self.id ≡ instance_name self
mdns_instance_name-eq-instance_name self h short =
    mdns_instance_name-joined self.name self.id
    ∙ sym (instance_name-joined self (sanitize_instance-clean self.id h short))
