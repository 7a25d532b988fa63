-- ===== src/Discovery/Label.antt =====
-- What the name of an instance is made of: daemon/discovery/mdns.go.
use Prim.Native.Char.{code, Char}
use Prim.Native.String.{◌++◌}
use sharing.Base.{
  ℕ, zero, suc, ◌≤◌, ◌+◌, String, ◌≡◌, Bool, true, false, ◌&&◌, ◌||◌, not, ltb, ◌==◌, str_eq, arith,
  if◌then◌else◌, refl, Bool-cases, inl, inr, ap,
}
use sharing.Protocol.Types.{SelfDevice}
use Prim.Native.String.append
use sharing.Discovery.Instance.{
  is_alphanumeric, sanitize_loop, trim_left, trim_right, trim, size, prefix, sanitize_instance,
  instance_name, instance_fallback_name,
}

-- Every character is a letter, a digit or a hyphen.
abbrev pub is_label : String → Bool
is_label String.[] = true
is_label (String.◌∷◌ c s) = (is_alphanumeric (code c) || code c == b'-') && is_label s

label-if :
    (b : Bool) (s t : String)
    → is_label s ≡ true
    → is_label t ≡ true
    → is_label (if b then s else t) ≡ true
label-if true s t h k = h
label-if false s t h k = k

size-if :
    (b : Bool) (s t : String) (n : ℕ) → size s ≤ n → size t ≤ n → size (if b then s else t) ≤ n
size-if true s t n h k = h
size-if false s t n h k = k

sanitize_loop-label :
    (dash started : Bool) (s : String) → is_label (sanitize_loop dash started s) ≡ true
unfolding sanitize_loop
sanitize_loop-label dash started String.[] = refl
sanitize_loop-label dash started (String.◌∷◌ c s) = elim (Bool-cases (is_alphanumeric (code c))) [
  | inl e ↦ rw e (rw e (sanitize_loop-label _ _ s))
  | inr e ↦
      rw e
        (label-if (not dash && started) _ _ (sanitize_loop-label _ _ s) (sanitize_loop-label _ _ s))
]

module _ (c : Char) (s : String) (h : is_label (String.◌∷◌ c s) ≡ true) where
  label-tail : is_label s ≡ true
  label-tail = ground arith

  label-cons : (t : String) → is_label t ≡ true → is_label (String.◌∷◌ c t) ≡ true
  label-cons t k = ground arith

trim-label : (s : String) → is_label s ≡ true → is_label (trim s) ≡ true
unfolding trim trim_left trim_right
trim-label s h = right (trim_left s) (left s h)
  where
    left : (s : String) → is_label s ≡ true → is_label (trim_left s) ≡ true
    left String.[] h = refl
    left (String.◌∷◌ c s) h =
        label-if (code c == b'-') (trim_left s) (String.◌∷◌ c s) (left s (label-tail c s h)) h

    right : (s : String) → is_label s ≡ true → is_label (trim_right s) ≡ true
    right String.[] h = refl
    right (String.◌∷◌ c s) h =
        label-if (code c == b'-' && str_eq (trim_right s) "") "" (String.◌∷◌ c (trim_right s)) refl
          (label-cons c s h (trim_right s) (right s (label-tail c s h)))

trim-size : (s : String) → size (trim s) ≤ size s
unfolding trim trim_left trim_right size
trim-size s = omega (arith, right (trim_left s), left s)
  where
    left : (s : String) → size (trim_left s) ≤ size s
    left String.[] = omega arith
    left (String.◌∷◌ c s) =
        size-if (code c == b'-') (trim_left s) (String.◌∷◌ c s) _ (omega (arith, left s))
          (omega arith)

    right : (s : String) → size (trim_right s) ≤ size s
    right String.[] = omega arith
    right (String.◌∷◌ c s) =
        size-if (code c == b'-' && str_eq (trim_right s) "") "" (String.◌∷◌ c (trim_right s)) _
          (omega arith) (omega (arith, right s))

prefix-label : (n : ℕ) (s : String) → is_label s ≡ true → is_label (prefix n s) ≡ true
unfolding prefix
prefix-label zero s h = refl
prefix-label (suc n) String.[] h = refl
prefix-label (suc n) (String.◌∷◌ c s) h =
    label-cons c s h (prefix n s) (prefix-label n s (label-tail c s h))

prefix-size : (n : ℕ) (s : String) → size (prefix n s) ≤ n
unfolding prefix size
prefix-size zero s = omega arith
prefix-size (suc n) String.[] = omega arith
prefix-size (suc n) (String.◌∷◌ c s) = omega (arith, prefix-size n s)

-- A text cut to a length, where it is longer.
cut-size : (n : ℕ) (s t : String) → size t ≤ n → size (if ltb n (size s) then t else s) ≤ n
cut-size n s t h = elim (Bool-cases (ltb n (size s))) [
  | inl e ↦ rw e h
  | inr e ↦ rw e (ground arith)
]

sanitize_instance-size : (name : String) → size (sanitize_instance name) ≤ 40
unfolding sanitize_instance
sanitize_instance-size name =
    let s = trim (sanitize_loop false false name) in
    cut-size 40 s _ (omega (arith, trim-size (prefix 40 s), prefix-size 40 s))

sanitize_instance-label : (name : String) → is_label (sanitize_instance name) ≡ true
unfolding sanitize_instance
sanitize_instance-label name =
    let s = trim (sanitize_loop false false name) in
    let h = trim-label (sanitize_loop false false name) (sanitize_loop-label false false name) in
    label-if (ltb 40 (size s)) (trim (prefix 40 s)) s
      (trim-label (prefix 40 s) (prefix-label 40 s h)) h

append-label : (s t : String) → is_label s ≡ true → is_label t ≡ true → is_label (s ++ t) ≡ true
append-label String.[] t h k = rw append.nil k
append-label (String.◌∷◌ c s) t h k =
    rw (append.cons c s) (label-cons c s h (s ++ t) (append-label s t (label-tail c s h) k))

append-size : (s t : String) → size (s ++ t) ≡ size s + size t
unfolding size
append-size String.[] t = omega (arith, ap size (append.nil t))
append-size (String.◌∷◌ c s) t = rw (append.cons c s) (omega (arith, append-size s t))

-- The name of an instance has letters, digits and hyphens only, whatever the device is called, and
-- at most 49 of them; a DNS label holds 63.
instance_name_lem :
    (self : SelfDevice) → (is_label (instance_name self) ≡ true) × (size (instance_name self) ≤ 49)
unfolding instance_name size
instance_name_lem self = (
  label-if (str_eq suffix "") name (name ++ "-" ++ suffix) name-label
      (append-label name ("-" ++ suffix) name-label suffix-label),
  size-if (str_eq suffix "") name (name ++ "-" ++ suffix) 49 (omega (arith, name-size))
      (rw (append-size name) (omega (arith, name-size, suffix-size))),
)
  where
    name : String
    name =
        if str_eq (sanitize_instance self.name) ""
        then instance_fallback_name
        else sanitize_instance self.name

    id : String
    id = sanitize_instance self.id

    suffix : String
    suffix = if ltb 8 (size id) then prefix 8 id else id

    name-label : is_label name ≡ true
    name-label =
        label-if (str_eq (sanitize_instance self.name) "") instance_fallback_name
          (sanitize_instance self.name) refl (sanitize_instance-label self.name)

    suffix-label : is_label ("-" ++ suffix) ≡ true
    suffix-label = append-label "-" suffix refl (
        label-if (ltb 8 (size id)) (prefix 8 id) id
          (prefix-label 8 id (sanitize_instance-label self.id)) (sanitize_instance-label self.id))

    name-size : size name ≤ 40
    name-size =
        size-if (str_eq (sanitize_instance self.name) "") instance_fallback_name
          (sanitize_instance self.name) 40 (omega arith) (sanitize_instance-size self.name)

    suffix-size : size ("-" ++ suffix) ≤ 9
    suffix-size = rw (append-size "-") (omega (arith, cut-size 8 id _ (prefix-size 8 id)))
