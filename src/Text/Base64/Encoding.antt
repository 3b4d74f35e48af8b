-- ===== src/Text/Base64/Encoding.antt =====
-- The base64 encoding of bytes, which a client applies, and its decoding.
use custom_network_proxy_ser.Base.{
  ℕ, ◌+◌, ◌-◌, ◌*◌, ◌/◌, ◌%◌, ◌<◌, ◌≡◌, refl, ap, ◌∙◌, arith, true, false, Option, none, some, [],
  ◌∷◌, All, ltb, ◌==◌, if◌then◌else◌,
}
use custom_network_proxy_ser.Text.{Text, is_space}
use custom_network_proxy_ser.Text.Codec.{Bytes}
use custom_network_proxy_ser.Text.Base64.{
  base64_value, Group, emit, next_group, prepend, base64_from, start, all_ascii, b64decode,
}

unfoldable pub letter : ℕ → ℕ
letter v =
    if ltb v 26
    then b'A' + v
    else if ltb v 52
    then b'a' + (v - 26)
    else if ltb v 62
    then b'0' + (v - 52)
    else if v == 62
    then b'+'
    else b'/'

-- `base64.b64encode`
unfoldable pub b64encode : Bytes → Text
unfolding letter
b64encode [] = []
b64encode (a ∷ []) = letter (a / 4) ∷ letter (a % 4 * 16) ∷ b'=' ∷ b'=' ∷ []
b64encode (a ∷ b ∷ []) =
    letter (a / 4) ∷ letter (a % 4 * 16 + b / 16) ∷ letter (b % 16 * 4) ∷ b'=' ∷ []
b64encode (a ∷ b ∷ c ∷ s) =
    letter (a / 4)
    ∷ letter (a % 4 * 16 + b / 16)
    ∷ letter (b % 16 * 4 + c / 64)
    ∷ letter (c % 64)
    ∷ b64encode s

base64_value-letter : (v : ℕ) → v < 64 → base64_value (letter v) ≡ v
unfolding base64_value letter
base64_value-letter v h = ground arith

letter_plain :
    (v : ℕ)
    → ((letter v == b'=') ≡ false) × (ltb (letter v) 128 ≡ true) × (is_space (letter v) ≡ false)
unfolding letter is_space
letter_plain v = (ground arith, ground arith, ground arith)

-- A letter is read into the group.
base64_from-letter :
    (g : Group) (v : ℕ) (s : Text)
    → v < 64
    → base64_from g (letter v ∷ s) ≡ prepend (emit g v) (base64_from (next_group g v) s)
unfolding base64_from
base64_from-letter g v s h =
    let value = base64_value-letter v h in
    let (pad, ascii, space) = letter_plain v in
    let small : ltb v 64 ≡ true = ground (arith, h) in rw (pad, value, small) refl

prepend_three :
    (x y z : ℕ) (r : Option Bytes)
    → prepend [] (prepend (x ∷ []) (prepend (y ∷ []) (prepend (z ∷ []) r)))
      ≡ prepend (x ∷ y ∷ z ∷ []) r
prepend_three x y z none = refl
prepend_three x y z (some s) = refl

base64_from_four :
    (u v w x : ℕ) (s : Text)
    → u < 64
    → v < 64
    → w < 64
    → x < 64
    → base64_from start (letter u ∷ letter v ∷ letter w ∷ letter x ∷ s)
      ≡ prepend
          ((u * 4 + v / 16) ∷ (v % 16 * 16 + w / 4) ∷ (w % 4 * 64 + x) ∷ [])
          (base64_from start s)
base64_from_four u v w x s hu hv hw hx =
    let g1 = next_group start u in
    let g2 = next_group g1 v in
    let g3 = next_group g2 w in
    base64_from-letter start u (letter v ∷ letter w ∷ letter x ∷ s) hu
    ∙ ap (prepend []) (base64_from-letter g1 v (letter w ∷ letter x ∷ s) hv)
    ∙ ap (λ r. prepend [] (prepend (emit g1 v) r)) (base64_from-letter g2 w (letter x ∷ s) hw)
    ∙ ap (λ r. prepend [] (prepend (emit g1 v) (prepend (emit g2 w) r)))
        (base64_from-letter g3 x s hx)
    ∙ prepend_three (u * 4 + v / 16) (v % 16 * 16 + w / 4) (w % 4 * 64 + x) (base64_from start s)

one_pad : (l : ℕ) → base64_from (record { left = l; place = 3; pads = 0 }) (b'=' ∷ []) ≡ some []
unfolding base64_from
one_pad l = refl

two_pads :
    (l : ℕ) → base64_from (record { left = l; place = 2; pads = 0 }) (b'=' ∷ b'=' ∷ []) ≡ some []
unfolding base64_from
two_pads l = refl

base64_from_three :
    (u v w : ℕ)
    → u < 64
    → v < 64
    → w < 64
    → base64_from start (letter u ∷ letter v ∷ letter w ∷ b'=' ∷ [])
      ≡ some ((u * 4 + v / 16) ∷ (v % 16 * 16 + w / 4) ∷ [])
base64_from_three u v w hu hv hw =
    let g1 = next_group start u in
    let g2 = next_group g1 v in
    base64_from-letter start u (letter v ∷ letter w ∷ b'=' ∷ []) hu
    ∙ ap (prepend []) (base64_from-letter g1 v (letter w ∷ b'=' ∷ []) hv)
    ∙ ap (λ r. prepend [] (prepend (emit g1 v) r)) (base64_from-letter g2 w (b'=' ∷ []) hw)
    ∙ ap (λ r. prepend [] (prepend (emit g1 v) (prepend (emit g2 w) r)))
        (one_pad (next_group g2 w).left)

base64_from_two :
    (u v : ℕ)
    → u < 64
    → v < 64
    → base64_from start (letter u ∷ letter v ∷ b'=' ∷ b'=' ∷ []) ≡ some ((u * 4 + v / 16) ∷ [])
base64_from_two u v hu hv =
    let g1 = next_group start u in
    base64_from-letter start u (letter v ∷ b'=' ∷ b'=' ∷ []) hu
    ∙ ap (prepend []) (base64_from-letter g1 v (b'=' ∷ b'=' ∷ []) hv)
    ∙ ap (λ r. prepend [] (prepend (emit g1 v) r)) (two_pads (next_group g1 v).left)

-- Every byte is below 256.
abbrev AreBytes : Bytes → Type 0
AreBytes = All (λ b. b < 256)

base64_from-b64encode : (s : Bytes) → AreBytes s → base64_from start (b64encode s) ≡ some s
unfolding b64encode
base64_from-b64encode [] h = unfold base64_from in refl
base64_from-b64encode (a ∷ []) (ha, h) =
    let first : a / 4 * 4 + a % 4 * 16 / 16 ≡ a = omega arith in
    base64_from_two (a / 4) (a % 4 * 16) (omega arith) (omega arith) ∙ rw first refl
base64_from-b64encode (a ∷ b ∷ []) (ha, (hb, h)) =
    let first : a / 4 * 4 + (a % 4 * 16 + b / 16) / 16 ≡ a = omega arith in
    let second : (a % 4 * 16 + b / 16) % 16 * 16 + b % 16 * 4 / 4 ≡ b = omega arith in
    base64_from_three (a / 4) (a % 4 * 16 + b / 16) (b % 16 * 4) (omega arith) (omega arith)
      (omega arith)
    ∙ rw (first, second) refl
base64_from-b64encode (a ∷ b ∷ c ∷ s) (ha, (hb, (hc, h))) =
    let first : a / 4 * 4 + (a % 4 * 16 + b / 16) / 16 ≡ a = omega arith in
    let second : (a % 4 * 16 + b / 16) % 16 * 16 + (b % 16 * 4 + c / 64) / 4 ≡ b = omega arith in
    let third : (b % 16 * 4 + c / 64) % 4 * 64 + c % 64 ≡ c = omega arith in
    base64_from_four (a / 4) (a % 4 * 16 + b / 16) (b % 16 * 4 + c / 64) (c % 64) (b64encode s)
      (omega arith) (omega arith) (omega arith) (omega arith)
    ∙ rw (first, second, third) (ap (prepend (a ∷ b ∷ c ∷ [])) (base64_from-b64encode s h))

letter_ascii : (v : ℕ) → ltb (letter v) 128 ≡ true
letter_ascii v = (letter_plain v).1

all_ascii-b64encode : (s : Bytes) → all_ascii (b64encode s) ≡ true
unfolding b64encode
all_ascii-b64encode [] = refl
all_ascii-b64encode (a ∷ []) = rw (letter_ascii (a / 4), letter_ascii (a % 4 * 16)) refl
all_ascii-b64encode (a ∷ b ∷ []) =
    rw (letter_ascii (a / 4), letter_ascii (a % 4 * 16 + b / 16), letter_ascii (b % 16 * 4)) refl
all_ascii-b64encode (a ∷ b ∷ c ∷ s) =
    rw
      (
        letter_ascii (a / 4),
        letter_ascii (a % 4 * 16 + b / 16),
        letter_ascii (b % 16 * 4 + c / 64),
        letter_ascii (c % 64),
      )
      (all_ascii-b64encode s)

-- Decoding what was encoded gives the bytes back.
pub b64decode-b64encode : (s : Bytes) → All (λ b. b < 256) s → b64decode (b64encode s) ≡ some s
unfolding b64decode
b64decode-b64encode s h = rw (all_ascii-b64encode s) (base64_from-b64encode s h)

-- The encoding of a byte and more starts with a character that is no white space.
pub b64encode_head :
    (a : ℕ) (s : Bytes) → (c : ℕ) × (t : Text) × (b64encode (a ∷ s) ≡ c ∷ t) × (is_space c ≡ false)
unfolding b64encode
b64encode_head a [] = (letter (a / 4), _, refl, (letter_plain (a / 4)).2)
b64encode_head a (b ∷ []) = (letter (a / 4), _, refl, (letter_plain (a / 4)).2)
b64encode_head a (b ∷ c ∷ s) = (letter (a / 4), _, refl, (letter_plain (a / 4)).2)
