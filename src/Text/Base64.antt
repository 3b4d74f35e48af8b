-- ===== src/Text/Base64.antt =====
-- `base64.b64decode` of the standard library.
pub mod Encoding
use custom_network_proxy_ser.Base.{
  ℕ, zero, suc, ◌+◌, ◌-◌, ◌*◌, ◌/◌, ◌%◌, Bool, true, false, ◌&&◌, Option, none, some, List, [], ◌∷◌,
  ◌++◌, leb, ltb, ◌==◌, if◌then◌else◌,
}
use custom_network_proxy_ser.Text.{Text}
use custom_network_proxy_ser.Text.Codec.{Bytes, between}

-- The value of a base64 letter; 64 for any other byte.
unfoldable pub base64_value : ℕ → ℕ
base64_value c =
    if between b'A' b'Z' c
    then c - b'A'
    else if between b'a' b'z' c
    then c - b'a' + 26
    else if between b'0' b'9' c
    then c - b'0' + 52
    else if c == b'+'
    then 62
    else if c == b'/'
    then 63
    else 64

-- The bits that are waiting, how many letters of a group of four are read, and the `=` signs.
pub record Group : Type 0 where
  pub left : ℕ
  pub place : ℕ
  pub pads : ℕ

abbrev pub emit : Group → ℕ → Bytes
emit g v =
    if g.place == 0
    then []
    else if g.place == 1
    then (g.left * 4 + v / 16) ∷ []
    else if g.place == 2
    then (g.left * 16 + v / 4) ∷ []
    else (g.left * 64 + v) ∷ []

abbrev pub next_group : Group → ℕ → Group
next_group g v = record {
  left =
      if g.place == 0
      then v
      else if g.place == 1
      then v % 16
      else if g.place == 2
      then v % 4
      else 0;
  place = (g.place + 1) % 4;
  pads = 0;
}

abbrev pub prepend : Bytes → Option Bytes → Option Bytes
prepend out none = none
prepend out (some rest) = some (out ++ rest)

-- `binascii.a2b_base64`, not strict: other bytes are passed over, and enough padding ends the data.
unfoldable pub base64_from : Group → Bytes → Option Bytes
unfolding base64_value
base64_from g [] = if g.place == 0 then some [] else none
base64_from g (c ∷ s) =
    let v = base64_value c in
    let padded = c == b'=' && leb 2 g.place in
    let g' =
      if padded then record g { pads = g.pads + 1 } else if ltb v 64 then next_group g v else g in
    let rest = base64_from g' s in
    if padded && leb 4 (g.place + g.pads + 1)
    then some []
    else if c == b'='
    then rest
    else if ltb v 64
    then prepend (emit g v) rest
    else rest

abbrev pub start : Group
start = record { left = 0; place = 0; pads = 0 }

abbrev pub all_ascii : Text → Bool
all_ascii [] = true
all_ascii (c ∷ s) = ltb c 128 && all_ascii s

-- `base64.b64decode(s)`; `none` is an exception, as for text that is not ASCII
unfoldable pub b64decode : Text → Option Bytes
unfolding base64_from
b64decode s = if all_ascii s then base64_from start s else none
