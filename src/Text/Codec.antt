-- ===== src/Text/Codec.antt =====
-- UTF-8 and hexadecimal.
use custom_network_proxy_ser.Base.{
  ℕ, zero, suc, ◌+◌, ◌-◌, ◌*◌, ◌/◌, ◌%◌, Bool, true, false, ◌&&◌, Option, none, some, List, [], ◌∷◌,
  ◌++◌, leb, ltb, ◌==◌, if◌then◌else◌,
}
use custom_network_proxy_ser.Text.{Text, is_byte_space}

abbrev pub Bytes : Type 0
Bytes = List ℕ

abbrev pub between : ℕ → ℕ → ℕ → Bool
between lo hi c = leb lo c && leb c hi

-- The code point that starts here, and how many bytes follow its first; `none` for an error.
unfoldable pub decode_one : Bytes → Option (ℕ × ℕ)
decode_one [] = none
decode_one (a ∷ s) = if ltb a 0x80 then some (a, 0) else two a s
  where
    cont : ℕ → Bool
    cont c = between 0x80 0xbf c

    four : ℕ → Bytes → Option (ℕ × ℕ)
    four a (b ∷ c ∷ d ∷ s) =
        if between (if a == 0xf0 then 0x90 else 0x80) (if a == 0xf4 then 0x8f else 0xbf) b
          && cont c
          && cont d
          && between 0xf0 0xf4 a
        then some ((((a - 0xf0) * 64 + (b - 0x80)) * 64 + (c - 0x80)) * 64 + (d - 0x80), 3)
        else none
    four a _ = none

    three : ℕ → Bytes → Option (ℕ × ℕ)
    three a (b ∷ c ∷ s) =
        if between 0xe0 0xef a
        then (if between (if a == 0xe0 then 0xa0 else 0x80) (if a == 0xed then 0x9f else 0xbf) b
              && cont c
            then some (((a - 0xe0) * 64 + (b - 0x80)) * 64 + (c - 0x80), 2)
            else none)
        else four a (b ∷ c ∷ s)
    three a _ = none

    two : ℕ → Bytes → Option (ℕ × ℕ)
    two a (b ∷ s) =
        if between 0xc2 0xdf a
        then (if cont b then some ((a - 0xc0) * 64 + (b - 0x80), 1) else none)
        else three a (b ∷ s)
    two a [] = none

-- `data.decode(errors="ignore")`; `skip` bytes belong to the code point before.
unfoldable pub decode_from : ℕ → Bytes → Text
unfolding decode_one
decode_from skip [] = []
decode_from (suc n) (b ∷ s) = decode_from n s
decode_from zero (b ∷ s) = elim (decode_one (b ∷ s)) [
  | none ↦ decode_from 0 s
  | some (c, n) ↦ c ∷ decode_from n s
]

unfoldable pub decode_ignore : Bytes → Text
unfolding decode_from
decode_ignore = decode_from 0

-- `data.decode("utf-8")`; `none` is the `UnicodeDecodeError`
unfoldable pub decode_strict_from : ℕ → Bytes → Option Text
unfolding decode_one
decode_strict_from skip [] = some []
decode_strict_from (suc n) (b ∷ s) = decode_strict_from n s
decode_strict_from zero (b ∷ s) = elim (decode_one (b ∷ s)) [
  | none ↦ none
  | some (c, n) ↦ elim (decode_strict_from n s) [ none ↦ none | some t ↦ some (c ∷ t) ]
]

unfoldable pub decode_strict : Bytes → Option Text
unfolding decode_strict_from
decode_strict = decode_strict_from 0

-- `s.encode()`
unfoldable pub encode_char : ℕ → Bytes
encode_char c =
    if ltb c 0x80
    then c ∷ []
    else if ltb c 0x800
    then (0xc0 + c / 64) ∷ (0x80 + c % 64) ∷ []
    else if ltb c 0x10000
    then (0xe0 + c / 4096) ∷ (0x80 + c / 64 % 64) ∷ (0x80 + c % 64) ∷ []
    else (0xf0 + c / 262144) ∷ (0x80 + c / 4096 % 64) ∷ (0x80 + c / 64 % 64) ∷ (0x80 + c % 64) ∷ []

unfoldable pub encode : Text → Bytes
unfolding encode_char
encode [] = []
encode (c ∷ s) = encode_char c ++ encode s

-- `data.hex()`
unfoldable pub hex_digit : ℕ → ℕ
hex_digit n = if ltb n 10 then b'0' + n else b'a' + (n - 10)

unfoldable pub hex : Bytes → Text
unfolding hex_digit
hex [] = []
hex (b ∷ s) = hex_digit (b / 16) ∷ hex_digit (b % 16) ∷ hex s

unfoldable pub hex_value : ℕ → Option ℕ
hex_value c =
    if between b'0' b'9' c
    then some (c - b'0')
    else if between b'a' b'f' c
    then some (c - b'a' + 10)
    else if between b'A' b'F' c
    then some (c - b'A' + 10)
    else none

abbrev pub byte_of : Option ℕ → Option ℕ → Option Bytes → Option Bytes
byte_of (some a) (some b) (some rest) = some ((a * 16 + b) ∷ rest)
byte_of _ _ _ = none

-- `bytes.fromhex(s)`; `none` is the `ValueError`
unfoldable pub from_hex : Text → Option Bytes
unfolding hex_value is_byte_space
from_hex [] = some []
from_hex (c ∷ []) = if is_byte_space c then some [] else none
from_hex (c ∷ d ∷ s) = elim (is_byte_space c) [
  | true ↦ from_hex (d ∷ s)
  | false ↦ byte_of (hex_value c) (hex_value d) (from_hex s)
]
