-- ===== src/IpAddress.antt =====
-- What src/filter.py uses of Python's `ipaddress`: addresses and networks of both versions, parsed
-- from text. An address with a scope (`fe80::1%eth0`) is read without it, since membership in a
-- network looks at the number alone.
pub mod Range
use mathlib.Core.List.{reverse}
use custom_network_proxy_ser.Base.{
  ℕ, zero, suc, ◌+◌, ◌-◌, ◌*◌, ◌/◌, ◌%◌, ◌^◌, Bool, true, false, ◌&&◌, ◌||◌, not, Option, none,
  some, List, [], ◌∷◌, ◌++◌, leb, ltb, ◌==◌, if◌then◌else◌, length, take, drop,
}
use custom_network_proxy_ser.Text.{Text, split_char, has_char, split_once, codes}
use custom_network_proxy_ser.Text.Number.{is_digit}

pub data Version : Type 0 where
  v4 v6 : Version

abbrev pub width : Version → ℕ
width v4 = 32
width v6 = 128

pub record Address : Type 0 where
  pub version : Version
  pub ip : ℕ

-- `network` has its host bits cleared.
pub record Network : Type 0 where
  pub version : Version
  pub network : ℕ
  pub prefix : ℕ

abbrev same_version : Version → Version → Bool
same_version v4 v4 = true
same_version v6 v6 = true
same_version _ _ = false

-- `ip & netmask`, for a mask of `prefix` ones
unfoldable pub masked : Version → ℕ → ℕ → ℕ
masked v prefix ip = ip / 2 ^ (width v - prefix) * 2 ^ (width v - prefix)

-- `addr in network`
unfoldable pub contains : Network → Address → Bool
unfolding masked
contains n a = same_version n.version a.version && masked n.version n.prefix a.ip == n.network

-- Digits of a base up to sixteen.
digit_value : ℕ → Option ℕ
digit_value c =
    if leb b'0' c && leb c b'9'
    then some (c - b'0')
    else if leb b'a' c && leb c b'f'
    then some (c - b'a' + 10)
    else if leb b'A' c && leb c b'F'
    then some (c - b'A' + 10)
    else none

value_from : ℕ → ℕ → Text → Option ℕ
unfolding digit_value
value_from base acc [] = some acc
value_from base acc (c ∷ s) = elim (digit_value c) [
  | none ↦ none
  | some d ↦ if ltb d base then value_from base (acc * base + d) s else none
]

-- `_parse_octet`: up to three digits, no leading zero, at most 255
parse_octet : Text → Option ℕ
unfolding value_from
parse_octet [] = none
parse_octet (c ∷ s) =
    if leb (length s) 2 && (not (c == b'0') || length s == 0)
    then elim (value_from 10 0 (c ∷ s)) [
      | none ↦ none
      | some n ↦ if leb n 255 then some n else none
    ]
    else none

abbrev quad : Option ℕ → Option ℕ → Option ℕ → Option ℕ → Option ℕ
quad (some a) (some b) (some c) (some d) = some (((a * 256 + b) * 256 + c) * 256 + d)
quad _ _ _ _ = none

abbrev four_octets : List Text → Option ℕ
four_octets (a ∷ b ∷ c ∷ d ∷ []) =
    quad (parse_octet a) (parse_octet b) (parse_octet c) (parse_octet d)
four_octets _ = none

-- `IPv4Address(s)`
unfoldable pub parse_v4 : Text → Option ℕ
unfolding parse_octet split_char
parse_v4 s = four_octets (split_char b'.' s)

-- `_parse_hextet`; an empty one is refused by `int`
parse_hextet : Text → Option ℕ
unfolding value_from
parse_hextet s = if leb (length s) 4 && not (length s == 0) then value_from 16 0 s else none

-- The number of a run of 16-bit groups, and how many there are.
groups_from : ℕ → ℕ → List Text → Option (ℕ × ℕ)
unfolding parse_hextet
groups_from acc n [] = some (acc, n)
groups_from acc n (p ∷ ps) = elim (parse_hextet p) [
  | none ↦ none
  | some v ↦ groups_from (acc * 65536 + v) (n + 1) ps
]

abbrev joined : Option (ℕ × ℕ) → Option (ℕ × ℕ) → Option ℕ
joined (some (hi, m)) (some (lo, n)) =
    if ltb (m + n) 8 then some (hi * 2 ^ (16 * (8 - m)) + lo) else none
joined _ _ = none

abbrev all_groups : Option (ℕ × ℕ) → Option ℕ
all_groups none = none
all_groups (some (v, n)) = if n == 8 then some v else none

-- The groups before the first `::` and those after it.
split_gap : List Text → Option (List Text × List Text)
split_gap [] = none
split_gap ([] ∷ ps) = some ([], ps)
split_gap (p ∷ ps) = elim (split_gap ps) [ none ↦ none | some (a, b) ↦ some (p ∷ a, b) ]

-- An empty group at the very start or end belongs to the `::` beside it.
abbrev gapped : Option (List Text × List Text) → List Text → Option ℕ
gapped none ps = all_groups (groups_from 0 0 ps)
gapped (some ([], [] ∷ [] ∷ [])) ps = joined (some (0, 0)) (some (0, 0))
gapped (some ([], [] ∷ lo)) ps = joined (some (0, 0)) (groups_from 0 0 lo)
gapped (some ([], lo)) ps = none
gapped (some (hi, [] ∷ [])) ps = joined (groups_from 0 0 hi) (some (0, 0))
gapped (some (hi, [])) ps = none
gapped (some (hi, lo)) ps = joined (groups_from 0 0 hi) (groups_from 0 0 lo)

-- The groups of the text, with a dotted tail turned into two of them.
abbrev hex_of : ℕ → Text
hex_of n =
    hex_char (n / 4096) ∷ hex_char (n / 256 % 16) ∷ hex_char (n / 16 % 16) ∷ hex_char (n % 16) ∷ []
  where
    hex_char : ℕ → ℕ
    hex_char d = if ltb d 10 then b'0' + d else b'a' + (d - 10)

dotted_tail : List Text → Option (List Text)
unfolding parse_v4
dotted_tail [] = some []
dotted_tail (p ∷ []) =
    if has_char b'.' p
    then elim (parse_v4 p) [
      | none ↦ none
      | some v ↦ some (hex_of (v / 65536) ∷ hex_of (v % 65536) ∷ [])
    ]
    else some (p ∷ [])
dotted_tail (p ∷ q ∷ ps) = elim (dotted_tail (q ∷ ps)) [ none ↦ none | some r ↦ some (p ∷ r) ]

-- `_split_scope_id`
abbrev without_scope : Text → Option Text
without_scope s = elim (split_once b'%' s) [
  | none ↦ some s
  | some (a, []) ↦ none
  | some (a, c ∷ scope) ↦ if has_char b'%' (c ∷ scope) then none else some a
]

unfoldable pub parse_v6 : Text → Option ℕ
unfolding dotted_tail split_gap groups_from split_char split_once has_char
parse_v6 s = elim (without_scope s) [
  | none ↦ none
  | some t ↦
      if leb 3 (length (split_char b':' t))
      then elim (dotted_tail (split_char b':' t)) [
        | none ↦ none
        | some ps ↦ if leb (length ps) 9 then gapped (split_gap ps) ps else none
      ]
      else none
]

-- `ip_address(s)`; `none` is the `ValueError`
unfoldable pub ip_address : Text → Option Address
unfolding parse_v4 parse_v6
ip_address s = elim (parse_v4 s) [
  | some n ↦ some (record { version = v4; ip = n })
  | none ↦ elim (parse_v6 s) [ some n ↦ some (record { version = v6; ip = n }) | none ↦ none ]
]

-- A prefix length in decimal digits.
abbrev prefix_length : ℕ → Text → Option ℕ
prefix_length most [] = none
prefix_length most (c ∷ s) = elim (value_from 10 0 (c ∷ s)) [
  | none ↦ none
  | some n ↦ if leb n most then some n else none
]

-- The length of an IPv4 netmask.
mask_length : ℕ → ℕ → Option ℕ
mask_length zero m = none
mask_length (suc p) m =
    let rest = mask_length p m in if m == 2 ^ 32 - 2 ^ (32 - p) then some p else rest

-- A netmask, or else a host mask.
abbrev either_mask : ℕ → Option ℕ
either_mask m = elim (mask_length 33 m) [ some p ↦ some p | none ↦ mask_length 33 (2 ^ 32 - 1 - m) ]

abbrev v4_mask : Text → Option ℕ
v4_mask s = elim (prefix_length 32 s) [
  | some p ↦ some p
  | none ↦ elim (parse_v4 s) [ none ↦ none | some m ↦ either_mask m ]
]

abbrev network_of : Version → Option ℕ → Option ℕ → Option Network
network_of v (some ip) (some p) = some (record { version = v; network = masked v p ip; prefix = p })
network_of v _ _ = none

-- the address and the mask of `_split_addr_prefix`; more than one slash is refused
abbrev network_parts : List Text → Option Network
network_parts (a ∷ []) = elim (network_of v4 (parse_v4 a) (some 32)) [
  | some n ↦ some n
  | none ↦ network_of v6 (parse_v6 a) (some 128)
]
network_parts (a ∷ m ∷ []) = elim (network_of v4 (parse_v4 a) (v4_mask m)) [
  | some n ↦ some n
  | none ↦ network_of v6 (parse_v6 a) (prefix_length 128 m)
]
network_parts _ = none

-- `ip_network(s, strict=False)`; `none` is the `ValueError`
unfoldable pub ip_network : Text → Option Network
unfolding parse_v4 parse_v6 value_from mask_length masked split_char
ip_network s = network_parts (split_char b'/' s)
