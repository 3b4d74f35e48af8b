-- ===== src/Json/Objects.antt =====
-- A reader of objects of scalars, and what it gives of a dict that was dumped.
use custom_network_proxy_ser.Base.{
  ℕ, zero, suc, ◌+◌, ◌/◌, ◌%◌, ◌<◌, ◌≡◌, refl, ap, ◌∙◌, arith, Bool, true, false, ◌&&◌, ◌||◌,
  Option, none, some, List, [], ◌∷◌, ◌++◌, map, leb, ◌==◌, if◌then◌else◌, length, length-append,
}
use custom_network_proxy_ser.Text.{Text, span}
use custom_network_proxy_ser.Text.Number.{show, show_ℤ}
use custom_network_proxy_ser.Text.Every.{every, every-append, every-show, every-show_ℤ, span-append}
use custom_network_proxy_ser.LogSchema.{Value, text, int, tenths, Fields}
use custom_network_proxy_ser.Json.{
  object, members_of, quoted, dumps_value, dumps, dumps_more_members,
}
use custom_network_proxy_ser.Json.Strings.{read_string, read_string-quoted}

-- A value of a member: a string, or the literal of a number.
pub data Raw : Type 0 where
  string : Text → Raw
  literal : Text → Raw

abbrev in_number : ℕ → Bool
in_number c = (leb b'0' c && leb c b'9') || c == b'-' || c == b'.'

abbrev as_string : Option (Text × Text) → Option (Raw × Text)
as_string none = none
as_string (some (s, rest)) = some (string s, rest)

abbrev as_literal : Text × Text → Option (Raw × Text)
as_literal (w, rest) = some (literal w, rest)

unfoldable read_value : Text → Option (Raw × Text)
unfolding read_string
read_value [] = none
read_value (c ∷ s) =
    if c == b'"' then as_string (read_string (c ∷ s)) else as_literal (span in_number (c ∷ s))

abbrev with_key : Text → Option (Raw × Text) → Option ((Text × Raw) × Text)
with_key key none = none
with_key key (some (v, rest)) = some ((key, v), rest)

-- `: ` and the value
abbrev read_rest : Text → Text → Option ((Text × Raw) × Text)
read_rest key (c ∷ d ∷ s) = if c == b':' && d == b' ' then with_key key (read_value s) else none
read_rest key _ = none

abbrev read_keyed : Option (Text × Text) → Option ((Text × Raw) × Text)
read_keyed none = none
read_keyed (some (key, s)) = read_rest key s

unfoldable read_pair : Text → Option ((Text × Raw) × Text)
unfolding read_value read_string
read_pair s = read_keyed (read_string s)

abbrev cons_pair : Text × Raw → Option (List (Text × Raw)) → Option (List (Text × Raw))
cons_pair p none = none
cons_pair p (some ps) = some (p ∷ ps)

-- After a pair: the end of the object, which is the end of the text, or `, ` and more pairs.
abbrev go_on :
    (Text → Option (List (Text × Raw))) → Option ((Text × Raw) × Text) → Option (List (Text × Raw))
go_on more none = none
go_on more (some (p, [])) = none
go_on more (some (p, c ∷ [])) = if c == b'}' then some (p ∷ []) else none
go_on more (some (p, c ∷ d ∷ s)) = if c == b',' && d == b' ' then cons_pair p (more s) else none

-- As many pairs as the first argument says.
unfoldable read_pairs : ℕ → Text → Option (List (Text × Raw))
unfolding read_pair
read_pairs zero s = none
read_pairs (suc n) s = go_on (read_pairs n) (read_pair s)

-- The members of an object that is the whole text and has one, in their order.
unfoldable pub read_object : Text → Option (List (Text × Raw))
unfolding read_pairs
read_object [] = none
read_object (c ∷ s) = if c == b'{' then read_pairs (length s) s else none

abbrev pub raw : Value → Raw
unfolding dumps_value
raw (text s) = string s
raw (int n) = literal (show_ℤ n)
raw (tenths n) = literal (show (n / 10) ++ b'.' ∷ (b'0' + n % 10) ∷ [])

abbrev pub raw_pair : Text × Value → Text × Raw
raw_pair (key, v) = (key, raw v)

in_number_digit : (d : ℕ) → d < 10 → in_number (b'0' + d) ≡ true
in_number_digit d h = ground arith

-- A literal, before a character that no number has.
read_value_literal :
    (w : Text) (c : ℕ) (t : Text)
    → every in_number w ≡ true
    → in_number c ≡ false
    → (c == b'"') ≡ false
    → read_value (w ++ c ∷ t) ≡ some (literal w, c ∷ t)
unfolding read_value
read_value_literal [] c t h k q = rw q (ap as_literal (span-append in_number [] c t h k))
read_value_literal (d ∷ w) c t h k q =
    let other : (d == b'"') ≡ false = ground (arith, h) in
    rw other (ap as_literal (span-append in_number (d ∷ w) c t h k))

read_value_string :
    (s t : Text) → read_value (quoted s ++ t) ≡ as_string (read_string (quoted s ++ t))
unfolding read_value
read_value_string s t = refl

read_value-dumps_value :
    (v : Value) (c : ℕ) (t : Text)
    → in_number c ≡ false
    → (c == b'"') ≡ false
    → read_value (dumps_value v ++ c ∷ t) ≡ some (raw v, c ∷ t)
unfolding dumps_value
read_value-dumps_value (text s) c t k q =
    read_value_string s (c ∷ t) ∙ ap as_string (read_string-quoted s (c ∷ t))
read_value-dumps_value (int n) c t k q =
    read_value_literal (show_ℤ n) c t (every-show_ℤ in_number in_number_digit n refl) k q
read_value-dumps_value (tenths n) c t k q =
    read_value_literal (show (n / 10) ++ b'.' ∷ (b'0' + n % 10) ∷ []) c t
      (every-append in_number (show (n / 10)) (b'.' ∷ (b'0' + n % 10) ∷ [])
        (every-show in_number in_number_digit (n / 10))
        (ground (arith, in_number_digit (n % 10) (omega arith))))
      k q

read_rest_value : (key s : Text) → read_rest key (b':' ∷ b' ' ∷ s) ≡ with_key key (read_value s)
read_rest_value key s = refl

abbrev pair_text : Text → Value → Text → Text
pair_text key v rest = quoted key ++ b':' ∷ b' ' ∷ (dumps_value v ++ rest)

read_pair_text :
    (key : Text) (v : Value) (c : ℕ) (t : Text)
    → in_number c ≡ false
    → (c == b'"') ≡ false
    → read_pair (pair_text key v (c ∷ t)) ≡ some ((key, raw v), c ∷ t)
unfolding read_pair
read_pair_text key v c t k q =
    ap read_keyed (read_string-quoted key (b':' ∷ b' ' ∷ (dumps_value v ++ c ∷ t)))
    ∙ ap (with_key key) (read_value-dumps_value v c t k q)

abbrev after : Fields → Text
after fields = dumps_more_members (members_of fields)

after_cons :
    (key : Text) (v : Value) (fields : Fields)
    → after ((key, v) ∷ fields) ≡ b',' ∷ b' ' ∷ pair_text key v (after fields)
unfolding dumps_more_members
after_cons key v fields = refl

after_nil : after [] ≡ b'}' ∷ []
unfolding dumps_more_members
after_nil = refl

read_pairs_text :
    (n : ℕ) (key : Text) (v : Value) (fields : Fields)
    → length fields < n
    → read_pairs n (pair_text key v (after fields)) ≡ some (map raw_pair ((key, v) ∷ fields))
unfolding read_pairs
read_pairs_text zero key v fields h = absurd (omega arith)
read_pairs_text (suc n) key v [] h =
    ap (λ (t : Text). go_on (read_pairs n) (read_pair (pair_text key v t))) after_nil
    ∙ ap (go_on (read_pairs n)) (read_pair_text key v b'}' [] refl refl)
read_pairs_text (suc n) key v ((key', v') ∷ fields) h =
    let rest = pair_text key' v' (after fields) in
    ap (λ (t : Text). go_on (read_pairs n) (read_pair (pair_text key v t)))
      (after_cons key' v' fields)
    ∙ ap (go_on (read_pairs n)) (read_pair_text key v b',' (b' ' ∷ rest) refl refl)
    ∙ ap (cons_pair (key, raw v)) (read_pairs_text n key' v' fields (omega arith))

length-after : (fields : Fields) → length fields < length (after fields)
length-after [] = omega (arith, ap length after_nil)
length-after ((key, v) ∷ fields) = omega (
  arith,
  length-after fields,
  ap length (after_cons key v fields),
  length-append (quoted key) (b':' ∷ b' ' ∷ (dumps_value v ++ after fields)),
  length-append (dumps_value v) (after fields),
)

dumps_object :
    (key : Text) (v : Value) (fields : Fields)
    → dumps (object (members_of ((key, v) ∷ fields))) ≡ b'{' ∷ pair_text key v (after fields)
unfolding dumps
dumps_object key v fields = refl

-- Reading a dict that was dumped and that has a field gives its fields, in their order.
pub read_object-dumps :
    (key : Text) (v : Value) (fields : Fields)
    → read_object (dumps (object (members_of ((key, v) ∷ fields))))
      ≡ some (map raw_pair ((key, v) ∷ fields))
unfolding read_object
read_object-dumps key v fields =
    let body = pair_text key v (after fields) in
    let room : length fields < length body = omega (
      arith,
      length-after fields,
      length-append (quoted key) (b':' ∷ b' ' ∷ (dumps_value v ++ after fields)),
      length-append (dumps_value v) (after fields),
    ) in
    ap read_object (dumps_object key v fields) ∙ read_pairs_text (length body) key v fields room
