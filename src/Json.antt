-- ===== src/Json.antt =====
-- `json.dumps(value, ensure_ascii=False)` of the standard library, as src/logger.py and
-- src/dashboard.py call it. A float is a text, a whole number, or a count of thousandths.
pub mod Line
pub mod Strings
pub mod Objects
use custom_network_proxy_ser.Base.{
  ℕ, zero, suc, ◌+◌, ◌/◌, ◌%◌, Bool, true, false, ◌||◌, List, [], ◌∷◌, ◌++◌, ltb, ◌==◌,
  if◌then◌else◌,
}
use custom_network_proxy_ser.Text.{Text, codes}
use custom_network_proxy_ser.Text.Number.{ℤ, show, show_ℤ}
use custom_network_proxy_ser.Text.Codec.{hex_digit}
use custom_network_proxy_ser.LogSchema.{Value, text, int, tenths, Fields}

mutual
  pub data Json : Type 0 where
    scalar : Value → Json
    thousandths : ℕ → Json
    array : Items → Json
    object : Members → Json

  pub data Items : Type 0 where
    no_items : Items
    item : Json → Items → Items

  pub data Members : Type 0 where
    no_members : Members
    member : Text → Json → Members → Members

-- A dict of scalars, and lists.
abbrev pub members_of : Fields → Members
members_of [] = no_members
members_of ((key, value) ∷ fields) = member key (scalar value) (members_of fields)

abbrev pub items_of {ℓ} : {A : Type ℓ} → (A → Json) → List A → Items
items_of f [] = no_items
items_of f (x ∷ xs) = item (f x) (items_of f xs)

-- `\n` and the like, and `\u00XX` for the other control characters
unfoldable pub escape_char : ℕ → Text
unfolding hex_digit
escape_char c =
    if c == b'"' || c == b'\\'
    then b'\\' ∷ c ∷ []
    else if c == 10
    then b'\\' ∷ b'n' ∷ []
    else if c == 13
    then b'\\' ∷ b'r' ∷ []
    else if c == 9
    then b'\\' ∷ b't' ∷ []
    else if c == 12
    then b'\\' ∷ b'f' ∷ []
    else if c == 8
    then b'\\' ∷ b'b' ∷ []
    else if ltb c 32
    then b'\\' ∷ b'u' ∷ b'0' ∷ b'0' ∷ hex_digit (c / 16) ∷ hex_digit (c % 16) ∷ []
    else c ∷ []

unfoldable pub escape : Text → Text
unfolding escape_char
escape [] = []
escape (c ∷ s) = escape_char c ++ escape s

abbrev pub quoted : Text → Text
quoted s = b'"' ∷ (escape s ++ b'"' ∷ [])

-- The decimals of a float: no zero at their end, but one digit at least.
abbrev pub decimals : ℕ → Text
decimals n =
    if n % 100 == 0
    then (b'0' + n / 100) ∷ []
    else if n % 10 == 0
    then (b'0' + n / 100) ∷ (b'0' + n / 10 % 10) ∷ []
    else (b'0' + n / 100) ∷ (b'0' + n / 10 % 10) ∷ (b'0' + n % 10) ∷ []

unfoldable pub dumps_value : Value → Text
unfolding escape
dumps_value (text s) = quoted s
dumps_value (int n) = show_ℤ n
dumps_value (tenths n) = show (n / 10) ++ b'.' ∷ (b'0' + n % 10) ∷ []

unfoldable mutual
  unfolding dumps_value escape

  pub dumps : Json → Text
  dumps (scalar v) = dumps_value v
  dumps (thousandths n) = show (n / 1000) ++ b'.' ∷ decimals (n % 1000)
  dumps (array xs) = b'[' ∷ dumps_items xs
  dumps (object ms) = b'{' ∷ dumps_members ms

  pub dumps_items : Items → Text
  dumps_items no_items = b']' ∷ []
  dumps_items (item x xs) = dumps x ++ dumps_more xs

  pub dumps_more : Items → Text
  dumps_more no_items = b']' ∷ []
  dumps_more (item x xs) = b',' ∷ b' ' ∷ (dumps x ++ dumps_more xs)

  pub dumps_members : Members → Text
  dumps_members no_members = b'}' ∷ []
  dumps_members (member k x ms) = quoted k ++ b':' ∷ b' ' ∷ (dumps x ++ dumps_more_members ms)

  pub dumps_more_members : Members → Text
  dumps_more_members no_members = b'}' ∷ []
  dumps_more_members (member k x ms) =
      b',' ∷ b' ' ∷ (quoted k ++ b':' ∷ b' ' ∷ (dumps x ++ dumps_more_members ms))
