-- ===== src/Config/Values.antt =====
-- `ConfigParser` of the standard library, on a file that it has read: `get` with a fallback, the
-- interpolation of `%(name)s`, and the conversions.
use custom_network_proxy_ser.Base.{
  ℕ, zero, suc, Bool, true, false, ◌||◌, Option, none, some, List, [], ◌∷◌, ◌++◌, ◌==◌,
  if◌then◌else◌, Result, ok, raise, ◌>>=◌,
}
use custom_network_proxy_ser.Text.{Text, codes, same, has_char, lower, text_dec}
use custom_network_proxy_ser.Text.Number.{ℤ, to_int}
use custom_network_proxy_ser.Dict.{lookup}

-- The options of each section, less those of the default section, which stand apart. Option names
-- are in lower case.
abbrev pub Options : Type 0
Options = List (Text × Text)

pub record Config : Type 0 where
  pub sections : List (Text × Options)
  pub defaults : Options

abbrev pub no_config : Config
no_config = record { sections = []; defaults = [] }

abbrev or_default : Option Text → Option Text → Option Text
or_default none o = o
or_default (some v) o = some v

abbrev pub option_of : Options → Options → Text → Option Text
option_of defaults options name =
    or_default (lookup text_dec name options) (lookup text_dec name defaults)

-- A value in pieces: characters, and names to be replaced.
pub data Piece : Type 0 where
  char : ℕ → Piece
  var : Text → Piece

-- In the text, after a `%`, within the parentheses, or after them.
pub data Place : Type 0 where
  outside : Place
  percent : Place
  within : Text → Place
  closed : Text → Place

abbrev add_piece : Piece → Result (List Piece) → Result (List Piece)
add_piece p raise = raise
add_piece p (ok ps) = ok (p ∷ ps)

-- What a character does between the parentheses; a name is not empty.
unfoldable pub pieces : Place → Text → Result (List Piece)
pieces outside [] = ok []
pieces percent [] = raise
pieces (within name) [] = raise
pieces (closed name) [] = raise
pieces outside (c ∷ s) =
    let after = pieces percent s in
    let rest = pieces outside s in if c == b'%' then after else add_piece (char c) rest
pieces percent (c ∷ s) =
    let rest = pieces outside s in
    let name = pieces (within []) s in
    if c == b'%' then add_piece (char b'%') rest else if c == b'(' then name else raise
pieces (within []) (c ∷ s) =
    let more = pieces (within (c ∷ [])) s in if c == b')' then raise else more
pieces (within (d ∷ name)) (c ∷ s) =
    let after = pieces (closed (d ∷ name)) s in
    let more = pieces (within (d ∷ name ++ c ∷ [])) s in if c == b')' then after else more
pieces (closed name) (c ∷ s) =
    let rest = pieces outside s in if c == b's' then add_piece (var name) rest else raise

abbrev join_results : Result Text → Result Text → Result Text
join_results (ok s) (ok t) = ok (s ++ t)
join_results _ _ = raise

-- The value of a name, expanded where it has a `%`.
abbrev replaced : (Text → Result Text) → Option Text → Result Text
replaced expand none = raise
replaced expand (some v) = if has_char b'%' v then expand v else ok v

abbrev pub expand_pieces : (Text → Option Text) → (Text → Result Text) → List Piece → Result Text
expand_pieces value expand [] = ok []
expand_pieces value expand (char c ∷ ps) =
    join_results (ok (c ∷ [])) (expand_pieces value expand ps)
expand_pieces value expand (var name ∷ ps) =
    join_results (replaced expand (value (lower name))) (expand_pieces value expand ps)

-- `BasicInterpolation`: nested as deep as the first argument says
unfoldable pub interpolate : ℕ → (Text → Option Text) → Text → Result Text
unfolding pieces
interpolate zero value s = raise
interpolate (suc depth) value s = pieces outside s >>= expand_pieces value (interpolate depth value)

abbrev pub max_depth : ℕ
max_depth = 10

abbrev pub found : (Text → Option Text) → Option Text → Result (Option Text)
unfolding interpolate
found value none = ok none
found value (some raw) = interpolate max_depth value raw >>= (λ v. ok (some v))

abbrev pub in_section : Options → Text → Option Options → Result (Option Text)
in_section defaults name none = ok none
in_section defaults name (some options) =
    found (option_of defaults options) (option_of defaults options name)

-- `config.get(section, option, fallback=...)`: `ok none` is the fallback
unfoldable pub get : Config → Text → Text → Result (Option Text)
unfolding interpolate
get config section name = in_section config.defaults name (lookup text_dec section config.sections)

abbrev pub converted : {A : Type 0} → Option A → Result A
converted none = raise
converted (some a) = ok a

abbrev pub convert : {A : Type 0} → A → (Text → Option A) → Option Text → Result A
convert fallback f none = ok fallback
convert fallback f (some s) = converted (f s)

unfoldable pub get_text : Config → Text → Text → Text → Result Text
unfolding get
get_text config section name fallback = get config section name >>= convert fallback some

-- `getint`
unfoldable pub get_int : Config → Text → Text → ℤ → Result ℤ
unfolding get to_int
get_int config section name fallback = get config section name >>= convert fallback to_int

abbrev one_of : Text → List Text → Bool
one_of s [] = false
one_of s (t ∷ ts) = same s t || one_of s ts

-- `BOOLEAN_STATES`
unfoldable pub to_boolean : Text → Option Bool
to_boolean s =
    if one_of (lower s) (codes "1" ∷ codes "yes" ∷ codes "true" ∷ codes "on" ∷ [])
    then some true
    else if one_of (lower s) (codes "0" ∷ codes "no" ∷ codes "false" ∷ codes "off" ∷ [])
    then some false
    else none

-- `getboolean`
unfoldable pub get_boolean : Config → Text → Text → Bool → Result Bool
unfolding get to_boolean
get_boolean config section name fallback = get config section name >>= convert fallback to_boolean

-- `getfloat`, with `float` as an argument
unfoldable pub get_float : {A : Type 0} → (Text → Option A) → Config → Text → Text → A → Result A
unfolding get
get_float to_float config section name fallback =
    get config section name >>= convert fallback to_float
