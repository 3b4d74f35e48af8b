-- ===== src/Config/Plain.antt =====
-- Values as they are read: those with no `%`, and those that refer to themselves.
use custom_network_proxy_ser.Base.{
  ℕ, suc, ◌≡◌, refl, ap, ◌∙◌, arith, false, Option, some, [], ◌∷◌, map, ◌==◌, Result, ok, ◌>>=◌,
}
use custom_network_proxy_ser.Text.{Text, has_char, text_dec}
use custom_network_proxy_ser.Text.Number.{ℤ, to_int}
use custom_network_proxy_ser.Dict.{lookup}
use custom_network_proxy_ser.Config.Values.{
  Config, Options, option_of, char, outside, pieces, expand_pieces, interpolate, found, in_section,
  converted, convert, get, get_int,
}

pieces_plain : (s : Text) → has_char b'%' s ≡ false → pieces outside s ≡ ok (map char s)
unfolding has_char pieces
pieces_plain [] h = refl
pieces_plain (c ∷ s) h =
    let other : (c == b'%') ≡ false = ground (arith, h) in
    rw (other, pieces_plain s (ground (arith, h))) refl

expand_plain :
    (value : Text → Option Text) (expand : Text → Result Text) (s : Text)
    → expand_pieces value expand (map char s) ≡ ok s
expand_plain value expand [] = refl
expand_plain value expand (c ∷ s) = rw (expand_plain value expand s) refl

-- A value with no `%` is itself.
interpolate_plain :
    (depth : ℕ) (value : Text → Option Text) (s : Text)
    → has_char b'%' s ≡ false
    → interpolate (suc depth) value s ≡ ok s
unfolding interpolate
interpolate_plain depth value s h =
    rw (pieces_plain s h) (expand_plain value (interpolate depth value) s)

get_plain :
    (config : Config) (section name raw : Text) (options : Options)
    → lookup text_dec section config.sections ≡ some options
    → option_of config.defaults options name ≡ some raw
    → has_char b'%' raw ≡ false
    → get config section name ≡ ok (some raw)
unfolding get
get_plain config section name raw options hs ho h =
    ap (in_section config.defaults name) hs
    ∙ ap (found (option_of config.defaults options)) ho
    ∙ ap (λ (r : Result Text). r >>= (λ v. ok (some v)))
        (interpolate_plain 9 (option_of config.defaults options) raw h)

-- An option of a whole number is the number that its text stands for, whatever the fallback.
pub get_int_plain :
    (config : Config) (section name raw : Text) (options : Options) (fallback n : ℤ)
    → lookup text_dec section config.sections ≡ some options
    → option_of config.defaults options name ≡ some raw
    → has_char b'%' raw ≡ false
    → to_int raw ≡ some n
    → get_int config section name fallback ≡ ok n
unfolding get_int
get_int_plain config section name raw options fallback n hs ho h hn =
    ap (λ (r : Result (Option Text)). r >>= convert fallback to_int)
      (get_plain config section name raw options hs ho h)
    ∙ ap converted hn
