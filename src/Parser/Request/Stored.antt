-- ===== src/Parser/Request/Stored.antt =====
-- The headers that `parse_http_request` (src/parser.py) stores are in the parser's own form.
use mathlib.Core.List.{reverse, reverse-cons}
use custom_network_proxy_ser.Base.{
  ℕ, ◌≡◌, refl, sym, ap, ◌∙◌, inl, inr, arith, false, List, [], ◌∷◌, ◌++◌, map, Option-cases, All,
  if_pos, if_neg,
}
use custom_network_proxy_ser.Dict.{insert}
use custom_network_proxy_ser.Dict.Laws.{Distinct, insert-Distinct}
use custom_network_proxy_ser.Text.{
  Text, text_dec, has_char, lower, lower_char, is_space, strip, split_once,
}
use custom_network_proxy_ser.Text.Laws.{lower_idem}
use custom_network_proxy_ser.Text.Trim.{
  IsTrimmed, head_ok, has_char-strip, strip-IsTrimmed, strip_fixed, split_once-first,
}
use custom_network_proxy_ser.Parser.Request.{Headers, add_header, parse_headers}
use custom_network_proxy_ser.Parser.Request.Shape.{colon-lower}

-- A header as the parser stores it.
pub record IsHeader (h : Text × Text) : Type 0 where
  pub no_colon : has_char b':' h.0 ≡ false
  pub lowered : lower h.0 ≡ h.0
  pub name : strip h.0 ≡ h.0
  pub value : strip h.1 ≡ h.1

is_space-lower_char : (c : ℕ) → is_space (lower_char c) ≡ is_space c
unfolding is_space lower_char
is_space-lower_char c = ground arith

head_ok-lower : (s : Text) → head_ok (lower s) ≡ head_ok s
unfolding lower
head_ok-lower [] = refl
head_ok-lower (c ∷ s) = rw (is_space-lower_char c) refl

map-append : (s t : Text) → map lower_char (s ++ t) ≡ map lower_char s ++ map lower_char t
map-append [] t = refl
map-append (c ∷ s) t = ap (◌∷◌ (lower_char c)) (map-append s t)

reverse-lower : (s : Text) → reverse (lower s) ≡ lower (reverse s)
unfolding lower
reverse-lower [] = refl
reverse-lower (c ∷ s) =
    reverse-cons (lower_char c) (map lower_char s)
    ∙ ap (λ (t : Text). t ++ lower_char c ∷ []) (reverse-lower s)
    ∙ sym (map-append (reverse s) (c ∷ []))
    ∙ ap (map lower_char) (sym (reverse-cons c s))

lower-IsTrimmed : (s : Text) → IsTrimmed s → IsTrimmed (lower s)
lower-IsTrimmed s h = record {
  start = head_ok-lower s ∙ h.start;
  end = ap head_ok (reverse-lower s) ∙ head_ok-lower (reverse s) ∙ h.end;
}

stored-IsHeader :
    (key value : Text) → has_char b':' key ≡ false → IsHeader (lower (strip key), strip value)
stored-IsHeader key value h = record {
  no_colon = colon-lower (strip key) (has_char-strip b':' key h);
  lowered = lower_idem (strip key);
  name = strip_fixed (lower (strip key)) (lower-IsTrimmed (strip key) (strip-IsTrimmed key));
  value = strip_fixed (strip value) (strip-IsTrimmed value);
}

insert-IsHeader :
    (k v : Text) (headers : Headers)
    → IsHeader (k, v)
    → All IsHeader headers
    → All IsHeader (insert text_dec k v headers)
unfolding insert
insert-IsHeader k v [] h hs = (h, tt)
insert-IsHeader k v ((j, w) ∷ headers) h (b, bs) = elim (text_dec k j) [
  | yes e ↦ rw (if_pos (text_dec k j) e _ _) (h, bs)
  | no n ↦ rw (if_neg (text_dec k j) n _ _) (b, insert-IsHeader k v headers h bs)
]

-- Every name is in lower case, trimmed and without a colon, every value is trimmed, and no name
-- stands twice.
abbrev pub AreStored : Headers → Type 0
AreStored headers = All IsHeader headers × Distinct text_dec headers

add_header-AreStored :
    (line : Text) (headers : Headers) → AreStored headers → AreStored (add_header line headers)
unfolding add_header
add_header-AreStored line headers (h, s) = elim (Option-cases (split_once b':' line)) [
  | inl e ↦ rw (e, add_header) (h, s)
  | inr ((key, value), e) ↦
      let k = lower (strip key) in
      let v = strip value in
      rw (e, add_header)
        (
          insert-IsHeader k v headers
              (stored-IsHeader key value (split_once-first b':' line key value e)) h,
          insert-Distinct text_dec k v headers s,
        )
]

parse_headers-AreStored_from :
    (lines : List Text) (headers : Headers)
    → AreStored headers
    → AreStored (parse_headers lines headers)
unfolding parse_headers
parse_headers-AreStored_from [] headers h = h
parse_headers-AreStored_from (line ∷ lines) headers h =
    parse_headers-AreStored_from lines (add_header line headers)
      (add_header-AreStored line headers h)

pub parse_headers-AreStored : (lines : List Text) → AreStored (parse_headers lines [])
parse_headers-AreStored lines = parse_headers-AreStored_from lines [] (tt, tt)
