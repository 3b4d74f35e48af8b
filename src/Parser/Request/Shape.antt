-- ===== src/Parser/Request/Shape.antt =====
-- The shape of what `parse_http_request` (src/parser.py) gives.
use custom_network_proxy_ser.Base.{
  ◌≡◌, refl, inl, inr, arith, false, List, [], ◌∷◌, Option-cases, All, if_pos, if_neg,
}
use custom_network_proxy_ser.Dict.{insert}
use custom_network_proxy_ser.Text.{Text, text_dec, has_char, lower, lower_char, split_once}
use custom_network_proxy_ser.Text.Trim.{has_char-strip, split_once-first}
use custom_network_proxy_ser.Parser.Request.{Headers, add_header, parse_headers}

-- The names of the headers have no colon.
abbrev pub NoColon : Headers → Type 0
NoColon headers = All (λ h. has_char b':' h.0 ≡ false) headers

pub colon-lower : (s : Text) → has_char b':' s ≡ false → has_char b':' (lower s) ≡ false
unfolding has_char lower lower_char
colon-lower [] h = refl
colon-lower (d ∷ s) h = ground (arith, colon-lower s)

insert-NoColon :
    (k v : Text) (headers : Headers)
    → has_char b':' k ≡ false
    → NoColon headers
    → NoColon (insert text_dec k v headers)
unfolding insert
insert-NoColon k v [] h hs = (h, tt)
insert-NoColon k v ((j, w) ∷ headers) h (b, bs) = elim (text_dec k j) [
  | yes e ↦ rw (if_pos (text_dec k j) e _ _) (h, bs)
  | no n ↦ rw (if_neg (text_dec k j) n _ _) (b, insert-NoColon k v headers h bs)
]

add_header-NoColon :
    (line : Text) (headers : Headers) → NoColon headers → NoColon (add_header line headers)
unfolding add_header
add_header-NoColon line headers h = elim (Option-cases (split_once b':' line)) [
  | inl e ↦ rw (e, add_header) h
  | inr ((key, value), e) ↦
      rw (e, add_header)
        (insert-NoColon _ _ headers
          (colon-lower _ (has_char-strip b':' key (split_once-first b':' line key value e))) h)
]

pub parse_headers-NoColon :
    (lines : List Text) (headers : Headers)
    → NoColon headers
    → NoColon (parse_headers lines headers)
unfolding parse_headers
parse_headers-NoColon [] headers h = h
parse_headers-NoColon (line ∷ lines) headers h =
    parse_headers-NoColon lines _ (add_header-NoColon line headers h)
