-- ===== src/Parser/Request/Unbroken.antt =====
-- The header values that `parse_http_request` (src/parser.py) stores have no line break.
use custom_network_proxy_ser.Base.{
  ◌≡◌, sym, ap, ◌∙◌, inl, inr, false, Option, none, some, List, [], ◌∷◌, Option-cases, All, if_pos,
  if_neg,
}
use custom_network_proxy_ser.Dict.{insert, lookup}
use custom_network_proxy_ser.Text.{Text, text_dec, lower, strip, split_once}
use custom_network_proxy_ser.Text.Breaks.{
  has_break, has_break-prefix, has_break-suffix, has_break-tail, has_break-lower, has_break-strip,
}
use custom_network_proxy_ser.Text.Trim.{split_once-whole}
use custom_network_proxy_ser.Parser.Request.{Headers, header, add_header, parse_headers}

abbrev pub NoBreak : Text → Type 0
NoBreak s = has_break s ≡ false

-- No line break in any name or value.
abbrev pub AreUnbroken : Headers → Type 0
AreUnbroken headers = All (λ h. NoBreak h.0 × NoBreak h.1) headers

insert-AreUnbroken :
    (k v : Text) (headers : Headers)
    → NoBreak k
    → NoBreak v
    → AreUnbroken headers
    → AreUnbroken (insert text_dec k v headers)
unfolding insert
insert-AreUnbroken k v [] hk hv hs = ((hk, hv), tt)
insert-AreUnbroken k v ((j, w) ∷ headers) hk hv (b, bs) = elim (text_dec k j) [
  | yes e ↦ rw (if_pos (text_dec k j) e _ _) ((hk, hv), bs)
  | no n ↦ rw (if_neg (text_dec k j) n _ _) (b, insert-AreUnbroken k v headers hk hv bs)
]

add_header-AreUnbroken :
    (line : Text) (headers : Headers)
    → NoBreak line
    → AreUnbroken headers
    → AreUnbroken (add_header line headers)
unfolding add_header
add_header-AreUnbroken line headers h hs = elim (Option-cases (split_once b':' line)) [
  | inl e ↦ rw (e, add_header) hs
  | inr ((key, value), e) ↦
      let parts = ap has_break (sym (split_once-whole b':' line key value e)) ∙ h in
      let tail = has_break-tail b':' value (has_break-suffix key (b':' ∷ value) parts) in
      rw (e, add_header)
        (insert-AreUnbroken (lower (strip key)) (strip value) headers
          (has_break-lower (strip key)
            (has_break-strip key (has_break-prefix key (b':' ∷ value) parts)))
          (has_break-strip value tail) hs)
]

pub parse_headers-AreUnbroken :
    (lines : List Text) (headers : Headers)
    → All NoBreak lines
    → AreUnbroken headers
    → AreUnbroken (parse_headers lines headers)
unfolding parse_headers
parse_headers-AreUnbroken [] headers h hs = hs
parse_headers-AreUnbroken (line ∷ lines) headers (h, h') hs =
    parse_headers-AreUnbroken lines (add_header line headers) h'
      (add_header-AreUnbroken line headers h hs)

-- A text that may be missing has no line break.
abbrev pub NoBreakIn : Option Text → Type 0
NoBreakIn none = Unit
NoBreakIn (some s) = NoBreak s

lookup-NoBreakIn :
    (q : Text) (headers : Headers) → AreUnbroken headers → NoBreakIn (lookup text_dec q headers)
unfolding lookup
lookup-NoBreakIn q [] h = tt
lookup-NoBreakIn q ((k, v) ∷ headers) ((_, h), hs) = elim (text_dec q k) [
  | yes e ↦ rw (if_pos (text_dec q k) e _ _) h
  | no n ↦ rw (if_neg (text_dec q k) n _ _) (lookup-NoBreakIn q headers hs)
]

not_empty-NoBreakIn :
    (o : Option Text)
    → NoBreakIn o
    → NoBreakIn (elim o [ none ↦ none | some [] ↦ none | some (c ∷ v) ↦ some (c ∷ v) ])
not_empty-NoBreakIn none h = tt
not_empty-NoBreakIn (some []) h = tt
not_empty-NoBreakIn (some (c ∷ v)) h = h

pub header-NoBreakIn :
    (q : Text) (headers : Headers) → AreUnbroken headers → NoBreakIn (header q headers)
unfolding header
header-NoBreakIn q headers h =
    not_empty-NoBreakIn (lookup text_dec q headers) (lookup-NoBreakIn q headers h)
