-- ===== src/Forwarder/Outbound/Kept.antt =====
-- The client's headers that src/forwarder.py passes on, as lines and as they are parsed again.
use custom_network_proxy_ser.Base.{
  ◌≡◌, refl, ap, ◌∙◌, Bool, true, false, ◌||◌, Option, none, some, [], ◌∷◌, map, All, ite,
  Bool-cases, inl, inr, if◌then◌else◌,
}
use custom_network_proxy_ser.Dict.{lookup, insert}
use custom_network_proxy_ser.Dict.Laws.{Distinct, lookup-insert}
use custom_network_proxy_ser.Text.{
  Text, codes, text_dec, same, has_char, lower, lstrip, strip, is_space,
}
use custom_network_proxy_ser.Text.Trim.{split_once-append}
use custom_network_proxy_ser.Parser.Request.{Headers, add_header, parse_headers}
use custom_network_proxy_ser.Parser.Request.Stored.{IsHeader}
use custom_network_proxy_ser.Forwarder.Outbound.{is_hop_by_hop, kept_headers, header_line}

strip_spaced : (v : Text) → strip (b' ' ∷ v) ≡ strip v
unfolding strip lstrip is_space
strip_spaced v = refl

-- What a line of a name and a value adds.
pub add_header-header_line :
    (key value : Text) (headers : Headers)
    → has_char b':' key ≡ false
    → add_header (header_line key value) headers
      ≡ insert text_dec (lower (strip key)) (strip value) headers
unfolding add_header
add_header-header_line key value headers h =
    rw (split_once-append b':' key (b' ' ∷ value) h, add_header, strip_spaced value) refl

abbrev pub line_of : Text × Text → Text
line_of (key, value) = header_line key value

-- The headers that are passed on as they are.
unfoldable pub kept_items : Headers → Headers
unfolding is_hop_by_hop
kept_items [] = []
kept_items ((key, value) ∷ headers) =
    let rest = kept_items headers in
    if is_hop_by_hop key || same key (codes "host") then rest else (key, value) ∷ rest

pub kept_headers-kept_items :
    (headers : Headers) → kept_headers headers ≡ map line_of (kept_items headers)
unfolding kept_headers kept_items
kept_headers-kept_items [] = refl
kept_headers-kept_items ((key, value) ∷ headers) =
    elim (Bool-cases (is_hop_by_hop key || same key (codes "host"))) [
      | inl e ↦ rw e (kept_headers-kept_items headers)
      | inr e ↦ rw e (ap (◌∷◌ (header_line key value)) (kept_headers-kept_items headers))
    ]

-- A header that is not passed on.
abbrev pub is_dropped : Text → Bool
is_dropped key = is_hop_by_hop key || same key (codes "host")

dropped_first :
    {P : Type 0} (d : Dec P) (b : Bool) (v : Text) (o : Option Text)
    → (P → b ≡ true)
    → (if b then none else o) ≡ (if b then none else ite d (some v) o)
dropped_first (yes p) b v o h = rw (h p) refl
dropped_first (no p) b v o h = refl

kept_first :
    {P : Type 0} (d : Dec P) (b : Bool) (v : Text) (o : Option Text)
    → (P → b ≡ false)
    → ite d (some v) (if b then none else o) ≡ (if b then none else ite d (some v) o)
kept_first (yes p) b v o h = rw (h p) refl
kept_first (no p) b v o h = refl

pub lookup-kept_items :
    (q : Text) (headers : Headers)
    → lookup text_dec q (kept_items headers)
      ≡ (if is_dropped q then none else lookup text_dec q headers)
unfolding lookup kept_items
lookup-kept_items q [] = elim (Bool-cases (is_dropped q)) [ inl e ↦ rw e refl | inr e ↦ rw e refl ]
lookup-kept_items q ((key, value) ∷ headers) =
    let same_test : q ≡ key → is_dropped q ≡ is_dropped key = λ p. ap is_dropped p in
    let rest = lookup text_dec q headers in
    elim (Bool-cases (is_dropped key)) [
      | inl e ↦ rw e (
          lookup-kept_items q headers
          ∙ dropped_first (text_dec q key) (is_dropped q) value rest (λ p. same_test p ∙ e))
      | inr e ↦ rw e (
          ap (ite (text_dec q key) (some value)) (lookup-kept_items q headers)
          ∙ kept_first (text_dec q key) (is_dropped q) value rest (λ p. same_test p ∙ e))
    ]

pub kept_items-Distinct :
    (headers : Headers) → Distinct text_dec headers → Distinct text_dec (kept_items headers)
unfolding kept_items
kept_items-Distinct [] h = tt
kept_items-Distinct ((key, value) ∷ headers) (fresh, h) =
    elim (Bool-cases (is_hop_by_hop key || same key (codes "host"))) [
      | inl e ↦ rw e (kept_items-Distinct headers h)
      | inr e ↦
          rw e (lookup-kept_items key headers ∙ rw (e, fresh) refl, kept_items-Distinct headers h)
    ]

pub kept_items-IsHeader :
    (headers : Headers) → All IsHeader headers → All IsHeader (kept_items headers)
unfolding kept_items
kept_items-IsHeader [] h = tt
kept_items-IsHeader ((key, value) ∷ headers) (k, h) =
    elim (Bool-cases (is_hop_by_hop key || same key (codes "host"))) [
      | inl e ↦ rw e (kept_items-IsHeader headers h)
      | inr e ↦ rw e (k, kept_items-IsHeader headers h)
    ]

abbrev pub or_else : Option Text → Option Text → Option Text
or_else none o = o
or_else (some v) o = some v

or_else-ite :
    {P : Type 0} (d : Dec P) (v : Text) (a b : Option Text)
    → (P → a ≡ none)
    → or_else a (ite d (some v) b) ≡ or_else (ite d (some v) a) b
or_else-ite (yes p) v a b h = rw (h p) refl
or_else-ite (no p) v none b h = refl
or_else-ite (no p) v (some w) b h = refl

pub lookup-parse_headers :
    (q : Text) (items headers : Headers)
    → All IsHeader items
    → Distinct text_dec items
    → lookup text_dec q (parse_headers (map line_of items) headers)
      ≡ or_else (lookup text_dec q items) (lookup text_dec q headers)
unfolding parse_headers
lookup-parse_headers q [] headers h s = unfold lookup in refl
lookup-parse_headers q ((key, value) ∷ items) headers (k, h) (fresh, s) =
    let added : add_header (header_line key value) headers ≡ insert text_dec key value headers =
      add_header-header_line key value headers k.no_colon ∙ rw (k.name, k.lowered, k.value) refl in
    ap (λ (hs : Headers). lookup text_dec q (parse_headers (map line_of items) hs)) added
    ∙ lookup-parse_headers q items (insert text_dec key value headers) h s
    ∙ ap (or_else (lookup text_dec q items)) (lookup-insert text_dec q key value headers)
    ∙ or_else-ite (text_dec q key) value (lookup text_dec q items) (lookup text_dec q headers)
        (λ p. ap (λ (t : Text). lookup text_dec t items) p ∙ fresh)
    ∙ ap (λ (o : Option Text). or_else o (lookup text_dec q headers)) (unfold lookup in refl)
