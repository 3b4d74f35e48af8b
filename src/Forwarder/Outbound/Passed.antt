-- ===== src/Forwarder/Outbound/Passed.antt =====
-- The headers that a server reads from the outbound request of src/forwarder.py.
use mathlib.Core.Path.{subst}
use custom_network_proxy_ser.Base.{
  ◌≡◌, refl, sym, ap, ◌∙◌, false, Option, none, some, List, [], ◌∷◌, ◌++◌, ite, Bool-cases, inl,
  inr, if◌then◌else◌,
}
use custom_network_proxy_ser.Dict.{lookup}
use custom_network_proxy_ser.Dict.Laws.{lookup-insert}
use custom_network_proxy_ser.Text.{Text, codes, text_dec, has_char, lower, strip}
use custom_network_proxy_ser.Text.Number.{ℤ, show_ℤ}
use custom_network_proxy_ser.Parser.Request.{Parsed, Headers, header, add_header, parse_headers}
use custom_network_proxy_ser.Parser.Request.Stored.{AreStored, parse_headers-AreStored}
use custom_network_proxy_ser.Forwarder.Outbound.{
  kept_headers, header_line, host_line, forwarded_for, out_headers, default_port,
}
use custom_network_proxy_ser.Forwarder.Outbound.Kept.{
  kept_items, is_dropped, or_else, add_header-header_line, kept_headers-kept_items,
  lookup-kept_items, kept_items-Distinct, kept_items-IsHeader, lookup-parse_headers,
}

parse_headers-append :
    (a b : List Text) (headers : Headers)
    → parse_headers (a ++ b) headers ≡ parse_headers b (parse_headers a headers)
unfolding parse_headers
parse_headers-append [] b headers = refl
parse_headers-append (line ∷ a) b headers = parse_headers-append a b (add_header line headers)

-- The value of `Host`, and that of `X-Forwarded-For`, if it is sent.
unfoldable pub host_value : Text → ℤ → Text
host_value host port = if default_port port then host else host ++ b':' ∷ show_ℤ port

unfoldable pub forwarded_value : Option Text → Option Text → Option Text
forwarded_value (some (c ∷ ip)) (some xff) = some (xff ++ codes ", " ++ (c ∷ ip))
forwarded_value (some (c ∷ ip)) none = some (c ∷ ip)
forwarded_value _ o = o

abbrev in_case : {P : Type 0} → Dec P → Option Text → Option Text → Option Text
in_case d none o = o
in_case d (some v) o = ite d (some (strip v)) o

-- What a server is meant to read under a name: the proxy's own headers first, then what was kept.
unfoldable pub meant : Parsed → Text → Option Text
unfolding forwarded_value host_value
meant p q = ite (text_dec q (codes "via")) (some (codes "1.1 proxy")) (
    in_case (text_dec q (codes "x-forwarded-for"))
      (forwarded_value p.client_ip (header (codes "x-forwarded-for") p.headers))
      (ite (text_dec q (codes "connection")) (some (codes "close")) (
        or_else (if is_dropped q then none else lookup text_dec q p.headers)
          (ite (text_dec q (codes "host")) (some (strip (host_value p.host p.port))) none))))

lookup-own :
    (q key value k v : Text) (headers : Headers)
    → has_char b':' key ≡ false
    → lower (strip key) ≡ k
    → strip value ≡ v
    → lookup text_dec q (add_header (header_line key value) headers)
      ≡ ite (text_dec q k) (some v) (lookup text_dec q headers)
lookup-own q key value k v headers h ek ev =
    ap (lookup text_dec q) (add_header-header_line key value headers h ∙ rw (ek, ev) refl)
    ∙ lookup-insert text_dec q k v headers

own_names :
    (lower (strip (codes "Host")) ≡ codes "host")
    × (lower (strip (codes "Connection")) ≡ codes "connection")
    × (lower (strip (codes "X-Forwarded-For")) ≡ codes "x-forwarded-for")
    × (lower (strip (codes "Via")) ≡ codes "via")
unfolding codes strip lower
own_names = (refl, refl, refl, refl)

host_line_value :
    (host : Text) (port : ℤ)
    → host_line host port ≡ header_line (codes "Host") (host_value host port)
unfolding host_line host_value
host_line_value host port = elim (Bool-cases (default_port port)) [
  | inl e ↦ rw e refl
  | inr e ↦ rw e refl
]

own_no_colon :
    (has_char b':' (codes "Host") ≡ false)
    × (has_char b':' (codes "Connection") ≡ false)
    × (has_char b':' (codes "X-Forwarded-For") ≡ false)
    × (has_char b':' (codes "Via") ≡ false)
unfolding codes has_char
own_no_colon = (refl, refl, refl, refl)

own_forwarded :
    (q value : Text) (headers : Headers)
    → lookup text_dec q (add_header (header_line (codes "X-Forwarded-For") value) headers)
      ≡ ite (text_dec q (codes "x-forwarded-for")) (some (strip value)) (lookup text_dec q headers)
own_forwarded q value headers =
    lookup-own q (codes "X-Forwarded-For") value (codes "x-forwarded-for") (strip value) headers
      own_no_colon.2 own_names.2 refl

lookup-forwarded_for :
    (q : Text) (ip xff : Option Text) (headers : Headers)
    → lookup text_dec q (parse_headers (forwarded_for ip xff) headers)
      ≡ in_case
          (text_dec q (codes "x-forwarded-for"))
          (forwarded_value ip xff)
          (lookup text_dec q headers)
unfolding parse_headers forwarded_value
lookup-forwarded_for q (some (c ∷ ip)) (some xff) headers =
    own_forwarded q (xff ++ codes ", " ++ (c ∷ ip)) headers
lookup-forwarded_for q (some (c ∷ ip)) none headers = own_forwarded q (c ∷ ip) headers
lookup-forwarded_for q (some []) (some xff) headers = own_forwarded q xff headers
lookup-forwarded_for q (some []) none headers = refl
lookup-forwarded_for q none (some xff) headers = own_forwarded q xff headers
lookup-forwarded_for q none none headers = refl

close_and_via :
    (strip (codes "close") ≡ codes "close") × (strip (codes "1.1 proxy") ≡ codes "1.1 proxy")
unfolding codes strip
close_and_via = (refl, refl)

-- The lines in three parts: the host and what is kept, the connection and the forwarding, `Via`.
parse_headers-out_headers :
    (p : Parsed)
    → parse_headers (out_headers p) []
      ≡ add_header (header_line (codes "Via") (codes "1.1 proxy")) (
          parse_headers (forwarded_for p.client_ip (header (codes "x-forwarded-for") p.headers)) (
            add_header
              (header_line (codes "Connection") (codes "close"))
              (parse_headers (kept_headers p.headers) (add_header (host_line p.host p.port) []))))
unfolding out_headers parse_headers
parse_headers-out_headers p =
    let first = host_line p.host p.port ∷ kept_headers p.headers in
    let second =
      header_line (codes "Connection") (codes "close")
      ∷ forwarded_for p.client_ip (header (codes "x-forwarded-for") p.headers) in
    let via = header_line (codes "Via") (codes "1.1 proxy") ∷ [] in
    parse_headers-append (first ++ second) via []
    ∙ ap (parse_headers via) (parse_headers-append first second [])

lookup-kept :
    (q : Text) (p : Parsed)
    → AreStored p.headers
    → lookup text_dec q
        (parse_headers (kept_headers p.headers) (add_header (host_line p.host p.port) []))
      ≡ or_else
          (if is_dropped q then none else lookup text_dec q p.headers)
          (ite (text_dec q (codes "host")) (some (strip (host_value p.host p.port))) none)
lookup-kept q p (h, s) =
    let start = add_header (host_line p.host p.port) [] in
    ap (λ (ls : List Text). lookup text_dec q (parse_headers ls start))
      (kept_headers-kept_items p.headers)
    ∙ lookup-parse_headers q (kept_items p.headers) start (kept_items-IsHeader p.headers h)
        (kept_items-Distinct p.headers s)
    ∙ ap (λ (o : Option Text). or_else o (lookup text_dec q start)) (lookup-kept_items q p.headers)
    ∙ ap (or_else (if is_dropped q then none else lookup text_dec q p.headers)) (
        ap (λ (l : Text). lookup text_dec q (add_header l [])) (host_line_value p.host p.port)
        ∙ lookup-own q (codes "Host") (host_value p.host p.port) (codes "host")
            (strip (host_value p.host p.port)) [] own_no_colon.0 own_names.0 refl
        ∙ ap (ite (text_dec q (codes "host")) (some (strip (host_value p.host p.port))))
            (unfold lookup in refl))

-- The headers of the outbound request, parsed as the proxy parses its own: under each name stands
-- the proxy's header of that name, or else what the client sent, less the hop-by-hop headers and
-- the client's `Host`. The client's headers are those that the parser reads from some lines.
pub lookup-out_headers :
    (q : Text) (lines : List Text) (p : Parsed)
    → p.headers ≡ parse_headers lines []
    → lookup text_dec q (parse_headers (out_headers p) []) ≡ meant p q
unfolding meant
lookup-out_headers q lines p read =
    let stored : AreStored p.headers = subst AreStored (sym read) (parse_headers-AreStored lines) in
    let xff = header (codes "x-forwarded-for") p.headers in
    let kept = parse_headers (kept_headers p.headers) (add_header (host_line p.host p.port) []) in
    let closing = add_header (header_line (codes "Connection") (codes "close")) kept in
    let forwarding = parse_headers (forwarded_for p.client_ip xff) closing in
    let own_via = ite (text_dec q (codes "via")) (some (codes "1.1 proxy")) in
    let own_xff =
      in_case (text_dec q (codes "x-forwarded-for")) (forwarded_value p.client_ip xff) in
    ap (lookup text_dec q) (parse_headers-out_headers p)
    ∙ lookup-own q (codes "Via") (codes "1.1 proxy") (codes "via") (codes "1.1 proxy") forwarding
        own_no_colon.3 own_names.3 close_and_via.1
    ∙ ap own_via (lookup-forwarded_for q p.client_ip xff closing)
    ∙ ap (λ (o : Option Text). own_via (own_xff o))
        (lookup-own q (codes "Connection") (codes "close") (codes "connection") (codes "close") kept
            own_no_colon.1 own_names.1 close_and_via.0
          ∙ ap (ite (text_dec q (codes "connection")) (some (codes "close")))
              (lookup-kept q p stored))
