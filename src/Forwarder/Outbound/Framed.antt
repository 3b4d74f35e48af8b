-- ===== src/Forwarder/Outbound/Framed.antt =====
-- How the header block of `_build_outbound_request` (src/forwarder.py) is split into its lines.
use mathlib.Core.Path.{subst}
use custom_network_proxy_ser.Base.{
  ℕ, ◌≡◌, refl, sym, ap, ◌∙◌, arith, Bool, true, false, not, ◌&&◌, ◌||◌, Option, none, some, List,
  [], ◌∷◌, ◌++◌, ◌==◌, All, append_assoc, if_elim,
}
use custom_network_proxy_ser.Text.{Text, codes, same, join, split_crlf}
use custom_network_proxy_ser.Text.Breaks.{
  has_break, has_break-append, split_crlf-append, split_crlf-join, split_crlf-no_break,
}
use custom_network_proxy_ser.Text.Every.{every, every-show_ℤ}
use custom_network_proxy_ser.Text.Number.{ℤ, show_ℤ}
use custom_network_proxy_ser.Parser.Request.{Parsed, Headers, header, parse_headers}
use custom_network_proxy_ser.Parser.Request.Unbroken.{
  NoBreak, NoBreakIn, AreUnbroken, parse_headers-AreUnbroken, header-NoBreakIn,
}
use custom_network_proxy_ser.Forwarder.Outbound.{
  is_hop_by_hop, kept_headers, header_line, host_line, forwarded_for, out_headers, default_port,
  show_path, header_block,
}

-- No CR and no LF.
abbrev no_line_end : ℕ → Bool
no_line_end c = not (c == 10) && not (c == 13)

no_line_end-NoBreak : (s : Text) → every no_line_end s ≡ true → NoBreak s
unfolding has_break
no_line_end-NoBreak [] h = refl
no_line_end-NoBreak (c ∷ []) h = refl
no_line_end-NoBreak (c ∷ d ∷ s) h = ground (arith, h, no_line_end-NoBreak (d ∷ s))

cons-NoBreak : (c : ℕ) (s : Text) → (c == 13) ≡ false → NoBreak s → NoBreak (c ∷ s)
unfolding has_break
cons-NoBreak c [] n h = refl
cons-NoBreak c (d ∷ s) n h = ground (arith, n, h)

show_ℤ-NoBreak : (n : ℤ) → NoBreak (show_ℤ n)
show_ℤ-NoBreak n =
    no_line_end-NoBreak (show_ℤ n) (every-show_ℤ no_line_end (λ d h. ground (arith, h)) n refl)

header_line-NoBreak :
    (key value : Text) → NoBreak key → NoBreak value → NoBreak (header_line key value)
header_line-NoBreak key value hk hv =
    has_break-append key b':' (b' ' ∷ value) refl hk
      (cons-NoBreak b':' (b' ' ∷ value) refl (cons-NoBreak b' ' value refl hv))

kept_headers-NoBreak :
    (headers : Headers) → AreUnbroken headers → All NoBreak (kept_headers headers)
unfolding kept_headers
kept_headers-NoBreak [] h = tt
kept_headers-NoBreak ((key, value) ∷ headers) ((hk, hv), hs) =
    let rest = kept_headers-NoBreak headers hs in
    if_elim (All NoBreak) (is_hop_by_hop key || same key (codes "host")) (λ _. rest)
      (λ _. (header_line-NoBreak key value hk hv, rest))

own_texts :
    (NoBreak (codes "Host"))
    × (NoBreak (codes "Connection"))
    × (NoBreak (codes "X-Forwarded-For"))
    × (NoBreak (codes "Via"))
    × (NoBreak (codes "close"))
    × (NoBreak (codes "1.1 proxy"))
unfolding codes has_break
own_texts = (refl, refl, refl, refl, refl, refl)

host_line-NoBreak : (host : Text) (port : ℤ) → NoBreak host → NoBreak (host_line host port)
unfolding host_line
host_line-NoBreak host port h =
    if_elim NoBreak (default_port port) (λ _. header_line-NoBreak _ host own_texts.0 h)
      (λ _. header_line-NoBreak _ (host ++ b':' ∷ show_ℤ port) own_texts.0 (
        has_break-append host b':' (show_ℤ port) refl h
          (cons-NoBreak b':' (show_ℤ port) refl (show_ℤ-NoBreak port))))

chain-NoBreak : (xff ip : Text) → NoBreak xff → NoBreak ip → NoBreak (xff ++ codes ", " ++ ip)
chain-NoBreak xff ip hx hi =
    ap has_break (append_assoc xff (codes ", ") ip)
    ∙ (unfold codes in
        has_break-append xff b',' (b' ' ∷ ip) refl hx
          (cons-NoBreak b',' (b' ' ∷ ip) refl (cons-NoBreak b' ' ip refl hi)))

forwarded_for-NoBreak :
    (ip xff : Option Text) → NoBreakIn ip → NoBreakIn xff → All NoBreak (forwarded_for ip xff)
forwarded_for-NoBreak (some (c ∷ ip)) (some xff) hi hx =
    (header_line-NoBreak _ _ own_texts.2 (chain-NoBreak xff (c ∷ ip) hx hi), tt)
forwarded_for-NoBreak (some (c ∷ ip)) none hi hx = (header_line-NoBreak _ _ own_texts.2 hi, tt)
forwarded_for-NoBreak (some []) (some xff) hi hx = (header_line-NoBreak _ _ own_texts.2 hx, tt)
forwarded_for-NoBreak (some []) none hi hx = tt
forwarded_for-NoBreak none (some xff) hi hx = (header_line-NoBreak _ _ own_texts.2 hx, tt)
forwarded_for-NoBreak none none hi hx = tt

append-NoBreak : (a b : List Text) → All NoBreak a → All NoBreak b → All NoBreak (a ++ b)
append-NoBreak [] b h k = k
append-NoBreak (l ∷ a) b (h, hs) k = (h, append-NoBreak a b hs k)

-- The texts of a request that are written into the header block have no line break.
pub record HasPlainFields (p : Parsed) : Type 0 where
  pub method : NoBreak p.method
  pub path : NoBreakIn p.path
  pub host : NoBreak p.host
  pub client_ip : NoBreakIn p.client_ip

out_headers-NoBreak :
    (p : Parsed) → HasPlainFields p → AreUnbroken p.headers → All NoBreak (out_headers p)
unfolding out_headers
out_headers-NoBreak p f h =
    let xff = header (codes "x-forwarded-for") p.headers in
    let via = header_line (codes "Via") (codes "1.1 proxy") ∷ [] in
    let opening = host_line p.host p.port ∷ kept_headers p.headers in
    let closing =
      header_line (codes "Connection") (codes "close") ∷ forwarded_for p.client_ip xff in
    append-NoBreak (opening ++ closing) via
      (append-NoBreak opening closing
        (host_line-NoBreak p.host p.port f.host, kept_headers-NoBreak p.headers h)
        (
          header_line-NoBreak _ _ own_texts.1 own_texts.4,
          forwarded_for-NoBreak p.client_ip xff f.client_ip
              (header-NoBreakIn (codes "x-forwarded-for") p.headers h),
        ))
      (header_line-NoBreak _ _ own_texts.3 own_texts.5, tt)

-- The request line of the outbound request.
abbrev pub first_line : Parsed → Text
first_line p = p.method ++ b' ' ∷ (show_path p.path ++ codes " HTTP/1.1")

show_path-NoBreak :
    (path : Option Text) → NoBreakIn path → NoBreak (show_path path ++ codes " HTTP/1.1")
unfolding codes has_break
show_path-NoBreak none h = refl
show_path-NoBreak (some path) h = has_break-append path b' ' _ refl h refl

first_line-NoBreak : (p : Parsed) → HasPlainFields p → NoBreak (first_line p)
first_line-NoBreak p f = has_break-append p.method b' ' _ refl f.method (
    cons-NoBreak b' ' (show_path p.path ++ codes " HTTP/1.1") refl
      (show_path-NoBreak p.path f.path))

header_block-lines :
    (p : Parsed)
    → header_block p
      ≡ first_line p ++ 13 ∷ 10 ∷ (join (13 ∷ 10 ∷ []) (out_headers p) ++ 13 ∷ 10 ∷ 13 ∷ 10 ∷ [])
unfolding header_block
header_block-lines p =
    let crlf = 13 ∷ 10 ∷ [] in
    let version = codes " HTTP/1.1" in
    let line = (p.method ++ b' ' ∷ show_path p.path) ++ version in
    let headers = join crlf (out_headers p) in
    append_assoc ((line ++ crlf) ++ headers) crlf crlf
    ∙ append_assoc (line ++ crlf) headers (crlf ++ crlf)
    ∙ append_assoc line crlf (headers ++ (crlf ++ crlf))
    ∙ ap (λ (l : Text). l ++ (crlf ++ (headers ++ (crlf ++ crlf))))
        (append_assoc p.method (b' ' ∷ show_path p.path) version)

lines-NoBreak :
    (text line : Text) (lines : List Text) → split_crlf text ≡ line ∷ lines → All NoBreak lines
lines-NoBreak text line lines e = (subst (All NoBreak) e (split_crlf-no_break text)).1

-- The header block, split at CR LF, is the request line, the header lines that the proxy writes,
-- and two empty texts. The headers are those parsed from the lines of a text that is split at
-- CR LF, and method, path, host and client address have no CR LF.
pub split_crlf-header_block :
    (text line : Text) (lines : List Text) (p : Parsed)
    → split_crlf text ≡ line ∷ lines
    → p.headers ≡ parse_headers lines []
    → HasPlainFields p
    → split_crlf (header_block p) ≡ first_line p ∷ (out_headers p ++ [] ∷ [] ∷ [])
split_crlf-header_block text line lines p split read f =
    let unbroken : AreUnbroken p.headers =
      subst AreUnbroken (sym read)
        (parse_headers-AreUnbroken lines [] (lines-NoBreak text line lines split) tt) in
    ap split_crlf (header_block-lines p)
    ∙ split_crlf-append (first_line p) _ (first_line-NoBreak p f)
    ∙ ap (◌∷◌ (first_line p)) (
        unfold out_headers in
        split_crlf-join _ _ (13 ∷ 10 ∷ []) (unfold out_headers in out_headers-NoBreak p f unbroken)
        ∙ ap (◌++◌ (out_headers p)) (unfold split_crlf in refl))
