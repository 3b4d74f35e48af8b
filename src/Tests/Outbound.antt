-- ===== src/Tests/Outbound.antt =====
-- A request through `_build_outbound_request` of src/forwarder.py.
use custom_network_proxy_ser.Base.{◌≡◌, refl, none, some, List, [], ◌∷◌, ◌++◌}
use custom_network_proxy_ser.Dict.{lookup}
use custom_network_proxy_ser.Text.{Text, codes, text_dec, split_crlf}
use custom_network_proxy_ser.Text.Number.{pos}
use custom_network_proxy_ser.Parser.Request.{Parsed, parse_headers}
use custom_network_proxy_ser.Forwarder.Outbound.{out_headers, header_block}
use custom_network_proxy_ser.Forwarder.Outbound.Framed.{
  first_line, HasPlainFields, split_crlf-header_block,
}
use custom_network_proxy_ser.Text.Breaks.{has_break}
use custom_network_proxy_ser.Forwarder.Outbound.Passed.{meant, lookup-out_headers}

abbrev sent_lines : List Text
sent_lines =
    codes "Host: other"
    ∷ codes "Accept: */*"
    ∷ codes "Connection: keep-alive"
    ∷ codes "X-Forwarded-For: 10.0.0.9"
    ∷ []

abbrev sent : Parsed
sent = record {
  method = codes "GET";
  host = codes "example.org";
  port = pos 8080;
  path = some (codes "/");
  headers = parse_headers sent_lines [];
  content_length = none;
  body = [];
  request_id = [];
  raw = [];
  client_ip = some (codes "10.0.0.1");
}

lookup-out_headers_example :
    lookup text_dec (codes "x-forwarded-for") (parse_headers (out_headers sent) [])
    ≡ meant sent (codes "x-forwarded-for")
lookup-out_headers_example = lookup-out_headers (codes "x-forwarded-for") sent_lines sent refl

abbrev sent_text : Text
sent_text =
    codes "GET / HTTP/1.1"
    ++ 13 ∷ 10 ∷ codes "Host: other"
    ++ 13 ∷ 10 ∷ codes "Accept: */*"
    ++ 13 ∷ 10 ∷ codes "Connection: keep-alive"
    ++ 13 ∷ 10 ∷ codes "X-Forwarded-For: 10.0.0.9"

sent-HasPlainFields : HasPlainFields sent
unfolding codes has_break
sent-HasPlainFields = record { method = refl; path = refl; host = refl; client_ip = refl }

split_crlf-header_block_example :
    split_crlf (header_block sent) ≡ first_line sent ∷ (out_headers sent ++ [] ∷ [] ∷ [])
unfolding codes split_crlf
split_crlf-header_block_example =
    split_crlf-header_block sent_text (codes "GET / HTTP/1.1") sent_lines sent refl refl
      sent-HasPlainFields
