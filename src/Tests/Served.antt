-- ===== src/Tests/Served.antt =====
-- A whole connection: an authorized request for a page that is not in the cache.
use custom_network_proxy_ser.Base.{◌≡◌, refl, [], ◌∷◌, ℕ_discrete}
use custom_network_proxy_ser.Text.Number.{pos}
use custom_network_proxy_ser.IpAddress.{ip_address}
use custom_network_proxy_ser.Cache.Lru
use custom_network_proxy_ser.Tests.Proxy.{env, client, world}
use custom_network_proxy_ser.Text.{
  is_byte_space, codes, same, find, starts_with, ends_with, split_crlf, lower, strip, lstrip,
  is_space, span, split_once, rsplit_once, has_char, split_char, text_dec,
}
use custom_network_proxy_ser.Text.Number.{to_int, show, show_ℤ}
use custom_network_proxy_ser.Text.Base64.{b64decode}
use custom_network_proxy_ser.Text.Codec.{decode_ignore, decode_strict, encode}
use custom_network_proxy_ser.Dict.{lookup, erase, move_to_end, insert}
use custom_network_proxy_ser.Parser.Receive.{
  recv_http_request, recv_headers, recv_body, remaining, header_end, extract_content_length,
  length_in,
}
use custom_network_proxy_ser.Parser.Request.{
  parse_http_request, request_line, parse_headers, add_header, header, content_length_of,
  destination, absolute_destination, origin_destination, finish,
}
use custom_network_proxy_ser.Parser.Url.{urlparse, hostname, url_port}
use custom_network_proxy_ser.RateLimiter.Registry.{
  is_allowed, consume_from, get_or_create_bucket, maybe_prune, without_stale, init,
}
use custom_network_proxy_ser.RateLimiter.Bucket.{new_bucket, consume, refilled}
use custom_network_proxy_ser.Auth.{verify_password, compare_texts, verify_pbkdf2}
use custom_network_proxy_ser.Filter.{is_blocked, blocks, member, under_any, address_blocked, in_any}
use custom_network_proxy_ser.Logger.{record_host}
use custom_network_proxy_ser.World.{count, log, reply, send_client, send}
use custom_network_proxy_ser.Forwarder.Http.{
  forward_http, forward_get, looked_up, contact_origin, contacted, exchange, relay_response, settle,
}
use custom_network_proxy_ser.Forwarder.Relay.{
  stream, read_status, collect, parse_response_status, joined,
}
use custom_network_proxy_ser.Handler.{
  handle_client, serve, received, serve_request, serve_parsed, limit_stage, admitted, auth_stage,
  authenticated, check_auth, check_decoded, check_user, filter_stage, dispatch, catch,
}

dialed_served : (handle_client env client world).dialed ≡ (codes "a.com", pos 80) ∷ []
unfolding codes same find starts_with ends_with split_crlf lower strip lstrip is_space span
    split_once rsplit_once has_char split_char text_dec to_int show show_ℤ decode_ignore
    decode_strict encode b64decode lookup erase move_to_end insert recv_http_request recv_headers
    recv_body remaining header_end extract_content_length length_in parse_http_request request_line
    parse_headers add_header header content_length_of destination absolute_destination
    origin_destination finish urlparse hostname url_port is_allowed consume_from
    get_or_create_bucket maybe_prune without_stale init new_bucket consume refilled verify_password
    compare_texts verify_pbkdf2 is_blocked blocks member under_any address_blocked in_any
    record_host count log reply send_client send forward_http forward_get looked_up contact_origin
    contacted exchange relay_response settle stream read_status collect parse_response_status joined
    handle_client serve received serve_request serve_parsed limit_stage admitted auth_stage
    authenticated check_auth check_decoded check_user filter_stage dispatch catch ℕ_discrete Lru.get
    Lru.init ip_address is_byte_space
dialed_served = refl
