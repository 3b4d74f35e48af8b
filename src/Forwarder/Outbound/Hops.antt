-- ===== src/Forwarder/Outbound/Hops.antt =====
-- What `_build_outbound_request` (src/forwarder.py) passes on of a client's headers.
use custom_network_proxy_ser.Base.{
  ◌≡◌, refl, inl, inr, arith, true, false, ◌||◌, List, [], ◌∷◌, ◌++◌, Bool-cases, All, if_elim,
}
use custom_network_proxy_ser.Text.{Text, codes, same, starts_with, has_char}
use custom_network_proxy_ser.Text.Laws.{same_iff}
use custom_network_proxy_ser.Parser.Request.{Headers, parse_headers}
use custom_network_proxy_ser.Parser.Request.Shape.{NoColon, parse_headers-NoColon}
use custom_network_proxy_ser.Forwarder.Outbound.{
  one_of, hop_by_hop_headers, is_hop_by_hop, kept_headers, header_line,
}

-- A name before a colon is read back as it was, if neither it nor the other has a colon.
name_of_line :
    (k key rest : Text)
    → has_char b':' k ≡ false
    → has_char b':' key ≡ false
    → starts_with (k ++ b':' ∷ []) (key ++ b':' ∷ rest) ≡ true
    → k ≡ key
unfolding has_char starts_with
name_of_line [] [] rest a b h = refl
name_of_line [] (d ∷ key) rest a b h = absurd (ground (arith, b, h))
name_of_line (c ∷ k) [] rest a b h = absurd (ground (arith, a, h))
name_of_line (c ∷ k) (d ∷ key) rest a b h = ground (arith, name_of_line k key rest)

one_of-no_colon :
    (k : Text) (names : List Text)
    → All (λ name. has_char b':' name ≡ false) names
    → one_of k names ≡ true
    → has_char b':' k ≡ false
one_of-no_colon k [] a h = absurd (ground (arith, h))
one_of-no_colon k (name ∷ names) (a, b) h = elim (Bool-cases (same k name)) [
  | inl e ↦ rw ((same_iff k name).0 e) a
  | inr e ↦ one_of-no_colon k names b (ground (arith, h, e))
]

hop-no_colon : (k : Text) → is_hop_by_hop k ≡ true → has_char b':' k ≡ false
unfolding is_hop_by_hop codes has_char
hop-no_colon k hop =
    one_of-no_colon k hop_by_hop_headers
      (refl, (refl, (refl, (refl, (refl, (refl, (refl, (refl, (refl, tt))))))))) hop

kept_headers-end_to_end :
    (k : Text) (headers : Headers)
    → is_hop_by_hop k ≡ true
    → has_char b':' k ≡ false
    → NoColon headers
    → All (λ line. starts_with (k ++ b':' ∷ []) line ≡ false) (kept_headers headers)
unfolding kept_headers codes
kept_headers-end_to_end k [] hop a b = tt
kept_headers-end_to_end k ((key, value) ∷ headers) hop a (b, bs) =
    let rest = kept_headers-end_to_end k headers hop a bs in
    if_elim (All (λ line. starts_with (k ++ b':' ∷ []) line ≡ false))
      (is_hop_by_hop key || same key (codes "host")) (λ h. rest)
      (λ h. (
        elim (Bool-cases (starts_with (k ++ b':' ∷ []) (header_line key value))) [
          | inr differs ↦ differs
          | inl read ↦
              let same_name = name_of_line k key (b' ' ∷ value) a b read in
              absurd (ground (arith, h, rw same_name at hop))
        ],
        rest,
      ))

-- No header line that is passed on of a parsed request begins with a hop-by-hop name and a colon;
-- so the credentials for the proxy are not sent to the origin.
pub kept_headers-parse_headers :
    (k : Text) (lines : List Text)
    → is_hop_by_hop k ≡ true
    → All
        (λ line. starts_with (k ++ b':' ∷ []) line ≡ false)
        (kept_headers (parse_headers lines []))
kept_headers-parse_headers k lines hop =
    kept_headers-end_to_end k (parse_headers lines []) hop (hop-no_colon k hop)
      (parse_headers-NoColon lines [] tt)
