-- ===== src/Tests/Names.antt =====
-- src/filter.py and src/auth.py on concrete names, addresses and passwords.
use custom_network_proxy_ser.Text.Number.{is_positive}
use custom_network_proxy_ser.Base.{
  ℕ, zero, suc, ◌+◌, ◌*◌, ◌^◌, ◌≡◌, refl, ◌↔◌, arith, true, some, List, [], ◌∷◌, length, ok,
}
use custom_network_proxy_ser.Text.{Text, codes, strip, lower, same}
use custom_network_proxy_ser.Text.Codec.{Bytes}
use custom_network_proxy_ser.IpAddress.{
  v4, v6, Address, Network, ip_address, ip_network, parse_v4, parse_v6,
}
use custom_network_proxy_ser.Filter.Networks.{InSome, address_blocked_iff}
use custom_network_proxy_ser.Filter.{
  empty, is_blocked, reload_blocklist, load_blocklist, address_blocked,
}
use custom_network_proxy_ser.Filter.Blocked.{ListedIn, is_blocked_iff}
use custom_network_proxy_ser.Auth.{Derive, hash_password, verify_password, key_length}
use custom_network_proxy_ser.Auth.Verify.{AreBytes, verify_password-hash_password}

-- A network, an address with a scope, and a mask of host bits.
private_network :
    ip_network (codes "10.0.0.0/8")
    ≡ some (record { version = v4; network = 167772160; prefix = 8 })
unfolding ip_network codes
private_network = refl

address_v6 :
    ip_address (codes "fe80::1%eth0") ≡ some (record { version = v6; ip = 0xfe80 * 2 ^ 112 + 1 })
unfolding ip_address codes parse_v4 parse_v6
address_v6 = refl

host_mask :
    ip_network (codes "10.1.2.3/0.0.0.255")
    ≡ some (record { version = v4; network = 167838208; prefix = 24 })
unfolding ip_network codes
host_mask = refl

abbrev ten : Network
ten = record { version = v4; network = 167772160; prefix = 8 }

abbrev host_of_ten : Address
host_of_ten = record { version = v4; ip = 167772161 }

abbrev block_lines : List Text
block_lines = codes "# blocked" ∷ codes "Example.com" ∷ codes "10.0.0.0/8" ∷ []

is_blocked_iff_example :
    (is_blocked (reload_blocklist (some block_lines) empty) (some (b'w' ∷ codes "ww.example.com"))
      ≡ true)
    ↔ ListedIn (strip (lower (b'w' ∷ codes "ww.example.com"))) block_lines
is_blocked_iff_example = is_blocked_iff block_lines empty b'w' (codes "ww.example.com")

address_blocked_iff_example :
    (address_blocked (codes "10.1.2.3") (load_blocklist (some block_lines) empty).networks ≡ true)
    ↔ ((a : Address) × (ip_address (codes "10.1.2.3") ≡ some a)
        × InSome a (load_blocklist (some block_lines) empty).networks)
address_blocked_iff_example = address_blocked_iff (some block_lines) empty (codes "10.1.2.3")

-- A stand-in for the derivation of keys: as many bytes as are asked for.
unfoldable fill : ℕ → Bytes
fill zero = []
fill (suc n) = 7 ∷ fill n

fill-AreBytes : (n : ℕ) → AreBytes (fill n)
unfolding fill
fill-AreBytes zero = tt
fill-AreBytes (suc n) = (omega arith, fill-AreBytes n)

length-fill : (n : ℕ) → length (fill n) ≡ n
unfolding fill
length-fill zero = refl
length-fill (suc n) = omega (arith, length-fill n)

abbrev derive : Derive
derive = record {
  key = λ plain salt count size. fill size;
  takes = λ count size. is_positive count;
}

verify_password-hash_password_example :
    verify_password derive (codes "secret") (hash_password derive (codes "secret") (1 ∷ 255 ∷ []))
    ≡ ok (same (fill key_length) (fill key_length))
verify_password-hash_password_example =
    verify_password-hash_password derive (codes "secret") (codes "secret") (1 ∷ 255 ∷ [])
      (omega arith, (omega arith, tt)) (fill-AreBytes key_length) (length-fill key_length) refl
