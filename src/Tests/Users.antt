-- ===== src/Tests/Users.antt =====
-- tools/manage_users.py on a small users file.

use custom_network_proxy_ser.Text.Number.{is_positive}
use custom_network_proxy_ser.Base.{
  ◌&&◌, not, ◌==◌, ℕ, zero, suc, ◌+◌, ◌*◌, ◌%◌, ◌≡◌, refl, arith, true, some, List, [], ◌∷◌, ◌++◌,
  length, ok, ℕ_discrete,
}
use custom_network_proxy_ser.Text.Files.{lines_of}
use custom_network_proxy_ser.Dict.{lookup, insert}
use custom_network_proxy_ser.Text.{
  Text, codes, text_dec, has_char, starts_with, is_space, strip, split_once, same, lower,
}
use custom_network_proxy_ser.Text.Codec.{Bytes}
use custom_network_proxy_ser.Auth.{
  Derive, load_users, verify_password, iterations, key_length, hash_password,
}
use custom_network_proxy_ser.Auth.Verify.{AreBytes}
use custom_network_proxy_ser.Text.Base64.Encoding.{b64encode}
use custom_network_proxy_ser.Parser.Request.{Headers, header}
use custom_network_proxy_ser.Handler.{check_auth}
use custom_network_proxy_ser.Handler.Credentials.{basic, check_auth-cmd_add}
use custom_network_proxy_ser.ManageUsers.{cmd_add, File, load, cmd_migrate}
use custom_network_proxy_ser.ManageUsers.Entries.{IsName}
use custom_network_proxy_ser.ManageUsers.Migration.{cmd_migrate-Accepted, is_hashed}
use custom_network_proxy_ser.ManageUsers.Registry.{registry, main_all, meant_all, main_all-Refines}

-- A derivation that mixes the password and the salt.
abbrev mixed : Text → ℕ
mixed [] = 1
mixed (c ∷ s) = (c + mixed s * 31) % 256

abbrev key_bytes : ℕ → ℕ → Bytes
key_bytes zero seed = []
key_bytes (suc n) seed = ((seed + n) % 256) ∷ key_bytes n seed

abbrev derive : Derive
derive = record {
  key = λ plain salt count len. key_bytes len (mixed (plain ++ salt));
  takes = λ count len. is_positive count && not (len == 0);
}

key_bytes-AreBytes : (n seed : ℕ) → AreBytes (key_bytes n seed)
key_bytes-AreBytes zero seed = tt
key_bytes-AreBytes (suc n) seed = (omega arith, key_bytes-AreBytes n seed)

length-key_bytes : (n seed : ℕ) → length (key_bytes n seed) ≡ n
length-key_bytes zero seed = refl
length-key_bytes (suc n) seed = omega (arith, length-key_bytes n seed)

derive-AreBytes :
    (plain : Text) (salt : Bytes) → AreBytes (derive.key plain salt iterations key_length)
derive-AreBytes plain salt = key_bytes-AreBytes key_length (mixed (plain ++ salt))

length-derive :
    (plain : Text) (salt : Bytes)
    → length (derive.key plain salt iterations key_length) ≡ key_length
length-derive plain salt = length-key_bytes key_length (mixed (plain ++ salt))

abbrev salt : Text → Bytes
salt name = mixed name % 256 ∷ 7 ∷ []

salt-AreBytes : (name : Text) → AreBytes (salt name)
salt-AreBytes name = (omega arith, (omega arith, tt))

abbrev users_file : File
users_file = some (codes "# users" ++ 10 ∷ (codes " bob : secret" ++ 13 ∷ 10 ∷ codes "eve:pw"))

bob_IsName : IsName (codes "bob")
unfolding codes has_char starts_with is_space
bob_IsName = record {
  trimmed = record { start = refl; end = refl };
  no_colon = refl;
  no_hash = refl;
  no_break = (refl, refl);
}

bob_of_file : lookup text_dec (codes "bob") (load users_file) ≡ some (codes "secret")
unfolding codes lookup text_dec ℕ_discrete load_users lines_of strip split_once insert
bob_of_file = refl

bob_login : verify_password derive (codes "secret") (codes "secret") ≡ ok true
unfolding codes verify_password starts_with same
bob_login = refl

cmd_migrate-Accepted_example :
    (stored : Text) × (lookup text_dec
        (codes "bob")
        (load (cmd_migrate derive salt users_file).file)
      ≡ some stored)
    × (is_hashed stored ≡ true)
    × (verify_password derive (codes "secret") stored ≡ ok true)
cmd_migrate-Accepted_example =
    cmd_migrate-Accepted derive derive-AreBytes length-derive salt salt-AreBytes (codes "bob")
      (codes "secret") (codes "secret") users_file refl bob_of_file bob_login

abbrev runs : List (List Text × (Text → Bytes))
runs =
    ((codes "ADD" ∷ codes "bob" ∷ codes "new" ∷ []), salt)
    ∷ ((codes "remove" ∷ codes "eve" ∷ []), salt)
    ∷ []

main_all-Refines_example :
    registry (main_all derive (codes "usage") runs users_file) (codes "bob")
    ≡ meant_all derive runs (registry users_file) (codes "bob")
main_all-Refines_example =
    main_all-Refines derive derive-AreBytes length-derive (codes "usage") (codes "bob") runs
      users_file ((bob_IsName, salt-AreBytes), ((tt, salt-AreBytes), tt))

meant_runs :
    meant_all derive runs (registry users_file) (codes "bob")
    ≡ some (hash_password derive (codes "new") (salt (codes "bob")))
unfolding codes meant_all lookup text_dec ℕ_discrete same lower
meant_runs = refl

-- The header of bob with the password "new".
abbrev bob_headers : Headers
bob_headers = (codes "proxy-authorization", codes "Basic Ym9iOm5ldw==") ∷ []

bob_header :
    header (codes "proxy-authorization") bob_headers ≡ some (basic (codes "bob") (codes "new"))
unfolding header lookup text_dec ℕ_discrete codes b64encode
bob_header = refl

check_auth-cmd_add_example :
    check_auth derive
      (load (cmd_add derive (codes "bob") (codes "new") (1 ∷ 2 ∷ []) users_file).file)
      bob_headers
    ≡ ok (
        same
          (derive.key (codes "new") (1 ∷ 2 ∷ []) iterations key_length)
          (derive.key (codes "new") (1 ∷ 2 ∷ []) iterations key_length))
unfolding codes
check_auth-cmd_add_example =
    check_auth-cmd_add derive derive-AreBytes (codes "bob") (codes "new") (codes "new") (1 ∷ 2 ∷ [])
      users_file bob_headers bob_IsName refl refl (omega arith, (omega arith, tt))
      (length-derive (codes "new") (1 ∷ 2 ∷ [])) refl bob_header
