-- ===== src/Handler/Credentials.antt =====
-- From the users file to the check of a client: what `_check_auth` makes of the header that a client
-- sends, and of a user that the tool added.
use custom_network_proxy_ser.Base.{
  ℕ, ◌<◌, ◌≡◌, refl, sym, ap, ◌∙◌, arith, Bool, true, false, Option, none, some, [], ◌∷◌, ◌++◌, All,
  ltb, if_pos, Result, ok, length,
}
use custom_network_proxy_ser.Text.{
  Text, codes, text_dec, same, lower, starts_with, is_space, lstrip, span, has_char,
}
use custom_network_proxy_ser.Text.Trim.{split_once-append}
use custom_network_proxy_ser.Text.Codec.{Bytes, decode_one, decode_strict, decode_strict_from}
use custom_network_proxy_ser.Text.Base64.{all_ascii, b64decode}
use custom_network_proxy_ser.Text.Base64.Encoding.{b64encode, b64decode-b64encode, b64encode_head}
use custom_network_proxy_ser.Dict.{lookup}
use custom_network_proxy_ser.Text.Number.{pos}
use custom_network_proxy_ser.Auth.{
  Derive, Users, hash_password, verify_password, iterations, key_length,
}
use custom_network_proxy_ser.Auth.Verify.{AreBytes, verify_password-hash_password}
use custom_network_proxy_ser.Parser.Request.{Headers, header}
use custom_network_proxy_ser.ManageUsers.{File, load, cmd_add}
use custom_network_proxy_ser.ManageUsers.Entries.{IsName}
use custom_network_proxy_ser.ManageUsers.Commands.{load-cmd_add}
use custom_network_proxy_ser.Handler.{credentials, decoded, check_user, check_decoded, check_auth}

decode_one_ascii : (c : ℕ) (s : Text) → ltb c 128 ≡ true → decode_one (c ∷ s) ≡ some (c, 0)
unfolding decode_one
decode_one_ascii c s h = rw h refl

decode_strict_from_ascii : (s : Text) → all_ascii s ≡ true → decode_strict_from 0 s ≡ some s
unfolding decode_strict_from
decode_strict_from_ascii [] h = refl
decode_strict_from_ascii (c ∷ s) h =
    let small : ltb c 128 ≡ true = ground (arith, h) in
    rw
      (
        decode_one_ascii c s small,
        decode_strict_from,
        decode_strict_from_ascii s (ground (arith, h)),
      )
      refl

ascii_bytes : (s : Text) → all_ascii s ≡ true → All (λ b. b < 256) s
ascii_bytes [] h = tt
ascii_bytes (c ∷ s) h = (ground (arith, h), ascii_bytes s (ground (arith, h)))

all_ascii-append :
    (s t : Text) → all_ascii s ≡ true → all_ascii t ≡ true → all_ascii (s ++ t) ≡ true
all_ascii-append [] t h k = k
all_ascii-append (c ∷ s) t h k = ground (arith, h, all_ascii-append s t (ground (arith, h)) k)

-- The header's value that a client sends for a name and a password.
abbrev pub basic : Text → Text → Text
basic name password = codes "Basic " ++ b64encode (name ++ b':' ∷ password)

-- What is encoded is not empty.
encoded_head :
    (name password : Text)
    → (c : ℕ) × (t : Text) × (b64encode (name ++ b':' ∷ password) ≡ c ∷ t) × (is_space c ≡ false)
encoded_head [] password = b64encode_head b':' password
encoded_head (d ∷ name) password = b64encode_head d (name ++ b':' ∷ password)

credentials_basic :
    (c : ℕ) (t : Text) → is_space c ≡ false → credentials (codes "Basic " ++ c ∷ t) ≡ c ∷ t
unfolding codes lstrip span is_space
credentials_basic c t h = rw h refl

decoded-some :
    (c : ℕ) (t : Text) (b : Bytes) → b64decode (c ∷ t) ≡ some b → decoded (c ∷ t) ≡ decode_strict b
decoded-some c t b h = rw (h, decoded) refl

decoded-b64encode :
    (name password : Text)
    → all_ascii (name ++ b':' ∷ password) ≡ true
    → decoded (credentials (basic name password)) ≡ some (name ++ b':' ∷ password)
decoded-b64encode name password h =
    let plain = name ++ b':' ∷ password in
    let (c, t, e, space) = encoded_head name password in
    ap (λ (s : Text). decoded (credentials (codes "Basic " ++ s))) e
    ∙ ap decoded (credentials_basic c t space)
    ∙ decoded-some c t plain
        (ap b64decode (sym e) ∙ b64decode-b64encode plain (ascii_bytes plain h))
    ∙ unfold decode_strict in decode_strict_from_ascii plain h

is_basic : (s : Text) → starts_with (codes "basic ") (lower (codes "Basic " ++ s)) ≡ true
unfolding codes lower starts_with
is_basic s = refl

module _ (derive : Derive) (users : Users) where
  checked : Option Text → Result Bool
  checked none = ok false
  checked (some t) = check_decoded derive users t

  checked_some : (t : Text) → checked (some t) ≡ check_decoded derive users t
  unfolding checked
  checked_some t = refl

  check_auth_scheme :
      (headers : Headers) (auth : Text)
      → header (codes "proxy-authorization") headers ≡ some auth
      → starts_with (codes "basic ") (lower auth) ≡ true
      → check_auth derive users headers ≡ checked (decoded (credentials auth))
  unfolding check_auth checked
  check_auth_scheme headers auth h k = rw (h, check_auth, k) refl

  check_decoded_pair :
      (name password : Text)
      → has_char b':' name ≡ false
      → check_decoded derive users (name ++ b':' ∷ password) ≡ check_user derive users name password
  unfolding check_decoded
  check_decoded_pair name password h =
      rw (split_once-append b':' name password h, check_decoded) refl

  -- The check of a client that sends a name and a password by the scheme is that of the two. They
  -- are ASCII, and the name has no colon.
  pub check_auth-basic :
      (name password : Text) (headers : Headers)
      → header (codes "proxy-authorization") headers ≡ some (basic name password)
      → has_char b':' name ≡ false
      → all_ascii name ≡ true
      → all_ascii password ≡ true
      → check_auth derive users headers ≡ check_user derive users name password
  check_auth-basic name password headers h colon an pw =
      let plain : all_ascii (name ++ b':' ∷ password) ≡ true =
        all_ascii-append name (b':' ∷ password) an pw in
      check_auth_scheme headers (basic name password) h
        (is_basic (b64encode (name ++ b':' ∷ password)))
      ∙ ap (checked) (decoded-b64encode name password plain)
      ∙ checked_some (name ++ b':' ∷ password)
      ∙ check_decoded_pair name password colon

  check_user_found :
      (name password stored : Text)
      → lookup text_dec name users ≡ some stored
      → check_user derive users name password ≡ verify_password derive password stored
  unfolding check_user
  check_user_found name password stored h = rw (h, check_user) refl

module _ (derive : Derive)
    (derive-AreBytes : (plain : Text) (salt : Bytes)
      → AreBytes (derive.key plain salt iterations key_length)) where
  -- Once the tool has added a user, a client that sends the name with a password is let through
  -- exactly if that password derives the key of the one that was added. The name can be written on
  -- a line; it and the password that is sent are ASCII; salt and keys are bytes, and the key of
  -- the password that was added has the length asked for; the derivation takes the count and the
  -- length of the program.
  pub check_auth-cmd_add :
      (name password tried : Text) (salt : Bytes) (file : File) (headers : Headers)
      → IsName name
      → all_ascii name ≡ true
      → all_ascii tried ≡ true
      → AreBytes salt
      → length (derive.key password salt iterations key_length) ≡ key_length
      → derive.takes (pos iterations) key_length ≡ true
      → header (codes "proxy-authorization") headers ≡ some (basic name tried)
      → check_auth derive (load (cmd_add derive name password salt file).file) headers
        ≡ ok (
            same
              (derive.key tried salt iterations key_length)
              (derive.key password salt iterations key_length))
  check_auth-cmd_add name password tried salt file headers n an pw s len taken h =
      let users = load (cmd_add derive name password salt file).file in
      let stored = hash_password derive password salt in
      let there : lookup text_dec name users ≡ some stored =
        load-cmd_add derive derive-AreBytes name name password salt file n s
        ∙ if_pos (text_dec name name) refl _ _ in
      check_auth-basic derive users name tried headers h n.no_colon an pw
      ∙ check_user_found derive users name tried stored there
      ∙ verify_password-hash_password derive password tried salt s (derive-AreBytes password salt)
          len taken
