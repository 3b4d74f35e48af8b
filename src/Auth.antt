-- ===== src/Auth.antt =====
-- src/auth.py: password hashes and the users file. The key derivation of `hashlib` is a parameter,
-- on the password as text, and the random salt is an argument.
pub mod Verify
use custom_network_proxy_ser.Base.{
  ℕ, zero, ◌+◌, Bool, true, false, Option, none, some, List, [], ◌∷◌, ◌++◌, if◌then◌else◌, length,
  Result, ok, raise, ltb, ◌==◌,
}
use custom_network_proxy_ser.Text.{
  Text, codes, text_dec, same, strip, starts_with, split_once, split_char,
}
use custom_network_proxy_ser.Text.Number.{ℤ, pos, to_int, show, is_positive, to_nat}
use custom_network_proxy_ser.Text.Codec.{Bytes, hex, from_hex}
use custom_network_proxy_ser.Dict.{insert}

abbrev pub iterations : ℕ
iterations = 600_000

abbrev pub key_length : ℕ
key_length = 32

abbrev pub prefix : Text
prefix = b'p' ∷ b'b' ∷ b'k' ∷ b'd' ∷ b'f' ∷ b'2' ∷ []

-- `pbkdf2_hmac("sha256", plain.encode("utf-8"), salt, iterations, dklen)`: the key, and whether a
-- count of iterations and a length are taken at all, where another pair raises
pub record Derive : Type 0 where
  pub key : Text → Bytes → ℕ → ℕ → Bytes
  pub takes : ℤ → ℕ → Bool

module _ (derive : Derive) where
  unfoldable pub hash_password : Text → Bytes → Text
  hash_password plain salt =
      let dk = derive.key plain salt iterations key_length in
      prefix ++ b'$' ∷ (show iterations ++ b'$' ∷ (hex salt ++ b'$' ∷ hex dk))

  -- `pbkdf2_hmac` and `compare_digest`
  unfoldable pub compare_key : Text → ℤ → Bytes → Bytes → Result Bool
  compare_key plain count salt expected =
      if derive.takes count (length expected)
      then ok (same (derive.key plain salt (to_nat count) (length expected)) expected)
      else raise

  abbrev check_parts : Text → Option ℤ → Option Bytes → Option Bytes → Result Bool
  check_parts plain (some count) (some salt) (some expected) = compare_key plain count salt expected
  check_parts plain _ _ _ = ok false

  abbrev verify_parts : Text → List Text → Result Bool
  verify_parts plain (a ∷ count ∷ salt ∷ hash ∷ []) =
      check_parts plain (to_int count) (from_hex salt) (from_hex hash)
  verify_parts plain _ = ok false

  unfoldable pub verify_pbkdf2 : Text → Text → Result Bool
  unfolding compare_key
  verify_pbkdf2 plain stored = verify_parts plain (split_char b'$' stored)

  -- `compare_digest` of two texts raises on one that is not ASCII.
  unfoldable pub compare_texts : Text → Text → Result Bool
  compare_texts a b = if all_ascii a then (if all_ascii b then ok (same a b) else raise) else raise
    where
      all_ascii : Text → Bool
      all_ascii [] = true
      all_ascii (c ∷ s) = if ltb c 128 then all_ascii s else false

  unfoldable pub verify_password : Text → Text → Result Bool
  unfolding verify_pbkdf2 compare_texts
  verify_password plain stored =
      if starts_with (prefix ++ b'$' ∷ []) stored
      then verify_pbkdf2 plain stored
      else compare_texts plain stored

-- The users file: the stored credential of each name.
abbrev pub Users : Type 0
Users = List (Text × Text)

abbrev add_pair : Option (Text × Text) → Users → Users
add_pair none users = users
add_pair (some (name, credential)) users = insert text_dec (strip name) (strip credential) users

-- the body of the loop, on a stripped line
unfoldable pub add_line : Text → Users → Users
add_line [] users = users
add_line (c ∷ line) users = if c == b'#' then users else add_pair (split_once b':' (c ∷ line)) users

unfoldable pub users_from : List Text → Users → Users
unfolding add_line
users_from [] users = users
users_from (line ∷ lines) users = users_from lines (add_line (strip line) users)

-- The file is the list of its lines, `none` if it is not found.
unfoldable pub load_users : Option (List Text) → Users
unfolding users_from
load_users none = []
load_users (some lines) = users_from lines []
