-- ===== src/Auth/Verify.antt =====
-- Hashes that are stored are accepted for their password, and what is not a hash raises or is
-- refused.
use custom_network_proxy_ser.Base.{
  ℕ, ◌+◌, ◌*◌, ◌/◌, ◌%◌, ◌<◌, ◌≡◌, refl, ap, ◌∙◌, true, false, some, [], ◌∷◌, ◌++◌, arith, length,
  ok, All,
}
use custom_network_proxy_ser.Text.{
  Text, is_byte_space, codes, same, starts_with, split_char, has_char,
}
use custom_network_proxy_ser.Text.Number.{pos, to_int, show}
use custom_network_proxy_ser.Text.Codec.{Bytes, byte_of, hex, hex_digit, hex_value, from_hex}
use custom_network_proxy_ser.Auth.{
  Derive, hash_password, verify_password, verify_pbkdf2, verify_parts, compare_key, iterations,
  key_length, prefix,
}

split_char_absent : (c : ℕ) (s : Text) → has_char c s ≡ false → split_char c s ≡ s ∷ []
unfolding split_char has_char
split_char_absent c [] h = refl
split_char_absent c (d ∷ s) h = ground (arith, split_char_absent c s)

split_char-append :
    (c : ℕ) (s t : Text) → has_char c s ≡ false → split_char c (s ++ c ∷ t) ≡ s ∷ split_char c t
unfolding split_char has_char
split_char-append c [] t h = ground arith
split_char-append c (d ∷ s) t h = ground (arith, split_char-append c s t)

has_char-hex : (b : Bytes) → has_char b'$' (hex b) ≡ false
unfolding has_char hex hex_digit
has_char-hex [] = refl
has_char-hex (b ∷ s) = ground (arith, has_char-hex s)

-- Every byte is below 256.
abbrev pub AreBytes : Bytes → Type 0
AreBytes = All (λ b. b < 256)

hex_value-hex_digit : (n : ℕ) → n < 16 → hex_value (hex_digit n) ≡ some n
unfolding hex_value hex_digit
hex_value-hex_digit n h = ground arith

from_hex-step :
    (c d : ℕ) (s : Text)
    → is_byte_space c ≡ false
    → from_hex (c ∷ d ∷ s) ≡ byte_of (hex_value c) (hex_value d) (from_hex s)
unfolding from_hex
from_hex-step c d s h = ground (arith, h)

is_byte_space-hex_digit : (n : ℕ) → is_byte_space (hex_digit n) ≡ false
unfolding is_byte_space hex_digit
is_byte_space-hex_digit n = ground arith

-- Decoding what was encoded gives the bytes back.
from_hex-hex : (b : Bytes) → AreBytes b → from_hex (hex b) ≡ some b
unfolding hex
from_hex-hex [] h = unfold from_hex in refl
from_hex-hex (b ∷ s) (small, h) =
    let joined : b / 16 * 16 + b % 16 ≡ b = omega arith in
    rw (
      from_hex-step _ _ (hex s) (is_byte_space-hex_digit (b / 16)),
      hex_value-hex_digit (b / 16) (omega arith),
      hex_value-hex_digit (b % 16) (omega arith),
      from_hex-hex s h,
      joined,
    )

show-iterations : show iterations ≡ codes "600000"
unfolding show codes
show-iterations = refl

to_int_iterations : to_int (codes "600000") ≡ some (pos 600000)
unfolding to_int codes
to_int_iterations = refl

no_dollar : (has_char b'$' prefix ≡ false) × (has_char b'$' (codes "600000") ≡ false)
unfolding has_char codes
no_dollar = (refl, refl)

-- A stored credential of the hashed form.
abbrev pub stored_of : Text → Text → Text → Text
stored_of count salt hash = prefix ++ b'$' ∷ (count ++ b'$' ∷ (salt ++ b'$' ∷ hash))

split_stored :
    (count salt hash : Text)
    → has_char b'$' count ≡ false
    → has_char b'$' salt ≡ false
    → has_char b'$' hash ≡ false
    → split_char b'$' (stored_of count salt hash) ≡ prefix ∷ count ∷ salt ∷ hash ∷ []
split_stored count salt hash hc hs hh = rw (
  split_char-append b'$' prefix (count ++ b'$' ∷ (salt ++ b'$' ∷ hash)) no_dollar.0,
  split_char-append b'$' count (salt ++ b'$' ∷ hash) hc,
  split_char-append b'$' salt hash hs,
  split_char_absent b'$' hash hh,
)

pub starts_with-stored :
    (count salt hash : Text) → starts_with (prefix ++ b'$' ∷ []) (stored_of count salt hash) ≡ true
unfolding starts_with
starts_with-stored count salt hash = refl

module _ (derive : Derive) where
  pub stored_of-hash_password :
      (plain : Text) (salt : Bytes)
      → hash_password derive plain salt
        ≡ stored_of (codes "600000") (hex salt) (hex (derive.key plain salt iterations key_length))
  unfolding hash_password
  stored_of-hash_password plain salt = rw show-iterations

  compare_key_of :
      (tried : Text) (salt dk : Bytes)
      → length dk ≡ key_length
      → derive.takes (pos iterations) key_length ≡ true
      → compare_key derive tried (pos 600000) salt dk
        ≡ ok (same (derive.key tried salt iterations key_length) dk)
  unfolding compare_key
  compare_key_of tried salt dk len taken = rw (len, taken) refl

  verify_of_prefix :
      (tried stored : Text)
      → starts_with (prefix ++ b'$' ∷ []) stored ≡ true
      → verify_password derive tried stored ≡ verify_pbkdf2 derive tried stored
  unfolding verify_password
  verify_of_prefix tried stored h = rw h

  verify_pbkdf2_parts :
      (tried count salt hash : Text)
      → has_char b'$' count ≡ false
      → has_char b'$' salt ≡ false
      → has_char b'$' hash ≡ false
      → verify_pbkdf2 derive tried (stored_of count salt hash)
        ≡ verify_parts derive tried (prefix ∷ count ∷ salt ∷ hash ∷ [])
  unfolding verify_pbkdf2
  verify_pbkdf2_parts tried count salt hash hc hs hh =
      ap (verify_parts derive tried) (split_stored count salt hash hc hs hh)

  -- A password is accepted for a stored hash of `plain` exactly if both derive the same key from
  -- its salt; the check never raises. The keys are bytes, as many as were asked for, and the
  -- derivation takes the count and the length of the program.
  pub verify_password-hash_password :
      (plain tried : Text) (salt : Bytes)
      → AreBytes salt
      → AreBytes (derive.key plain salt iterations key_length)
      → length (derive.key plain salt iterations key_length) ≡ key_length
      → derive.takes (pos iterations) key_length ≡ true
      → verify_password derive tried (hash_password derive plain salt)
        ≡ ok (
            same
              (derive.key tried salt iterations key_length)
              (derive.key plain salt iterations key_length))
  verify_password-hash_password plain tried salt hs hd len taken =
      let dk = derive.key plain salt iterations key_length in
      ap (verify_password derive tried) (stored_of-hash_password plain salt)
      ∙ verify_of_prefix tried (stored_of (codes "600000") (hex salt) (hex dk))
          (starts_with-stored (codes "600000") (hex salt) (hex dk))
      ∙ verify_pbkdf2_parts tried (codes "600000") (hex salt) (hex dk) no_dollar.1
          (has_char-hex salt) (has_char-hex dk)
      ∙ rw (to_int_iterations, from_hex-hex salt hs, from_hex-hex dk hd)
          (compare_key_of tried salt dk len taken)
