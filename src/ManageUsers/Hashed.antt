-- ===== src/ManageUsers/Hashed.antt =====
-- A hashed credential of src/auth.py is one that a line of the users file can hold.
use mathlib.Core.List.{reverse, reverse-cons}
use custom_network_proxy_ser.Base.{
  ℕ, ◌<◌, ◌/◌, ◌%◌, ◌≡◌, refl, ap, ◌∙◌, true, false, [], ◌∷◌, ◌++◌, arith, All, ltb, ◌&&◌,
}
use custom_network_proxy_ser.Text.{Text, codes, has_char, starts_with, is_space}
use custom_network_proxy_ser.Text.Codec.{Bytes, hex, hex_digit}
use custom_network_proxy_ser.Text.Trim.{head_ok}
use custom_network_proxy_ser.Auth.{Derive, hash_password, iterations, key_length, prefix}
use custom_network_proxy_ser.Auth.Verify.{
  AreBytes, stored_of, stored_of-hash_password, starts_with-stored,
}
use custom_network_proxy_ser.ManageUsers.Entries.{IsCredential}

-- Printable ASCII, without the space.
abbrev IsVisible : ℕ → Type 0
IsVisible c = (ltb 32 c && ltb c 127) ≡ true

All-append : (s t : Text) → All IsVisible s → All IsVisible t → All IsVisible (s ++ t)
All-append [] t h k = k
All-append (c ∷ s) t (h, hs) k = (h, All-append s t hs k)

All-reverse : (s : Text) → All IsVisible s → All IsVisible (reverse s)
All-reverse [] h = tt
All-reverse (c ∷ s) (h, hs) =
    rw (reverse-cons c s) (All-append (reverse s) (c ∷ []) (All-reverse s hs) (h, tt))

head_ok-IsVisible : (s : Text) → All IsVisible s → head_ok s ≡ true
unfolding is_space
head_ok-IsVisible [] h = refl
head_ok-IsVisible (c ∷ s) (h, hs) = ground (arith, h)

has_char-IsVisible : (c : ℕ) (s : Text) → ltb 32 c ≡ false → All IsVisible s → has_char c s ≡ false
unfolding has_char
has_char-IsVisible c [] k h = refl
has_char-IsVisible c (d ∷ s) k (h, hs) = ground (arith, k, h, has_char-IsVisible c s k hs)

IsVisible-IsCredential : (s : Text) → All IsVisible s → IsCredential s
IsVisible-IsCredential s h = record {
  trimmed = record {
    start = head_ok-IsVisible s h;
    end = head_ok-IsVisible (reverse s) (All-reverse s h);
  };
  no_break = (has_char-IsVisible 10 s refl h, has_char-IsVisible 13 s refl h);
}

hex_digit-IsVisible : (n : ℕ) → n < 16 → IsVisible (hex_digit n)
unfolding hex_digit
hex_digit-IsVisible n h = ground arith

hex-IsVisible : (b : Bytes) → AreBytes b → All IsVisible (hex b)
unfolding hex
hex-IsVisible [] h = tt
hex-IsVisible (b ∷ s) (small, h) = (
  hex_digit-IsVisible (b / 16) (omega arith),
  (hex_digit-IsVisible (b % 16) (omega arith), hex-IsVisible s h),
)

stored_of-IsVisible :
    (count salt hash : Text)
    → All IsVisible count
    → All IsVisible salt
    → All IsVisible hash
    → All IsVisible (stored_of count salt hash)
stored_of-IsVisible count salt hash hc hs hh =
    All-append (prefix ++ b'$' ∷ []) (count ++ b'$' ∷ (salt ++ b'$' ∷ hash))
      (refl, (refl, (refl, (refl, (refl, (refl, (refl, tt)))))))
      (All-append count (b'$' ∷ (salt ++ b'$' ∷ hash)) hc
        (refl, All-append salt (b'$' ∷ hash) hs (refl, hh)))

count-IsVisible : All IsVisible (codes "600000")
unfolding codes
count-IsVisible = (refl, (refl, (refl, (refl, (refl, (refl, tt))))))

module _ (derive : Derive) where
  pub hash_password-IsCredential :
      (plain : Text) (salt : Bytes)
      → AreBytes salt
      → AreBytes (derive.key plain salt iterations key_length)
      → IsCredential (hash_password derive plain salt)
  hash_password-IsCredential plain salt hs hd = rw (stored_of-hash_password derive plain salt) (
      IsVisible-IsCredential _ (
        stored_of-IsVisible (codes "600000") (hex salt)
          (hex (derive.key plain salt iterations key_length)) count-IsVisible
          (hex-IsVisible salt hs) (hex-IsVisible _ hd)))

  pub starts_with-hash_password :
      (plain : Text) (salt : Bytes)
      → starts_with (prefix ++ b'$' ∷ []) (hash_password derive plain salt) ≡ true
  starts_with-hash_password plain salt =
      ap (starts_with (prefix ++ b'$' ∷ [])) (stored_of-hash_password derive plain salt)
      ∙ starts_with-stored (codes "600000") (hex salt)
          (hex (derive.key plain salt iterations key_length))
