-- ===== src/Json/Strings.antt =====
-- A reader of strings of JSON, and what it gives of a string that was dumped.
use custom_network_proxy_ser.Base.{
  ℕ, zero, suc, ◌+◌, ◌*◌, ◌/◌, ◌%◌, ◌<◌, ◌≡◌, refl, ap, ◌∙◌, arith, true, false, ◌||◌, Option, none,
  some, [], ◌∷◌, ◌++◌, append_assoc, ltb, ◌==◌, ==_iff, ltb→lt, if_elim, if◌then◌else◌,
}
use custom_network_proxy_ser.Text.{Text}
use custom_network_proxy_ser.Text.Codec.{hex_digit, hex_value}
use custom_network_proxy_ser.Json.{escape_char, escape, quoted}

-- Within a string, just after a backslash, or after `\u` with the digits that are left.
pub data Mode : Type 0 where
  plain : Mode
  escaped : Mode
  digits : ℕ → ℕ → Mode

abbrev push : ℕ → Option (Text × Text) → Option (Text × Text)
push c none = none
push c (some (s, rest)) = some (c ∷ s, rest)

-- What a backslash and this character stand for.
abbrev meaning : ℕ → ℕ
meaning c =
    if c == b'n'
    then 10
    else if c == b'r'
    then 13
    else if c == b't'
    then 9
    else if c == b'f'
    then 12
    else if c == b'b'
    then 8
    else c

abbrev digit : Option ℕ → ℕ
digit none = 0
digit (some v) = v

-- The string up to its closing quote, and what follows it.
unfoldable read : Mode → Text → Option (Text × Text)
unfolding hex_value
read m [] = none
read plain (c ∷ s) =
    let rest = read plain s in
    let after = read escaped s in
    if c == b'"' then some ([], s) else if c == b'\\' then after else push c rest
read escaped (c ∷ s) =
    let rest = read plain s in
    let hex = read (digits 3 0) s in if c == b'u' then hex else push (meaning c) rest
read (digits zero acc) (c ∷ s) = push (acc * 16 + digit (hex_value c)) (read plain s)
read (digits (suc k) acc) (c ∷ s) = read (digits k (acc * 16 + digit (hex_value c))) s

unfoldable pub read_string : Text → Option (Text × Text)
unfolding read
read_string [] = none
read_string (c ∷ s) = let body = read plain s in if c == b'"' then body else none

hex_value-hex_digit : (n : ℕ) → n < 16 → hex_value (hex_digit n) ≡ some n
unfolding hex_value hex_digit
hex_value-hex_digit n h = ground arith

read_unicode :
    (c : ℕ) (t : Text)
    → c < 32
    → read plain (b'\\' ∷ b'u' ∷ b'0' ∷ b'0' ∷ hex_digit (c / 16) ∷ hex_digit (c % 16) ∷ t)
      ≡ push c (read plain t)
unfolding read
read_unicode c t h =
    let whole : (0 * 16 + c / 16) * 16 + c % 16 ≡ c = omega arith in
    rw
      (
        hex_value-hex_digit (c / 16) (omega arith),
        hex_value-hex_digit (c % 16) (omega arith),
        whole,
      )
      refl

read_quote :
    (c : ℕ) (t : Text)
    → (c == b'"' || c == b'\\') ≡ true
    → read plain (b'\\' ∷ c ∷ t) ≡ push c (read plain t)
unfolding read
read_quote c t h =
    let named : (c == b'u') ≡ false = ground (arith, h) in
    let same : meaning c ≡ c = ground (arith, h) in rw (named, same) refl

read_letter :
    (c d : ℕ) (t : Text)
    → (c == d) ≡ true
    → (l : ℕ) → (l == b'u') ≡ false
    → meaning l ≡ d
    → read plain (b'\\' ∷ l ∷ t) ≡ push c (read plain t)
unfolding read
read_letter c d t h l u m = let same : c ≡ d = (==_iff c d).0 h in rw (u, m, same) refl

read_plain :
    (c : ℕ) (t : Text)
    → (c == b'"' || c == b'\\') ≡ false
    → read plain (c ∷ t) ≡ push c (read plain t)
unfolding read
read_plain c t h =
    let quote : (c == b'"') ≡ false = ground (arith, h) in
    let slash : (c == b'\\') ≡ false = ground (arith, h) in rw (quote, slash) refl

-- What stands for a character reads as the character.
read-escape_char : (c : ℕ) (t : Text) → read plain (escape_char c ++ t) ≡ push c (read plain t)
unfolding escape_char
read-escape_char c t =
    let Reads : Text → Type 0 = λ e. read plain (e ++ t) ≡ push c (read plain t) in
    if_elim Reads (c == b'"' || c == b'\\') (λ h. read_quote c t h)
      (λ q.
        if_elim Reads (c == 10) (λ h. read_letter c 10 t h b'n' refl refl)
          (λ _.
            if_elim Reads (c == 13) (λ h. read_letter c 13 t h b'r' refl refl)
              (λ _.
                if_elim Reads (c == 9) (λ h. read_letter c 9 t h b't' refl refl)
                  (λ _.
                    if_elim Reads (c == 12) (λ h. read_letter c 12 t h b'f' refl refl)
                      (λ _.
                        if_elim Reads (c == 8) (λ h. read_letter c 8 t h b'b' refl refl)
                          (λ _.
                            if_elim Reads (ltb c 32) (λ h. read_unicode c t (ltb→lt c 32 h))
                              (λ _. read_plain c t q)))))))

read-escape : (s t : Text) → read plain (escape s ++ b'"' ∷ t) ≡ some (s, t)
unfolding escape
read-escape [] t = unfold read in refl
read-escape (c ∷ s) t =
    ap (read plain) (append_assoc (escape_char c) (escape s) (b'"' ∷ t))
    ∙ read-escape_char c (escape s ++ b'"' ∷ t)
    ∙ ap (push c) (read-escape s t)

-- Reading what was dumped gives the string back, and what follows it.
pub read_string-quoted : (s t : Text) → read_string (quoted s ++ t) ≡ some (s, t)
unfolding read_string
read_string-quoted s t = ap (read plain) (append_assoc (escape s) (b'"' ∷ []) t) ∙ read-escape s t
