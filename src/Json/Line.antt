-- ===== src/Json/Line.antt =====
-- What is dumped is one line.
use custom_network_proxy_ser.Base.{
  ℕ, ◌+◌, ◌/◌, ◌%◌, ◌<◌, ◌≡◌, refl, arith, Bool, true, false, [], ◌∷◌, ◌++◌, ltb, leb,
}
use custom_network_proxy_ser.Text.{Text, has_char}
use custom_network_proxy_ser.Text.Every.{every, every-append, every-show, every-show_ℤ}
use custom_network_proxy_ser.Text.Number.{ℤ, show, show_ℤ}
use custom_network_proxy_ser.Text.Codec.{hex_digit}
use custom_network_proxy_ser.LogSchema.{Value, text, int, tenths}
use custom_network_proxy_ser.Json.{
  Json, scalar, thousandths, array, object, Items, no_items, item, Members, no_members, member,
  escape_char, escape, quoted, decimals, dumps_value, dumps, dumps_items, dumps_more, dumps_members,
  dumps_more_members,
}

-- Not a control character.
abbrev visible : ℕ → Bool
visible c = leb 32 c

-- No control character stands in the text.
abbrev pub printable : Text → Bool
printable s = every visible s

printable-append :
    (s t : Text) → printable s ≡ true → printable t ≡ true → printable (s ++ t) ≡ true
printable-append = every-append visible

pub has_char-printable :
    (c : ℕ) (s : Text) → ltb c 32 ≡ true → printable s ≡ true → has_char c s ≡ false
unfolding has_char
has_char-printable c [] k h = refl
has_char-printable c (d ∷ s) k h =
    ground (arith, k, h, has_char-printable c s k (ground (arith, h)))

visible_digit : (d : ℕ) → d < 10 → visible (b'0' + d) ≡ true
visible_digit d h = ground arith

printable-show : (n : ℕ) → printable (show n) ≡ true
printable-show = every-show visible visible_digit

printable-show_ℤ : (n : ℤ) → printable (show_ℤ n) ≡ true
printable-show_ℤ n = every-show_ℤ visible visible_digit n refl

printable-escape_char : (c : ℕ) → printable (escape_char c) ≡ true
unfolding escape_char hex_digit
printable-escape_char c = ground arith

printable-escape : (s : Text) → printable (escape s) ≡ true
unfolding escape
printable-escape [] = refl
printable-escape (c ∷ s) =
    printable-append (escape_char c) (escape s) (printable-escape_char c) (printable-escape s)

printable-quoted : (s : Text) → printable (quoted s) ≡ true
printable-quoted s = printable-append (escape s) (b'"' ∷ []) (printable-escape s) refl

printable-decimals : (n : ℕ) → printable (decimals n) ≡ true
printable-decimals n = ground arith

printable-dumps_value : (v : Value) → printable (dumps_value v) ≡ true
unfolding dumps_value
printable-dumps_value (text s) = printable-quoted s
printable-dumps_value (int n) = printable-show_ℤ n
printable-dumps_value (tenths n) =
    printable-append (show (n / 10)) _ (printable-show (n / 10)) (ground arith)

mutual
  unfolding dumps

  -- No control character, and so no line break, is in what is dumped.
  pub printable-dumps : (j : Json) → printable (dumps j) ≡ true
  printable-dumps (scalar v) = printable-dumps_value v
  printable-dumps (thousandths n) =
      printable-append (show (n / 1000)) (b'.' ∷ decimals (n % 1000)) (printable-show (n / 1000))
        (printable-decimals (n % 1000))
  printable-dumps (array xs) = printable-dumps_items xs
  printable-dumps (object ms) = printable-dumps_members ms

  printable-dumps_items : (xs : Items) → printable (dumps_items xs) ≡ true
  printable-dumps_items no_items = refl
  printable-dumps_items (item x xs) =
      printable-append (dumps x) (dumps_more xs) (printable-dumps x) (printable-dumps_more xs)

  printable-dumps_more : (xs : Items) → printable (dumps_more xs) ≡ true
  printable-dumps_more no_items = refl
  printable-dumps_more (item x xs) =
      printable-append (dumps x) (dumps_more xs) (printable-dumps x) (printable-dumps_more xs)

  printable-dumps_members : (ms : Members) → printable (dumps_members ms) ≡ true
  printable-dumps_members no_members = refl
  printable-dumps_members (member k x ms) =
      printable-append (quoted k) _ (printable-quoted k)
        (printable-append (dumps x) _ (printable-dumps x) (printable-dumps_more_members ms))

  printable-dumps_more_members : (ms : Members) → printable (dumps_more_members ms) ≡ true
  printable-dumps_more_members no_members = refl
  printable-dumps_more_members (member k x ms) =
      printable-append (quoted k) _ (printable-quoted k)
        (printable-append (dumps x) _ (printable-dumps x) (printable-dumps_more_members ms))
