-- ===== src/Text/Breaks.antt =====
-- Texts without a line break CR LF, and `split("\r\n")` of lines that are joined by it.
use mathlib.Core.List.{reverse, reverse-append, reverse-reverse}
use custom_network_proxy_ser.Base.{
  ℕ, ◌≡◌, refl, sym, ap, ◌∙◌, arith, Bool, inl, inr, true, false, ◌&&◌, ◌||◌, List, [], ◌∷◌, ◌++◌,
  ◌==◌, All, append_assoc, Bool-cases,
}
use custom_network_proxy_ser.Text.{
  Text, is_space, cons_head, lstrip, strip, lower, lower_char, split_crlf, join,
}

-- Whether CR LF stands somewhere in a text.
unfoldable pub has_break : Text → Bool
has_break [] = false
has_break (c ∷ []) = false
has_break (c ∷ d ∷ s) = c == 13 && d == 10 || has_break (d ∷ s)

pub has_break-tail : (c : ℕ) (s : Text) → has_break (c ∷ s) ≡ false → has_break s ≡ false
unfolding has_break
has_break-tail c [] h = refl
has_break-tail c (d ∷ s) h = ground (arith, h)

pub has_break-suffix : (s t : Text) → has_break (s ++ t) ≡ false → has_break t ≡ false
has_break-suffix [] t h = h
has_break-suffix (c ∷ s) t h = has_break-suffix s t (has_break-tail c (s ++ t) h)

pub has_break-prefix : (s t : Text) → has_break (s ++ t) ≡ false → has_break s ≡ false
unfolding has_break
has_break-prefix [] t h = refl
has_break-prefix (c ∷ []) t h = refl
has_break-prefix (c ∷ d ∷ s) t h = ground (arith, h, has_break-prefix (d ∷ s) t)

-- A character that is not LF keeps two texts apart.
pub has_break-append :
    (s : Text) (c : ℕ) (t : Text)
    → (c == 10) ≡ false
    → has_break s ≡ false
    → has_break (c ∷ t) ≡ false
    → has_break (s ++ c ∷ t) ≡ false
unfolding has_break
has_break-append [] c t n h k = k
has_break-append (a ∷ []) c t n h k = ground (arith, n, k)
has_break-append (a ∷ b ∷ s) c t n h k = ground (arith, h, has_break-append (b ∷ s) c t n)

lstrip-suffix : (s : Text) → (a : Text) × (s ≡ a ++ lstrip s)
unfolding lstrip
lstrip-suffix [] = ([], refl)
lstrip-suffix (c ∷ s) = elim (Bool-cases (is_space c)) [
  | inl e ↦ let (a, k) = lstrip-suffix s in (c ∷ a, rw e (ap (◌∷◌ c) k))
  | inr e ↦ ([], rw e refl)
]

split_crlf-keeps :
    (c d : ℕ) (s : Text)
    → (c == 13 && d == 10) ≡ false
    → split_crlf (c ∷ d ∷ s) ≡ cons_head c (split_crlf (d ∷ s))
unfolding split_crlf
split_crlf-keeps c d s h =
    ap
      (λ (b : Bool). elim b [ true ↦ [] ∷ split_crlf s | false ↦ cons_head c (split_crlf (d ∷ s)) ])
      h

split_crlf-breaks :
    (c d : ℕ) (s : Text) → (c == 13 && d == 10) ≡ true → split_crlf (c ∷ d ∷ s) ≡ [] ∷ split_crlf s
unfolding split_crlf
split_crlf-breaks c d s h =
    ap
      (λ (b : Bool). elim b [ true ↦ [] ∷ split_crlf s | false ↦ cons_head c (split_crlf (d ∷ s)) ])
      h

split_crlf-line : (s : Text) → has_break s ≡ false → split_crlf s ≡ s ∷ []
unfolding has_break split_crlf
split_crlf-line [] h = refl
split_crlf-line (c ∷ []) h = refl
split_crlf-line (c ∷ d ∷ s) h =
    split_crlf-keeps c d s (ground (arith, h))
    ∙ ap (cons_head c) (split_crlf-line (d ∷ s) (has_break-tail c (d ∷ s) h))

pub split_crlf-append :
    (s t : Text) → has_break s ≡ false → split_crlf (s ++ 13 ∷ 10 ∷ t) ≡ s ∷ split_crlf t
unfolding has_break
split_crlf-append [] t h = unfold split_crlf in refl
split_crlf-append (c ∷ []) t h =
    split_crlf-keeps c 13 (10 ∷ t) (ground arith) ∙ unfold split_crlf in refl
split_crlf-append (c ∷ d ∷ s) t h =
    split_crlf-keeps c d (s ++ 13 ∷ 10 ∷ t) (ground (arith, h))
    ∙ ap (cons_head c) (split_crlf-append (d ∷ s) t (has_break-tail c (d ∷ s) h))

join-append :
    (sep p q : Text) (ps : List Text) (t : Text)
    → join sep (p ∷ q ∷ ps) ++ t ≡ p ++ (sep ++ (join sep (q ∷ ps) ++ t))
join-append sep p q ps t =
    unfold join in
    append_assoc (p ++ sep) (join sep (q ∷ ps)) t ∙ append_assoc p sep (join sep (q ∷ ps) ++ t)

-- Lines without a break that are joined by CR LF, and what follows them, are split into the lines.
pub split_crlf-join :
    (l : Text) (ls : List Text) (t : Text)
    → All (λ s. has_break s ≡ false) (l ∷ ls)
    → split_crlf (join (13 ∷ 10 ∷ []) (l ∷ ls) ++ 13 ∷ 10 ∷ t) ≡ (l ∷ ls) ++ split_crlf t
split_crlf-join l [] t (h, _) = unfold join in split_crlf-append l t h
split_crlf-join l (m ∷ ls) t (h, hs) =
    ap split_crlf (join-append (13 ∷ 10 ∷ []) l m ls (13 ∷ 10 ∷ t))
    ∙ split_crlf-append l (join (13 ∷ 10 ∷ []) (m ∷ ls) ++ 13 ∷ 10 ∷ t) h
    ∙ ap (◌∷◌ l) (split_crlf-join m ls t hs)

pub has_break-lower : (s : Text) → has_break s ≡ false → has_break (lower s) ≡ false
unfolding has_break lower lower_char
has_break-lower [] h = refl
has_break-lower (c ∷ []) h = refl
has_break-lower (c ∷ d ∷ s) h = ground (arith, has_break-lower (d ∷ s))

-- The lines that `split("\r\n")` gives have no break.
-- Whether the first line of a split text begins with a character.
abbrev first_char : ℕ → List Text → Bool
first_char c ((d ∷ l) ∷ ls) = c == d
first_char c _ = false

has_break-cons_head :
    (c : ℕ) (ls : List Text)
    → (c == 13 && first_char 10 ls) ≡ false
    → All (λ l. has_break l ≡ false) ls
    → All (λ l. has_break l ≡ false) (cons_head c ls)
unfolding has_break
has_break-cons_head c [] n h = (refl, tt)
has_break-cons_head c ([] ∷ ls) n (h, hs) = (refl, hs)
has_break-cons_head c ((d ∷ l) ∷ ls) n (h, hs) = (ground (arith, n, h), hs)

first_char-cons_head : (d : ℕ) (ls : List Text) → first_char 10 (cons_head d ls) ≡ (10 == d)
first_char-cons_head d [] = refl
first_char-cons_head d (l ∷ ls) = refl

first_char-split_crlf :
    (d : ℕ) (s : Text) → (d == 10) ≡ false → first_char 10 (split_crlf (d ∷ s)) ≡ false
first_char-split_crlf d [] n = unfold split_crlf in ground (arith, n)
first_char-split_crlf d (e ∷ s) n = elim (Bool-cases (d == 13 && e == 10)) [
  | inl h ↦ ap (first_char 10) (split_crlf-breaks d e s h)
  | inr h ↦
      ap (first_char 10) (split_crlf-keeps d e s h)
      ∙ first_char-cons_head d (split_crlf (e ∷ s))
      ∙ ground (arith, n)
]

-- The lines that `split("\r\n")` gives have no break.
pub split_crlf-no_break : (s : Text) → All (λ l. has_break l ≡ false) (split_crlf s)
split_crlf-no_break [] = unfold split_crlf in unfold has_break in (refl, tt)
split_crlf-no_break (c ∷ []) = unfold split_crlf in unfold has_break in (refl, tt)
split_crlf-no_break (c ∷ d ∷ s) = elim (Bool-cases (c == 13 && d == 10)) [
  | inl e ↦ rw (split_crlf-breaks c d s e) (unfold has_break in refl, split_crlf-no_break s)
  | inr e ↦ rw (split_crlf-keeps c d s e) (
      has_break-cons_head c (split_crlf (d ∷ s))
        (elim (Bool-cases (d == 10)) [
          | inl f ↦ ground (arith, e, f)
          | inr f ↦ rw (first_char-split_crlf d s f) (ground arith)
        ])
        (split_crlf-no_break (d ∷ s)))
]

reverse-suffix : (s : Text) → (b : Text) × (reverse (lstrip (reverse s)) ++ b ≡ s)
reverse-suffix s =
    let (a, k) = lstrip-suffix (reverse s) in
    (
      reverse a,
      sym (reverse-append a (lstrip (reverse s))) ∙ ap reverse (sym k) ∙ reverse-reverse s,
    )

has_break-lstrip : (s : Text) → has_break s ≡ false → has_break (lstrip s) ≡ false
has_break-lstrip s h =
    let (a, k) = lstrip-suffix s in has_break-suffix a (lstrip s) (ap has_break (sym k) ∙ h)

pub has_break-strip : (s : Text) → has_break s ≡ false → has_break (strip s) ≡ false
unfolding strip
has_break-strip s h =
    let (b, k) = reverse-suffix (lstrip s) in
    has_break-prefix (reverse (lstrip (reverse (lstrip s)))) b
      (ap has_break k ∙ has_break-lstrip s h)
