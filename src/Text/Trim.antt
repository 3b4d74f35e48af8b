-- ===== src/Text/Trim.antt =====
-- What `strip` leaves, and which characters stay away.
use mathlib.Core.List.{reverse, reverse-cons, reverse-append, reverse-reverse}
use custom_network_proxy_ser.Base.{
  ℕ, ◌≡◌, refl, sym, ap, ◌∙◌, inl, inr, arith, Bool, true, false, not, ◌||◌, some, [], ◌∷◌, ◌++◌,
  Bool-cases, Option-cases, ◌==◌, ==_iff,
}
use custom_network_proxy_ser.Text.{Text, has_char, lstrip, strip, is_space, split_once}

pub has_char-append : (c : ℕ) (s t : Text) → has_char c (s ++ t) ≡ (has_char c s || has_char c t)
unfolding has_char
has_char-append c [] t = refl
has_char-append c (d ∷ s) t = ground (arith, has_char-append c s t)

has_char-reverse : (c : ℕ) (s : Text) → has_char c s ≡ false → has_char c (reverse s) ≡ false
unfolding has_char
has_char-reverse c [] h = refl
has_char-reverse c (d ∷ s) h =
    rw (reverse-cons d s, has_char-append c (reverse s) (d ∷ []))
      (ground (arith, has_char-reverse c s))

has_char-lstrip : (c : ℕ) (s : Text) → has_char c s ≡ false → has_char c (lstrip s) ≡ false
unfolding has_char lstrip
has_char-lstrip c [] h = refl
has_char-lstrip c (d ∷ s) h = ground (arith, has_char-lstrip c s)

-- A character that stands nowhere in a text stands nowhere in what `strip` leaves.
pub has_char-strip : (c : ℕ) (s : Text) → has_char c s ≡ false → has_char c (strip s) ≡ false
unfolding strip
has_char-strip c s h =
    has_char-reverse c _ (has_char-lstrip c _ (has_char-reverse c _ (has_char-lstrip c s h)))

-- The first character is no white space.
abbrev pub head_ok : Text → Bool
head_ok [] = true
head_ok (c ∷ s) = not (is_space c)

-- No white space at either end.
pub record IsTrimmed (s : Text) : Type 0 where
  pub start : head_ok s ≡ true
  pub end : head_ok (reverse s) ≡ true

pub head_ok-append :
    (s : Text) (c : ℕ) (t : Text)
    → head_ok s ≡ true
    → is_space c ≡ false
    → head_ok (s ++ c ∷ t) ≡ true
head_ok-append [] c t h k = rw k refl
head_ok-append (d ∷ s) c t h k = h

lstrip_fixed : (s : Text) → head_ok s ≡ true → lstrip s ≡ s
unfolding lstrip
lstrip_fixed [] h = refl
lstrip_fixed (c ∷ s) h = ground (arith, h)

pub strip_fixed : (s : Text) → IsTrimmed s → strip s ≡ s
unfolding strip
strip_fixed s h =
    ap (λ (t : Text). reverse (lstrip (reverse t))) (lstrip_fixed s h.start)
    ∙ ap reverse (lstrip_fixed (reverse s) h.end)
    ∙ reverse-reverse s

head_ok-lstrip : (s : Text) → head_ok (lstrip s) ≡ true
unfolding lstrip
head_ok-lstrip [] = refl
head_ok-lstrip (c ∷ s) = ground (arith, head_ok-lstrip s)

-- What stands before the last character that is no white space goes first.
lstrip-last :
    (s : Text) (c : ℕ) → is_space c ≡ false → (t : Text) × (lstrip (s ++ c ∷ []) ≡ t ++ c ∷ [])
unfolding lstrip
lstrip-last [] c h = ([], rw h refl)
lstrip-last (d ∷ s) c h = elim (Bool-cases (is_space d)) [
  | inl e ↦ let (t, k) = lstrip-last s c h in (t, rw e k)
  | inr e ↦ (d ∷ s, rw e refl)
]

-- A text whose first character is no white space keeps it.
pub strip-head : (c : ℕ) (s : Text) → is_space c ≡ false → (t : Text) × (strip (c ∷ s) ≡ c ∷ t)
unfolding strip
strip-head c s h =
    let (t, k) = lstrip-last (reverse s) c h in
    let fixed = lstrip_fixed (c ∷ s) (rw h refl) in
    (
      reverse t,
      ap (λ (u : Text). reverse (lstrip (reverse u))) fixed
          ∙ ap (λ (u : Text). reverse (lstrip u)) (reverse-cons c s)
          ∙ ap reverse k
          ∙ reverse-append t (c ∷ []),
    )

strip-lstrip : (s : Text) → strip s ≡ strip (lstrip s)
unfolding strip
strip-lstrip s =
    ap (λ (u : Text). reverse (lstrip (reverse u)))
      (sym (lstrip_fixed (lstrip s) (head_ok-lstrip s)))

head_ok-strip : (s : Text) → head_ok s ≡ true → head_ok (strip s) ≡ true
head_ok-strip [] h = unfold strip in refl
head_ok-strip (c ∷ s) h =
    let space : is_space c ≡ false = ground (arith, h) in
    let (t, k) = strip-head c s space in rw (k, space) refl

pub strip-IsTrimmed : (s : Text) → IsTrimmed (strip s)
strip-IsTrimmed s = record {
  start = ap head_ok (strip-lstrip s) ∙ head_ok-strip (lstrip s) (head_ok-lstrip s);
  end = ap head_ok (reverse-strip s) ∙ head_ok-lstrip (reverse (lstrip s));
}
  where
    reverse-strip : (s : Text) → reverse (strip s) ≡ lstrip (reverse (lstrip s))
    reverse-strip s = unfold strip in reverse-reverse (lstrip (reverse (lstrip s)))

-- Splitting at a character.
pub split_once-append :
    (c : ℕ) (s t : Text) → has_char c s ≡ false → split_once c (s ++ c ∷ t) ≡ some (s, t)
unfolding split_once has_char
split_once-append c [] t h = ground arith
split_once-append c (d ∷ s) t h = ground (arith, split_once-append c s t)

pub split_once-first : (c : ℕ) (s a b : Text) → split_once c s ≡ some (a, b) → has_char c a ≡ false
unfolding split_once has_char
split_once-first c [] a b h = absurd (cc)
split_once-first c (d ∷ s) a b h = elim (Bool-cases (c == d)) [
  | inl e ↦ cc (rw e at h)
  | inr e ↦ elim (Option-cases (split_once c s)) [
    | inl n ↦ absurd (cc (rw (e, n) at h))
    | inr ((x, y), n) ↦
        let ih = split_once-first c s x y n in
        let same : a ≡ d ∷ x = cc (rw (e, n) at h) in rw same (ground (arith, e, ih))
  ]
]

pub split_once-whole : (c : ℕ) (s a b : Text) → split_once c s ≡ some (a, b) → s ≡ a ++ c ∷ b
unfolding split_once
split_once-whole c [] a b h = absurd (cc)
split_once-whole c (d ∷ s) a b h = elim (Bool-cases (c == d)) [
  | inl e ↦ cc (rw e at h, (==_iff c d).0 e)
  | inr e ↦ elim (Option-cases (split_once c s)) [
    | inl n ↦ absurd (cc (rw (e, n) at h))
    | inr ((x, y), n) ↦ cc (split_once-whole c s x y n, rw (e, n) at h)
  ]
]

pub has_char-parts :
    (c : ℕ) (s : Text) (d : ℕ) (t : Text)
    → has_char c (s ++ d ∷ t) ≡ false
    → (has_char c s ≡ false) × (has_char c t ≡ false)
unfolding has_char
has_char-parts c [] d t h = (refl, ground (arith, h))
has_char-parts c (e ∷ s) d t h =
    let (p, q) = has_char-parts c s d t (ground (arith, h)) in (ground (arith, h, p), q)
