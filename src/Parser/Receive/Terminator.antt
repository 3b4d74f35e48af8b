-- ===== src/Parser/Receive/Terminator.antt =====
-- Where the headers of a request of src/parser.py end, in a part of it and in the whole.
use custom_network_proxy_ser.Base.{
  ℕ, ◌+◌, ◌≤◌, ◌≡◌, refl, sym, ap, ◌∙◌, inl, inr, arith, true, false, Option, none, some, [], ◌∷◌,
  ◌++◌, length, Bool-cases, Option-cases,
}
use custom_network_proxy_ser.Text.{starts_with, find}
use custom_network_proxy_ser.Text.Codec.{Bytes}
use custom_network_proxy_ser.Parser.Receive.{header_terminator, header_end}

starts-length : (p s : Bytes) → starts_with p s ≡ true → length p ≤ length s
unfolding starts_with
starts-length [] s h = omega arith
starts-length (a ∷ p) [] h = absurd (cc)
starts-length (a ∷ p) (c ∷ s) h = ground (arith, starts-length p s)

starts-more : (p s u : Bytes) → starts_with p s ≡ true → starts_with p (s ++ u) ≡ true
unfolding starts_with
starts-more [] s u h = refl
starts-more (a ∷ p) [] u h = absurd (cc)
starts-more (a ∷ p) (c ∷ s) u h = ground (arith, starts-more p s u)

starts-less :
    (p s u : Bytes) → length p ≤ length s → starts_with p (s ++ u) ≡ true → starts_with p s ≡ true
unfolding starts_with
starts-less [] s u n h = refl
starts-less (a ∷ p) [] u n h = absurd (omega arith)
starts-less (a ∷ p) (c ∷ s) u n h = ground (arith, starts-less p s u (omega arith))

find-here :
    (c : ℕ) (s : Bytes)
    → starts_with header_terminator (c ∷ s) ≡ true
    → find header_terminator (c ∷ s) ≡ some 0
unfolding find
find-here c s e = rw e refl

find-there :
    (c : ℕ) (s : Bytes) (k : ℕ)
    → starts_with header_terminator (c ∷ s) ≡ false
    → find header_terminator s ≡ some k
    → find header_terminator (c ∷ s) ≡ some (k + 1)
unfolding find
find-there c s k e f = rw (e, f) refl

find-nowhere :
    (c : ℕ) (s : Bytes)
    → starts_with header_terminator (c ∷ s) ≡ false
    → find header_terminator s ≡ none
    → find header_terminator (c ∷ s) ≡ none
unfolding find
find-nowhere c s e f = rw (e, f) refl

find_empty : find header_terminator [] ≡ none
unfolding find starts_with
find_empty = refl

pub some_same : (m n : ℕ) (o : Option ℕ) → o ≡ some m → o ≡ some n → m ≡ n
some_same m n o a b = cc

-- Where the terminator is found, it lies within the bytes.
find-length : (s : Bytes) (m : ℕ) → find header_terminator s ≡ some m → m + 4 ≤ length s
find-length [] m h = let missing = find_empty in absurd (cc)
find-length (c ∷ s) m h = elim (Bool-cases (starts_with header_terminator (c ∷ s))) [
  | inl e ↦
      omega (arith, some_same m 0 _ h (find-here c s e), starts-length header_terminator (c ∷ s) e)
  | inr e ↦ elim (Option-cases (find header_terminator s)) [
    | inl f ↦ let missing = find-nowhere c s e f in absurd (cc)
    | inr (k, f) ↦ omega (arith, some_same m (k + 1) _ h (find-there c s k e f), find-length s k f)
  ]
]

-- More bytes do not change where it is found.
find-more :
    (s u : Bytes) (m : ℕ)
    → find header_terminator s ≡ some m
    → find header_terminator (s ++ u) ≡ some m
find-more [] u m h = let missing = find_empty in absurd (cc)
find-more (c ∷ s) u m h = elim (Bool-cases (starts_with header_terminator (c ∷ s))) [
  | inl e ↦
      find-here c (s ++ u) (starts-more header_terminator (c ∷ s) u e)
      ∙ ap some (sym (some_same m 0 _ h (find-here c s e)))
  | inr e ↦ elim (Option-cases (find header_terminator s)) [
    | inl f ↦ let missing = find-nowhere c s e f in absurd (cc)
    | inr (k, f) ↦ elim (Bool-cases (starts_with header_terminator (c ∷ s ++ u))) [
      | inl g ↦
          let long : 4 ≤ length (c ∷ s) = omega (arith, find-length s k f) in
          let started = starts-less header_terminator (c ∷ s) u long g in absurd (cc)
      | inr g ↦
          find-there c (s ++ u) k g (find-more s u k f)
          ∙ ap some (sym (some_same m (k + 1) _ h (find-there c s k e f)))
    ]
  ]
]

-- Nor do fewer, if it lies within them.
find-less :
    (s u : Bytes) (m : ℕ)
    → find header_terminator (s ++ u) ≡ some m
    → m + 4 ≤ length s
    → find header_terminator s ≡ some m
find-less [] u m h n = absurd (omega arith)
find-less (c ∷ s) u m h n = elim (Bool-cases (starts_with header_terminator (c ∷ s ++ u))) [
  | inl e ↦
      let zero_place = some_same m 0 _ h (find-here c (s ++ u) e) in
      let long : 4 ≤ length (c ∷ s) = omega (arith, n) in
      find-here c s (starts-less header_terminator (c ∷ s) u long e) ∙ ap some (sym zero_place)
  | inr e ↦ elim (Option-cases (find header_terminator (s ++ u))) [
    | inl f ↦ let missing = find-nowhere c (s ++ u) e f in absurd (cc)
    | inr (k, f) ↦
        let place = some_same m (k + 1) _ h (find-there c (s ++ u) k e f) in
        let inner = find-less s u k f (omega (arith, place, n)) in
        elim (Bool-cases (starts_with header_terminator (c ∷ s))) [
          | inl g ↦ let started = starts-more header_terminator (c ∷ s) u g in absurd (cc)
          | inr g ↦ find-there c s k g inner ∙ ap some (sym place)
        ]
  ]
]

header_end-find :
    (s : Bytes) (k : ℕ) → find header_terminator s ≡ some k → header_end s ≡ some (k + 4)
unfolding header_end
header_end-find s k f = rw (f, header_end) refl

header_end-none : (s : Bytes) → find header_terminator s ≡ none → header_end s ≡ none
unfolding header_end
header_end-none s f = rw (f, header_end) refl

-- The end of the headers lies within the bytes, is kept by more bytes, and by fewer that have it.
pub header_end-length : (s : Bytes) (n : ℕ) → header_end s ≡ some n → n ≤ length s
header_end-length s n h = elim (Option-cases (find header_terminator s)) [
  | inl f ↦ let missing = header_end-none s f in absurd (cc)
  | inr (k, f) ↦ omega (arith, some_same n (k + 4) _ h (header_end-find s k f), find-length s k f)
]

pub header_end-more : (s u : Bytes) (n : ℕ) → header_end s ≡ some n → header_end (s ++ u) ≡ some n
header_end-more s u n h = elim (Option-cases (find header_terminator s)) [
  | inl f ↦ let missing = header_end-none s f in absurd (cc)
  | inr (k, f) ↦
      header_end-find (s ++ u) k (find-more s u k f)
      ∙ ap some (sym (some_same n (k + 4) _ h (header_end-find s k f)))
]

pub header_end-less :
    (s u : Bytes) (n : ℕ) → header_end (s ++ u) ≡ some n → n ≤ length s → header_end s ≡ some n
header_end-less s u n h fits = elim (Option-cases (find header_terminator (s ++ u))) [
  | inl f ↦ let missing = header_end-none (s ++ u) f in absurd (cc)
  | inr (k, f) ↦
      let place = some_same n (k + 4) _ h (header_end-find (s ++ u) k f) in
      header_end-find s k (find-less s u k f (omega (arith, place, fits))) ∙ ap some (sym place)
]
