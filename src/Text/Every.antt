-- ===== src/Text/Every.antt =====
-- Texts all of whose characters pass a test, such as the digits of a number.
use mathlib.Core.List.{reverse, reverse-cons}
use custom_network_proxy_ser.Base.{
  ℕ, zero, suc, ◌+◌, ◌/◌, ◌%◌, ◌<◌, ◌≡◌, refl, arith, Bool, true, false, ◌&&◌, [], ◌∷◌, ◌++◌,
}
use custom_network_proxy_ser.Text.{Text, span}
use custom_network_proxy_ser.Text.Number.{ℤ, pos, negsuc, show, show_ℤ, digits_from}

abbrev pub every : (ℕ → Bool) → Text → Bool
every p [] = true
every p (c ∷ s) = p c && every p s

module _ (p : ℕ → Bool) where
  pub every-append : (s t : Text) → every p s ≡ true → every p t ≡ true → every p (s ++ t) ≡ true
  every-append [] t h k = k
  every-append (c ∷ s) t h k = ground (arith, h, every-append s t (ground (arith, h)) k)

  every-reverse : (s : Text) → every p s ≡ true → every p (reverse s) ≡ true
  every-reverse [] h = refl
  every-reverse (c ∷ s) h =
      rw (reverse-cons c s) (
        every-append (reverse s) (c ∷ []) (every-reverse s (ground (arith, h))) (ground (arith, h)))

  -- What the test says of all before the first that fails it.
  pub span-append :
      (s : Text) (c : ℕ) (t : Text)
      → every p s ≡ true
      → p c ≡ false
      → span p (s ++ c ∷ t) ≡ (s, c ∷ t)
  unfolding span
  span-append [] c t h k = rw k refl
  span-append (d ∷ s) c t h k =
      let here : p d ≡ true = ground (arith, h) in
      rw (here, span-append s c t (ground (arith, h)) k) refl

  module _ (digit : (d : ℕ) → d < 10 → p (b'0' + d) ≡ true) where
    every-digits_from : (f n : ℕ) → every p (digits_from f n) ≡ true
    unfolding digits_from
    every-digits_from zero n = refl
    every-digits_from (suc f) n =
        ground (arith, digit (n % 10) (omega arith), every-digits_from f (n / 10))

    pub every-show : (n : ℕ) → every p (show n) ≡ true
    unfolding show
    every-show n = every-reverse (digits_from (n + 1) n) (every-digits_from (n + 1) n)

    pub every-show_ℤ : (n : ℤ) → p b'-' ≡ true → every p (show_ℤ n) ≡ true
    unfolding show_ℤ
    every-show_ℤ (pos n) h = every-show n
    every-show_ℤ (negsuc n) h = rw h (every-show (n + 1))
