-- ===== src/Text/Laws.antt =====
-- Laws of the methods of `str`.
use mathlib.Core.List.{reverse, reverse-append, reverse-reverse}
use custom_network_proxy_ser.Base.{
  ℕ, ◌≡◌, refl, sym, ap, ◌∙◌, ◌↔◌, true, [], ◌∷◌, ◌++◌, arith, ◌==◌, ==_iff, Bool-cases, inl, inr,
}
use custom_network_proxy_ser.Text.{Text, same, starts_with, ends_with, lower, lower_char}

same_sound : (s t : Text) → same s t ≡ true → s ≡ t
unfolding same
same_sound [] [] h = refl
same_sound (a ∷ s) (b ∷ t) h = ground (arith, same_sound s t)
same_sound [] (b ∷ t) h = absurd (cc)
same_sound (a ∷ s) [] h = absurd (cc)

pub same_refl : (s : Text) → same s s ≡ true
unfolding same
same_refl [] = refl
same_refl (a ∷ s) = ground (arith, same_refl s)

pub same_iff : (s t : Text) → (same s t ≡ true) ↔ (s ≡ t)
same_iff s t = (same_sound s t, λ e. rw e (same_refl t))

starts_with_sound : (t s : Text) → starts_with t s ≡ true → (u : Text) × (s ≡ t ++ u)
unfolding starts_with
starts_with_sound [] s h = (s, refl)
starts_with_sound (a ∷ t) [] h = absurd (cc)
starts_with_sound (a ∷ t) (b ∷ s) h = elim (Bool-cases (a == b)) [
  | inl e ↦ let (u, rest) = starts_with_sound t s (rw e at h) in (u, cc (rest, (==_iff a b).0 e))
  | inr e ↦ absurd (cc (rw e at h))
]

pub starts_with-append : (t u : Text) → starts_with t (t ++ u) ≡ true
unfolding starts_with
starts_with-append [] u = refl
starts_with-append (a ∷ t) u = ground (arith, starts_with-append t u)

pub starts_with_iff : (t s : Text) → (starts_with t s ≡ true) ↔ ((u : Text) × (s ≡ t ++ u))
starts_with_iff t s = (starts_with_sound t s, λ (u, e). rw e (starts_with-append t u))

ends_with_sound : (t s : Text) → ends_with t s ≡ true → (u : Text) × (s ≡ u ++ t)
unfolding ends_with
ends_with_sound t s h =
    let (u, e) = starts_with_sound (reverse t) (reverse s) h in
    (
      reverse u,
      sym (reverse-reverse s)
          ∙ ap reverse e
          ∙ reverse-append (reverse t) u
          ∙ ap (λ (w : Text). reverse u ++ w) (reverse-reverse t),
    )

pub ends_with-append : (u t : Text) → ends_with t (u ++ t) ≡ true
unfolding ends_with
ends_with-append u t = rw reverse-append (starts_with-append (reverse t) (reverse u))

pub ends_with_iff : (t s : Text) → (ends_with t s ≡ true) ↔ ((u : Text) × (s ≡ u ++ t))
ends_with_iff t s = (ends_with_sound t s, λ (u, e). rw e (ends_with-append u t))

lower_char_idem : (c : ℕ) → lower_char (lower_char c) ≡ lower_char c
unfolding lower_char
lower_char_idem c = ground arith

pub lower_idem : (s : Text) → lower (lower s) ≡ lower s
unfolding lower
lower_idem [] = refl
lower_idem (c ∷ s) = cc (lower_char_idem c, lower_idem s)
