-- ===== src/Dict/Laws.antt =====
-- Laws of the ordered dictionary: what is read after each change, lengths and totals.
use custom_network_proxy_ser.Base.{
  ℕ, ◌+◌, ◌≡◌, ◌⊎◌, inl, inr, refl, sym, ◌∙◌, ◌≢◌, ite, if_pos, if_neg, none, some, List, [], ◌∷◌,
  ◌++◌, arith, length,
}
use custom_network_proxy_ser.Dict.{lookup, erase, move_to_end, insert}

-- The sum of a measure of the values.
unfoldable pub total {ℓ κ} : {K : Type ℓ} {V : Type κ} → (V → ℕ) → List (K × V) → ℕ
total f [] = 0
total f ((k, v) ∷ d) = f v + total f d

pub total-append {ℓ κ} :
    {K : Type ℓ} {V : Type κ} (f : V → ℕ) (d e : List (K × V))
    → total f (d ++ e) ≡ total f d + total f e
unfolding total
total-append f [] e = omega arith
total-append f ((k, v) ∷ d) e = omega (arith, total-append f d e)

pub total_one {ℓ κ} :
    {K : Type ℓ} {V : Type κ} (f : V → ℕ) (k : K) (v : V) → total f ((k, v) ∷ []) ≡ f v
unfolding total
total_one f k v = omega arith

module _ {ℓ} {K V : Type ℓ} (dec : Discrete K) where
  -- No key stands twice.
  abbrev pub Distinct : List (K × V) → Type ℓ
  Distinct [] = Unit
  Distinct ((k, v) ∷ d) = (lookup dec k d ≡ none) × Distinct d

  pub lookup-append_some :
      (k : K) (v : V) (d e : List (K × V))
      → lookup dec k d ≡ some v
      → lookup dec k (d ++ e) ≡ some v
  unfolding lookup
  lookup-append_some k v [] e h = cc
  lookup-append_some k v ((j, w) ∷ d) e h = ground (arith, lookup-append_some k v d e)

  pub lookup-append_none :
      (k : K) (d e : List (K × V)) → lookup dec k d ≡ none → lookup dec k (d ++ e) ≡ lookup dec k e
  unfolding lookup
  lookup-append_none k [] e h = refl
  lookup-append_none k ((j, w) ∷ d) e h = ground (arith, lookup-append_none k d e)

  pub lookup_one : (k : K) (v : V) → lookup dec k ((k, v) ∷ []) ≡ some v
  unfolding lookup
  lookup_one k v = if_pos (dec k k) refl _ _

  pub lookup_one_ne : (q k : K) (v : V) → q ≢ k → lookup dec q ((k, v) ∷ []) ≡ none
  unfolding lookup
  lookup_one_ne q k v h = if_neg (dec q k) h _ _

  pub erase_absent : (k : K) (d : List (K × V)) → lookup dec k d ≡ none → erase dec k d ≡ d
  unfolding lookup erase
  erase_absent k [] h = refl
  erase_absent k ((j, w) ∷ d) h = ground (arith, erase_absent k d)

  pub lookup-erase_ne :
      (q k : K) (d : List (K × V)) → q ≢ k → lookup dec q (erase dec k d) ≡ lookup dec q d
  unfolding lookup erase
  lookup-erase_ne q k [] h = refl
  lookup-erase_ne q k ((j, w) ∷ d) h = ground (arith, lookup-erase_ne q k d h)

  pub lookup-erase_self :
      (k : K) (d : List (K × V)) → Distinct d → lookup dec k (erase dec k d) ≡ none
  unfolding lookup erase
  lookup-erase_self k [] h = refl
  lookup-erase_self k ((j, w) ∷ d) (fresh, h) = elim (dec k j) [
    | yes p ↦ rw (if_pos (dec k j) p) (rw p fresh)
    | no p ↦ ground (arith, lookup-erase_self k d h)
  ]

  -- Taking an entry away leaves a missing key missing.
  lookup-erase-none :
      (q k : K) (d : List (K × V)) → lookup dec q d ≡ none → lookup dec q (erase dec k d) ≡ none
  unfolding lookup erase
  lookup-erase-none q k [] h = refl
  lookup-erase-none q k ((j, w) ∷ d) h = ground (arith, lookup-erase-none q k d)

  pub erase-Distinct : (k : K) (d : List (K × V)) → Distinct d → Distinct (erase dec k d)
  unfolding erase
  erase-Distinct k [] h = tt
  erase-Distinct k ((j, w) ∷ d) (fresh, h) = elim (dec k j) [
    | yes p ↦ rw (if_pos (dec k j) p) h
    | no p ↦ rw (if_neg (dec k j) p) (lookup-erase-none j k d fresh, erase-Distinct k d h)
  ]

  pub append-Distinct :
      (k : K) (v : V) (d : List (K × V))
      → lookup dec k d ≡ none
      → Distinct d
      → Distinct (d ++ (k, v) ∷ [])
  unfolding lookup
  append-Distinct k v [] a h = (refl, tt)
  append-Distinct k v ((j, w) ∷ d) a (fresh, h) = elim (dec k j) [
    | yes p ↦ absurd (ground arith)
    | no p ↦ (
      lookup-append_none j d _ fresh ∙ lookup_one_ne j k v (λ e. p (sym e)),
      append-Distinct k v d (ground arith) h,
    )
  ]

  pub insert_absent :
      (k : K) (v : V) (d : List (K × V))
      → lookup dec k d ≡ none
      → insert dec k v d ≡ d ++ (k, v) ∷ []
  unfolding lookup insert
  insert_absent k v [] h = refl
  insert_absent k v ((j, w) ∷ d) h = ground (arith, insert_absent k v d)

  insert_last :
      (k : K) (v w : V) (d : List (K × V))
      → lookup dec k d ≡ none
      → insert dec k v (d ++ (k, w) ∷ []) ≡ d ++ (k, v) ∷ []
  unfolding lookup insert
  insert_last k v w [] h = if_pos (dec k k) refl _ _
  insert_last k v w ((j, u) ∷ d) h = ground (arith, insert_last k v w d)

  -- Overwriting a key that was moved to the end: the old entry is gone, the new one is last.
  pub insert-move_to_end :
      (k : K) (v w : V) (d : List (K × V))
      → lookup dec k d ≡ some w
      → Distinct d
      → insert dec k v (move_to_end dec k d) ≡ erase dec k d ++ (k, v) ∷ []
  unfolding move_to_end
  insert-move_to_end k v w d h s =
      rw (h, move_to_end) (insert_last k v w (erase dec k d) (lookup-erase_self k d s))

  pub length-erase :
      (k : K) (v : V) (d : List (K × V))
      → lookup dec k d ≡ some v
      → length (erase dec k d) + 1 ≡ length d
  unfolding lookup erase
  length-erase k v [] h = cc
  length-erase k v ((j, w) ∷ d) h = ground (arith, length-erase k v d)

  pub total-erase :
      (f : V → ℕ) (k : K) (v : V) (d : List (K × V))
      → lookup dec k d ≡ some v
      → total f (erase dec k d) + f v ≡ total f d
  unfolding lookup erase total
  total-erase f k v [] h = cc
  total-erase f k v ((j, w) ∷ d) h = ground (arith, total-erase f k v d)

  pub lookup-insert :
      (q k : K) (v : V) (d : List (K × V))
      → lookup dec q (insert dec k v d) ≡ ite (dec q k) (some v) (lookup dec q d)
  unfolding lookup insert
  lookup-insert q k v [] = refl
  lookup-insert q k v ((j, w) ∷ d) = ground (arith, lookup-insert q k v d)

  pub lookup-insert_self :
      (k : K) (v : V) (d : List (K × V)) → lookup dec k (insert dec k v d) ≡ some v
  lookup-insert_self k v d = lookup-insert k k v d ∙ if_pos (dec k k) refl _ _

  pub lookup-insert_ne :
      (q k : K) (v : V) (d : List (K × V))
      → q ≢ k
      → lookup dec q (insert dec k v d) ≡ lookup dec q d
  lookup-insert_ne q k v d h = lookup-insert q k v d ∙ if_neg (dec q k) h _ _

  pub insert-Distinct :
      (k : K) (v : V) (d : List (K × V)) → Distinct d → Distinct (insert dec k v d)
  unfolding insert
  insert-Distinct k v [] h = (unfold lookup in refl, tt)
  insert-Distinct k v ((j, w) ∷ d) (fresh, h) = elim (dec k j) [
    | yes p ↦ rw (if_pos (dec k j) p) (rw p fresh, h)
    | no p ↦
        rw (if_neg (dec k j) p)
          (lookup-insert_ne j k v d (λ e. p (sym e)) ∙ fresh, insert-Distinct k v d h)
  ]

  -- Where an entry that is read after an insertion comes from.
  pub lookup-insert_inv :
      (q k : K) (v w : V) (d : List (K × V))
      → lookup dec q (insert dec k v d) ≡ some w
      → ((q ≡ k) × (w ≡ v)) ⊎ ((q ≢ k) × (lookup dec q d ≡ some w))
  lookup-insert_inv q k v w d h = elim (dec q k) [
    | yes p ↦
        let here : lookup dec q (insert dec k v d) ≡ some v = rw p (lookup-insert_self k v d) in
        inl (p, cc)
    | no p ↦ inr (p, sym (lookup-insert_ne q k v d p) ∙ h)
  ]

  pub lookup-insert-none :
      (q k : K) (v : V) (d : List (K × V))
      → lookup dec q (insert dec k v d) ≡ none
      → lookup dec q d ≡ none
  lookup-insert-none q k v d h = elim (dec q k) [
    | yes p ↦
        let here : lookup dec q (insert dec k v d) ≡ some v = rw p (lookup-insert_self k v d) in
        absurd (cc)
    | no p ↦ sym (lookup-insert_ne q k v d p) ∙ h
  ]
