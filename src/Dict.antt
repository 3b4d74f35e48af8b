-- ===== src/Dict.antt =====
-- Python's `dict` and `collections.OrderedDict`, as the list of its items from the oldest to the newest.
pub mod Laws
use custom_network_proxy_ser.Base.{
  ℕ, zero, suc, ◌+◌, ◌≤◌, ◌≡◌, refl, ◌≢◌, ite, if_pos, if_neg, Option, none, some, List, [], ◌∷◌,
  ◌++◌, arith, length,
}

module _ {ℓ} {K V : Type ℓ} (dec : Discrete K) where
  -- `d[key]`, `none` where `key not in d`
  unfoldable pub lookup : K → List (K × V) → Option V
  lookup k [] = none
  lookup k ((j, v) ∷ d) = ite (dec k j) (some v) (lookup k d)

  -- `del d[key]`
  unfoldable pub erase : K → List (K × V) → List (K × V)
  erase k [] = []
  erase k ((j, v) ∷ d) = ite (dec k j) d ((j, v) ∷ erase k d)

  -- `d.move_to_end(key)`, for a key that is there
  unfoldable pub move_to_end : K → List (K × V) → List (K × V)
  move_to_end k d = elim (lookup k d) [ none ↦ d | some v ↦ erase k d ++ (k, v) ∷ [] ]

  -- `d[key] = value`: in place, or at the end for a new key
  unfoldable pub insert : K → V → List (K × V) → List (K × V)
  insert k v [] = (k, v) ∷ []
  insert k v ((j, w) ∷ d) = ite (dec k j) ((k, v) ∷ d) ((j, w) ∷ insert k v d)
