-- ===== src/Logger/TopHosts.antt =====
-- `get_top_hosts` gives the first of all counters, sorted by falling count.
use mathlib.Core.List.{Perm}
use mathlib.Core.List.Perm
use custom_network_proxy_ser.Base.{
  ℕ, ◌≤◌, ◌≡◌, refl, List, [], ◌∷◌, arith, ltb, Bool-cases, inl, inr, take, All,
}
use custom_network_proxy_ser.Text.{Text}
use custom_network_proxy_ser.Logger.{Logger, insert_by_count, sort_by_count, get_top_hosts}

-- No later count is above an earlier one.
abbrev pub IsSorted : List (Text × ℕ) → Type 0
IsSorted [] = Unit
IsSorted (x ∷ xs) = All (λ y. y.1 ≤ x.1) xs × IsSorted xs

All-weaken :
    (m n : ℕ) (xs : List (Text × ℕ)) → m ≤ n → All (λ y. y.1 ≤ m) xs → All (λ y. y.1 ≤ n) xs
All-weaken m n [] h a = tt
All-weaken m n (x ∷ xs) h (a, as') = (omega arith, All-weaken m n xs h as')

All-insert :
    (n : ℕ) (x : Text × ℕ) (ys : List (Text × ℕ))
    → x.1 ≤ n
    → All (λ y. y.1 ≤ n) ys
    → All (λ y. y.1 ≤ n) (insert_by_count x ys)
unfolding insert_by_count
All-insert n x [] h a = (h, tt)
All-insert n x (y ∷ ys) h (a, rest) = elim (Bool-cases (ltb x.1 y.1)) [
  | inl less ↦ rw less (a, All-insert n x ys h rest)
  | inr more ↦ rw more (h, (a, rest))
]

insert_by_count-IsSorted :
    (x : Text × ℕ) (ys : List (Text × ℕ)) → IsSorted ys → IsSorted (insert_by_count x ys)
unfolding insert_by_count
insert_by_count-IsSorted x [] s = (tt, tt)
insert_by_count-IsSorted x (y ∷ ys) (a, s) = elim (Bool-cases (ltb x.1 y.1)) [
  | inl less ↦ rw less (All-insert y.1 x ys (ground arith) a, insert_by_count-IsSorted x ys s)
  | inr more ↦
      let below : y.1 ≤ x.1 = ground arith in
      rw more ((below, All-weaken y.1 x.1 ys below a), (a, s))
]

insert_by_count-perm : (x : Text × ℕ) (ys : List (Text × ℕ)) → Perm (insert_by_count x ys) (x ∷ ys)
unfolding insert_by_count
insert_by_count-perm x [] = Perm.refl (x ∷ [])
insert_by_count-perm x (y ∷ ys) = elim (Bool-cases (ltb x.1 y.1)) [
  | inl less ↦ rw less (Perm.trans (Perm.cons y (insert_by_count-perm x ys)) (Perm.swap x y ys))
  | inr more ↦ rw more (Perm.refl (x ∷ y ∷ ys))
]

sort_by_count_lem :
    (xs : List (Text × ℕ)) → IsSorted (sort_by_count xs) × Perm (sort_by_count xs) xs
unfolding sort_by_count
sort_by_count_lem [] = (tt, Perm.refl [])
sort_by_count_lem (x ∷ xs) =
    let (s, p) = sort_by_count_lem xs in
    (
      insert_by_count-IsSorted x (sort_by_count xs) s,
      Perm.trans (insert_by_count-perm x (sort_by_count xs)) (Perm.cons x p),
    )

-- The hosts on top are the first `n` of an arrangement of all counters in which no later count is
-- above an earlier one.
pub get_top_hosts_lem :
    (n : ℕ) (l : Logger)
    → (all : List (Text × ℕ)) × Perm all l.host_counters
      × IsSorted all
      × (get_top_hosts n l ≡ take n all)
unfolding get_top_hosts
get_top_hosts_lem n l =
    let (s, p) = sort_by_count_lem l.host_counters in (sort_by_count l.host_counters, p, s, refl)
