-- ===== src/Server/Serving.antt =====
-- What it is for the server to serve its connections in order, and laws of its lists.
use custom_network_proxy_ser.Base.{
  ℕ, zero, suc, ◌+◌, ◌≤◌, ◌≡◌, ap, ◌∙◌, arith, Option, none, some, List, [], ◌∷◌, ◌++◌, ◌==◌,
  if◌then◌else◌, length, Option-cases, inl, inr,
}
use custom_network_proxy_ser.Server.{
  Phase, submitting, locked, stuck, waiting, exited, Server, take_out,
}

-- How often a connection stands in a list.
unfoldable pub occurs : ℕ → List ℕ → ℕ
occurs c [] = 0
occurs c (d ∷ xs) = let rest = occurs c xs in if c == d then rest + 1 else rest

pub occurs-append : (c : ℕ) (xs ys : List ℕ) → occurs c (xs ++ ys) ≡ occurs c xs + occurs c ys
unfolding occurs
occurs-append c [] ys = omega arith
occurs-append c (d ∷ xs) ys = ground (arith, occurs-append c xs ys)

pub occurs-take_out :
    (c i : ℕ) (xs : List ℕ) (y : ℕ) (ys : List ℕ)
    → take_out i xs ≡ some (y, ys)
    → occurs c xs ≡ occurs c (y ∷ ys)
unfolding occurs take_out
occurs-take_out c i [] y ys h = absurd (cc)
occurs-take_out c zero (x ∷ xs) y ys h = cc
occurs-take_out c (suc i) (x ∷ xs) y ys h = elim (Option-cases (take_out i xs)) [
  | inl e ↦ absurd (cc (rw e at h))
  | inr ((z, zs), e) ↦
      let ih = occurs-take_out c i xs z zs e in
      let k = rw e at h in
      let (first, rest) : (z ≡ y) × (x ∷ zs ≡ ys) = (cc, cc) in ground (arith, ih, first, rest)
]

pub length-take_out :
    (i : ℕ) (xs : List ℕ) (y : ℕ) (ys : List ℕ)
    → take_out i xs ≡ some (y, ys)
    → length xs ≡ suc (length ys)
unfolding take_out
length-take_out i [] y ys h = absurd (cc)
length-take_out zero (x ∷ xs) y ys h = cc
length-take_out (suc i) (x ∷ xs) y ys h = elim (Option-cases (take_out i xs)) [
  | inl e ↦ absurd (cc (rw e at h))
  | inr ((z, zs), e) ↦
      let ih = length-take_out i xs z zs e in
      let k = rw e at h in
      let rest : x ∷ zs ≡ ys = cc in ap suc ih ∙ ap (λ (l : List ℕ). suc (length l)) rest
]

-- The connections that were accepted and are not yet queued.
abbrev pub pending : Phase → List ℕ
pending (submitting c) = c ∷ []
pending (locked cs) = cs
pending (stuck cs) = cs
pending _ = []

-- Nothing is dropped before a signal.
abbrev pub Kept : Phase → List ℕ → Type 0
Kept waiting dropped = Unit
Kept exited dropped = Unit
Kept _ dropped = dropped ≡ []

-- Connections start in the order in which they were accepted, those that started are running or
-- finished, and the pool is not overrun.
pub record IsServing (pool_size : ℕ) (s : Server) : Type 0 where
  pub ordered : s.started ++ (s.queue ++ (s.dropped ++ pending s.phase)) ≡ s.accepted
  pub kept : Kept s.phase s.dropped
  pub once : (c : ℕ) → occurs c s.started ≡ occurs c s.running + occurs c s.finished
  pub bounded : length s.running ≤ pool_size

abbrev pub Holds {ℓ} : (Server → Type ℓ) → Option Server → Type ℓ
Holds P none = Unit
Holds P (some s) = P s
