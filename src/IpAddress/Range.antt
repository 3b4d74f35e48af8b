-- ===== src/IpAddress/Range.antt =====
-- A network holds exactly the addresses of a range.
use native.Mathlib.Nat.{pow-suc, div-add-mod, mod-lt}
use custom_network_proxy_ser.Base.{
  ℕ, zero, suc, ◌∙◌, sym, dec_lt, ◌+◌, ◌-◌, ◌*◌, ◌/◌, ◌^◌, ◌≤◌, ◌<◌, ◌≡◌, ◌↔◌, ◌⊎◌, inl, inr, List,
  [], ◌∷◌, Option, none, true, arith, some,
}
use custom_network_proxy_ser.Text.{Text, split_char}
use custom_network_proxy_ser.IpAddress.{
  same_version, network_of, network_parts, v4_mask, Version, v4, v6, width, Address, Network,
  masked, contains, ip_network, parse_v4,
}

le_of_quotients : (q b k : ℕ) → q < b → (q + 1) * k ≤ b * k
le_of_quotients q b k h = grind arith

masked-range : (b k a : ℕ) → 0 < k → (a / k * k ≡ b * k) ↔ ((b * k ≤ a) × (a < b * k + k))
masked-range b k a h = (
  λ e. (omega (arith, div-add-mod a k), omega (arith, div-add-mod a k, mod-lt a h)),
  λ (lo, hi). elim (dec_lt (a / k) b) [
    | yes lt ↦ absurd (omega (arith, le_of_quotients (a / k) b k lt, div-add-mod a k, mod-lt a h))
    | no ge ↦ elim (dec_lt b (a / k)) [
      | yes gt ↦ absurd (omega (arith, le_of_quotients b (a / k) k gt, div-add-mod a k, mod-lt a h))
      | no le ↦ let e : a / k ≡ b = omega arith in rw e
    ]
  ],
)

pow-pos : (k : ℕ) → 0 < 2 ^ k
pow-pos zero = omega arith
pow-pos (suc k) = rw pow-suc (omega (arith, pow-pos k))

masked_iff :
    (v : Version) (p b ip : ℕ)
    → (masked v p ip ≡ b * 2 ^ (width v - p))
      ↔ ((b * 2 ^ (width v - p) ≤ ip) × (ip < b * 2 ^ (width v - p) + 2 ^ (width v - p)))
unfolding masked
masked_iff v p b ip = masked-range b (2 ^ (width v - p)) ip (pow-pos (width v - p))

-- A parsed network has its host bits cleared.
record IsAligned (n : Network) : Type 0 where
  block : ℕ
  aligned : n.network ≡ block * 2 ^ (width n.version - n.prefix)

network_of-IsAligned :
    (v : Version) (ip p : Option ℕ) (n : Network) → network_of v ip p ≡ some n → IsAligned n
unfolding masked
network_of-IsAligned v (some ip) (some p) n e = record {
  block = ip / 2 ^ (width v - p);
  aligned = ground arith;
}
network_of-IsAligned v none p n e = absurd (cc)
network_of-IsAligned v (some ip) none n e = absurd (cc)

ip_network-IsAligned : (s : Text) (n : Network) → ip_network s ≡ some n → IsAligned n
unfolding ip_network
ip_network-IsAligned s n e = go (split_char b'/' s) e
  where
    either :
        (a b : Option Network)
        → elim a [ some m ↦ some m | none ↦ b ] ≡ some n
        → (a ≡ some n) ⊎ (b ≡ some n)
    either (some m) b e = inl e
    either none b e = inr e

    go : (ps : List Text) → network_parts ps ≡ some n → IsAligned n
    go [] e = absurd (cc)
    go (a ∷ []) e = elim (either (network_of v4 (parse_v4 a) (some 32)) _ e) [
      | inl h ↦ network_of-IsAligned v4 _ _ n h
      | inr h ↦ network_of-IsAligned v6 _ _ n h
    ]
    go (a ∷ m ∷ []) e = elim (either (network_of v4 (parse_v4 a) (v4_mask m)) _ e) [
      | inl h ↦ network_of-IsAligned v4 _ _ n h
      | inr h ↦ network_of-IsAligned v6 _ _ n h
    ]
    go (a ∷ m ∷ k ∷ ps) e = absurd (cc)

same_version_iff : (v w : Version) → (same_version v w ≡ true) ↔ (v ≡ w)
same_version_iff v4 v4 = ground arith
same_version_iff v6 v6 = ground arith
same_version_iff v4 v6 = ground arith
same_version_iff v6 v4 = ground arith

contains-split :
    (n : Network) (a : Address)
    → (contains n a ≡ true)
      ↔ ((n.version ≡ a.version) × (masked n.version n.prefix a.ip ≡ n.network))
unfolding contains
contains-split n a = ground (arith, same_version_iff n.version a.version)

-- A network parsed from text holds exactly the addresses of its own version from its first address
-- on, as many as the bits behind its prefix can tell apart.
pub contains_iff :
    (s : Text) (n : Network) (a : Address)
    → ip_network s ≡ some n
    → (contains n a ≡ true) ↔ (
        (n.version ≡ a.version)
        × (n.network ≤ a.ip)
        × (a.ip < n.network + 2 ^ (width n.version - n.prefix)))
contains_iff s n a parsed =
    let al = ip_network-IsAligned s n parsed in
    let split = contains-split n a in
    let range = masked_iff n.version n.prefix al.block a.ip in
    (
      λ e.
          let (same, m) = split.0 e in
          let r = range.0 (m ∙ al.aligned) in
          (same, omega (arith, al.aligned, r), omega (arith, al.aligned, r)),
      λ (same, lo, hi).
          split.1
            (same, range.1 (omega (arith, al.aligned), omega (arith, al.aligned)) ∙ sym al.aligned),
    )
