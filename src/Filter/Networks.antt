-- ===== src/Filter/Networks.antt =====
-- Which addresses the networks of a blocklist of src/filter.py block.
use mathlib.Core.Path.{subst}
use custom_network_proxy_ser.Base.{
  ◌+◌, ◌-◌, ◌^◌, ◌≤◌, ◌<◌, ◌≡◌, ◌↔◌, ◌⊎◌, refl, inl, inr, arith, Bool, true, false, Option, none,
  some, List, [], ◌∷◌, ◌++◌, All, Bool-cases, if_elim, if◌then◌else◌,
}
use custom_network_proxy_ser.Text.{Text, has_char}
use custom_network_proxy_ser.IpAddress.{Address, Network, width, contains, ip_address, ip_network}
use custom_network_proxy_ser.IpAddress.Range.{contains_iff}
use custom_network_proxy_ser.Filter.{
  Blocklist, empty, entry_of, member, add_domain, add_entry, add_line, add_network, parse_lines,
  parse_blocklist, load_blocklist, in_any, address_blocked,
}

-- The network was parsed from some text.
abbrev IsParsed : Network → Type 0
IsParsed n = (s : Text) × (ip_network s ≡ some n)

-- The address lies in the range of a network: of its version, from its first address on, as many
-- as the bits behind its prefix can tell apart.
abbrev pub InRange : Address → Network → Type 0
InRange a n =
    (n.version ≡ a.version)
    × (n.network ≤ a.ip)
    × (a.ip < n.network + 2 ^ (width n.version - n.prefix))

-- The address lies in the range of one of the networks.
abbrev pub InSome : Address → List Network → Type 0
InSome a [] = ⊥
InSome a (n ∷ ns) = InRange a n ⊎ InSome a ns

in_any_iff :
    (a : Address) (ns : List Network) → All IsParsed ns → (in_any a ns ≡ true) ↔ InSome a ns
unfolding in_any
in_any_iff a [] h = (λ e. absurd (cc), λ e. absurd e)
in_any_iff a (n ∷ ns) ((s, p), hs) =
    let here = contains_iff s n a p in
    let there = in_any_iff a ns hs in
    (
      λ e. elim (Bool-cases (contains n a)) [
        | inl k ↦ inl (here.0 k)
        | inr k ↦ inr (there.0 (rw k at e))
      ],
      λ e. elim e [ inl k ↦ rw (here.1 k) refl | inr k ↦ rw (there.1 k) (ground arith) ],
    )

append-IsParsed :
    (ns : List Network) (n : Network) → All IsParsed ns → IsParsed n → All IsParsed (ns ++ n ∷ [])
append-IsParsed [] n h k = (k, tt)
append-IsParsed (m ∷ ns) n (h, hs) k = (h, append-IsParsed ns n hs k)

networks-add_domain : (d : Text) (b : Blocklist) → (add_domain d b).networks ≡ b.networks
unfolding add_domain
networks-add_domain d b =
    if_elim (λ (c : Blocklist). c.networks ≡ b.networks) (member d b.domains) (λ h. refl)
      (λ h. refl)

-- An entry, by what it is as a network.
abbrev entered : Text → Option Network → Blocklist → Blocklist
entered entry o b =
    let plain : Blocklist = elim o [ some n ↦ add_network n b | none ↦ add_domain entry b ] in
    if has_char b'/' entry then elim o [ some n ↦ add_network n b | none ↦ plain ] else plain

entered-IsParsed :
    (entry : Text) (o : Option Network) (b : Blocklist)
    → ip_network entry ≡ o
    → All IsParsed b.networks
    → All IsParsed (entered entry o b).networks
entered-IsParsed entry (some n) b e h =
    if_elim (λ (c : Blocklist). All IsParsed c.networks) (has_char b'/' entry) {x = add_network n b}
      {y = add_network n b} (λ k. append-IsParsed b.networks n h (entry, e))
      (λ k. append-IsParsed b.networks n h (entry, e))
entered-IsParsed entry none b e h =
    if_elim (λ (c : Blocklist). All IsParsed c.networks) (has_char b'/' entry)
      {x = add_domain entry b} {y = add_domain entry b} (λ k. rw (networks-add_domain entry b) h)
      (λ k. rw (networks-add_domain entry b) h)

add_entry-IsParsed :
    (entry : Text) (b : Blocklist)
    → All IsParsed b.networks
    → All IsParsed (add_entry entry b).networks
unfolding add_entry
add_entry-IsParsed entry b h = entered-IsParsed entry (ip_network entry) b refl h

abbrev with_entry : Text → Blocklist → Blocklist
with_entry entry b = elim entry [ [] ↦ b | c ∷ e ↦ add_entry (c ∷ e) b ]

with_entry-IsParsed :
    (entry : Text) (b : Blocklist)
    → All IsParsed b.networks
    → All IsParsed (with_entry entry b).networks
with_entry-IsParsed [] b h = h
with_entry-IsParsed (c ∷ entry) b h = add_entry-IsParsed (c ∷ entry) b h

add_line-IsParsed :
    (line : Text) (b : Blocklist)
    → All IsParsed b.networks
    → All IsParsed (add_line line b).networks
unfolding add_line
add_line-IsParsed line b h = with_entry-IsParsed (entry_of line) b h

parse_lines-IsParsed :
    (lines : List Text) (b : Blocklist)
    → All IsParsed b.networks
    → All IsParsed (parse_lines lines b).networks
unfolding parse_lines
parse_lines-IsParsed [] b h = h
parse_lines-IsParsed (line ∷ lines) b h = parse_lines-IsParsed lines _ (add_line-IsParsed line b h)

load_blocklist-IsParsed :
    (file : Option (List Text)) (old : Blocklist) → All IsParsed (load_blocklist file old).networks
unfolding load_blocklist parse_blocklist
load_blocklist-IsParsed none old = tt
load_blocklist-IsParsed (some lines) old = parse_lines-IsParsed lines empty tt

-- What the networks say of a host that is this address, or none.
abbrev blocked_as : Option Address → List Network → Bool
blocked_as o ns = elim o [ none ↦ false | some a ↦ in_any a ns ]

blocked_as_iff :
    (o : Option Address) (ns : List Network)
    → All IsParsed ns
    → (blocked_as o ns ≡ true) ↔ ((a : Address) × (o ≡ some a) × InSome a ns)
blocked_as_iff none ns h = (λ k. absurd (cc), λ (a, k, l). absurd (cc))
blocked_as_iff (some a) ns h =
    let by = in_any_iff a ns h in
    (
      λ k. (a, refl, by.0 k),
      λ (b, k, l). let same : b ≡ a = cc in by.1 (subst (λ (x : Address). InSome x ns) same l),
    )

-- A host is blocked by the networks of a loaded blocklist exactly if it is an IP address and lies
-- in the range of one of them.
pub address_blocked_iff :
    (file : Option (List Text)) (old : Blocklist) (host : Text)
    → (address_blocked host (load_blocklist file old).networks ≡ true)
      ↔ ((a : Address) × (ip_address host ≡ some a) × InSome a (load_blocklist file old).networks)
unfolding address_blocked
address_blocked_iff file old host =
    blocked_as_iff (ip_address host) (load_blocklist file old).networks
      (load_blocklist-IsParsed file old)
