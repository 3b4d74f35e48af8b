-- ===== src/Filter/Blocked.antt =====
-- A host is blocked exactly if a line of the blocklist lists it.
use custom_network_proxy_ser.Base.{
  ℕ, ◌≡◌, refl, sym, ap, ◌∙◌, ◌↔◌, ◌≢◌, inl, inr, Bool, true, false, ◌||◌, Option, none, some, List,
  [], ◌∷◌, ◌++◌, arith, Bool-cases, Option-cases,
}
use custom_network_proxy_ser.Text.{Text, same, strip, lower, ends_with, has_char}
use custom_network_proxy_ser.Text.Laws.{same_iff, ends_with_iff, lower_idem}
use custom_network_proxy_ser.IpAddress.{Address, Network, contains, ip_address, ip_network}
use custom_network_proxy_ser.Filter.{
  Blocklist, empty, entry_of, member, add_domain, add_entry, add_line, add_network, parse_lines,
  parse_blocklist, reload_blocklist, under_any, in_any, address_blocked, blocks, is_blocked,
}

-- The test that one entry of the file stands for.
abbrev matches_address : Option Address → Network → Bool
matches_address none n = false
matches_address (some a) n = contains n a

abbrev matches : Text → Text → Option Network → Bool
matches host entry none = same host entry || ends_with (b'.' ∷ entry) host
matches host entry (some n) = matches_address (ip_address host) n

member-same :
    (h d : Text) (ds : List Text) → same h d ≡ true → member d ds ≡ true → member h ds ≡ true
member-same h d ds e m = rw ((same_iff h d).0 e) m

under_member :
    (h d : Text) (ds : List Text)
    → ends_with (b'.' ∷ d) h ≡ true
    → member d ds ≡ true
    → under_any h ds ≡ true
unfolding member under_any
under_member h d [] e m = absurd (cc)
under_member h d (f ∷ ds) e m = elim (Bool-cases (same d f)) [
  | inl p ↦ let e' = rw ((same_iff d f).0 p) at e in rw e'
  | inr p ↦ ground (arith, under_member h d ds e)
]

in_any-append :
    (a : Address) (ns : List Network) (n : Network)
    → in_any a (ns ++ n ∷ []) ≡ (in_any a ns || contains n a)
unfolding in_any
in_any-append a [] n = ground arith
in_any-append a (m ∷ ns) n = ground (arith, in_any-append a ns n)

address_blocked-append :
    (h : Text) (ns : List Network) (n : Network)
    → address_blocked h (ns ++ n ∷ []) ≡ (address_blocked h ns || matches_address (ip_address h) n)
unfolding address_blocked
address_blocked-append h ns n = elim (Option-cases (ip_address h)) [
  | inl e ↦ rw (e, address_blocked)
  | inr (a, e) ↦ rw (e, address_blocked) (in_any-append a ns n)
]

add_domain-blocks :
    (h d : Text) (b : Blocklist)
    → blocks (add_domain d b) h ≡ (blocks b h || (same h d || ends_with (b'.' ∷ d) h))
unfolding add_domain blocks under_any
add_domain-blocks h d b = ground (arith, member-same h d b.domains, under_member h d b.domains)

add_network-blocks :
    (h : Text) (n : Network) (b : Blocklist)
    → blocks (add_network n b) h ≡ (blocks b h || matches_address (ip_address h) n)
unfolding blocks
add_network-blocks h n b = ground (arith, address_blocked-append h b.networks n)

add_entry-blocks :
    (h e : Text) (b : Blocklist)
    → blocks (add_entry e b) h ≡ (blocks b h || matches h e (ip_network e))
unfolding add_entry
add_entry-blocks h e b = elim (Option-cases (ip_network e)) [
  | inl p ↦ elim (Bool-cases (has_char b'/' e)) [
    | inl s ↦ simp (s, p) (add_domain-blocks h e b)
    | inr s ↦ simp (s, p) (add_domain-blocks h e b)
  ]
  | inr (n, p) ↦ elim (Bool-cases (has_char b'/' e)) [
    | inl s ↦ simp (s, p) (add_network-blocks h n b)
    | inr s ↦ simp (s, p) (add_network-blocks h n b)
  ]
]

-- The test of a line: a line with nothing but a comment lists no host.
abbrev listed : Text → Text → Bool
listed host [] = false
listed host (c ∷ e) = matches host (c ∷ e) (ip_network (c ∷ e))

any_line : Text → List Text → Bool
any_line host [] = false
any_line host (line ∷ lines) = listed host (entry_of line) || any_line host lines

add_line-blocks :
    (h line : Text) (b : Blocklist)
    → blocks (add_line line b) h ≡ (blocks b h || listed h (entry_of line))
unfolding add_line
add_line-blocks h line b = go (entry_of line) refl
  where
    go :
        (e : Text)
        → entry_of line ≡ e
        → blocks (add_line line b) h ≡ (blocks b h || listed h (entry_of line))
    go [] e = rw (e, add_line) (ground arith)
    go (c ∷ s) e = rw (e, add_line) (add_entry-blocks h (c ∷ s) b)

parse_lines-blocks :
    (h : Text) (lines : List Text) (b : Blocklist)
    → blocks (parse_lines lines b) h ≡ (blocks b h || any_line h lines)
unfolding parse_lines any_line
parse_lines-blocks h [] b = ground arith
parse_lines-blocks h (line ∷ lines) b =
    ground (arith, parse_lines-blocks h lines (add_line line b), add_line-blocks h line b)

-- What it means that an entry of the file lists a (folded and stripped) host.
pub data Lists (entry host : Text) : Type 0 where
  domain : entry ≢ [] → ip_network entry ≡ none → host ≡ entry → Lists entry host
  subdomain :
      (sub : Text)
      → entry ≢ []
      → ip_network entry ≡ none
      → host ≡ sub ++ b'.' ∷ entry
      → Lists entry host
  network :
      (n : Network) (a : Address)
      → entry ≢ []
      → ip_network entry ≡ some n
      → ip_address host ≡ some a
      → contains n a ≡ true
      → Lists entry host

-- Some line of the file lists the host.
pub data ListedIn (host : Text) : List Text → Type 0 where
  here :
      {line : Text} {lines : List Text} → Lists (entry_of line) host → ListedIn host (line ∷ lines)
  there : {line : Text} {lines : List Text} → ListedIn host lines → ListedIn host (line ∷ lines)

matches_sound : (h e : Text) → e ≢ [] → matches h e (ip_network e) ≡ true → Lists e h
matches_sound h e ne m = elim (Option-cases (ip_network e)) [
  | inl p ↦ elim (Bool-cases (same h e)) [
    | inl s ↦ domain ne p ((same_iff h e).0 s)
    | inr s ↦ let (u, w) = (ends_with_iff (b'.' ∷ e) h).0 (rw (p, s) at m) in subdomain u ne p w
  ]
  | inr (n, p) ↦ elim (Option-cases (ip_address h)) [
    | inl q ↦ absurd (cc (rw (p, q) at m))
    | inr (a, q) ↦ network n a ne p q (rw (p, q) at m)
  ]
]

listed_sound : (h e : Text) → listed h e ≡ true → Lists e h
listed_sound h [] m = absurd (cc)
listed_sound h (c ∷ e) m = matches_sound h (c ∷ e) (λ p. cc) m

listed_complete : (h e : Text) → Lists e h → listed h e ≡ true
listed_complete h [] (domain ne p q) = absurd (ne refl)
listed_complete h [] (subdomain u ne p q) = absurd (ne refl)
listed_complete h [] (network n a ne p q r) = absurd (ne refl)
listed_complete h (c ∷ e) (domain ne p q) = rw (p, (same_iff h (c ∷ e)).1 q)
listed_complete h (c ∷ e) (subdomain u ne p q) =
    let m = (ends_with_iff (b'.' ∷ c ∷ e) h).1 (u, q) in rw p (ground (arith, m))
listed_complete h (c ∷ e) (network n a ne p q r) = rw (p, q) r

any_line_sound : (h : Text) (lines : List Text) → any_line h lines ≡ true → ListedIn h lines
unfolding any_line
any_line_sound h [] m = absurd (cc)
any_line_sound h (line ∷ lines) m = elim (Bool-cases (listed h (entry_of line))) [
  | inl l ↦ here (listed_sound h (entry_of line) l)
  | inr l ↦ there (any_line_sound h lines (rw l at m))
]

any_line_complete : (h : Text) (lines : List Text) → ListedIn h lines → any_line h lines ≡ true
unfolding any_line
any_line_complete h [] l = elim l [ ]
any_line_complete h (line ∷ lines) (here l) = rw (listed_complete h (entry_of line) l)
any_line_complete h (line ∷ lines) (there l) =
    let m = any_line_complete h lines l in ground (arith, m)

blocks-empty : (h : Text) → blocks empty h ≡ false
unfolding blocks member under_any address_blocked in_any
blocks-empty h = elim (Option-cases (ip_address h)) [
  | inl e ↦ rw (e, address_blocked)
  | inr (a, e) ↦ rw (e, address_blocked)
]

blocks_parsed :
    (h : Text) (lines : List Text) → blocks (parse_blocklist (some lines)) h ≡ any_line h lines
unfolding parse_blocklist
blocks_parsed h lines =
    parse_lines-blocks h lines empty ∙ ap (λ b. b || any_line h lines) (blocks-empty h)

-- After loading a blocklist, a host is blocked exactly if some line of the file, its comment cut
-- off, lists it: as that domain, as a name below it, or as an address of that network. Hosts are
-- compared in lower case, without white space around them.
pub is_blocked_iff :
    (lines : List Text) (old : Blocklist) (c : ℕ) (host : Text)
    → (is_blocked (reload_blocklist (some lines) old) (some (c ∷ host)) ≡ true)
      ↔ ListedIn (strip (lower (c ∷ host))) lines
unfolding is_blocked reload_blocklist
is_blocked_iff lines old c host =
    let e = blocks_parsed (strip (lower (c ∷ host))) lines in
    (λ m. any_line_sound _ lines (sym e ∙ m), λ l. e ∙ any_line_complete _ lines l)

-- The case of a host does not matter.
pub is_blocked-lower :
    (b : Blocklist) (host : Text) → is_blocked b (some (lower host)) ≡ is_blocked b (some host)
unfolding is_blocked lower
is_blocked-lower b [] = refl
is_blocked-lower b (c ∷ host) = ap (λ t. blocks b (strip t)) (lower_idem (c ∷ host))
