-- ===== src/Filter.antt =====
-- src/filter.py: the blocklist. The file is the list of its lines, `none` if it is not there.
pub mod Blocked
pub mod Networks
use custom_network_proxy_ser.Base.{
  ℕ, Bool, true, false, ◌||◌, Option, none, some, List, [], ◌∷◌, ◌++◌, if◌then◌else◌,
}
use custom_network_proxy_ser.Text.{Text, same, strip, lower, split_once, has_char, ends_with}
use custom_network_proxy_ser.IpAddress.{Address, Network, contains, ip_address, ip_network}

-- The module's state: `_blocked_domains` and `_blocked_networks`.
pub record Blocklist : Type 0 where
  pub domains : List Text
  pub networks : List Network

abbrev pub empty : Blocklist
empty = record { domains = []; networks = [] }

-- `line.split("#", 1)[0].strip().lower()`
unfoldable pub entry_of : Text → Text
entry_of line = lower (strip (elim (split_once b'#' line) [ none ↦ line | some (a, b) ↦ a ]))

-- `domains.add(entry)` of a set
unfoldable pub member : Text → List Text → Bool
member d [] = false
member d (e ∷ ds) = same d e || member d ds

unfoldable pub add_domain : Text → Blocklist → Blocklist
unfolding member
add_domain d b = if member d b.domains then b else record b { domains = d ∷ b.domains }

abbrev add_network : Network → Blocklist → Blocklist
add_network n b = record b { networks = b.networks ++ n ∷ [] }

-- The body of the loop, for an entry that is not empty: the two tries, and the domain otherwise.
unfoldable pub add_entry : Text → Blocklist → Blocklist
unfolding add_domain
add_entry entry b =
    let plain : Blocklist = elim (ip_network entry) [
      | some n ↦ add_network n b
      | none ↦ add_domain entry b
    ] in
    if has_char b'/' entry
    then elim (ip_network entry) [ some n ↦ add_network n b | none ↦ plain ]
    else plain

unfoldable pub add_line : Text → Blocklist → Blocklist
add_line line b = elim (entry_of line) [ [] ↦ b | c ∷ e ↦ add_entry (c ∷ e) b ]

parse_lines : List Text → Blocklist → Blocklist
parse_lines [] b = b
parse_lines (line ∷ lines) b = parse_lines lines (add_line line b)

unfoldable pub parse_blocklist : Option (List Text) → Blocklist
unfolding parse_lines
parse_blocklist none = empty
parse_blocklist (some lines) = parse_lines lines empty

-- Both globals are replaced under the lock.
unfoldable pub load_blocklist : Option (List Text) → Blocklist → Blocklist
load_blocklist file old = parse_blocklist file

unfoldable pub reload_blocklist : Option (List Text) → Blocklist → Blocklist
unfolding load_blocklist
reload_blocklist file old = load_blocklist file old

-- `for blocked in _blocked_domains: if host.endswith("." + blocked)`
unfoldable pub under_any : Text → List Text → Bool
under_any host [] = false
under_any host (d ∷ ds) = ends_with (b'.' ∷ d) host || under_any host ds

unfoldable pub in_any : Address → List Network → Bool
in_any a [] = false
in_any a (n ∷ ns) = contains n a || in_any a ns

unfoldable pub address_blocked : Text → List Network → Bool
unfolding in_any
address_blocked host ns = elim (ip_address host) [ none ↦ false | some a ↦ in_any a ns ]

-- `is_blocked` on a host, which may be missing or empty
unfoldable pub blocks : Blocklist → Text → Bool
blocks b host = member host b.domains || under_any host b.domains || address_blocked host b.networks

unfoldable pub is_blocked : Blocklist → Option Text → Bool
unfolding blocks
is_blocked b none = false
is_blocked b (some []) = false
is_blocked b (some (c ∷ host)) = blocks b (strip (lower (c ∷ host)))
