-- ===== src/ManageUsers/Saved.antt =====
-- What the users file that was written gives when it is loaded.
use mathlib.Core.List.{reverse, reverse-cons, reverse-append}
use custom_network_proxy_ser.Base.{
  ℕ, ◌≡◌, refl, ap, ◌∙◌, false, Option, none, some, List, [], ◌∷◌, ◌++◌, append_assoc, arith, map,
  ite, Bool-cases, Option-cases, inl, inr, ◌==◌,
}
use custom_network_proxy_ser.Dict.{lookup, insert}
use custom_network_proxy_ser.Dict.Laws.{Distinct, lookup-insert, insert-Distinct}
use custom_network_proxy_ser.Text.{Text, codes, text_dec, starts_with, strip, is_space, split_once}
use custom_network_proxy_ser.Text.Files.{lines_of}
use custom_network_proxy_ser.Text.Trim.{
  IsTrimmed, head_ok, head_ok-append, strip_fixed, split_once-append,
}
use custom_network_proxy_ser.Auth.{Users, add_line, users_from, load_users}
use custom_network_proxy_ser.ManageUsers.{File, load, sorted_items, save_users}
use custom_network_proxy_ser.ManageUsers.Entries.{AreEntries, IsEntry}
use custom_network_proxy_ser.ManageUsers.Sorted.{
  lookup-sorted_items, sorted_items-Distinct, sorted_items-AreEntries,
}
use custom_network_proxy_ser.ManageUsers.Written.{
  entry_text, first_comment, second_comment, lines_of-save_users,
}

reverse-entry_text :
    (name credential : Text)
    → reverse (entry_text (name, credential)) ≡ reverse credential ++ b':' ∷ reverse name
reverse-entry_text name credential =
    reverse-append name (b':' ∷ credential)
    ∙ ap (λ (t : Text). t ++ reverse name) (reverse-cons b':' credential)
    ∙ append_assoc (reverse credential) (b':' ∷ []) (reverse name)

entry_text-IsTrimmed :
    (name credential : Text)
    → IsTrimmed name
    → IsTrimmed credential
    → IsTrimmed (entry_text (name, credential))
entry_text-IsTrimmed name credential n c = record {
  start = head_ok-append name b':' credential n.start (unfold is_space in refl);
  end =
      ap head_ok (reverse-entry_text name credential)
      ∙ head_ok-append (reverse credential) b':' (reverse name) c.end (unfold is_space in refl);
}

hash_first :
    (c : ℕ) (line : Text) → starts_with (b'#' ∷ []) (c ∷ line) ≡ false → (c == b'#') ≡ false
unfolding starts_with
hash_first c line h = ground (arith, h)

add_line_pair :
    (line a b : Text) (users : Users)
    → starts_with (b'#' ∷ []) line ≡ false
    → split_once b':' line ≡ some (a, b)
    → add_line line users ≡ insert text_dec (strip a) (strip b) users
unfolding add_line split_once
add_line_pair [] a b users h e = absurd (cc)
add_line_pair (c ∷ line) a b users h e = let other = hash_first c line h in rw (other, e) refl

entry_text-no_hash :
    (name credential : Text)
    → starts_with (b'#' ∷ []) name ≡ false
    → starts_with (b'#' ∷ []) (entry_text (name, credential)) ≡ false
unfolding starts_with
entry_text-no_hash [] credential h = refl
entry_text-no_hash (c ∷ name) credential h = h

-- The line of an entry adds the entry.
add_line-entry_text :
    (name credential : Text) (users : Users)
    → IsEntry (name, credential)
    → add_line (strip (entry_text (name, credential))) users ≡ insert text_dec name credential users
add_line-entry_text name credential users (n, c) =
    let fixed = strip_fixed _ (entry_text-IsTrimmed name credential n.trimmed c.trimmed) in
    ap (λ (t : Text). add_line t users) fixed
    ∙ add_line_pair (entry_text (name, credential)) name credential users
        (entry_text-no_hash name credential n.no_hash)
        (split_once-append b':' name credential n.no_colon)
    ∙ cong2 (strip_fixed name n.trimmed) (strip_fixed credential c.trimmed)
  where
    cong2 : {a b c d : Text} → a ≡ b → c ≡ d → insert text_dec a c users ≡ insert text_dec b d users
    cong2 p q = rw (p, q) refl

abbrev or_else : Option Text → Option Text → Option Text
or_else none o = o
or_else (some v) o = some v

or_else-ite :
    {P : Type 0} (d : Dec P) (v : Text) (a b : Option Text)
    → (P → a ≡ none)
    → or_else a (ite d (some v) b) ≡ or_else (ite d (some v) a) b
or_else-ite (yes p) v a b h = rw (h p) refl
or_else-ite (no p) v none b h = refl
or_else-ite (no p) v (some w) b h = refl

lookup-users_from :
    (q : Text) (entries users : Users)
    → AreEntries entries
    → Distinct text_dec entries
    → lookup text_dec q (users_from (map entry_text entries) users)
      ≡ or_else (lookup text_dec q entries) (lookup text_dec q users)
unfolding users_from
lookup-users_from q [] users h s = unfold lookup in refl
lookup-users_from q ((name, credential) ∷ entries) users (e, h) (fresh, s) =
    ap (λ (us : Users). lookup text_dec q (users_from (map entry_text entries) us))
      (add_line-entry_text name credential users e)
    ∙ lookup-users_from q entries (insert text_dec name credential users) h s
    ∙ ap (or_else (lookup text_dec q entries)) (lookup-insert text_dec q name credential users)
    ∙ or_else-ite (text_dec q name) credential (lookup text_dec q entries) (lookup text_dec q users)
        (λ p. ap (λ (t : Text). lookup text_dec t entries) p ∙ fresh)
    ∙ ap (λ (o : Option Text). or_else o (lookup text_dec q users)) (unfold lookup in refl)

add_line-Distinct :
    (line : Text) (users : Users)
    → Distinct text_dec users
    → Distinct text_dec (add_line line users)
unfolding add_line
add_line-Distinct [] users h = h
add_line-Distinct (c ∷ line) users h = elim (Bool-cases (c == b'#')) [
  | inl e ↦ rw e h
  | inr e ↦ elim (Option-cases (split_once b':' (c ∷ line))) [
    | inl n ↦ rw (e, n) h
    | inr ((a, b), n) ↦ rw (e, n) (insert-Distinct text_dec (strip a) (strip b) users h)
  ]
]

users_from-Distinct :
    (lines : List Text) (users : Users)
    → Distinct text_dec users
    → Distinct text_dec (users_from lines users)
unfolding users_from
users_from-Distinct [] users h = h
users_from-Distinct (line ∷ lines) users h =
    users_from-Distinct lines _ (add_line-Distinct (strip line) users h)

pub load-Distinct : (file : File) → Distinct text_dec (load file)
unfolding load_users
load-Distinct none = tt
load-Distinct (some content) = users_from-Distinct (lines_of content) [] tt

skipped :
    (users : Users) → add_line (strip second_comment) (add_line (strip first_comment) users) ≡ users
unfolding add_line codes strip
skipped users = refl

or_else_none : (q : Text) (o : Option Text) → or_else o (lookup text_dec q []) ≡ o
unfolding lookup
or_else_none q none = refl
or_else_none q (some v) = refl

-- A file that was saved gives each user the credential that was saved.
pub load-save_users :
    (q : Text) (users : Users)
    → AreEntries users
    → Distinct text_dec users
    → lookup text_dec q (load (some (save_users users))) ≡ lookup text_dec q users
unfolding load_users users_from
load-save_users q users h s =
    let items = sorted_items users in
    ap (λ (ls : List Text). lookup text_dec q (users_from ls [])) (lines_of-save_users users h)
    ∙ ap (λ (us : Users). lookup text_dec q (users_from (map entry_text items) us)) (skipped [])
    ∙ lookup-users_from q items [] (sorted_items-AreEntries users h) (sorted_items-Distinct users s)
    ∙ or_else_none q (lookup text_dec q items)
    ∙ lookup-sorted_items q users s
