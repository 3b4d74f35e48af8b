-- ===== src/ManageUsers/Written.antt =====
-- The lines of the users file that the tool writes.
use custom_network_proxy_ser.Base.{
  ℕ, ◌≡◌, refl, sym, ap, ◌∙◌, false, List, [], ◌∷◌, ◌++◌, append_assoc, map, ◌==◌,
}
use custom_network_proxy_ser.Text.{Text, codes, has_char}
use custom_network_proxy_ser.Text.Files.{cut_lines, lines_of}
use custom_network_proxy_ser.Text.Lines.{translate_id, cut_lines-append, no_cr_after}
use custom_network_proxy_ser.Text.Trim.{has_char-append}
use custom_network_proxy_ser.Auth.{Users}
use custom_network_proxy_ser.ManageUsers.{sorted_items, entry_lines, preamble, save_users}
use custom_network_proxy_ser.ManageUsers.Entries.{AreEntries}
use custom_network_proxy_ser.ManageUsers.Sorted.{sorted_items-AreEntries}

abbrev pub entry_text : Text × Text → Text
entry_text (name, credential) = name ++ b':' ∷ credential

entry_lines_cons :
    (name credential : Text) (users : Users)
    → entry_lines ((name, credential) ∷ users)
      ≡ entry_text (name, credential) ++ 10 ∷ entry_lines users
unfolding entry_lines
entry_lines_cons name credential users =
    sym (append_assoc name (b':' ∷ credential) (10 ∷ entry_lines users))

has_char-entry_text :
    (c : ℕ) (name credential : Text)
    → (c == b':') ≡ false
    → has_char c name ≡ false
    → has_char c credential ≡ false
    → has_char c (entry_text (name, credential)) ≡ false
unfolding has_char
has_char-entry_text c name credential k h i =
    rw (has_char-append c name (b':' ∷ credential), h, i, k) refl

entry_lines-no_cr : (users : Users) → AreEntries users → has_char 13 (entry_lines users) ≡ false
entry_lines-no_cr [] h = unfold entry_lines has_char in refl
entry_lines-no_cr ((name, credential) ∷ users) ((n, c), h) =
    let text = entry_text (name, credential) in
    let absent = has_char-entry_text 13 name credential refl n.no_break.1 c.no_break.1 in
    rw
      (
        entry_lines_cons name credential users,
        has_char-append 13 text (10 ∷ entry_lines users),
        absent,
      )
      (no_cr_after (entry_lines users) ∙ entry_lines-no_cr users h)

cut_lines-entry_lines :
    (users : Users) → AreEntries users → cut_lines (entry_lines users) ≡ map entry_text users
cut_lines-entry_lines [] h = unfold entry_lines cut_lines in refl
cut_lines-entry_lines ((name, credential) ∷ users) ((n, c), h) =
    let text = entry_text (name, credential) in
    let absent = has_char-entry_text 10 name credential refl n.no_break.0 c.no_break.0 in
    ap cut_lines (entry_lines_cons name credential users)
    ∙ cut_lines-append text (entry_lines users) absent
    ∙ ap (◌∷◌ text) (cut_lines-entry_lines users h)

-- The two comments at the top of the file.
abbrev pub first_comment : Text
first_comment = codes "# Proxy user credentials (managed by manage_users.py)"

abbrev pub second_comment : Text
second_comment = codes "# Format: username:pbkdf2$iterations$salt$hash"

preamble_plain :
    (has_char 13 preamble ≡ false)
    × (has_char 10 first_comment ≡ false)
    × (has_char 10 second_comment ≡ false)
unfolding codes has_char
preamble_plain = (refl, refl, refl)

preamble_lines :
    (rest : Text) → preamble ++ rest ≡ first_comment ++ 10 ∷ (second_comment ++ 10 ∷ rest)
unfolding codes
preamble_lines rest = refl

pub lines_of-save_users :
    (users : Users)
    → AreEntries users
    → lines_of (save_users users)
      ≡ first_comment ∷ second_comment ∷ map entry_text (sorted_items users)
unfolding lines_of save_users
lines_of-save_users users h =
    let items = sorted_items users in
    let text = entry_lines items in
    let sorted : AreEntries items = sorted_items-AreEntries users h in
    let (plain, one, two) = preamble_plain in
    let no_cr : has_char 13 (preamble ++ text) ≡ false =
      has_char-append 13 preamble text ∙ rw (plain, entry_lines-no_cr items sorted) refl in
    ap cut_lines (translate_id (preamble ++ text) no_cr ∙ preamble_lines text)
    ∙ cut_lines-append first_comment (second_comment ++ 10 ∷ text) one
    ∙ ap (◌∷◌ first_comment) (cut_lines-append second_comment text two)
    ∙ ap (λ (ls : List Text). first_comment ∷ second_comment ∷ ls)
        (cut_lines-entry_lines items sorted)
