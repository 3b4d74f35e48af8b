-- ===== src/ManageUsers/Entries.antt =====
-- What the users file can say of a user, and that everything that is loaded from it is such.
use custom_network_proxy_ser.Base.{
  ℕ, ◌≡◌, refl, sym, ap, ◌∙◌, inl, inr, arith, false, ◌&&◌, none, some, List, [], ◌∷◌, ◌++◌,
  Bool-cases, Option-cases, ◌==◌, All, if_pos, if_neg,
}
use custom_network_proxy_ser.Dict.{insert}
use custom_network_proxy_ser.Text.{
  Text, text_dec, has_char, starts_with, strip, is_space, split_once,
}
use custom_network_proxy_ser.Text.Files.{translate, cons_head, cut_lines, lines_of}
use custom_network_proxy_ser.Text.Trim.{
  IsTrimmed, has_char-strip, strip-head, strip-IsTrimmed, split_once-first, split_once-whole,
  has_char-parts,
}
use custom_network_proxy_ser.Auth.{Users, add_line, users_from, load_users}
use custom_network_proxy_ser.ManageUsers.{File, load}

-- No line break.
abbrev pub NoBreak : Text → Type 0
NoBreak s = (has_char 10 s ≡ false) × (has_char 13 s ≡ false)

-- A name that a line can hold: trimmed, with no colon and no line break, and no comment.
pub record IsName (s : Text) : Type 0 where
  pub trimmed : IsTrimmed s
  pub no_colon : has_char b':' s ≡ false
  pub no_hash : starts_with (b'#' ∷ []) s ≡ false
  pub no_break : NoBreak s

pub record IsCredential (s : Text) : Type 0 where
  pub trimmed : IsTrimmed s
  pub no_break : NoBreak s

abbrev pub IsEntry : Text × Text → Type 0
IsEntry e = IsName e.0 × IsCredential e.1

abbrev pub AreEntries : Users → Type 0
AreEntries = All IsEntry

pub insert-AreEntries :
    (name credential : Text) (users : Users)
    → IsName name
    → IsCredential credential
    → AreEntries users
    → AreEntries (insert text_dec name credential users)
unfolding insert
insert-AreEntries name credential [] n c us = ((n, c), tt)
insert-AreEntries name credential ((m, d) ∷ users) n c (u, us) = elim (text_dec name m) [
  | yes e ↦ rw (if_pos (text_dec name m) e _ _) ((n, c), us)
  | no e ↦ rw (if_neg (text_dec name m) e _ _) (u, insert-AreEntries name credential users n c us)
]

strip-NoBreak : (s : Text) → NoBreak s → NoBreak (strip s)
strip-NoBreak s (a, b) = (has_char-strip 10 s a, has_char-strip 13 s b)

-- The part before the colon of a trimmed line that is no comment.
strip-no_hash :
    (c : ℕ) (line a b : Text)
    → is_space c ≡ false
    → (c == b'#') ≡ false
    → c ∷ line ≡ a ++ b':' ∷ b
    → starts_with (b'#' ∷ []) (strip a) ≡ false
strip-no_hash c line [] b s h e = unfold strip starts_with in refl
strip-no_hash c line (d ∷ a) b s h e =
    let same_head : c ≡ d = cc in
    let (t, k) = strip-head d a (rw same_head at s) in
    let other : (d == b'#') ≡ false = rw same_head at h in
    rw k (unfold starts_with in ground (arith, other))

parts-IsEntry :
    (c : ℕ) (line a b : Text)
    → NoBreak (c ∷ line)
    → is_space c ≡ false
    → (c == b'#') ≡ false
    → split_once b':' (c ∷ line) ≡ some (a, b)
    → IsEntry (strip a, strip b)
parts-IsEntry c line a b (lf, cr) s h e =
    let whole = split_once-whole b':' (c ∷ line) a b e in
    let (a_lf, b_lf) = has_char-parts 10 a b':' b (ap (has_char 10) (sym whole) ∙ lf) in
    let (a_cr, b_cr) = has_char-parts 13 a b':' b (ap (has_char 13) (sym whole) ∙ cr) in
    (
      record {
        trimmed = strip-IsTrimmed a;
        no_colon = has_char-strip b':' a (split_once-first b':' (c ∷ line) a b e);
        no_hash = strip-no_hash c line a b s h whole;
        no_break = strip-NoBreak a (a_lf, a_cr);
      },
      record { trimmed = strip-IsTrimmed b; no_break = strip-NoBreak b (b_lf, b_cr) },
    )

add_line-AreEntries :
    (line : Text) (users : Users)
    → NoBreak line
    → IsTrimmed line
    → AreEntries users
    → AreEntries (add_line line users)
unfolding add_line
add_line-AreEntries [] users n t us = us
add_line-AreEntries (c ∷ line) users n t us = elim (Bool-cases (c == b'#')) [
  | inl h ↦ rw h us
  | inr h ↦ elim (Option-cases (split_once b':' (c ∷ line))) [
    | inl e ↦ rw (h, e) us
    | inr ((a, b), e) ↦
        let space : is_space c ≡ false = ground (arith, t.start) in
        let (name, credential) = parts-IsEntry c line a b n space h e in
        rw (h, e) (insert-AreEntries (strip a) (strip b) users name credential us)
  ]
]

users_from-AreEntries :
    (lines : List Text) (users : Users)
    → All NoBreak lines
    → AreEntries users
    → AreEntries (users_from lines users)
unfolding users_from
users_from-AreEntries [] users n us = us
users_from-AreEntries (line ∷ lines) users (n, ns) us =
    users_from-AreEntries lines _ ns
      (add_line-AreEntries (strip line) users (strip-NoBreak line n) (strip-IsTrimmed line) us)

translate-no_cr : (s : Text) → has_char 13 (translate s) ≡ false
unfolding has_char translate
translate-no_cr [] = refl
translate-no_cr (c ∷ []) = ground arith
translate-no_cr (c ∷ d ∷ s) = elim (Bool-cases (c == 13 && d == 10)) [
  | inl e ↦ rw (e, translate) (ground (arith, translate-no_cr s))
  | inr e ↦ rw (e, translate) (ground (arith, translate-no_cr (d ∷ s)))
]

cons_head-NoBreak :
    (c : ℕ) (ls : List Text)
    → (c == 10) ≡ false
    → (c == 13) ≡ false
    → All NoBreak ls
    → All NoBreak (cons_head c ls)
unfolding has_char
cons_head-NoBreak c [] a b h = ((ground (arith, a), ground (arith, b)), tt)
cons_head-NoBreak c (l ∷ ls) a b ((p, q), h) = ((ground (arith, a, p), ground (arith, b, q)), h)

cut_lines-NoBreak : (s : Text) → has_char 13 s ≡ false → All NoBreak (cut_lines s)
unfolding has_char cut_lines
cut_lines-NoBreak [] h = tt
cut_lines-NoBreak (c ∷ s) h =
    let cr : (c == 13) ≡ false = ground (arith, h) in
    let ih = cut_lines-NoBreak s (ground (arith, h)) in
    elim (Bool-cases (c == 10)) [
      | inl e ↦ rw e ((refl, refl), ih)
      | inr e ↦ rw e (cons_head-NoBreak c (cut_lines s) e cr ih)
    ]

-- Everything that is loaded from a file can be written to one.
pub load-AreEntries : (file : File) → AreEntries (load file)
unfolding load_users lines_of
load-AreEntries none = tt
load-AreEntries (some content) =
    users_from-AreEntries (lines_of content) [] (cut_lines-NoBreak _ (translate-no_cr content)) tt
