-- ===== src/ManageUsers/Commands.antt =====
-- What each command of the tool does to the credentials that the proxy loads.

use custom_network_proxy_ser.Base.{
  ◌≡◌, refl, sym, ap, ◌∙◌, none, some, [], ◌∷◌, ite, if_pos, if_neg, Option-cases, inl, inr,
}
use custom_network_proxy_ser.Dict.{lookup, erase, insert}
use custom_network_proxy_ser.Dict.Laws.{
  Distinct, lookup-insert, insert-Distinct, lookup-erase_ne, lookup-erase_self, erase-Distinct,
}
use custom_network_proxy_ser.Text.{Text, text_dec}
use custom_network_proxy_ser.Text.Codec.{Bytes}
use custom_network_proxy_ser.Auth.{Derive, Users, hash_password, iterations, key_length}
use custom_network_proxy_ser.Auth.Verify.{AreBytes}
use custom_network_proxy_ser.ManageUsers.{File, load, cmd_add, cmd_remove}
use custom_network_proxy_ser.ManageUsers.Entries.{
  AreEntries, IsName, insert-AreEntries, load-AreEntries,
}
use custom_network_proxy_ser.ManageUsers.Saved.{load-save_users, load-Distinct}
use custom_network_proxy_ser.ManageUsers.Hashed.{hash_password-IsCredential}

erase-AreEntries :
    (name : Text) (users : Users) → AreEntries users → AreEntries (erase text_dec name users)
unfolding erase
erase-AreEntries name [] h = tt
erase-AreEntries name ((m, d) ∷ users) (h, hs) = elim (text_dec name m) [
  | yes e ↦ rw (if_pos (text_dec name m) e) hs
  | no e ↦ rw (if_neg (text_dec name m) e) (h, erase-AreEntries name users hs)
]

lookup-erase :
    (q name : Text) (users : Users)
    → Distinct text_dec users
    → lookup text_dec q (erase text_dec name users)
      ≡ ite (text_dec q name) none (lookup text_dec q users)
lookup-erase q name users h = elim (text_dec q name) [
  | yes e ↦
      ap (λ (t : Text). lookup text_dec t (erase text_dec name users)) e
      ∙ lookup-erase_self text_dec name users h
      ∙ sym (if_pos (text_dec q name) e _ _)
  | no e ↦ lookup-erase_ne text_dec q name users e ∙ sym (if_neg (text_dec q name) e _ _)
]

-- After `remove`, the proxy loads what it loaded before, less the user of that name.
pub load-cmd_remove :
    (q name : Text) (file : File)
    → lookup text_dec q (load (cmd_remove name file).file)
      ≡ ite (text_dec q name) none (lookup text_dec q (load file))
unfolding cmd_remove
load-cmd_remove q name file =
    let users = load file in
    elim (Option-cases (lookup text_dec name users)) [
      | inl e ↦ rw e (unchanged (text_dec q name) e)
      | inr (old, e) ↦ rw e (
          load-save_users q (erase text_dec name users)
            (erase-AreEntries name users (load-AreEntries file))
            (erase-Distinct text_dec name users (load-Distinct file))
          ∙ lookup-erase q name users (load-Distinct file))
    ]
  where
    unchanged :
        (d : Dec (q ≡ name))
        → lookup text_dec name (load file) ≡ none
        → lookup text_dec q (load file) ≡ ite d none (lookup text_dec q (load file))
    unchanged (yes p) e = rw p e
    unchanged (no p) e = refl

module _ (derive : Derive)
    (derive-AreBytes : (plain : Text) (salt : Bytes)
      → AreBytes (derive.key plain salt iterations key_length)) where
  -- After `add`, the proxy loads the new hash for that name, and what it loaded before for the
  -- others.
  pub load-cmd_add :
      (q name password : Text) (salt : Bytes) (file : File)
      → IsName name
      → AreBytes salt
      → lookup text_dec q (load (cmd_add derive name password salt file).file)
        ≡ ite
            (text_dec q name)
            (some (hash_password derive password salt))
            (lookup text_dec q (load file))
  unfolding cmd_add
  load-cmd_add q name password salt file n s =
      let users = load file in
      let hash = hash_password derive password salt in
      load-save_users q (insert text_dec name hash users)
        (insert-AreEntries name hash users n
          (hash_password-IsCredential derive password salt s (derive-AreBytes password salt))
          (load-AreEntries file))
        (insert-Distinct text_dec name hash users (load-Distinct file))
      ∙ lookup-insert text_dec q name hash users
