-- ===== src/ManageUsers/Migration.antt =====
-- `cmd_migrate`: every password that was accepted stays accepted.
use mathlib.Core.Option
use custom_network_proxy_ser.Base.{
  ◌≡◌, refl, sym, ap, ◌∙◌, Bool, true, false, Option, some, [], ◌∷◌, ◌++◌, arith, ite, Bool-cases,
  inl, inr, length, ◌==◌, ok,
}
use custom_network_proxy_ser.Dict.{lookup}
use custom_network_proxy_ser.Dict.Laws.{Distinct}
use custom_network_proxy_ser.Text.{Text, text_dec, starts_with}
use custom_network_proxy_ser.Text.Laws.{same_iff, same_refl}
use custom_network_proxy_ser.Text.Codec.{Bytes}
use custom_network_proxy_ser.Text.Number.{pos}
use custom_network_proxy_ser.Auth.{
  Derive, Users, iterations, key_length, prefix, verify_password, compare_texts,
}
use custom_network_proxy_ser.Auth.Verify.{AreBytes, verify_password-hash_password}
use custom_network_proxy_ser.ManageUsers.{
  File, load, cmd_migrate, migrated, migrate_all, plain_names,
}
use custom_network_proxy_ser.ManageUsers.Entries.{AreEntries, IsCredential, load-AreEntries}
use custom_network_proxy_ser.ManageUsers.Saved.{load-save_users, load-Distinct}
use custom_network_proxy_ser.ManageUsers.Hashed.{
  hash_password-IsCredential, starts_with-hash_password,
}

-- The test for the hashed form.
abbrev pub is_hashed : Text → Bool
is_hashed credential = starts_with (prefix ++ b'$' ∷ []) credential

compare_texts_sound : (derive : Derive) (a b : Text) → compare_texts derive a b ≡ ok true → a ≡ b
unfolding compare_texts
compare_texts_sound derive a b h = (same_iff a b).0 (ground arith)

map-ite :
    {P : Type 0} (d : Dec P) (f : Text → Text) (a b : Text) (o : Option Text)
    → (P → b ≡ f a)
    → ite d (some b) (Option.map f o) ≡ Option.map f (ite d (some a) o)
map-ite (yes p) f a b o h = ap some (h p)
map-ite (no p) f a b o h = refl

module _ (derive : Derive)
    (derive-AreBytes : (plain : Text) (salt : Bytes)
      → AreBytes (derive.key plain salt iterations key_length))
    (length-derive : (plain : Text) (salt : Bytes)
      → length (derive.key plain salt iterations key_length) ≡ key_length)
    (salt : Text → Bytes) (salt-AreBytes : (name : Text) → AreBytes (salt name)) where
  is_hashed-migrated :
      (name credential : Text) → is_hashed (migrated derive salt name credential) ≡ true
  unfolding migrated
  is_hashed-migrated name credential = elim (Bool-cases (is_hashed credential)) [
    | inl e ↦ rw e e
    | inr e ↦ rw e (starts_with-hash_password derive credential (salt name))
  ]

  migrated-IsCredential :
      (name credential : Text)
      → IsCredential credential
      → IsCredential (migrated derive salt name credential)
  unfolding migrated
  migrated-IsCredential name credential h = elim (Bool-cases (is_hashed credential)) [
    | inl e ↦ rw e h
    | inr e ↦ rw e (
        hash_password-IsCredential derive credential (salt name) (salt-AreBytes name)
          (derive-AreBytes credential (salt name)))
  ]

  plain_sound :
      (tried credential : Text)
      → is_hashed credential ≡ false
      → verify_password derive tried credential ≡ ok true
      → tried ≡ credential
  unfolding verify_password
  plain_sound tried credential e h = compare_texts_sound derive tried credential (rw e at h)

  verify_password-migrated :
      (name tried credential : Text)
      → derive.takes (pos iterations) key_length ≡ true
      → verify_password derive tried credential ≡ ok true
      → verify_password derive tried (migrated derive salt name credential) ≡ ok true
  unfolding migrated
  verify_password-migrated name tried credential taken h =
      elim (Bool-cases (is_hashed credential)) [
        | inl e ↦ rw e h
        | inr e ↦ rw e (
            verify_password-hash_password derive credential tried (salt name) (salt-AreBytes name)
              (derive-AreBytes credential (salt name)) (length-derive credential (salt name)) taken
            ∙ rw (plain_sound tried credential e h) (ap ok (same_refl _)))
      ]

  lookup-migrate_all :
      (q : Text) (users : Users)
      → lookup text_dec q (migrate_all derive salt users)
        ≡ Option.map (migrated derive salt q) (lookup text_dec q users)
  unfolding lookup migrate_all
  lookup-migrate_all q [] = refl
  lookup-migrate_all q ((name, credential) ∷ users) =
      ap (ite (text_dec q name) (some (migrated derive salt name credential)))
        (lookup-migrate_all q users)
      ∙ map-ite (text_dec q name) (migrated derive salt q) credential
          (migrated derive salt name credential) (lookup text_dec q users)
          (λ e. ap (λ (t : Text). migrated derive salt t credential) (sym e))

  migrate_all-AreEntries :
      (users : Users) → AreEntries users → AreEntries (migrate_all derive salt users)
  unfolding migrate_all
  migrate_all-AreEntries [] h = tt
  migrate_all-AreEntries ((name, credential) ∷ users) ((n, c), h) =
      ((n, migrated-IsCredential name credential c), migrate_all-AreEntries users h)

  migrate_all-Distinct :
      (users : Users) → Distinct text_dec users → Distinct text_dec (migrate_all derive salt users)
  unfolding migrate_all
  migrate_all-Distinct [] h = tt
  migrate_all-Distinct ((name, credential) ∷ users) (fresh, h) = (
    lookup-migrate_all name users ∙ ap (Option.map (migrated derive salt name)) fresh,
    migrate_all-Distinct users h,
  )

  -- Where no name is to be migrated, the migration changes nothing.
  migrate_all_none :
      (users : Users)
      → (length (plain_names derive users) == 0) ≡ true
      → migrate_all derive salt users ≡ users
  unfolding migrate_all migrated
  migrate_all_none [] h = refl
  migrate_all_none ((name, credential) ∷ users) h = elim (Bool-cases (is_hashed credential)) [
    | inl e ↦ rw e (ap (◌∷◌ (name, credential)) (migrate_all_none users (rw e at h)))
    | inr e ↦ absurd (let k = rw e at h in ground (arith, k))
  ]

  -- After `migrate`, the proxy loads for each name its migrated credential.
  pub load-cmd_migrate :
      (q : Text) (file : File)
      → lookup text_dec q (load (cmd_migrate derive salt file).file)
        ≡ Option.map (migrated derive salt q) (lookup text_dec q (load file))
  unfolding cmd_migrate
  load-cmd_migrate q file =
      let users = load file in
      elim (Bool-cases (length (plain_names derive users) == 0)) [
        | inl e ↦
            rw e
              (ap (lookup text_dec q) (sym (migrate_all_none users e)) ∙ lookup-migrate_all q users)
        | inr e ↦ rw e (
            load-save_users q (migrate_all derive salt users)
              (migrate_all-AreEntries users (load-AreEntries file))
              (migrate_all-Distinct users (load-Distinct file))
            ∙ lookup-migrate_all q users)
      ]

  -- A password that is accepted for a user before `migrate` is accepted after it, for a
  -- credential that is hashed. Keys and salts are bytes, and keys have the length asked for;
  -- the derivation takes the count and the length of the program.
  pub cmd_migrate-Accepted :
      (name tried credential : Text) (file : File)
      → derive.takes (pos iterations) key_length ≡ true
      → lookup text_dec name (load file) ≡ some credential
      → verify_password derive tried credential ≡ ok true
      → (stored : Text) × (lookup text_dec name (load (cmd_migrate derive salt file).file)
          ≡ some stored)
        × (is_hashed stored ≡ true)
        × (verify_password derive tried stored ≡ ok true)
  cmd_migrate-Accepted name tried credential file taken here h = (
    migrated derive salt name credential,
    load-cmd_migrate name file ∙ ap (Option.map (migrated derive salt name)) here,
    is_hashed-migrated name credential,
    verify_password-migrated name tried credential taken h,
  )
