-- ===== src/ManageUsers/Registry.antt =====
-- The tool against its specification: a registry is a function from names to credentials, and
-- each run of the tool changes it at one name, or migrates it.
use mathlib.Core.Option
use mathlib.Core.Path.{fun_ext}
use custom_network_proxy_ser.Base.{
  All, ◌≡◌, refl, ap, ◌∙◌, Option, none, some, List, [], ◌∷◌, length, ite, Bool-cases, inl, inr,
  if◌then◌else◌,
}
use custom_network_proxy_ser.Dict.{lookup}
use custom_network_proxy_ser.Text.{Text, codes, text_dec, same, lower}
use custom_network_proxy_ser.Text.Codec.{Bytes}
use custom_network_proxy_ser.Auth.{Users, Derive, hash_password, iterations, key_length}
use custom_network_proxy_ser.Auth.Verify.{AreBytes}
use custom_network_proxy_ser.ManageUsers.{
  File, listing, load, migrated, add_args, remove_args, cmd_list, main,
}
use custom_network_proxy_ser.ManageUsers.Entries.{IsName}
use custom_network_proxy_ser.ManageUsers.Commands.{load-cmd_add, load-cmd_remove}
use custom_network_proxy_ser.ManageUsers.Migration.{load-cmd_migrate}

abbrev pub Registry : Type 0
Registry = Text → Option Text

-- What the proxy loads from the file.
abbrev pub registry : File → Registry
registry file q = lookup text_dec q (load file)

-- The name that is added can be written on a line.
abbrev pub AreArgs : List Text → Type 0
AreArgs (name ∷ password ∷ []) = IsName name
AreArgs _ = Unit

abbrev pub AreWords : List Text → Type 0
AreWords [] = Unit
AreWords (word ∷ args) = AreArgs args

module _ (derive : Derive) where
  abbrev added : (Text → Bytes) → List Text → Registry → Registry
  added salt (name ∷ password ∷ []) users q =
      ite (text_dec q name) (some (hash_password derive password (salt name))) (users q)
  added salt _ users q = users q

  abbrev removed : List Text → Registry → Registry
  removed (name ∷ []) users q = ite (text_dec q name) none (users q)
  removed _ users q = users q

  -- The specification of one run: `add`, `remove` and `migrate` change the registry, all else
  -- leaves it.
  unfoldable pub meant : (Text → Bytes) → List Text → Registry → Registry
  meant salt [] users q = users q
  meant salt (word ∷ args) users q =
      let command = lower word in
      if same command (codes "add")
      then added salt args users q
      else if same command (codes "remove")
      then removed args users q
      else if same command (codes "list")
      then users q
      else if same command (codes "migrate")
      then Option.map (migrated derive salt q) (users q)
      else users q

  -- Each run has its arguments and its salts.
  abbrev Run : Type 0
  Run = List Text × (Text → Bytes)

  unfoldable pub meant_all : List Run → Registry → Registry
  unfolding meant
  meant_all [] users = users
  meant_all ((args, salt) ∷ runs) users = meant_all runs (meant salt args users)

  unfoldable pub main_all : Text → List Run → File → File
  unfolding main
  main_all doc [] file = file
  main_all doc ((args, salt) ∷ runs) file = main_all doc runs (main derive salt doc args file).file

listing-file : (file : File) (users : Users) → (listing file users).file ≡ file
unfolding listing
listing-file file [] = refl
listing-file file (u ∷ users) = refl

cmd_list-file : (file : File) → (cmd_list file).file ≡ file
unfolding cmd_list
cmd_list-file file = listing-file file (load file)

remove_args-Refines :
    (derive : Derive) (salt : Text → Bytes) (q : Text) (args : List Text) (file : File)
    → registry (remove_args derive salt args file).file q ≡ removed derive args (registry file) q
unfolding remove_args
remove_args-Refines derive salt q [] file = refl
remove_args-Refines derive salt q (name ∷ []) file = load-cmd_remove q name file
remove_args-Refines derive salt q (name ∷ b ∷ args) file = refl

module _ (derive : Derive)
    (derive-AreBytes : (plain : Text) (salt : Bytes)
      → AreBytes (derive.key plain salt iterations key_length))
    (length-derive : (plain : Text) (salt : Bytes)
      → length (derive.key plain salt iterations key_length) ≡ key_length) where
  add_args-Refines :
      (salt : Text → Bytes) (q : Text) (args : List Text) (file : File)
      → ((name : Text) → AreBytes (salt name))
      → AreArgs args
      → registry (add_args derive salt args file).file q ≡ added derive salt args (registry file) q
  unfolding add_args
  add_args-Refines salt q [] file s h = refl
  add_args-Refines salt q (name ∷ []) file s h = refl
  add_args-Refines salt q (name ∷ password ∷ []) file s h =
      load-cmd_add derive derive-AreBytes q name password (salt name) file h (s name)
  add_args-Refines salt q (name ∷ password ∷ c ∷ args) file s h = refl

  main-Refines :
      (salt : Text → Bytes) (doc q : Text) (args : List Text) (file : File)
      → ((name : Text) → AreBytes (salt name))
      → AreWords args
      → registry (main derive salt doc args file).file q ≡ meant derive salt args (registry file) q
  unfolding main meant
  main-Refines salt doc q [] file s h = refl
  main-Refines salt doc q (word ∷ args) file s h =
      elim (Bool-cases (same (lower word) (codes "add"))) [
        | inl e ↦ rw e (add_args-Refines salt q args file s h)
        | inr e ↦ elim (Bool-cases (same (lower word) (codes "remove"))) [
          | inl f ↦ rw (e, f) (remove_args-Refines derive salt q args file)
          | inr f ↦ elim (Bool-cases (same (lower word) (codes "list"))) [
            | inl g ↦ rw (e, f, g) (ap (λ (f : File). registry f q) (cmd_list-file file))
            | inr g ↦ elim (Bool-cases (same (lower word) (codes "migrate"))) [
              | inl k ↦
                  rw (e, f, g, k)
                    (load-cmd_migrate derive derive-AreBytes length-derive salt s q file)
              | inr k ↦ rw (e, f, g, k) refl
            ]
          ]
        ]
      ]

  -- Any number of runs of the tool, one after the other, leaves for each name the credential that
  -- the specification gives. The names that are added can be written on a line, keys and salts are
  -- bytes, and keys have the length asked for.
  pub main_all-Refines :
      (doc q : Text) (runs : List (List Text × (Text → Bytes))) (file : File)
      → All (λ run. AreWords run.0 × ((name : Text) → AreBytes (run.1 name))) runs
      → registry (main_all derive doc runs file) q ≡ meant_all derive runs (registry file) q
  unfolding main_all meant_all
  main_all-Refines doc q [] file h = refl
  main_all-Refines doc q ((args, salt) ∷ runs) file ((w, s), h) =
      main_all-Refines doc q runs (main derive salt doc args file).file h
      ∙ ap (λ (users : Registry). meant_all derive runs users q)
          (fun_ext (λ q. main-Refines salt doc q args file s w))
