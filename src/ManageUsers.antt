-- ===== src/ManageUsers.antt =====
-- tools/manage_users.py: the commands that change the users file of src/auth.py. The file is its
-- content, `none` if it is not there. The salts that `os.urandom` gives are an argument.
pub mod Entries
pub mod Sorted
pub mod Written
pub mod Saved
pub mod Hashed
pub mod Commands
pub mod Migration
pub mod Registry
use mathlib.Core.Option
use custom_network_proxy_ser.Base.{
  ℕ, zero, suc, ◌+◌, ◌-◌, Bool, true, false, not, ◌&&◌, ◌||◌, Option, none, some, List, [], ◌∷◌,
  ◌++◌, map, length, ltb, ◌==◌, if◌then◌else◌,
}
use custom_network_proxy_ser.Text.{Text, codes, text_dec, same, starts_with, lower}
use custom_network_proxy_ser.Text.Number.{show}
use custom_network_proxy_ser.Text.Codec.{Bytes}
use custom_network_proxy_ser.Text.Files.{lines_of, before}
use custom_network_proxy_ser.Dict.{lookup, erase, insert}
use custom_network_proxy_ser.Auth.{Derive, Users, hash_password, load_users, prefix}

abbrev pub File : Type 0
File = Option Text

-- `load_users(USERS_FILE)`
abbrev pub load : File → Users
load f = load_users (elim f [ none ↦ none | some content ↦ some (lines_of content) ])

-- `sorted(users.items())`: pairs are compared by their name, then by their credential
abbrev pub item_before : Text × Text → Text × Text → Bool
item_before (n, c) (m, d) = before n m || (same n m && before c d)

unfoldable pub insert_item : Text × Text → Users → Users
insert_item x [] = x ∷ []
insert_item x (y ∷ ys) =
    let rest = insert_item x ys in if item_before y x then y ∷ rest else x ∷ y ∷ ys

unfoldable pub sorted_items : Users → Users
unfolding insert_item
sorted_items [] = []
sorted_items (x ∷ xs) = insert_item x (sorted_items xs)

abbrev pub newline : Text
newline = 10 ∷ []

unfoldable pub entry_lines : Users → Text
entry_lines [] = []
entry_lines ((name, credential) ∷ users) = name ++ b':' ∷ (credential ++ 10 ∷ entry_lines users)

abbrev pub preamble : Text
preamble =
    codes "# Proxy user credentials (managed by manage_users.py)"
    ++ 10 ∷ (codes "# Format: username:pbkdf2$iterations$salt$hash" ++ newline)

-- `_save_users`: the new content of the file
unfoldable pub save_users : Users → Text
unfolding sorted_items entry_lines
save_users users = preamble ++ entry_lines (sorted_items users)

-- What a run of the tool leaves: the file, what was printed, and the exit code.
pub record Ran : Type 0 where
  pub file : File
  pub printed : List Text
  pub exit_code : ℕ

module _ (derive : Derive) where
  unfoldable pub cmd_add : Text → Text → Bytes → File → Ran
  cmd_add username password salt file =
      let users = load file in
      let action : Text = elim (lookup text_dec username users) [
        | none ↦ codes "Added"
        | some old ↦ codes "Updated"
      ] in
      record {
        file =
            some (save_users (insert text_dec username (hash_password derive password salt) users));
        printed = (codes "[+] " ++ action ++ codes " user: " ++ username) ∷ [];
        exit_code = 0;
      }

  -- the credential after the migration; the salt is given by the name
  unfoldable pub migrated : (Text → Bytes) → Text → Text → Text
  migrated salt name credential =
      if starts_with (prefix ++ b'$' ∷ []) credential
      then credential
      else hash_password derive credential (salt name)

  unfoldable pub migrate_all : (Text → Bytes) → Users → Users
  unfolding migrated
  migrate_all salt [] = []
  migrate_all salt ((name, credential) ∷ users) =
      (name, migrated salt name credential) ∷ migrate_all salt users

  abbrev pub plain_names : Users → List Text
  plain_names [] = []
  plain_names ((name, credential) ∷ users) =
      let rest = plain_names users in
      if starts_with (prefix ++ b'$' ∷ []) credential then rest else name ∷ rest

  -- The file is written only if some credential was not hashed.
  unfoldable pub cmd_migrate : (Text → Bytes) → File → Ran
  unfolding migrate_all
  cmd_migrate salt file =
      let users = load file in
      let names = plain_names users in
      if length names == 0
      then record {
        file = file;
        printed = codes "[=] All users already use hashed credentials." ∷ [];
        exit_code = 0;
      }
      else record {
        file = some (save_users (migrate_all salt users));
        printed =
            map (λ name. codes "  [+] Migrated: " ++ name) names
            ++ (newline
                ++ codes "[+] Migrated "
                ++ show (length names)
                ++ codes " user(s) to PBKDF2.")
              ∷ [];
        exit_code = 0;
      }

unfoldable pub cmd_remove : Text → File → Ran
cmd_remove username file =
    let users = load file in
    elim (lookup text_dec username users) [
      | none ↦ record {
        file = file;
        printed = (codes "[-] User not found: " ++ username) ∷ [];
        exit_code = 1;
      }
      | some old ↦ record {
        file = some (save_users (erase text_dec username users));
        printed = (codes "[+] Removed user: " ++ username) ∷ [];
        exit_code = 0;
      }
    ]

abbrev spaces : ℕ → Text
spaces zero = []
spaces (suc n) = b' ' ∷ spaces n

abbrev dashes : ℕ → Text
dashes zero = []
dashes (suc n) = b'-' ∷ dashes n

-- `f"{name:<20} "`
abbrev padded : Text → Text
padded name = name ++ spaces (20 - length name) ++ b' ' ∷ []

unfoldable pub list_lines : Users → List Text
list_lines [] = []
list_lines ((name, credential) ∷ users) =
    (padded name
      ++ (if starts_with (prefix ++ b'$' ∷ []) credential
          then codes "PBKDF2 (hashed)"
          else codes "PLAINTEXT (migrate!)"))
    ∷ list_lines users

-- `users` is what was loaded from the file.
unfoldable pub listing : File → Users → Ran
unfolding list_lines sorted_items
listing file [] = record { file = file; printed = codes "No users configured." ∷ []; exit_code = 0 }
listing file (u ∷ users) = record {
  file = file;
  printed =
      (padded (codes "Username") ++ codes "Credential Type")
      ∷ dashes 40
      ∷ list_lines (sorted_items (u ∷ users));
  exit_code = 0;
}

unfoldable pub cmd_list : File → Ran
unfolding listing
cmd_list file = listing file (load file)

-- The text of the usage message, which is the module's doc string, is the first argument.
abbrev refused : File → List Text → Ran
refused file printed = record { file = file; printed = printed; exit_code = 1 }

module _ (derive : Derive) (salt : Text → Bytes) where
  -- `len(sys.argv) != 4` and `!= 3` are usage errors.
  unfoldable pub add_args : List Text → File → Ran
  unfolding cmd_add
  add_args (name ∷ password ∷ []) file = cmd_add derive name password (salt name) file
  add_args args file = refused file (codes "Usage: manage_users.py add <username> <password>" ∷ [])

  unfoldable pub remove_args : List Text → File → Ran
  unfolding cmd_remove
  remove_args (name ∷ []) file = cmd_remove name file
  remove_args args file = refused file (codes "Usage: manage_users.py remove <username>" ∷ [])

  unfoldable pub main : Text → List Text → File → Ran
  unfolding add_args remove_args cmd_migrate cmd_list
  main doc [] file = refused file (doc ∷ [])
  main doc (word ∷ args) file =
      let command = lower word in
      if same command (codes "add")
      then add_args args file
      else if same command (codes "remove")
      then remove_args args file
      else if same command (codes "list")
      then cmd_list file
      else if same command (codes "migrate")
      then cmd_migrate derive salt file
      else refused file ((codes "Unknown command: " ++ command) ∷ doc ∷ [])
