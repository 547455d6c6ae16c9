-- ===== src/Reader/Config.antt =====
-- mdp2p_client/config.py: the settings of the client, their file, and the removal of a seeded site.
pub mod Laws
use mdp2p.Prelude.{
  String, Option, none, some, Bool, true, false, List, [], ◌∷◌, if◌then◌else◌, not, ◌==◌,
}
use mdp2p.Prelude.Int.{pos}
use mdp2p.Naming.Stores.Disk.{File, absent, unreadable, holds}
use mdp2p.Py.Result.{Result, ok, raise, ◌>>=◌, type_error, value_error, attribute_error}
use mdp2p.Py.Value.{
  Value, Fields, str, int, bool, arr, obj, nil, end, field, get, get_or, truthy, null, is_text,
}

abbrev pub default_naming_multiaddr : String
default_naming_multiaddr =
    "/ip4/51.254.137.250/tcp/1707/p2p/12D3KooWRSKoy3xrMFQGmcnkYH7mgwUhvH8jqeiKSNsrKov5B6jW"

-- The directories under the user's home
pub record Home : Type 0 where
  pub keys : String
  pub sites : String
  pub reviewer : String

-- The types of the fields are not checked when a file is read.
pub record ClientConfig : Type 0 where
  pub author : Value
  pub naming_multiaddr : Value
  pub bootstrap_multiaddrs : Value
  pub keys_dir : Value
  pub data_dir : Value
  pub port : Value
  pub language : Value
  pub auto_seed_prompted : Value
  pub reviewer_mode : Value
  pub reviewer_dir : Value
  pub reviewer_categories : Value

-- `asdict(self)`
unfoldable pub asdict : ClientConfig → Fields
asdict c = field "author" c.author (
    field "naming_multiaddr" c.naming_multiaddr (
      field "bootstrap_multiaddrs" c.bootstrap_multiaddrs (
        field "keys_dir" c.keys_dir (
          field "data_dir" c.data_dir (
            field "port" c.port (
              field "language" c.language (
                field "auto_seed_prompted" c.auto_seed_prompted (
                  field "reviewer_mode" c.reviewer_mode (
                    field "reviewer_dir" c.reviewer_dir
                      (field "reviewer_categories" c.reviewer_categories end))))))))))

-- `save(path)`: what the file holds then. A save that fails leaves what it leaves.
unfoldable pub save_config : Option (File Value) → ClientConfig → File Value
save_config none c = holds (obj (asdict c))
save_config (some left) c = left

-- `_default_author()`: the name of the user, or `$USER`
unfoldable pub default_author : Result String → Option String → String
default_author (ok name) env = name
default_author (raise x) none = "anonymous"
default_author (raise x) (some s) = if s == "" then "anonymous" else s

unfoldable pub after_ensure :
    Option (File Value) → File Value → Result ClientConfig → Result ClientConfig × File Value
after_ensure failed file (raise x) = (raise x, file)
after_ensure failed file (ok c) = (ok c, save_config failed c)

unfoldable pub back_filled : ClientConfig → ClientConfig
back_filled c = record c { naming_multiaddr = str default_naming_multiaddr }

module _ (home : Home) where
  -- `cls(**valid)` for the fields that the file has: unknown ones are dropped, and missing ones have
  -- their defaults.
  unfoldable pub with_author : Fields → Value → ClientConfig
  with_author fields author = record {
    author = author;
    naming_multiaddr = get_or fields "naming_multiaddr" (str "");
    bootstrap_multiaddrs = get_or fields "bootstrap_multiaddrs" (arr nil);
    keys_dir = get_or fields "keys_dir" (str home.keys);
    data_dir = get_or fields "data_dir" (str home.sites);
    port = get_or fields "port" (int (pos 0));
    language = get_or fields "language" (str "fr");
    auto_seed_prompted = get_or fields "auto_seed_prompted" (bool false);
    reviewer_mode = get_or fields "reviewer_mode" (bool false);
    reviewer_dir = get_or fields "reviewer_dir" (str home.reviewer);
    reviewer_categories = get_or fields "reviewer_categories" (arr nil);
  }

  -- The author has no default.
  unfoldable pub from_author : Fields → Option Value → Result ClientConfig
  from_author fields none = raise type_error
  from_author fields (some author) = ok (with_author fields author)

  -- `ClientConfig.load(path)`
  unfoldable pub load_config : File Value → Result (Option ClientConfig)
  load_config absent = ok none
  load_config unreadable = raise value_error
  load_config (holds (obj fields)) = do c ← from_author fields (get fields "author"); ok (some c)
  load_config (holds v) = raise attribute_error

  -- `ensure_config(config)`: `made` is what making its two directories gives.
  unfoldable pub ensure_config : Result (Unit {0}) → Option ClientConfig → Result ClientConfig
  ensure_config made none = do done ← made; ok (with_author end (str "anonymous"))
  ensure_config made (some c) = do done ← made; ok c

  unfoldable pub new_config : String → ClientConfig
  new_config author =
      with_author (field "naming_multiaddr" (str default_naming_multiaddr) end) (str author)

  unfoldable pub after_load :
      String
      → Result (Unit {0})
      → Option (File Value)
      → File Value
      → Result (Option ClientConfig)
      → Result ClientConfig × File Value
  after_load author made failed file (ok (some c)) =
      if not (truthy c.naming_multiaddr)
      then (ok (back_filled c), save_config failed (back_filled c))
      else (ok c, file)
  after_load author made failed file (ok none) =
      after_ensure failed file (ensure_config made (some (new_config author)))
  after_load author made failed file (raise x) =
      after_ensure failed file (ensure_config made (some (new_config author)))

  -- `load_or_create_config(path)`, with the file that it leaves
  unfoldable pub load_or_create_config :
      String
      → Result (Unit {0})
      → Option (File Value)
      → File Value
      → Result ClientConfig × File Value
  load_or_create_config author made failed file =
      after_load author made failed file (load_config file)

-- The directories in the order in which they are listed, each with its manifest.json
abbrev pub Listing : Type 0
Listing = List (String × File Value)

unfoldable pub keep_first : String × File Value → Result (Bool × Listing) → Result (Bool × Listing)
keep_first d (raise x) = raise x
keep_first d (ok (found, rest)) = ok (found, d ∷ rest)

-- `remove_seeded_site(uri, data_dir)`, with the directories that are left
unfoldable pub remove_seeded_site : String → Listing → Result (Bool × Listing)
remove_seeded_site uri [] = ok (false, [])
remove_seeded_site uri ((name, holds (obj manifest)) ∷ dirs) =
    let rest = keep_first (name, holds (obj manifest)) (remove_seeded_site uri dirs) in
    if is_text (get_or manifest "uri" null) uri then ok (true, dirs) else rest
remove_seeded_site uri ((name, absent) ∷ dirs) =
    keep_first (name, absent) (remove_seeded_site uri dirs)
remove_seeded_site uri ((name, unreadable) ∷ dirs) =
    keep_first (name, unreadable) (remove_seeded_site uri dirs)
remove_seeded_site uri ((name, holds v) ∷ dirs) = raise attribute_error
