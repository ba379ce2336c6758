-- ===== src/CliParser.antt =====
-- src/cli/CLIParser.ts and the defaults of src/common/Config.ts: the command line to a configuration.
-- `toLowerCase` and `parseInt` are the runtime's, and parameters here; parse_int is none for NaN. What
-- throws is none.
pub mod Words
use lsm_kv_store.Base.{
  ℕ, zero, suc, ◌+◌, ◌*◌, Bool, true, false, ◌||◌, Option, none, some, List, [], ◌∷◌, ◌++◌, ◌==◌,
  if◌then◌else◌,
}
use lsm_kv_store.Base.Int.{ℤ, pos, negsuc}
use lsm_kv_store.Text.{Text, eq_text}
use lsm_kv_store.Bytes.{◌>>=◌}
use lsm_kv_store.Wal.{SyncPolicy, sync_every_write, group_commit_100ms, periodic_10ms}
use lsm_kv_store.CliParser.Words.{
  help_flag, short_help_flag, data_dir_flag, http_port_flag, tcp_port_flag, memtable_size_flag,
  sync_policy_flag, role_flag, backup_host_flag, backup_port_flag, replication_port_flag,
  primary_word, backup_word, standalone_word, sync_word, group_word, periodic_word,
  default_data_dir,
}

pub data ReplicationRole : Type 0 where
  standalone primary backup : ReplicationRole

pub record ReplicationConfig : Type 0 where
  pub role : ReplicationRole
  pub backup_host : Option Text
  pub backup_port : Option ℤ
  pub replication_port : Option ℤ

pub record StorageConfig : Type 0 where
  pub data_dir : Text
  pub memtable_size_limit : ℤ
  pub sync_policy : SyncPolicy
  pub http_port : ℤ
  pub tcp_port : ℤ
  pub replication : Option ReplicationConfig

abbrev pub default_config : StorageConfig
default_config = record {
  data_dir = default_data_dir;
  memtable_size_limit = pos (4 * 1024 * 1024);
  sync_policy = group_commit_100ms;
  http_port = pos 3000;
  tcp_port = pos 3001;
  replication = none;
}

pub record CliOptions : Type 0 where
  pub config : StorageConfig
  pub help : Bool

-- `arg.startsWith(prefix)`
unfoldable pub starts_with : Text → Text → Bool
starts_with arg [] = true
starts_with [] (p ∷ prefix) = false
starts_with (a ∷ arg) (p ∷ prefix) =
    let rest = starts_with arg prefix in if a == p then rest else false

abbrev pub equals_sign : ℕ
equals_sign = 61

-- What stands before the first `=`, and what comes after it.
unfoldable pub before_equals : Text → Text
before_equals [] = []
before_equals (u ∷ text) =
    let rest = before_equals text in if u == equals_sign then [] else u ∷ rest

unfoldable pub after_equals : Text → Option Text
after_equals [] = none
after_equals (u ∷ text) =
    let rest = after_equals text in if u == equals_sign then some text else rest

-- `arg.split('=')[1]`: the part between the first `=` and the second.
unfoldable pub second_part : Text → Option Text
unfolding before_equals after_equals
second_part arg = elim (after_equals arg) [ none ↦ none | some rest ↦ some (before_equals rest) ]

unfoldable pub find_prefixed : List Text → Text → Option Text
unfolding starts_with
find_prefixed [] prefix = none
find_prefixed (arg ∷ args) prefix =
    let rest = find_prefixed args prefix in if starts_with arg prefix then some arg else rest

abbrev pub first_of : List Text → Option Text
first_of [] = none
first_of (arg ∷ args) = some arg

-- The argument after the first one that is the flag.
unfoldable pub after_flag : List Text → Text → Option Text
after_flag [] flag = none
after_flag (arg ∷ args) flag =
    let rest = after_flag args flag in if eq_text arg flag then first_of args else rest

unfoldable pub has_flag : List Text → Text → Bool
has_flag [] flag = false
has_flag (arg ∷ args) flag = eq_text arg flag || has_flag args flag

unfoldable pub get_string : List Text → Text → Option Text
unfolding find_prefixed second_part after_flag
get_string args flag = elim (find_prefixed args (flag ++ (equals_sign ∷ []))) [
  | some arg ↦ second_part arg
  | none ↦ after_flag args flag
]

-- `value ?? default`
abbrev pub or_default {ℓ} : {A : Type ℓ} → Option A → A → A
or_default none default = default
or_default (some a) default = a

-- A number that `!port` does not reject.
abbrev pub nonzero : Option ℤ → Option ℤ
nonzero none = none
nonzero (some (pos zero)) = none
nonzero (some (pos (suc n))) = some (pos (suc n))
nonzero (some (negsuc n)) = some (negsuc n)

-- A text that `!host` does not reject.
abbrev pub nonempty : Option Text → Option Text
nonempty none = none
nonempty (some []) = none
nonempty (some (u ∷ text)) = some (u ∷ text)

module _ (to_lower_case : Text → Text) (parse_int : Text → Option ℤ) where
  abbrev pub number_in : Option Text → Option (Option ℤ)
  number_in none = some none
  number_in (some text) = parse_int text >>= λ n. some (some n)

  unfoldable pub get_number : List Text → Text → Option (Option ℤ)
  unfolding get_string
  get_number args flag = number_in (nonempty (get_string args flag))

  unfoldable pub parse_role : Text → Option ReplicationRole
  parse_role value =
      let normalized = to_lower_case value in
      if eq_text normalized primary_word
      then some ReplicationRole.primary
      else if eq_text normalized backup_word
      then some ReplicationRole.backup
      else if eq_text normalized standalone_word
      then some ReplicationRole.standalone
      else none

  abbrev pub policy_in : Option Text → Option (Option SyncPolicy)
  policy_in none = some none
  policy_in (some value) =
      let normalized = to_lower_case value in
      if eq_text normalized sync_word
      then some (some sync_every_write)
      else if eq_text normalized group_word
      then some (some group_commit_100ms)
      else if eq_text normalized periodic_word
      then some (some periodic_10ms)
      else none

  unfoldable pub parse_sync_policy : List Text → Option (Option SyncPolicy)
  unfolding get_string
  parse_sync_policy args = policy_in (nonempty (get_string args sync_policy_flag))

  abbrev pub primary_config : Option Text → Option ℤ → Option (Option ReplicationConfig)
  primary_config (some host) (some port) = some (
      some (record {
        role = ReplicationRole.primary;
        backup_host = some host;
        backup_port = some port;
        replication_port = none;
      }))
  primary_config host port = none

  abbrev pub backup_config : Option ℤ → Option (Option ReplicationConfig)
  backup_config (some port) = some (
      some (record {
        role = ReplicationRole.backup;
        backup_host = none;
        backup_port = none;
        replication_port = some port;
      }))
  backup_config none = none

  abbrev pub config_of : List Text → ReplicationRole → Option (Option ReplicationConfig)
  config_of args ReplicationRole.standalone = some none
  config_of args ReplicationRole.primary = do
    port ← get_number args backup_port_flag
    primary_config (nonempty (get_string args backup_host_flag)) (nonzero port)
  config_of args ReplicationRole.backup = do
    port ← get_number args replication_port_flag
    backup_config (nonzero port)

  abbrev pub config_in : List Text → Option Text → Option (Option ReplicationConfig)
  config_in args none = some none
  config_in args (some value) = parse_role value >>= config_of args

  unfoldable pub parse_replication_config : List Text → Option (Option ReplicationConfig)
  unfolding get_string get_number parse_role
  parse_replication_config args = config_in args (nonempty (get_string args role_flag))

  unfoldable pub parse : List Text → Option CliOptions
  unfolding has_flag get_string get_number parse_sync_policy parse_replication_config
  parse args =
      let run : Option CliOptions = do
        replication ← parse_replication_config args
        http_port ← get_number args http_port_flag
        tcp_port ← get_number args tcp_port_flag
        size ← get_number args memtable_size_flag
        policy ← parse_sync_policy args
        some (record {
          help = false;
          config = record {
            data_dir = or_default (get_string args data_dir_flag) default_data_dir;
            memtable_size_limit = or_default size default_config.memtable_size_limit;
            sync_policy = or_default policy default_config.sync_policy;
            http_port = or_default http_port default_config.http_port;
            tcp_port = or_default tcp_port default_config.tcp_port;
            replication = replication;
          };
        })
      in if has_flag args help_flag || has_flag args short_help_flag
        then some (record { config = default_config; help = true })
        else run
