-- ===== src/Tests/Commands.antt =====
-- The command line on concrete arguments.
use lsm_kv_store.Base.{◌≡◌, refl, true, Option, none, some, [], ◌∷◌, ◌++◌}
use lsm_kv_store.Base.Int.{ℤ, pos}
use lsm_kv_store.Text.{Text, compare_keys}
use lsm_kv_store.CliParser.{
  ReplicationRole, get_string, parse, parse_replication_config, default_config,
}
use lsm_kv_store.CliParser.Words.{
  data_dir_flag, role_flag, help_flag, backup_word, replication_port_flag,
}

-- "--data-dir=/a" and "--data-dir=/a=b"
abbrev plain_path : Text
plain_path = data_dir_flag ++ (61 ∷ 47 ∷ 97 ∷ [])

abbrev path_with_equals : Text
path_with_equals = data_dir_flag ++ (61 ∷ 47 ∷ 97 ∷ 61 ∷ 98 ∷ [])

plain_value : get_string (plain_path ∷ []) data_dir_flag ≡ some (47 ∷ 97 ∷ [])
unfolding get_string
plain_value = refl

-- What follows a second equals sign is dropped.
value_is_cut : get_string (path_with_equals ∷ []) data_dir_flag ≡ some (47 ∷ 97 ∷ [])
unfolding get_string
value_is_cut = refl

-- The flag and its value as two arguments.
next_argument : get_string (role_flag ∷ backup_word ∷ []) role_flag ≡ some backup_word
unfolding get_string compare_keys
next_argument = refl

-- Any text stands for 3002.
abbrev read_port : Text → Option ℤ
read_port text = some (pos 3002)

backup_is_configured :
    parse_replication_config
      (λ word. word)
      read_port
      (role_flag ∷ backup_word ∷ replication_port_flag ∷ backup_word ∷ [])
    ≡ some (
        some (record {
          role = ReplicationRole.backup;
          backup_host = none;
          backup_port = none;
          replication_port = some (pos 3002);
        }))
unfolding parse_replication_config compare_keys
backup_is_configured = refl

-- A backup without a port is refused.
backup_is_refused :
    parse_replication_config (λ word. word) read_port (role_flag ∷ backup_word ∷ []) ≡ none
unfolding parse_replication_config compare_keys
backup_is_refused = refl

help_is_first :
    parse (λ word. word) read_port (role_flag ∷ help_flag ∷ [])
    ≡ some (record { config = default_config; help = true })
unfolding parse compare_keys
help_is_first = refl
