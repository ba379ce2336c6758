-- ===== src/CliParser/Words.antt =====
-- src/cli/CLIParser.ts: the words of the command line, as code units.
use lsm_kv_store.Base.{[], ◌∷◌}
use lsm_kv_store.Text.{Text}

-- --help
abbrev pub help_flag : Text
help_flag = 45 ∷ 45 ∷ 104 ∷ 101 ∷ 108 ∷ 112 ∷ []

-- -h
abbrev pub short_help_flag : Text
short_help_flag = 45 ∷ 104 ∷ []

-- --data-dir
abbrev pub data_dir_flag : Text
data_dir_flag = 45 ∷ 45 ∷ 100 ∷ 97 ∷ 116 ∷ 97 ∷ 45 ∷ 100 ∷ 105 ∷ 114 ∷ []

-- --http-port
abbrev pub http_port_flag : Text
http_port_flag = 45 ∷ 45 ∷ 104 ∷ 116 ∷ 116 ∷ 112 ∷ 45 ∷ 112 ∷ 111 ∷ 114 ∷ 116 ∷ []

-- --tcp-port
abbrev pub tcp_port_flag : Text
tcp_port_flag = 45 ∷ 45 ∷ 116 ∷ 99 ∷ 112 ∷ 45 ∷ 112 ∷ 111 ∷ 114 ∷ 116 ∷ []

-- --memtable-size
abbrev pub memtable_size_flag : Text
memtable_size_flag =
    45 ∷ 45 ∷ 109 ∷ 101 ∷ 109 ∷ 116 ∷ 97 ∷ 98 ∷ 108 ∷ 101 ∷ 45 ∷ 115 ∷ 105 ∷ 122 ∷ 101 ∷ []

-- --sync-policy
abbrev pub sync_policy_flag : Text
sync_policy_flag = 45 ∷ 45 ∷ 115 ∷ 121 ∷ 110 ∷ 99 ∷ 45 ∷ 112 ∷ 111 ∷ 108 ∷ 105 ∷ 99 ∷ 121 ∷ []

-- --role
abbrev pub role_flag : Text
role_flag = 45 ∷ 45 ∷ 114 ∷ 111 ∷ 108 ∷ 101 ∷ []

-- --backup-host
abbrev pub backup_host_flag : Text
backup_host_flag = 45 ∷ 45 ∷ 98 ∷ 97 ∷ 99 ∷ 107 ∷ 117 ∷ 112 ∷ 45 ∷ 104 ∷ 111 ∷ 115 ∷ 116 ∷ []

-- --backup-port
abbrev pub backup_port_flag : Text
backup_port_flag = 45 ∷ 45 ∷ 98 ∷ 97 ∷ 99 ∷ 107 ∷ 117 ∷ 112 ∷ 45 ∷ 112 ∷ 111 ∷ 114 ∷ 116 ∷ []

-- --replication-port
abbrev pub replication_port_flag : Text
replication_port_flag =
    45 ∷ 45 ∷ 114 ∷ 101 ∷ 112 ∷ 108 ∷ 105 ∷ 99 ∷ 97 ∷ 116 ∷ 105 ∷ 111 ∷ 110 ∷ 45 ∷ 112 ∷ 111 ∷ 114
    ∷ 116 ∷ []

-- primary
abbrev pub primary_word : Text
primary_word = 112 ∷ 114 ∷ 105 ∷ 109 ∷ 97 ∷ 114 ∷ 121 ∷ []

-- backup
abbrev pub backup_word : Text
backup_word = 98 ∷ 97 ∷ 99 ∷ 107 ∷ 117 ∷ 112 ∷ []

-- standalone
abbrev pub standalone_word : Text
standalone_word = 115 ∷ 116 ∷ 97 ∷ 110 ∷ 100 ∷ 97 ∷ 108 ∷ 111 ∷ 110 ∷ 101 ∷ []

-- sync
abbrev pub sync_word : Text
sync_word = 115 ∷ 121 ∷ 110 ∷ 99 ∷ []

-- group
abbrev pub group_word : Text
group_word = 103 ∷ 114 ∷ 111 ∷ 117 ∷ 112 ∷ []

-- periodic
abbrev pub periodic_word : Text
periodic_word = 112 ∷ 101 ∷ 114 ∷ 105 ∷ 111 ∷ 100 ∷ 105 ∷ 99 ∷ []

-- ./data
abbrev pub default_data_dir : Text
default_data_dir = 46 ∷ 47 ∷ 100 ∷ 97 ∷ 116 ∷ 97 ∷ []
