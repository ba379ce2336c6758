-- ===== src/HttpServer/Words.antt =====
-- src/server/HTTPServer.ts: methods, paths and field names, as code units.
use lsm_kv_store.Base.{[], ◌∷◌}
use lsm_kv_store.Text.{Text}

-- GET
abbrev pub get_method : Text
get_method = 71 ∷ 69 ∷ 84 ∷ []

-- POST
abbrev pub post_method : Text
post_method = 80 ∷ 79 ∷ 83 ∷ 84 ∷ []

-- PUT
abbrev pub put_method : Text
put_method = 80 ∷ 85 ∷ 84 ∷ []

-- DELETE
abbrev pub delete_method : Text
delete_method = 68 ∷ 69 ∷ 76 ∷ 69 ∷ 84 ∷ 69 ∷ []

-- /health
abbrev pub health_path : Text
health_path = 47 ∷ 104 ∷ 101 ∷ 97 ∷ 108 ∷ 116 ∷ 104 ∷ []

-- /put
abbrev pub put_path : Text
put_path = 47 ∷ 112 ∷ 117 ∷ 116 ∷ []

-- /batch-put
abbrev pub batch_put_path : Text
batch_put_path = 47 ∷ 98 ∷ 97 ∷ 116 ∷ 99 ∷ 104 ∷ 45 ∷ 112 ∷ 117 ∷ 116 ∷ []

-- /get/
abbrev pub get_prefix : Text
get_prefix = 47 ∷ 103 ∷ 101 ∷ 116 ∷ 47 ∷ []

-- /delete/
abbrev pub delete_prefix : Text
delete_prefix = 47 ∷ 100 ∷ 101 ∷ 108 ∷ 101 ∷ 116 ∷ 101 ∷ 47 ∷ []

-- /range
abbrev pub range_path : Text
range_path = 47 ∷ 114 ∷ 97 ∷ 110 ∷ 103 ∷ 101 ∷ []

-- /replication/status
abbrev pub replication_status_path : Text
replication_status_path =
    47 ∷ 114 ∷ 101 ∷ 112 ∷ 108 ∷ 105 ∷ 99 ∷ 97 ∷ 116 ∷ 105 ∷ 111 ∷ 110 ∷ 47 ∷ 115 ∷ 116 ∷ 97 ∷ 116
    ∷ 117 ∷ 115 ∷ []

-- key
abbrev pub key_word : Text
key_word = 107 ∷ 101 ∷ 121 ∷ []

-- value
abbrev pub value_word : Text
value_word = 118 ∷ 97 ∷ 108 ∷ 117 ∷ 101 ∷ []

-- entries
abbrev pub entries_word : Text
entries_word = 101 ∷ 110 ∷ 116 ∷ 114 ∷ 105 ∷ 101 ∷ 115 ∷ []

-- keys
abbrev pub keys_word : Text
keys_word = 107 ∷ 101 ∷ 121 ∷ 115 ∷ []

-- values
abbrev pub values_word : Text
values_word = 118 ∷ 97 ∷ 108 ∷ 117 ∷ 101 ∷ 115 ∷ []

-- start
abbrev pub start_word : Text
start_word = 115 ∷ 116 ∷ 97 ∷ 114 ∷ 116 ∷ []

-- end
abbrev pub end_word : Text
end_word = 101 ∷ 110 ∷ 100 ∷ []

-- limit
abbrev pub limit_word : Text
limit_word = 108 ∷ 105 ∷ 109 ∷ 105 ∷ 116 ∷ []
