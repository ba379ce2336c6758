-- ===== src/HttpServer.antt =====
-- src/server/HTTPServer.ts: the routes and the handlers over the store. `JSON.parse`, `String`,
-- `decodeURIComponent`, `parseInt` and `URLSearchParams` are the runtime's: a request comes with its
-- parsed body and query, and the others are parameters. An error thrown in a handler is answered with
-- status 500.
pub mod Words
pub mod Handlers
pub mod Serving
pub mod Calls
use lsm_kv_store.Base.{
  ℕ, zero, suc, ◌+◌, Bool, true, false, not, ◌||◌, ◌&&◌, Option, none, some, List, [], ◌∷◌, ◌++◌,
  length, ◌==◌, if◌then◌else◌,
}
use lsm_kv_store.Base.Int.{ℤ, pos, negsuc}
use lsm_kv_store.Text.{Text, eq_text}
use lsm_kv_store.Codec.{TextCodec}
use lsm_kv_store.SsTable.{TableService}
use lsm_kv_store.Store
use lsm_kv_store.Store.{LsmStore, Result, ok, err}
use lsm_kv_store.Store.Reading.{read_key_range}
use lsm_kv_store.HttpServer.Words.{
  get_method, post_method, put_method, delete_method, health_path, put_path, batch_put_path,
  get_prefix, delete_prefix, range_path, replication_status_path, key_word, value_word,
  entries_word, keys_word, values_word, start_word, end_word, limit_word,
}

-- A parsed body. A number is kept as its text.
mutual
  pub data Json : Type 0 where
    null : Json
    bool : Bool → Json
    num : Text → Json
    str : Text → Json
    arr : Items → Json
    obj : Fields → Json

  pub data Items : Type 0 where
    nil : Items
    cons : Json → Items → Items

  pub data Fields : Type 0 where
    no_fields : Fields
    field : Text → Json → Fields → Fields

pub data Problem : Type 0 where
  not_found internal_error invalid_key invalid_value different_lengths invalid_body no_entries :
      Problem
  key_required invalid_start invalid_end invalid_limit : Problem
  invalid_key_at invalid_value_at : ℕ → Problem

pub data Body (R : Type 0) : Type 0 where
  health : ℕ → Body R
  success : Body R
  counted : ℕ → Body R
  pair : Text → Text → Body R
  missing : Text → Body R
  pairs : ℕ → List (Text × Text) → Body R
  replication : Option R → Body R
  problem : Problem → Body R

pub record Response (R : Type 0) : Type 0 where
  pub status : ℕ
  pub body : Body R

-- `body` is none where the body cannot be parsed or is too large; `query` has the parameters in
-- order; the rest are the clock readings of the store's call.
pub record Request : Type 0 where
  pub method : Text
  pub path : Text
  pub query : List (Text × Text)
  pub body : Option Json
  pub logged : ℕ
  pub now : ℕ
  pub clock : ℕ → ℕ

pub data Handler : Type 0 where
  on_health on_put on_batch_put on_get on_delete on_range on_replication_status : Handler

-- A route whose path ends in a parameter, or is fixed.
pub record Route : Type 0 where
  pub method : Text
  pub pattern : Text
  pub has_key : Bool
  pub handler : Handler

abbrev pub routes : List Route
routes =
    (record { method = get_method; pattern = health_path; has_key = false; handler = on_health })
    ∷ (record { method = post_method; pattern = put_path; has_key = false; handler = on_put })
    ∷ (record {
      method = post_method;
      pattern = batch_put_path;
      has_key = false;
      handler = on_batch_put;
    })
    ∷ (record { method = get_method; pattern = get_prefix; has_key = true; handler = on_get })
    ∷ (record {
      method = delete_method;
      pattern = delete_prefix;
      has_key = true;
      handler = on_delete;
    })
    ∷ (record { method = get_method; pattern = range_path; has_key = false; handler = on_range })
    ∷ (record {
      method = get_method;
      pattern = replication_status_path;
      has_key = false;
      handler = on_replication_status;
    })
    ∷ []

-- `([^/]+)$`
abbrev pub is_segment : Text → Bool
is_segment [] = false
is_segment (u ∷ []) = not (u == 47)
is_segment (u ∷ v ∷ text) = not (u == 47) && is_segment (v ∷ text)

abbrev pub after_prefix : Text → Text → Option Text
after_prefix [] text = some text
after_prefix (u ∷ prefix) [] = none
after_prefix (u ∷ prefix) (v ∷ text) = if u == v then after_prefix prefix text else none

-- The parameter that a path has under a route: none where it does not match.
abbrev pub match_route : Route → Text → Option (Option Text)
match_route route path =
    if route.has_key
    then elim (after_prefix route.pattern path) [
      | none ↦ none
      | some segment ↦ if is_segment segment then some (some segment) else none
    ]
    else if eq_text path route.pattern
    then some none
    else none

unfoldable pub find_route : List Route → Text → Text → Option (Handler × Option Text)
find_route [] method path = none
find_route (route ∷ rest) method path =
    let later = find_route rest method path in
    if not (eq_text route.method method)
    then later
    else elim (match_route route path) [ none ↦ later | some param ↦ some (route.handler, param) ]

-- `query[key]`: the last value wins.
unfoldable pub query_value : Text → List (Text × Text) → Option Text
query_value name [] = none
query_value name ((k, v) ∷ query) = elim (query_value name query) [
  | some w ↦ some w
  | none ↦ if eq_text name k then some v else none
]

abbrev pub find_field : Text → Fields → Option Json
find_field name no_fields = none
find_field name (field k j fields) = if eq_text name k then some j else find_field name fields

-- `body[name]`, undefined for a body with no fields.
abbrev pub property : Text → Json → Option Json
property name null = none
property name (bool b) = none
property name (num t) = none
property name (str t) = none
property name (arr items) = none
property name (obj fields) = find_field name fields

abbrev pub non_empty_string : Option Json → Option Text
non_empty_string (some (str (u ∷ text))) = some (u ∷ text)
non_empty_string j = none

abbrev pub count_items : Items → ℕ
count_items nil = 0
count_items (cons j items) = suc (count_items items)

-- The entries of a batch, or the answer that refuses it.
pub data Entries : Type 0 where
  refused : Problem → Entries
  accepted : List (Text × Text) → Entries

abbrev pub then_entries : Entries → Entries → Entries
then_entries (refused p) rest = refused p
then_entries (accepted xs) (refused p) = refused p
then_entries (accepted xs) (accepted ys) = accepted (xs ++ ys)

module _ (to_string : Json → Text) where
  -- `value === undefined || value === null`, and `String(value)`.
  abbrev pub given_value : Option Json → Option Text
  given_value none = none
  given_value (some null) = none
  given_value (some (bool b)) = some (to_string (bool b))
  given_value (some (num t)) = some (to_string (num t))
  given_value (some (str t)) = some (to_string (str t))
  given_value (some (arr items)) = some (to_string (arr items))
  given_value (some (obj fields)) = some (to_string (obj fields))

  abbrev pub checked_entry : Option Json → Option Json → ℕ → Entries
  checked_entry key value i = elim (non_empty_string key) [
    | none ↦ refused (invalid_key_at i)
    | some k ↦ elim (given_value value) [
      | none ↦ refused (invalid_value_at i)
      | some v ↦ accepted ((k, v) ∷ [])
    ]
  ]

  unfoldable pub parse_entries : Items → ℕ → Entries
  parse_entries nil i = accepted []
  parse_entries (cons entry items) i =
      then_entries (checked_entry (property key_word entry) (property value_word entry) i)
        (parse_entries items (i + 1))

  unfoldable pub parse_columns : Items → Items → ℕ → Entries
  parse_columns nil values i = accepted []
  parse_columns (cons key keys) nil i = refused (invalid_value_at i)
  parse_columns (cons key keys) (cons value values) i =
      then_entries (checked_entry (some key) (some value) i) (parse_columns keys values (i + 1))

  abbrev pub columns_of : Option Json → Option Json → Entries
  columns_of (some (arr keys)) (some (arr values)) =
      if count_items keys == count_items values
      then parse_columns keys values 0
      else refused different_lengths
  columns_of keys values = refused invalid_body

  abbrev pub entries_of : Option Json → Json → Entries
  entries_of (some (arr items)) body = parse_entries items 0
  entries_of entries body = columns_of (property keys_word body) (property values_word body)

  -- The whole check of a batch body.
  unfoldable pub batch_of : Json → Entries
  unfolding parse_entries parse_columns
  batch_of body = entries_of (property entries_word body) body

  -- The check of a put body.
  unfoldable pub entry_of : Json → Entries
  entry_of body = elim (non_empty_string (property key_word body)) [
    | none ↦ refused invalid_key
    | some key ↦ elim (given_value (property value_word body)) [
      | none ↦ refused invalid_value
      | some value ↦ accepted ((key, value) ∷ [])
    ]
  ]
