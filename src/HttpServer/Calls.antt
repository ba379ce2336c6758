-- ===== src/HttpServer/Calls.antt =====
-- src/server/HTTPServer.ts as a client sees it: calls, the requests that a client makes for them, and
-- what the store then answers. `encode_uri` is the client's `encodeURIComponent`.
use lsm_kv_store.Base.{ℕ, ◌≡◌, true, Option, none, some, List, [], ◌∷◌, ◌++◌, map}
use lsm_kv_store.Base.Int.{ℤ}
use lsm_kv_store.Text.{Text}
use lsm_kv_store.Codec.{TextCodec}
use lsm_kv_store.SsTable.{TableService}
use lsm_kv_store.Store
use lsm_kv_store.Store.Client.{Event, write_put, write_delete, write_batch}
use lsm_kv_store.HttpServer.Words.{
  get_method, post_method, delete_method, put_path, batch_put_path, get_prefix, delete_prefix,
  key_word, value_word, entries_word,
}
use lsm_kv_store.HttpServer.{
  Json, str, arr, obj, Items, nil, cons, no_fields, field, Request, is_segment,
}

-- A put, a batch that is not empty, and a deletion. A key is its first code unit and the others.
pub data Call : Type 0 where
  put_call : ℕ × Text → Text → Call
  batch_call : (ℕ × Text) × Text → List ((ℕ × Text) × Text) → Call
  delete_call : ℕ × Text → Call

abbrev pub key_text : ℕ × Text → Text
key_text (u, key) = u ∷ key

abbrev pub pairs_of : List ((ℕ × Text) × Text) → List (Text × Text)
pairs_of ps = map (λ p. (key_text p.0, p.1)) ps

-- A call with the readings of the clock while it is served.
abbrev pub Timed : Type 0
Timed = Call × (ℕ × (ℕ × (ℕ → ℕ)))

-- The write of the store that a call is for.
abbrev pub event_of : Timed → Event
event_of (put_call key value, (logged, (now, clock))) = write_put (key_text key) value logged now
event_of (batch_call p ps, (logged, (now, clock))) = write_batch (pairs_of (p ∷ ps)) logged clock
event_of (delete_call key, (logged, (now, clock))) = write_delete (key_text key) logged now

abbrev pub pair_json : Text → Text → Json
pair_json key value = obj (field key_word (str key) (field value_word (str value) no_fields))

abbrev pub items_of : List (Text × Text) → Items
items_of [] = nil
items_of ((key, value) ∷ pairs) = cons (pair_json key value) (items_of pairs)

module _ (encode_uri : Text → Text) where
  -- The request that a client makes for the call.
  abbrev pub request_of : Timed → Request
  request_of (put_call key value, (logged, (now, clock))) = record {
    method = post_method;
    path = put_path;
    query = [];
    body = some (pair_json (key_text key) value);
    logged = logged;
    now = now;
    clock = clock;
  }
  request_of (batch_call p ps, (logged, (now, clock))) = record {
    method = post_method;
    path = batch_put_path;
    query = [];
    body = some (obj (field entries_word (arr (items_of (pairs_of (p ∷ ps)))) no_fields));
    logged = logged;
    now = now;
    clock = clock;
  }
  request_of (delete_call key, (logged, (now, clock))) = record {
    method = delete_method;
    path = delete_prefix ++ encode_uri (key_text key);
    query = [];
    body = none;
    logged = logged;
    now = now;
    clock = clock;
  }

  abbrev pub get_request : ℕ × Text → Request
  get_request key = record {
    method = get_method;
    path = get_prefix ++ encode_uri (key_text key);
    query = [];
    body = none;
    logged = 0;
    now = 0;
    clock = λ n. n;
  }

  module _ (to_string : Json → Text) (decode_uri : Text → Option Text) (parse_int : Text → Option ℤ)
      {R : Type 0} (provider : Option R) (service : TableService) ⦃codec : TextCodec⦄
      (to_string-str : (t : Text) → to_string (str t) ≡ t)
      (decode_uri-encode_uri : (key : ℕ × Text)
        → codec.IsWellFormed (key_text key)
        → decode_uri (encode_uri (key_text key)) ≡ some (key_text key))
      (encode_uri-is_segment : (key : ℕ × Text)
        → codec.IsWellFormed (key_text key)
        → is_segment (encode_uri (key_text key)) ≡ true) where
    -- A key in a path is well-formed, or else `encodeURIComponent` throws.
    abbrev pub IsSendable : Timed → Type 0
    IsSendable (delete_call key, times) = codec.IsWellFormed (key_text key)
    IsSendable (call, times) = Unit
