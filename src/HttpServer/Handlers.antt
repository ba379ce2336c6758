-- ===== src/HttpServer/Handlers.antt =====
-- src/server/HTTPServer.ts: the handlers, and `handleRequest` that picks one. `decode_uri` is none
-- where it throws, `parse_int` is none for NaN, and `provider` is what getReplicationStatus answers,
-- if there is a provider.
use lsm_kv_store.Base.{
  ℕ, zero, suc, Bool, true, false, ◌||◌, Option, none, some, List, [], ◌∷◌, length, if◌then◌else◌,
}
use lsm_kv_store.Base.Int.{ℤ, pos, negsuc}
use lsm_kv_store.Text.{Text, eq_text}
use lsm_kv_store.Codec.{TextCodec}
use lsm_kv_store.SsTable.{TableService}
use lsm_kv_store.Store
use lsm_kv_store.Store.{LsmStore, Result, ok, err}
use lsm_kv_store.Store.Reading.{read_key_range}
use lsm_kv_store.HttpServer.Words.{post_method, put_method, start_word, end_word, limit_word}
use lsm_kv_store.HttpServer.{
  Json, null, Problem, not_found, internal_error, no_entries, key_required, invalid_start,
  invalid_end, invalid_limit, Body, health, success, counted, pair, missing, pairs, replication,
  problem, Response, Request, Handler, on_health, on_put, on_batch_put, on_get, on_delete, on_range,
  on_replication_status, routes, find_route, query_value, Entries, refused, accepted, batch_of,
  entry_of, obj, no_fields,
}

abbrev pub is_null : Json → Bool
is_null null = true
is_null j = false

abbrev pub respond : {R : Type 0} → ℕ → Body R → Response R
respond status body = record { status = status; body = body }

abbrev pub refusal : {R : Type 0} → Problem → Response R
refusal p = respond 400 (problem p)

abbrev pub failure : {R : Type 0} → Response R
failure = respond 500 (problem internal_error)

-- What `findRoute` makes of a request: no route, an error of the decoding, or a handler.
pub data Routed : Type 0 where
  unrouted broken : Routed
  routed : Handler → Option Text → Routed

-- `params.key`; a pattern that has no key is not asked for it.
abbrev pub key_of : Option Text → Text
key_of none = []
key_of (some key) = key

-- Only POST and PUT have their body parsed.
abbrev pub body_of : Request → Option Json
body_of req =
    if eq_text req.method post_method || eq_text req.method put_method
    then req.body
    else some (obj no_fields)

module _ (to_string : Json → Text) (decode_uri : Text → Option Text) (parse_int : Text → Option ℤ)
    {R : Type 0} (provider : Option R) (service : TableService) ⦃codec : TextCodec⦄ where
  -- The answer to a call of the store that may throw.
  abbrev pub answered :
      {A : Type 0} → Result A × LsmStore service → (A → Body R) → Response R × LsmStore service
  answered (ok a, s) body = (respond 200 (body a), s)
  answered (err e, s) body = (failure, s)

  abbrev pub put_entries : LsmStore service → Request → Entries → Response R × LsmStore service
  put_entries s req (refused p) = (refusal p, s)
  put_entries s req (accepted []) = (refusal no_entries, s)
  put_entries s req (accepted ((key, value) ∷ rest)) =
      answered (Store.put service s key value req.logged req.now) (λ _. success)

  unfoldable pub handle_put : LsmStore service → Request → Json → Response R × LsmStore service
  handle_put s req body =
      if is_null body then (failure, s) else put_entries s req (entry_of to_string body)

  abbrev pub put_batch : LsmStore service → Request → Entries → Response R × LsmStore service
  put_batch s req (refused p) = (refusal p, s)
  put_batch s req (accepted []) = (refusal no_entries, s)
  put_batch s req (accepted (e ∷ entries)) =
      answered (Store.batch_put service s (e ∷ entries) req.logged req.clock) counted

  unfoldable pub handle_batch_put :
      LsmStore service → Request → Json → Response R × LsmStore service
  handle_batch_put s req body =
      if is_null body then (failure, s) else put_batch s req (batch_of to_string body)

  -- `get` answers null for a missing key.
  abbrev pub found : Text → Result (Option Text) → Response R
  found key (ok none) = respond 404 (missing key)
  found key (ok (some value)) = respond 200 (pair key value)
  found key (err e) = failure

  unfoldable pub handle_get : LsmStore service → Text → Response R
  handle_get s [] = refusal key_required
  handle_get s (u ∷ key) = found (u ∷ key) (Store.get service s (u ∷ key))

  unfoldable pub handle_delete : LsmStore service → Request → Text → Response R × LsmStore service
  handle_delete s req [] = (refusal key_required, s)
  handle_delete s req (u ∷ key) =
      answered (Store.delete service s (u ∷ key) req.logged req.now) (λ _. success)

  -- 100 where the limit is not given; none where it is refused.
  abbrev pub limit_of : Option Text → Option ℕ
  limit_of none = some 100
  limit_of (some text) = elim (parse_int text) [
    | none ↦ none
    | some (pos zero) ↦ none
    | some (pos (suc n)) ↦ some (suc n)
    | some (negsuc n) ↦ none
  ]

  abbrev pub scanned : Result (List (Text × Text)) → Response R
  scanned (ok results) = respond 200 (pairs (length results) results)
  scanned (err e) = failure

  abbrev pub given : Option Text → Option Text
  given (some (u ∷ text)) = some (u ∷ text)
  given text = none

  unfoldable pub handle_range : LsmStore service → Request → Response R
  unfolding query_value
  handle_range s req = elim (given (query_value start_word req.query)) [
    | none ↦ refusal invalid_start
    | some start ↦ elim (given (query_value end_word req.query)) [
      | none ↦ refusal invalid_end
      | some end ↦ elim (limit_of (query_value limit_word req.query)) [
        | none ↦ refusal invalid_limit
        | some limit ↦ scanned (read_key_range service s start end (some limit))
      ]
    ]
  ]

  unfoldable pub handle_replication_status : Response R
  handle_replication_status = respond 200 (replication provider)

  abbrev pub handled :
      LsmStore service → Request → Handler → Option Text → Json → Response R × LsmStore service
  handled s req on_health key body = (respond 200 (health req.now), s)
  handled s req on_put key body = handle_put s req body
  handled s req on_batch_put key body = handle_batch_put s req body
  handled s req on_get key body = (handle_get s (key_of key), s)
  handled s req on_delete key body = handle_delete s req (key_of key)
  handled s req on_range key body = (handle_range s req, s)
  handled s req on_replication_status key body = (handle_replication_status, s)

  abbrev pub decoded : Option (Handler × Option Text) → Routed
  decoded none = unrouted
  decoded (some (h, none)) = routed h none
  decoded (some (h, some segment)) = elim (decode_uri segment) [
    | none ↦ broken
    | some key ↦ routed h (some key)
  ]

  abbrev pub dispatch : LsmStore service → Request → Routed → Response R × LsmStore service
  dispatch s req unrouted = (respond 404 (problem not_found), s)
  dispatch s req broken = (failure, s)
  dispatch s req (routed h key) = elim (body_of req) [
    | none ↦ (failure, s)
    | some body ↦ handled s req h key body
  ]

  unfoldable pub handle_request : LsmStore service → Request → Response R × LsmStore service
  unfolding find_route handle_put handle_batch_put handle_get handle_delete handle_range
  handle_request s req = dispatch s req (decoded (find_route routes req.method req.path))
