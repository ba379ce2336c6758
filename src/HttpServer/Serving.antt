-- ===== src/HttpServer/Serving.antt =====
-- src/server/HTTPServer.ts over src/storage/LSMStore.ts: what a client sees over a sequence of
-- requests.
use lsm_kv_store.Base.{
  ℕ, ◌≡◌, refl, sym, ap, ◌∙◌, false, Option, none, some, List, [], ◌∷◌, ◌++◌, ◌||◌, Bool-cases,
  Option-cases, inl, inr, if◌then◌else◌,
}
use lsm_kv_store.Base.Int.{ℤ}
use lsm_kv_store.Text.{Text, compare_keys, eq_text}
use lsm_kv_store.Codec.{TextCodec}
use lsm_kv_store.SsTable.{TableService}
use lsm_kv_store.Store
use lsm_kv_store.Store.{LsmStore, Result, ok, err}
use lsm_kv_store.Store.Serving.{IsServing}
use lsm_kv_store.Store.Client.{
  Event, write_put, write_delete, write_batch, flush_await, run, run_map, values, get-run,
  FlushesStorable,
}
use lsm_kv_store.HttpServer.Words.{get_method, post_method, put_method}
use lsm_kv_store.HttpServer.{
  Json, obj, no_fields, Body, Request, Handler, on_health, on_put, on_batch_put, on_get, on_delete,
  on_range, on_replication_status, routes, find_route, Entries, refused, accepted, batch_of,
  entry_of,
}
use lsm_kv_store.HttpServer.Handlers.{
  Routed, unrouted, broken, routed, is_null, key_of, body_of, decoded, answered, found, put_entries,
  put_batch, handled, dispatch, handle_request, handle_put, handle_batch_put, handle_get,
  handle_delete,
}

get-body_of : (req : Request) → req.method ≡ get_method → body_of req ≡ some (obj no_fields)
get-body_of req method =
    let other : (eq_text req.method post_method || eq_text req.method put_method) ≡ false =
      rw method (unfold compare_keys in refl) in
    rw (body_of, other) refl

module _ (to_string : Json → Text) (decode_uri : Text → Option Text) (parse_int : Text → Option ℤ)
    {R : Type 0} (provider : Option R) (service : TableService) ⦃codec : TextCodec⦄ where
  -- The writes that a request asks for: those of a valid body or key, and none for any other request.
  abbrev pub put_writes : Request → Entries → List Event
  put_writes req (refused p) = []
  put_writes req (accepted []) = []
  put_writes req (accepted ((key, value) ∷ rest)) = write_put key value req.logged req.now ∷ []

  abbrev pub batch_writes : Request → Entries → List Event
  batch_writes req (refused p) = []
  batch_writes req (accepted []) = []
  batch_writes req (accepted (e ∷ entries)) = write_batch (e ∷ entries) req.logged req.clock ∷ []

  abbrev pub delete_writes : Request → Text → List Event
  delete_writes req [] = []
  delete_writes req (u ∷ key) = write_delete (u ∷ key) req.logged req.now ∷ []

  abbrev pub writes_for : Request → Handler → Option Text → Json → List Event
  writes_for req on_health key body = []
  writes_for req on_put key body =
      if is_null body then [] else put_writes req (entry_of to_string body)
  writes_for req on_batch_put key body =
      if is_null body then [] else batch_writes req (batch_of to_string body)
  writes_for req on_get key body = []
  writes_for req on_delete key body = delete_writes req (key_of key)
  writes_for req on_range key body = []
  writes_for req on_replication_status key body = []

  abbrev pub writes_routed : Request → Routed → List Event
  writes_routed req unrouted = []
  writes_routed req broken = []
  writes_routed req (routed h key) = elim (body_of req) [
    | none ↦ []
    | some body ↦ writes_for req h key body
  ]

  abbrev pub writes_of : Request → List Event
  writes_of req = writes_routed req (
      decoded to_string decode_uri parse_int provider service
        (find_route routes req.method req.path))

  answered-store :
      {A : Type 0} (r : Result A × LsmStore service) (body : A → Body R)
      → (answered to_string decode_uri parse_int provider service r body).1 ≡ r.1
  answered-store (ok a, s) body = refl
  answered-store (err e, s) body = refl

  put_entries-run :
      (s : LsmStore service) (req : Request) (es : Entries)
      → (put_entries to_string decode_uri parse_int provider service s req es).1
        ≡ run service s (put_writes req es)
  unfolding run
  put_entries-run s req (refused p) = refl
  put_entries-run s req (accepted []) = refl
  put_entries-run s req (accepted ((key, value) ∷ rest)) =
      answered-store (Store.put service s key value req.logged req.now) _

  put_batch-run :
      (s : LsmStore service) (req : Request) (es : Entries)
      → (put_batch to_string decode_uri parse_int provider service s req es).1
        ≡ run service s (batch_writes req es)
  unfolding run
  put_batch-run s req (refused p) = refl
  put_batch-run s req (accepted []) = refl
  put_batch-run s req (accepted (e ∷ entries)) =
      answered-store (Store.batch_put service s (e ∷ entries) req.logged req.clock) _

  handle_delete-run :
      (s : LsmStore service) (req : Request) (key : Text)
      → (handle_delete to_string decode_uri parse_int provider service s req key).1
        ≡ run service s (delete_writes req key)
  unfolding run handle_delete
  handle_delete-run s req [] = refl
  handle_delete-run s req (u ∷ key) =
      answered-store (Store.delete service s (u ∷ key) req.logged req.now) _

  handled-run :
      (s : LsmStore service) (req : Request) (h : Handler) (key : Option Text) (body : Json)
      → (handled to_string decode_uri parse_int provider service s req h key body).1
        ≡ run service s (writes_for req h key body)
  unfolding run handle_put handle_batch_put
  handled-run s req on_health key body = refl
  handled-run s req on_put key body = elim (Bool-cases (is_null body)) [
    | inl bad ↦ rw bad refl
    | inr good ↦ rw good (put_entries-run s req (entry_of to_string body))
  ]
  handled-run s req on_batch_put key body = elim (Bool-cases (is_null body)) [
    | inl bad ↦ rw bad refl
    | inr good ↦ rw good (put_batch-run s req (batch_of to_string body))
  ]
  handled-run s req on_get key body = refl
  handled-run s req on_delete key body = handle_delete-run s req (key_of key)
  handled-run s req on_range key body = refl
  handled-run s req on_replication_status key body = refl

  dispatch-run :
      (s : LsmStore service) (req : Request) (r : Routed)
      → (dispatch to_string decode_uri parse_int provider service s req r).1
        ≡ run service s (writes_routed req r)
  unfolding run
  dispatch-run s req unrouted = refl
  dispatch-run s req broken = refl
  dispatch-run s req (routed h key) = elim (Option-cases (body_of req)) [
    | inl unreadable ↦ rw (dispatch, writes_routed, unreadable) refl
    | inr (body, read) ↦ rw (dispatch, writes_routed, read) (handled-run s req h key body)
  ]

  -- The store after the requests, one after the other.
  unfoldable pub serve : LsmStore service → List Request → LsmStore service
  unfolding handle_request
  serve s [] = s
  serve s (req ∷ reqs) =
      serve (handle_request to_string decode_uri parse_int provider service s req).1 reqs

  unfoldable pub writes_of_all : List Request → List Event
  writes_of_all [] = []
  writes_of_all (req ∷ reqs) = writes_of req ++ writes_of_all reqs

  run-append :
      (s : LsmStore service) (xs ys : List Event)
      → run service s (xs ++ ys) ≡ run service (run service s xs) ys
  unfolding run
  run-append s [] ys = refl
  run-append s (write_put key value logged now ∷ xs) ys =
      run-append (Store.put service s key value logged now).1 xs ys
  run-append s (write_delete key logged now ∷ xs) ys =
      run-append (Store.delete service s key logged now).1 xs ys
  run-append s (write_batch pairs logged clock ∷ xs) ys =
      run-append (Store.batch_put service s pairs logged clock).1 xs ys
  run-append s (flush_await now ∷ xs) ys = run-append (Store.flush_step service s now) xs ys

  serve-run :
      (s : LsmStore service) (reqs : List Request)
      → serve s reqs ≡ run service s (writes_of_all reqs)
  unfolding serve writes_of_all handle_request
  serve-run s [] = unfold run in refl
  serve-run s (req ∷ reqs) =
      let first = dispatch-run s req (
        decoded to_string decode_uri parse_int provider service
          (find_route routes req.method req.path)) in
      ap (λ t. serve t reqs) first
      ∙ serve-run (run service s (writes_of req)) reqs
      ∙ sym (run-append s (writes_of req) (writes_of_all reqs))

  -- From a store in service, after any sequence of HTTP requests, with valid and invalid paths and
  -- bodies, a GET request whose path routes to a non-empty key is answered with the value that the
  -- writes of the valid requests give the key on a map, with status 200, or with status 404 where
  -- they give none, and leaves the store as it was.
  pub get_request-run :
      (s : LsmStore service) (reqs : List Request) (req : Request) (u : ℕ) (key : Text)
      → IsServing service s
      → FlushesStorable service s (writes_of_all reqs)
      → req.method ≡ get_method
      → decoded to_string decode_uri parse_int provider service
          (find_route routes req.method req.path)
        ≡ routed on_get (some (u ∷ key))
      → handle_request to_string decode_uri parse_int provider service (serve s reqs) req ≡ (
        found to_string decode_uri parse_int provider service
            (u ∷ key)
            (ok (run_map service (values service s) (writes_of_all reqs) (u ∷ key))),
        serve s reqs,
      )
  unfolding handle_request handle_get
  get_request-run s reqs req u key v f method route =
      let held = run_map service (values service s) (writes_of_all reqs) (u ∷ key) in
      let same : Store.get service (serve s reqs) (u ∷ key) ≡ ok held =
        rw (serve-run s reqs) (get-run service s (writes_of_all reqs) (u ∷ key) v f) in
      let readable = get-body_of req method in
      ap (dispatch to_string decode_uri parse_int provider service (serve s reqs) req) route
      ∙ rw (dispatch, readable)
          (ap
            (λ r. (found to_string decode_uri parse_int provider service (u ∷ key) r, serve s reqs))
            same)
