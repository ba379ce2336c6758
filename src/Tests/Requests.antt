-- ===== src/Tests/Requests.antt =====
-- The routes of HTTP requests, and calls of a client.
use lsm_kv_store.Base.{List, ◌∷◌, ℕ, ◌+◌, ◌-◌, ◌≡◌, refl, Option, none, some, [], ◌++◌}
use lsm_kv_store.Base.Int.{ℤ, pos}
use lsm_kv_store.Text.{Text, compare_keys}
use lsm_kv_store.HttpServer.Words.{get_method, get_prefix, put_path}
use lsm_kv_store.HttpServer.{Json, num, str, on_get, routes, find_route}
use lsm_kv_store.HttpServer.Handlers.{decoded, routed, unrouted}
use lsm_kv_store.HttpServer.Calls.{Timed, put_call, batch_call, delete_call}
use lsm_kv_store.Tests.Samples.{ascii, apple, berry, cherry}
use lsm_kv_store.Tests.Stores.{ascii_tables}

-- `String` of a text and of a number.
abbrev to_string : Json → Text
to_string (str t) = t
to_string (num t) = t
to_string j = []

abbrev decode_uri : Text → Option Text
decode_uri t = some t

abbrev parse_int : Text → Option ℤ
parse_int t = some (pos 5)

abbrev no_provider : Option ℕ
no_provider = none

get_routed :
    decoded to_string decode_uri parse_int no_provider ascii_tables
      (find_route routes get_method (get_prefix ++ apple))
    ≡ routed on_get (some apple)
unfolding find_route compare_keys
get_routed = refl

-- The path of a put takes no GET.
get_of_put_path :
    decoded to_string decode_uri parse_int no_provider ascii_tables
      (find_route routes get_method put_path)
    ≡ unrouted
unfolding find_route compare_keys
get_of_put_path = refl

-- === calls of a client ===

-- In place of percent-encoding: all code units moved past that of the slash.
abbrev shift : Text → Text
shift [] = []
shift (u ∷ us) = (u + 48) ∷ shift us

abbrev unshift : Text → Text
unshift [] = []
unshift (u ∷ us) = (u - 48) ∷ unshift us

abbrev unshifted : Text → Option Text
unshifted t = some (unshift t)

-- Two puts, the second of the empty value, a batch and a deletion.
abbrev calls : List Timed
calls =
    (put_call (97, 112 ∷ []) berry, (3, (4, λ n. n)))
    ∷ (put_call (97, 112 ∷ []) [], (5, (6, λ n. n)))
    ∷ (batch_call ((98, []), cherry) (((100, []), apple) ∷ []), (7, (8, λ n. n)))
    ∷ (delete_call (98, []), (9, (10, λ n. n)))
    ∷ []
