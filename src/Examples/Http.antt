-- ===== src/Examples/Http.antt =====
-- Tests on requests over HTTP (src/service/http_service.cpp) and on the JSON object around a command
-- (src/protocol/json_parser.cpp).
use gate_keeper.Base.{
  ℕ, ◌≡◌, refl, Bool, true, ◌&&◌, ◌||◌, [], ◌∷◌, ◌++◌, text, same, is_empty, leb, arith,
}
use gate_keeper.Commands.{Request, members}
use gate_keeper.Commands
use gate_keeper.Commands.Envelope
use gate_keeper.Commands.Envelope.{parse, accepted, rejected, object_loop, members_loop}
use gate_keeper.Commands.Envelope.Accepted.{envelope, parse-envelope}
use gate_keeper.Examples.{tables, fractions, user}
use gate_keeper.Http.{HttpRequest}
use gate_keeper.Http.Url.{extract_key_from_query}
use gate_keeper.Http.Url.Encoding.{url_encode, AllBytes, extract_key_from_query-url_encode}
use gate_keeper.Json.{
  done, skip, string, string_loop, expect, take_char, end, escape, unsigned_number, number_loop,
}
use gate_keeper.Protocol.Codec.{set, if_absent}
use gate_keeper.Service.Http.{Clock}
use gate_keeper.Service.Http.Keys.{SetArgs, set_args, set_member, condition_named}
use gate_keeper.Service.Http.Routes.{handle}
use gate_keeper.Service.Http.Agreement.{handle-run_request}
use gate_keeper.Service.Processor.{run_request}
use gate_keeper.Service.Replies.{write_condition}
use gate_keeper.Storage.Store.{new_store}

abbrev clock : Clock
clock = record { now = 1000; later = 1001; now_sec = 17 }

abbrev put : HttpRequest
put = record {
  method = text "POST";
  uri = text "/v1/kv/set";
  path = text "/v1/kv/set";
  query = [];
  version = text "HTTP/1.1";
  headers = [];
  body = text "{\"key\":\"user:1\", \"value\":\"on\", \"condition\":\"nx\", \"ttl_ms\":500}";
}

abbrev put_args : SetArgs
put_args = record {
  key = user;
  value = text "on";
  ttl_ms = 500;
  condition = write_condition if_absent;
}

put-set_args : set_args put.body ≡ done put_args []
unfolding set_args set_member members Commands.members_loop condition_named skip string string_loop
    expect take_char end escape unsigned_number number_loop text same
put-set_args = refl

handle-run_request_example :
    (handle fractions true put clock new_store).2
    ≡ (run_request fractions true (set user (text "on") if_absent 500) 1000 new_store).2
handle-run_request_example =
    handle-run_request fractions true put clock new_store (set user (text "on") if_absent 500) (
      (refl, refl, (unfold text is_empty in refl), ([], put-set_args)),
      (unfold text is_empty in refl),
    )

-- letters and digits stand for themselves
abbrev alphanumeric : ℕ → Bool
alphanumeric c = (leb b'0' c && leb c b'9') || (leb b'a' c && leb c b'z')

accent : AllBytes (195 ∷ 169 ∷ b'&' ∷ [])
accent = (omega arith, (omega arith, (omega arith, tt)))

extract_key_from_query-url_encode_example :
    extract_key_from_query
      (text "key=" ++ (url_encode alphanumeric (195 ∷ 169 ∷ b'&' ∷ []) ++ text "&x=1"))
    ≡ 195 ∷ 169 ∷ b'&' ∷ []
extract_key_from_query-url_encode_example =
    extract_key_from_query-url_encode alphanumeric (195 ∷ 169 ∷ b'&' ∷ []) (text "&x=1")
      (refl, refl, refl) accent (unfold text in refl)

abbrev asked : Request
asked = record { id = text "7"; op = text "GET"; body_json = text "{\"key\":\"a}\"}" }

parse-envelope_example : parse true (envelope asked) ≡ accepted asked
parse-envelope_example =
    parse-envelope true asked (unfold text in (refl, tt))
      (unfold text in (refl, (refl, (refl, tt)))) (unfold text is_empty in refl)
      (unfold text is_empty in refl) (unfold text object_loop in (refl, refl))

-- a member with another name and an object for its value is refused
refused_object :
    parse true (text "{\"x\":{},\"id\":\"7\",\"op\":\"GET\",\"body\":{}}")
    ≡ rejected (record { code = text "INVALID_REQUEST"; message = text "invalid JSON value" })
unfolding parse members_loop Envelope.member Envelope.value Envelope.string Envelope.string_loop
    Envelope.object object_loop skip text same
refused_object = refl
