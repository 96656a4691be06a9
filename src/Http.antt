-- ===== src/Http.antt =====
-- include/gatekeeper/protocol/http/http_types.h: requests and responses of HTTP.
pub mod Url
pub mod Framing
pub mod Sending
pub mod Channel
use gate_keeper.Base.{
  ℕ, Bool, true, false, Option, none, some, List, [], ◌∷◌, ◌++◌, Bytes, text, same, if◌then◌else◌,
}
use gate_keeper.Maps.{lookup}
use gate_keeper.Storage.Decimal.{to_string}

pub record HttpRequest : Type 0 where
  pub method : Bytes
  pub uri : Bytes
  pub path : Bytes
  pub query : Bytes
  pub version : Bytes
  pub headers : List (Bytes × Bytes)
  pub body : Bytes

-- an absent header reads as an empty one
abbrev pub or_empty : Option Bytes → Bytes
or_empty none = []
or_empty (some v) = v

unfoldable pub get_header : Bytes → HttpRequest → Bytes
unfolding lookup
get_header name req = or_empty (lookup same name req.headers)

pub record HttpResponse : Type 0 where
  pub status_code : ℕ
  pub status_text : Bytes
  pub headers : List (Bytes × Bytes)
  pub body : Bytes

-- the loop of `SetHeader`, which replaces the first header of the name
unfoldable pub put_header : Bytes → Bytes → List (Bytes × Bytes) → List (Bytes × Bytes)
put_header name value [] = (name, value) ∷ []
put_header name value ((k, v) ∷ headers) =
    let rest = put_header name value headers in
    if same k name then (k, value) ∷ headers else (k, v) ∷ rest

unfoldable pub set_header : Bytes → Bytes → HttpResponse → HttpResponse
unfolding put_header
set_header name value res = record res { headers = put_header name value res.headers }

unfoldable pub any_header : Bytes → List (Bytes × Bytes) → Bool
any_header name [] = false
any_header name ((k, v) ∷ headers) = if same k name then true else any_header name headers

unfoldable pub has_header : Bytes → HttpResponse → Bool
unfolding any_header
has_header name res = any_header name res.headers

abbrev pub crlf : Bytes
crlf = 13 ∷ 10 ∷ []

unfoldable pub header_lines : List (Bytes × Bytes) → Bytes
unfolding text
header_lines [] = []
header_lines ((k, v) ∷ headers) = k ++ (text ": " ++ (v ++ (crlf ++ header_lines headers)))

unfoldable pub serialize : HttpResponse → Bytes
unfolding header_lines to_string text
serialize res =
    text "HTTP/1.1 "
    ++ (to_string res.status_code
        ++ (text " "
            ++ (res.status_text ++ (crlf ++ (header_lines res.headers ++ (crlf ++ res.body))))))
