-- ===== src/Http/Framing.antt =====
-- How `HttpChannel::ProcessReadBuffer` of src/protocol/http/http_channel.cpp reads the head of a request.
use gate_keeper.Base.{
  ℕ, zero, suc, ◌+◌, ◌%◌, Bool, ◌&&◌, not, Option, none, some, List, [], ◌∷◌, ◌++◌, Bytes, text,
  same, is_empty, leb, if◌then◌else◌, length,
}
use gate_keeper.Http.{HttpRequest, get_header, crlf}
use gate_keeper.Json.{literal, skip}
use gate_keeper.Maps.{lookup}
use gate_keeper.Storage.Decimal.{u64_mod, is_space, stoull}
use gate_keeper.Tables.{is_some}

-- what stands before the first occurrence of a text, and behind it
unfoldable pub split_on : Bytes → Bytes → Option (Bytes × Bytes)
unfolding literal
split_on p [] = none
split_on p (c ∷ s) =
    let later : Option (Bytes × Bytes) = elim (split_on p s) [
      | none ↦ none
      | some (a, b) ↦ some (c ∷ a, b)
    ] in
    elim (literal p (c ∷ s)) [ none ↦ later | some r ↦ some ([], r) ]

abbrev pub lower : ℕ → ℕ
lower c = if leb b'A' c && leb c b'Z' then c + 32 else c

unfoldable pub to_lower : Bytes → Bytes
to_lower [] = []
to_lower (c ∷ s) = lower c ∷ to_lower s

-- the loop that removes white space at the end
unfoldable pub trim_end : Bytes → Bytes
trim_end [] = []
trim_end (c ∷ s) = let rest = trim_end s in if is_empty rest && is_space c then [] else c ∷ rest

-- `headers.emplace`, which keeps the first value of a name
abbrev pub emplace : Bytes → Bytes → List (Bytes × Bytes) → List (Bytes × Bytes)
emplace name v headers =
    if is_some (lookup same name headers) then headers else headers ++ (name, v) ∷ []

-- the headers, and the length that the last `content-length` gives
pub record Fields : Type 0 where
  pub headers : List (Bytes × Bytes)
  pub content_length : ℕ

-- `std::stoull`, with 0 for its exceptions
abbrev pub length_of : Bytes → ℕ
length_of v = elim (stoull v) [ none ↦ 0 | some (n, _) ↦ n ]

abbrev pub put_field : Bytes → Bytes → Fields → Fields
put_field name v f = record {
  headers = emplace name v f.headers;
  content_length = (if same name (text "content-length") then length_of v else f.content_length);
}

-- a line of the head
unfoldable pub read_line : Bytes → Fields → Fields
unfolding split_on to_lower trim_end lookup stoull skip
read_line line f = elim (split_on (b':' ∷ []) line) [
  | none ↦ f
  | some (name, v) ↦ put_field (to_lower name) (trim_end (skip v)) f
]

-- the lines behind the request line, on fuel: a round takes two characters or all
unfoldable pub read_lines : ℕ → Bytes → Fields → Fields
unfolding read_line
read_lines zero s f = f
read_lines (suc fuel) [] f = f
read_lines (suc fuel) (c ∷ s) f = elim (split_on crlf (c ∷ s)) [
  | none ↦ read_line (c ∷ s) f
  | some (line, rest) ↦ read_lines fuel rest (read_line line f)
]

-- the path and the query of a `uri`
abbrev pub path_query : Bytes → Bytes × Bytes
path_query uri = elim (split_on (b'?' ∷ []) uri) [ none ↦ (uri, []) | some (p, q) ↦ (p, q) ]

-- a request without its body, the number of bytes of its head, and the length that it announces
pub record Head : Type 0 where
  pub request : HttpRequest
  pub header_end : ℕ
  pub content_length : ℕ

abbrev pub head_with : Bytes → Bytes → Bytes → ℕ → Fields → Head
head_with method uri version header_end f = record {
  request = record {
    method = method;
    uri = uri;
    path = (path_query uri).0;
    query = (path_query uri).1;
    version = version;
    headers = f.headers;
    body = [];
  };
  header_end = header_end;
  content_length = f.content_length;
}

-- The head from its bytes up to the empty line; `none` where the channel closes the connection.
unfoldable pub read_head : Bytes → Option Head
unfolding read_lines
read_head head = elim (split_on crlf head) [
  | none ↦ none
  | some (request_line, fields) ↦ elim (split_on (b' ' ∷ []) request_line) [
    | none ↦ none
    | some (method, rest) ↦ elim (split_on (b' ' ∷ []) rest) [
      | none ↦ none
      | some (uri, version) ↦ some (
          head_with method uri version (length head)
            (read_lines (length fields) fields (record { headers = []; content_length = 0 })))
    ]
  ]
]

-- `total_request_len`, a `std::size_t`
unfoldable pub total_request_len : Head → ℕ
total_request_len h = (h.header_end + 4 + h.content_length) % u64_mod

unfoldable pub keep_alive : HttpRequest → Bool
unfolding get_header text same
keep_alive req =
    let connection = get_header (text "connection") req in
    if same req.version (text "HTTP/1.0")
    then same connection (text "keep-alive")
    else not (same connection (text "close"))
