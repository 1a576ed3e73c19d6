-- ===== src/Host/Exchange.antt =====
-- What `handle_softyield` of webcm.cpp makes of the structures: the attributes of a fetch out of a
-- request, and a response out of a fetch.
use webcm.Common.{
  ℕ, zero, suc, ◌+◌, List, [], ◌∷◌, ◌++◌, leb, if◌then◌else◌, Option, length, take, Outcome, ok,
  fault, ◌>>=◌, read,
}
use webcm.Mmio.Structs.{HeaderRow, YieldMmioReq, YieldMmioRes, empty_res, c_str}
use webcm.Host.Machine.{FetchAttr, Fetch}
use webcm.Host.Headers.{parse_headers}

-- `for (i = i; i < headers_count; i++)`, by the rounds left: the strings that the vector points to.
unfoldable pub request_headers : ℕ → ℕ → List HeaderRow → Outcome (List (List ℕ))
unfolding read c_str
request_headers zero i rows = ok []
request_headers (suc rounds) i rows = do
  row ← read rows i
  name ← c_str row.name
  value ← c_str row.value
  rest ← request_headers rounds (i + 1) rows
  ok (name ∷ value ∷ rest)

-- The attributes that are set for a request, with its body if it has one.
unfoldable pub request_attr : YieldMmioReq → Option (List ℕ) → Outcome FetchAttr
unfolding request_headers
request_attr mmio_req body = do
  headers ← request_headers mmio_req.headers_count 0 mmio_req.headers
  method ← c_str mmio_req.method
  url ← c_str mmio_req.url
  ok (record { request_method = method; url = url; request_headers = headers; request_data = body })

-- The response structure, with the headers out of the text, which ends in a null byte.
unfoldable pub fetch_response : Fetch → Outcome YieldMmioRes
unfolding empty_res parse_headers
fetch_response fetch =
    let headers_str = fetch.response_headers ++ (0 ∷ []) in
    parse_headers (length headers_str + 1) headers_str (record empty_res {
      ready_state = fetch.ready_state;
      status = fetch.status;
      body_total_length = fetch.total_bytes;
    })

-- `fetch->totalBytes` bytes from `fetch->data` on.
unfoldable pub fetch_body : Fetch → Outcome (List ℕ)
fetch_body fetch =
    if leb fetch.total_bytes (length fetch.body)
    then ok (take fetch.total_bytes fetch.body)
    else fault
