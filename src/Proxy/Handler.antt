-- ===== src/Proxy/Handler.antt =====
-- `handle_request` of https-proxy/https-proxy.cpp. The host is reached by `softyield`, one operation
-- for each kind of call, and is a parameter here; `rdcycle` gives the key of a request.
use webcm.Common.{
  ℕ, zero, suc, ◌+◌, ◌%◌, ◌^◌, List, [], ◌∷◌, Bool, false, ltb, ◌==◌, if◌then◌else◌, replicate,
  Outcome, ok, ◌>>=◌, read,
}
use webcm.Mmio.Structs.{HeaderRow, YieldMmioReq, YieldMmioRes, empty_req, empty_res, c_str}
use webcm.Proxy.Fill.{HttpRequest, fill_mmio_req}

-- The calls give what is in a0 afterwards; the last two also what they leave in the memory they are
-- given. `int_to_status` is Beast's, which makes 0 of a number that is no status code it knows.
pub record HostApi : Type 1 where
  pub World : Type 0
  pub rdcycle : World → ℕ
  pub yield_request : World → ℕ → YieldMmioReq → List ℕ → World × ℕ
  pub yield_response : World → ℕ → YieldMmioRes → World × ℕ × YieldMmioRes
  pub yield_body : World → ℕ → List ℕ → World × ℕ × List ℕ
  pub int_to_status : ℕ → ℕ

-- What Beast's response is told, before `prepare_payload` adds the length: `set_fields` are the calls of
-- `set`, in their order.
pub record HttpResponse : Type 0 where
  pub status : ℕ
  pub version : ℕ
  pub set_fields : List (List ℕ × List ℕ)
  pub keep_alive : Bool
  pub body : List ℕ

-- `Request yield failed`
abbrev pub request_failed : List ℕ
request_failed =
    82 ∷ 101 ∷ 113 ∷ 117 ∷ 101 ∷ 115 ∷ 116 ∷ 32 ∷ 121 ∷ 105 ∷ 101 ∷ 108 ∷ 100 ∷ 32 ∷ 102 ∷ 97 ∷ 105
    ∷ 108 ∷ 101 ∷ 100 ∷ []

-- `Poll response headers yield failed`
abbrev pub response_failed : List ℕ
response_failed =
    80 ∷ 111 ∷ 108 ∷ 108 ∷ 32 ∷ 114 ∷ 101 ∷ 115 ∷ 112 ∷ 111 ∷ 110 ∷ 115 ∷ 101 ∷ 32 ∷ 104 ∷ 101 ∷ 97
    ∷ 100 ∷ 101 ∷ 114 ∷ 115 ∷ 32 ∷ 121 ∷ 105 ∷ 101 ∷ 108 ∷ 100 ∷ 32 ∷ 102 ∷ 97 ∷ 105 ∷ 108 ∷ 101
    ∷ 100 ∷ []

-- `Poll response body yield failed`
abbrev pub body_failed : List ℕ
body_failed =
    80 ∷ 111 ∷ 108 ∷ 108 ∷ 32 ∷ 114 ∷ 101 ∷ 115 ∷ 112 ∷ 111 ∷ 110 ∷ 115 ∷ 101 ∷ 32 ∷ 98 ∷ 111 ∷ 100
    ∷ 121 ∷ 32 ∷ 121 ∷ 105 ∷ 101 ∷ 108 ∷ 100 ∷ 32 ∷ 102 ∷ 97 ∷ 105 ∷ 108 ∷ 101 ∷ 100 ∷ []

-- `Fetch failed, either due to CORS policy violation or network error.`
abbrev pub fetch_failed : List ℕ
fetch_failed =
    70 ∷ 101 ∷ 116 ∷ 99 ∷ 104 ∷ 32 ∷ 102 ∷ 97 ∷ 105 ∷ 108 ∷ 101 ∷ 100 ∷ 44 ∷ 32 ∷ 101 ∷ 105 ∷ 116
    ∷ 104 ∷ 101 ∷ 114 ∷ 32 ∷ 100 ∷ 117 ∷ 101 ∷ 32 ∷ 116 ∷ 111 ∷ 32 ∷ 67 ∷ 79 ∷ 82 ∷ 83 ∷ 32 ∷ 112
    ∷ 111 ∷ 108 ∷ 105 ∷ 99 ∷ 121 ∷ 32 ∷ 118 ∷ 105 ∷ 111 ∷ 108 ∷ 97 ∷ 116 ∷ 105 ∷ 111 ∷ 110 ∷ 32
    ∷ 111 ∷ 114 ∷ 32 ∷ 110 ∷ 101 ∷ 116 ∷ 119 ∷ 111 ∷ 114 ∷ 107 ∷ 32 ∷ 101 ∷ 114 ∷ 114 ∷ 111 ∷ 114
    ∷ 46 ∷ []

-- `Server` and `Content-Type`, as Beast spells them, and `text/plain`.
abbrev pub server : List ℕ
server = 83 ∷ 101 ∷ 114 ∷ 118 ∷ 101 ∷ 114 ∷ []

abbrev pub content_type : List ℕ
content_type = 67 ∷ 111 ∷ 110 ∷ 116 ∷ 101 ∷ 110 ∷ 116 ∷ 45 ∷ 84 ∷ 121 ∷ 112 ∷ 101 ∷ []

abbrev pub text_plain : List ℕ
text_plain = 116 ∷ 101 ∷ 120 ∷ 116 ∷ 47 ∷ 112 ∷ 108 ∷ 97 ∷ 105 ∷ 110 ∷ []

-- The headers of the response, from row `i` on, by the rounds left.
unfoldable pub response_fields : ℕ → ℕ → List HeaderRow → Outcome (List (List ℕ × List ℕ))
unfolding read c_str
response_fields zero i rows = ok []
response_fields (suc rounds) i rows = do
  row ← read rows i
  name ← c_str row.name
  value ← c_str row.value
  rest ← response_fields rounds (i + 1) rows
  ok ((name, value) ∷ rest)

-- `version_string` is `BOOST_BEAST_VERSION_STRING`.
unfoldable pub bad_request : List ℕ → HttpRequest → List ℕ → HttpResponse
bad_request version_string req why = record {
  status = 400;
  version = req.version;
  set_fields = (server, version_string) ∷ (content_type, text_plain) ∷ [];
  keep_alive = false;
  body = why;
}

-- The response out of the structure. `int_to_status` takes an `unsigned`.
unfoldable pub respond : (ℕ → ℕ) → HttpRequest → YieldMmioRes → List ℕ → Outcome HttpResponse
unfolding response_fields
respond int_to_status req mmio_res body = do
  fields ← response_fields mmio_res.headers_count 0 mmio_res.headers
  ok (record {
    status = int_to_status (mmio_res.status % 2 ^ 32);
    version = req.version;
    set_fields = fields;
    keep_alive = false;
    body = body;
  })

module _ (api : HostApi) (version_string : List ℕ) where
  open api use {World, rdcycle, yield_request, yield_response, yield_body, int_to_status}

  abbrev Answer : Type 0
  Answer = Outcome (World × HttpResponse)

  abbrev pub refuse : World → HttpRequest → List ℕ → Outcome (World × HttpResponse)
  refuse world req why = ok (world, bad_request version_string req why)

  abbrev pub answer : World → HttpRequest → YieldMmioRes → List ℕ → Outcome (World × HttpResponse)
  answer world req mmio_res body =
      respond int_to_status req mmio_res body >>= (λ res. ok (world, res))

  -- Behind the call for the body, with what is in a0.
  unfoldable pub on_body :
      HttpRequest → YieldMmioRes → World × ℕ × List ℕ → Outcome (World × HttpResponse)
  unfolding bad_request respond
  on_body req mmio_res (world, a0, body) =
      if a0 == 0 then answer world req mmio_res body else refuse world req body_failed

  -- The body, if there is one.
  unfoldable pub fetch_body_of :
      HttpRequest → ℕ → YieldMmioRes → World → Outcome (World × HttpResponse)
  unfolding on_body
  fetch_body_of req uid mmio_res world =
      let asked =
        on_body req mmio_res (yield_body world uid (replicate mmio_res.body_total_length 0)) in
      let bare =
        if mmio_res.status == 0
        then refuse world req fetch_failed
        else answer world req mmio_res [] in
      if ltb 0 mmio_res.body_total_length then asked else bare

  -- Behind the call for the response.
  unfoldable pub on_response :
      HttpRequest → ℕ → World × ℕ × YieldMmioRes → Outcome (World × HttpResponse)
  unfolding fetch_body_of
  on_response req uid (world, a0, mmio_res) =
      if a0 == 0 then fetch_body_of req uid mmio_res world else refuse world req response_failed

  -- Behind the call that starts the request.
  unfoldable pub on_requested : HttpRequest → ℕ → World × ℕ → Outcome (World × HttpResponse)
  unfolding on_response empty_res
  on_requested req uid (world, a0) =
      let polled = on_response req uid (yield_response world uid empty_res) in
      if a0 == 0 then polled else refuse world req request_failed

  -- `body_vaddr` is where the body of the request is kept.
  unfoldable pub handle_request : World → HttpRequest → ℕ → Outcome (World × HttpResponse)
  unfolding empty_req fill_mmio_req on_requested
  handle_request world req body_vaddr = do
    mmio_req ← fill_mmio_req empty_req req body_vaddr
    on_requested req (rdcycle world) (yield_request world (rdcycle world) mmio_req req.body)
