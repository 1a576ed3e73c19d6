-- ===== src/Proxy/Answers.antt =====
-- Every request gets a response, and what that is.
use webcm.Common.{
  ℕ, ◌%◌, ◌^◌, ◌<◌, ◌≡◌, ◌≢◌, ap, List, [], ◌∷◌, false, replicate, length, Outcome, ok,
}
use webcm.Mmio.Structs.{YieldMmioReq, YieldMmioRes, empty_res}
use webcm.Mmio.Text.{Reads}
use webcm.Proxy.Fill.{HttpRequest}
use webcm.Proxy.Handler.{
  HostApi, HttpResponse, server, content_type, text_plain, request_failed, response_failed,
  body_failed, fetch_failed,
}

-- The structure counts rows that it has, and these texts are in them.
pub record IsTexts (m : YieldMmioRes) (ts : List (List ℕ × List ℕ)) : Type 0 where
  pub texts : Reads m.headers ts
  pub counted : m.headers_count ≡ length ts

-- A refusal, and the response of the host.
abbrev pub refusal : List ℕ → HttpRequest → List ℕ → HttpResponse
refusal version_string req why = record {
  status = 400;
  version = req.version;
  set_fields = (server, version_string) ∷ (content_type, text_plain) ∷ [];
  keep_alive = false;
  body = why;
}

abbrev pub host_response :
    (ℕ → ℕ) → HttpRequest → YieldMmioRes → List (List ℕ × List ℕ) → List ℕ → HttpResponse
host_response int_to_status req m ts body = record {
  status = int_to_status (m.status % 2 ^ 32);
  version = req.version;
  set_fields = ts;
  keep_alive = false;
  body = body;
}

-- The calls of the host in their order, with this structure for the request, and what is sent for what
-- they give: a refusal after a call that leaves no 0 in a0, or for no body and the status 0; or the
-- response that the second call has written, with the body of the third if it claims one.
pub data IsAnswer (api : HostApi) (version_string : List ℕ) (world : api.World) (req : HttpRequest)
    (r : YieldMmioReq) (world' : api.World) (res : HttpResponse) : Type 0 where
  no_request :
      (a0 : ℕ)
      → api.yield_request world (api.rdcycle world) r req.body ≡ (world', a0)
      → a0 ≢ 0
      → res ≡ refusal version_string req request_failed
      → IsAnswer api version_string world req r world' res
  no_response :
      (world1 : api.World) (a0 : ℕ) (m : YieldMmioRes)
      → api.yield_request world (api.rdcycle world) r req.body ≡ (world1, 0)
      → api.yield_response world1 (api.rdcycle world) empty_res ≡ (world', a0, m)
      → a0 ≢ 0
      → res ≡ refusal version_string req response_failed
      → IsAnswer api version_string world req r world' res
  no_fetch :
      (world1 : api.World) (m : YieldMmioRes)
      → api.yield_request world (api.rdcycle world) r req.body ≡ (world1, 0)
      → api.yield_response world1 (api.rdcycle world) empty_res ≡ (world', 0, m)
      → m.body_total_length ≡ 0
      → m.status ≡ 0
      → res ≡ refusal version_string req fetch_failed
      → IsAnswer api version_string world req r world' res
  no_body :
      (world1 world2 : api.World) (a0 : ℕ) (m : YieldMmioRes) (body : List ℕ)
      → api.yield_request world (api.rdcycle world) r req.body ≡ (world1, 0)
      → api.yield_response world1 (api.rdcycle world) empty_res ≡ (world2, 0, m)
      → 0 < m.body_total_length
      → api.yield_body world2 (api.rdcycle world) (replicate m.body_total_length 0)
        ≡ (world', a0, body)
      → a0 ≢ 0
      → res ≡ refusal version_string req body_failed
      → IsAnswer api version_string world req r world' res
  bare :
      (world1 : api.World) (m : YieldMmioRes) (ts : List (List ℕ × List ℕ))
      → api.yield_request world (api.rdcycle world) r req.body ≡ (world1, 0)
      → api.yield_response world1 (api.rdcycle world) empty_res ≡ (world', 0, m)
      → m.body_total_length ≡ 0
      → m.status ≢ 0
      → IsTexts m ts
      → res ≡ host_response api.int_to_status req m ts []
      → IsAnswer api version_string world req r world' res
  with_body :
      (world1 world2 : api.World) (m : YieldMmioRes) (ts : List (List ℕ × List ℕ)) (body : List ℕ)
      → api.yield_request world (api.rdcycle world) r req.body ≡ (world1, 0)
      → api.yield_response world1 (api.rdcycle world) empty_res ≡ (world2, 0, m)
      → 0 < m.body_total_length
      → api.yield_body world2 (api.rdcycle world) (replicate m.body_total_length 0)
        ≡ (world', 0, body)
      → IsTexts m ts
      → res ≡ host_response api.int_to_status req m ts body
      → IsAnswer api version_string world req r world' res

pub IsAnswer-keep_alive :
    (api : HostApi) (version_string : List ℕ) (world : api.World) (req : HttpRequest)
    (r : YieldMmioReq) (world' : api.World) (res : HttpResponse)
    → IsAnswer api version_string world req r world' res
    → res.keep_alive ≡ false
IsAnswer-keep_alive api v world req r world' res (no_request _ _ _ e) = ap (λ t. t.keep_alive) e
IsAnswer-keep_alive api v world req r world' res (no_response _ _ _ _ _ _ e) =
    ap (λ t. t.keep_alive) e
IsAnswer-keep_alive api v world req r world' res (no_fetch _ _ _ _ _ _ e) = ap (λ t. t.keep_alive) e
IsAnswer-keep_alive api v world req r world' res (no_body _ _ _ _ _ _ _ _ _ _ e) =
    ap (λ t. t.keep_alive) e
IsAnswer-keep_alive api v world req r world' res (bare _ _ _ _ _ _ _ _ e) = ap (λ t. t.keep_alive) e
IsAnswer-keep_alive api v world req r world' res (with_body _ _ _ _ _ _ _ _ _ _ e) =
    ap (λ t. t.keep_alive) e

module _ (api : HostApi) (version_string : List ℕ) where
  -- A response that the host claims to have written holds texts in the rows that it counts.
  pub record IsHost : Type 0 where
    pub writes :
        (world world' : api.World) (uid : ℕ) (m : YieldMmioRes)
        → api.yield_response world uid empty_res ≡ (world', 0, m)
        → (ts : List (List ℕ × List ℕ)) × IsTexts m ts

  module _ (world : api.World) (req : HttpRequest) (r : YieldMmioReq) where
    abbrev uid : ℕ
    uid = api.rdcycle world

    abbrev Answers : Outcome (api.World × HttpResponse) → Type 0
    Answers o =
        (world' : api.World) × (res : HttpResponse) × (o ≡ ok (world', res))
        × IsAnswer api version_string world req r world' res
