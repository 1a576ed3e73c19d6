-- ===== src/Proxy/Carried.antt =====
-- A request on its way from the guest's structure to the host's fetch.
use webcm.Common.{
  ℕ, ◌<◌, ◌≡◌, refl, ◌∙◌, sym, subst, ok-injective, List, [], ◌∷◌, take, length, true, false, ltb,
  ltb→lt, lt→ltb, ap, if◌then◌else◌, Bool-cases, inl, inr, none, some, ok, arith, le→ltb_false, ◌%◌,
  ◌^◌,
}
use webcm.Mmio.Structs.{YieldMmioReq, empty_req, yield_code, request}
use webcm.Mmio.Layout.{encode_req, sizeof_req}
use webcm.Host.Machine.{x10, x11, x12, MachineApi, FetchAttr, Fetch}
use webcm.Host.Fetches.{find, insert, Completion}
use webcm.Host.Softyield.{
  Host, started, register, or_same, or_empty, request_body, handle_softyield,
}
use webcm.Host.Softyield.Request.{strings, IsRequest, handle_softyield_request}
use webcm.Proxy.Fill.{HttpRequest, fill_mmio_req}
use webcm.Proxy.Expected.{passed, url_of}
use webcm.Proxy.Filled.{cut_fields, IsTextRequest, IsFilled, fill_mmio_req-IsFilled}

-- The fetch for a request: what does not fit the structure is cut off.
abbrev pub carried : HttpRequest → FetchAttr
carried req = record {
  request_method = take 31 req.method_string;
  url = take 4095 (url_of req);
  request_headers = strings (cut_fields 64 (passed req.fields));
  request_data = if ltb 0 (length req.body) then some req.body else none;
}

or_empty_same : (body : List ℕ) → or_empty (if ltb 0 (length body) then some body else none) ≡ body
or_empty_same [] = refl
or_empty_same (c ∷ body) = rw (lt→ltb 0 (length (c ∷ body)) (omega arith)) refl

module _ (api : MachineApi) where
  -- The guest has filled the structure and yields it under a free key; the host can read the structure
  -- where a2 says, and the request's body where the structure says.
  pub record IsYielded (host : Host api) (req : HttpRequest) (body_vaddr : ℕ) (r : YieldMmioReq)
      : Type 0 where
    pub filled : fill_mmio_req empty_req req body_vaddr ≡ ok r
    pub yields : api.read_reg host.machine x10 ≡ some (yield_code request)
    pub key : find (register api host x11) host.fetches ≡ none
    pub in_memory :
        api.read_virtual_memory host.machine (register api host x12) sizeof_req
        ≡ some (encode_req r)
    pub body_u32 : length req.body < 2 ^ 32
    pub body_in_memory :
        0 < length req.body
        → api.read_virtual_memory host.machine body_vaddr (length req.body) ≡ some req.body

  request_body-some :
      (host : Host api) (r : YieldMmioReq) (bytes : List ℕ)
      → 0 < r.body_length
      → r.body_length < 2 ^ 32
      → api.read_virtual_memory host.machine r.body_vaddr r.body_length ≡ some bytes
      → request_body api host r ≡ ok (some (some bytes))
  unfolding request_body
  request_body-some host r bytes h short e = rw (
    le→ltb_false (r.body_length % 2 ^ 32) r.body_length (omega arith),
    lt→ltb 0 r.body_length h,
    e,
  )

  request_body-none :
      (host : Host api) (r : YieldMmioReq)
      → ltb 0 r.body_length ≡ false
      → r.body_length < 2 ^ 32
      → request_body api host r ≡ ok (some none)
  unfolding request_body
  request_body-none host r e short =
      rw (le→ltb_false (r.body_length % 2 ^ 32) r.body_length (omega arith), e)

  body-IsYielded :
      (host : Host api) (req : HttpRequest) (body_vaddr : ℕ) (r : YieldMmioReq)
      → IsFilled req body_vaddr r
      → IsYielded host req body_vaddr r
      → request_body api host r ≡ ok (some (carried req).request_data)
  body-IsYielded host req body_vaddr r v w = elim (Bool-cases (ltb 0 (length req.body))) [
    | inl full ↦
        let long = ltb→lt 0 (length req.body) full in
        rw full (
          request_body-some host r req.body (omega (arith, v.same_length))
            (omega (arith, v.same_length, w.body_u32))
            (ap (λ a. api.read_virtual_memory host.machine a r.body_length) v.same_vaddr
              ∙ ap (api.read_virtual_memory host.machine body_vaddr) v.same_length
              ∙ w.body_in_memory long))
    | inr bare ↦ rw bare (
        request_body-none host r (ap (ltb 0) v.same_length ∙ bare)
          (omega (arith, v.same_length, w.body_u32)))
  ]

  carried-IsRequest :
      (host : Host api) (req : HttpRequest) (body_vaddr : ℕ) (r : YieldMmioReq)
      → IsFilled req body_vaddr r
      → IsYielded host req body_vaddr r
      → IsRequest api host r (cut_fields 64 (passed req.fields)) (carried req)
  carried-IsRequest host req body_vaddr r v w = record {
    yields = w.yields;
    key = w.key;
    formed = v.formed;
    in_memory = w.in_memory;
    texts = v.texts;
    method_text = v.method_text;
    url_text = v.url_text;
    body_read = body-IsYielded host req body_vaddr r v w;
  }

  -- A request with no null bytes, yielded as in `IsYielded`, becomes a fetch of the same URL, method and body, with the first 64 of its
  -- fields but for `User-Agent`, `Host` and `Content-Length`, in their order, each part cut to what its
  -- array holds; it is put into the map under its key, and answered with 0 in a0.
  pub fill_mmio_req_carried :
      (emscripten_fetch : FetchAttr → Fetch) (host : Host api) (later : List Completion)
      (req : HttpRequest) (body_vaddr : ℕ) (r : YieldMmioReq)
      → IsTextRequest req body_vaddr
      → IsYielded host req body_vaddr r
      → handle_softyield api emscripten_fetch host later
        ≡ ok (record {
          host = record {
            machine = or_same api host.machine (api.write_reg host.machine x10 0);
            fetches =
                insert
                  (register api host x11)
                  (record {
                    uid = 0;
                    fetch = emscripten_fetch (carried req);
                    body = req.body;
                    done = false;
                  })
                  host.fetches;
            calls = started (register api host x11) (carried req) ∷ host.calls;
          };
          later = later;
          success = true;
        })
  fill_mmio_req_carried emscripten_fetch host later req body_vaddr r t w =
      let (s, e, v) = fill_mmio_req-IsFilled req body_vaddr t in
      let filled : IsFilled req body_vaddr r =
        subst (IsFilled req body_vaddr) (ok-injective (sym e ∙ w.filled)) v in
      handle_softyield_request api emscripten_fetch host later r (cut_fields 64 (passed req.fields))
        (carried req) (carried-IsRequest host req body_vaddr r filled w) filled.counted refl
      ∙ ap
          (λ body. ok (record {
            host = record {
              machine = or_same api host.machine (api.write_reg host.machine x10 0);
              fetches =
                  insert (register api host x11)
                    (record {
                      uid = 0;
                      fetch = emscripten_fetch (carried req);
                      body = body;
                      done = false;
                    })
                    host.fetches;
              calls = started (register api host x11) (carried req) ∷ host.calls;
            };
            later = later;
            success = true;
          }))
          (or_empty_same req.body)
