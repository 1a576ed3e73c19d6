-- ===== src/Host/Softyield/Request.antt =====
-- A request: what is started for it, and when it is refused.
use webcm.Common.{
  ℕ, zero, suc, ◌+◌, ◌<◌, ◌≡◌, refl, ◌∙◌, sym, List, [], ◌∷◌, ◌++◌, append_assoc, append-nil,
  read-none, get_elem?-length, length, length-append, get_elem?-append, true, false, Option, none,
  some, ok, fault, ◌>>=◌, read-some, arith,
}
use webcm.Mmio.Structs.{HeaderRow, YieldMmioReq, IsReq, yield_code, request, c_str}
use webcm.Mmio.Text.{Reads}
use webcm.Mmio.Layout.{encode_req, decode_req-encode_req, sizeof_req}
use webcm.Host.Machine.{x10, x11, x12, MachineApi, FetchAttr, Fetch}
use webcm.Host.Fetches.{find, insert, Completion}
use webcm.Host.Exchange.{request_headers, request_attr}
use webcm.Host.Softyield.{
  or_same, started, or_empty, Host, register, start_fetch, request_body, handle_softyield,
}

-- Names and values in turn.
abbrev pub strings : List (List ℕ × List ℕ) → List (List ℕ)
strings [] = []
strings ((name, value) ∷ ts) = name ∷ value ∷ strings ts

request_headers-Reads :
    (ts : List (List ℕ × List ℕ)) (i : ℕ) (before rows : List HeaderRow)
    → i ≡ length before
    → Reads rows ts
    → request_headers (length ts) i (before ++ rows) ≡ ok (strings ts)
unfolding request_headers
request_headers-Reads [] i before rows h v = refl
request_headers-Reads (t ∷ ts) i before [] h v = absurd v
request_headers-Reads ((name, value) ∷ ts) i before (r ∷ rows) h v =
    let rest =
      request_headers-Reads ts (length before + 1) (before ++ (r ∷ [])) rows
        (omega (arith, length-append before (r ∷ []))) v.1 in
    rw (
      h,
      read-some (before ++ (r ∷ rows)) (length before) r (get_elem?-append before r rows),
      v.0.0,
      v.0.1,
      ← append_assoc before (r ∷ []) rows,
      rest,
    )

-- A round behind the last row reads past the array.
request_headers-fault :
    (ts : List (List ℕ × List ℕ)) (n i : ℕ) (before rows : List HeaderRow)
    → i ≡ length before
    → Reads rows ts
    → length rows ≡ length ts
    → length rows < n
    → request_headers n i (before ++ rows) ≡ fault
unfolding request_headers
request_headers-fault ts zero i before rows h v k l = absurd (omega arith)
request_headers-fault [] (suc n) i before [] h v k l =
    rw (append-nil before, h, read-none before (length before) (get_elem?-length before))
request_headers-fault [] (suc n) i before (r ∷ rows) h v k l = absurd (omega arith)
request_headers-fault (t ∷ ts) (suc n) i before [] h v k l = absurd v
request_headers-fault ((name, value) ∷ ts) (suc n) i before (r ∷ rows) h v k l =
    let rest =
      request_headers-fault ts n (length before + 1) (before ++ (r ∷ [])) rows
        (omega (arith, length-append before (r ∷ []))) v.1 (omega arith) (omega arith) in
    rw (
      h,
      read-some (before ++ (r ∷ rows)) (length before) r (get_elem?-append before r rows),
      v.0.0,
      v.0.1,
      ← append_assoc before (r ∷ []) rows,
      rest,
    )

pub request_attr-Reads :
    (r : YieldMmioReq) (ts : List (List ℕ × List ℕ)) (attr : FetchAttr)
    → Reads r.headers ts
    → r.headers_count ≡ length ts
    → attr.request_headers ≡ strings ts
    → c_str r.method ≡ ok attr.request_method
    → c_str r.url ≡ ok attr.url
    → request_attr r attr.request_data ≡ ok attr
unfolding request_attr
request_attr-Reads r ts attr v n e m u =
    rw (n, request_headers-Reads ts 0 [] r.headers refl v, m, u, ← e)

request_attr-fault :
    (r : YieldMmioReq) (ts : List (List ℕ × List ℕ)) (body : Option (List ℕ))
    → Reads r.headers ts
    → length r.headers ≡ length ts
    → length r.headers < r.headers_count
    → request_attr r body ≡ fault
unfolding request_attr
request_attr-fault r ts body v n over =
    rw (request_headers-fault ts r.headers_count 0 [] r.headers refl v n over)

module _ (api : MachineApi) where
  -- The guest yields a request: register a0 says so, a1 holds its key, which is not in use, and the
  -- structure, with its body if it has one, stands in memory where a2 says. `ts` are the texts of its
  -- rows.
  pub record IsRequest (host : Host api) (r : YieldMmioReq) (ts : List (List ℕ × List ℕ))
      (attr : FetchAttr) : Type 0 where
    pub yields : api.read_reg host.machine x10 ≡ some (yield_code request)
    pub key : find (register api host x11) host.fetches ≡ none
    pub formed : IsReq r
    pub in_memory :
        api.read_virtual_memory host.machine (register api host x12) sizeof_req
        ≡ some (encode_req r)
    pub texts : Reads r.headers ts
    pub method_text : c_str r.method ≡ ok attr.request_method
    pub url_text : c_str r.url ≡ ok attr.url
    pub body_read : request_body api host r ≡ ok (some attr.request_data)

  request_switch :
      (emscripten_fetch : FetchAttr → Fetch) (host : Host api) (later : List Completion)
      (r : YieldMmioReq) (ts : List (List ℕ × List ℕ)) (attr : FetchAttr)
      → IsRequest host r ts attr
      → handle_softyield api emscripten_fetch host later ≡ (
          request_attr r attr.request_data
          >>= start_fetch api emscripten_fetch host later (register api host x11) attr.request_data)
  unfolding handle_softyield
  request_switch emscripten_fetch host later r ts attr v =
      rw (v.yields, v.in_memory, decode_req-encode_req r v.formed, v.key, v.body_read)

  -- A request as in `IsRequest` that counts the rows whose texts are given is handed to Emscripten with the strings of the structure, put into the map under its
  -- key, and answered with 0 in a0.
  pub handle_softyield_request :
      (emscripten_fetch : FetchAttr → Fetch) (host : Host api) (later : List Completion)
      (r : YieldMmioReq) (ts : List (List ℕ × List ℕ)) (attr : FetchAttr)
      → IsRequest host r ts attr
      → r.headers_count ≡ length ts
      → attr.request_headers ≡ strings ts
      → handle_softyield api emscripten_fetch host later
        ≡ ok (record {
          host = record {
            machine = or_same api host.machine (api.write_reg host.machine x10 0);
            fetches =
                insert
                  (register api host x11)
                  (record {
                    uid = 0;
                    fetch = emscripten_fetch attr;
                    body = or_empty attr.request_data;
                    done = false;
                  })
                  host.fetches;
            calls = started (register api host x11) attr ∷ host.calls;
          };
          later = later;
          success = true;
        })
  handle_softyield_request emscripten_fetch host later r ts attr v n e =
      rw
        (
          request_switch emscripten_fetch host later r ts attr v,
          request_attr-Reads r ts attr v.texts n e v.method_text v.url_text,
        )
        (unfold start_fetch in refl)

  -- A request as in `IsRequest`, with texts in all its 64 rows and a count of more than 64, makes the
  -- host read past the array.
  pub handle_softyield_overrun :
      (emscripten_fetch : FetchAttr → Fetch) (host : Host api) (later : List Completion)
      (r : YieldMmioReq) (ts : List (List ℕ × List ℕ)) (attr : FetchAttr)
      → IsRequest host r ts attr
      → length ts ≡ 64
      → 64 < r.headers_count
      → handle_softyield api emscripten_fetch host later ≡ fault
  handle_softyield_overrun emscripten_fetch host later r ts attr v n over = rw (
    request_switch emscripten_fetch host later r ts attr v,
    request_attr-fault r ts attr.request_data v.texts (v.formed.rows ∙ sym n)
        (omega (arith, v.formed.rows)),
  )
