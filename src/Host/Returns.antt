-- ===== src/Host/Returns.antt =====
-- When `handle_softyield` returns: the loops end, and no access is out of bounds.
use webcm.Common.{
  ltb, Bool, false, if◌then◌else◌, fault, ℕ, ◌<◌, ◌%◌, ◌^◌, arith, le→ltb_false, ◌≤◌, ◌≡◌, refl,
  subst, List, true, length, le→leb, take, Option, none, some, Outcome, ok, Returned, ◌⊎◌,
}
use webcm.Mmio.Structs.{
  YieldType, request, poll_response, poll_response_body, invalid, yield_type, YieldMmioReq,
  YieldMmioRes, c_str,
}
use webcm.Mmio.Text.{Reads}
use webcm.Mmio.Layout.{decode_req, encode_res, sizeof_req}
use webcm.Host.Machine.{x10, x11, x12, MachineApi, FetchAttr, Fetch}
use webcm.Host.Fetches.{FetchObject, find, Completion, Waited}
use webcm.Host.Fetches.Waits.{Arrives, wait_done_returns}
use webcm.Host.Exchange.{fetch_body}
use webcm.Host.Softyield.{
  Host, Handled, register, make_request, new_request, on_request, write_response, answer_response,
  on_poll_response, write_body, on_poll_body, dispatch, request_body, start_fetch, succeed,
  handle_softyield,
}
use webcm.Host.Softyield.Request.{strings, request_attr-Reads}
use webcm.Host.Softyield.Response.{fetch_response_returns}
use webcm.Host.Ledger.{IsHeld, handle_softyield-IsHeld}

-- A request whose count is that of rows it has, and whose counted texts, method and URL end in a null
-- byte inside their arrays; and whose body has a length of 32 bits.
pub record IsReadable (r : YieldMmioReq) : Type 0 where
  pub texts : List (List ℕ × List ℕ)
  pub method : List ℕ
  pub url : List ℕ
  pub rows_read : Reads r.headers texts
  pub counted : r.headers_count ≡ length texts
  pub method_read : c_str r.method ≡ ok method
  pub url_read : c_str r.url ≡ ok url
  pub body_u32 : r.body_length < 2 ^ 32

module _ (api : MachineApi) where
  -- What each kind of call needs: a request that can be read is readable, a fetch that is polled for has
  -- ended or will, and one whose body is asked for holds all its bytes. A key with no fetch needs nothing.
  abbrev pub IsServed : YieldType → Host api → List Completion → Type 0
  IsServed request host later =
      (bytes : List ℕ)
      → api.read_virtual_memory host.machine (register api host x12) sizeof_req ≡ some bytes
      → IsReadable (decode_req bytes)
  IsServed poll_response host later =
      (o : FetchObject)
      → find (register api host x11) host.fetches ≡ some o
      → (o.done ≡ true) ⊎ Arrives (register api host x11) later
  IsServed poll_response_body host later =
      (o : FetchObject)
      → find (register api host x11) host.fetches ≡ some o
      → o.fetch.total_bytes ≤ length o.fetch.body
  IsServed invalid host later = Unit

  abbrev Returns : Outcome (Handled api) → Type 0
  Returns m = (r : Handled api) × (m ≡ ok r)

  succeed-Returns : (host : Host api) (later : List Completion) → Returns (succeed api host later)
  unfolding succeed
  succeed-Returns host later = (_, refl)

  module _ (emscripten_fetch : FetchAttr → Fetch) (host : Host api) (later : List Completion)
      (uid : ℕ) where
    start_fetch-Returns :
        (body : Option (List ℕ)) (attr : FetchAttr)
        → Returns (start_fetch api emscripten_fetch host later uid body attr)
    unfolding start_fetch
    start_fetch-Returns body attr = succeed-Returns _ later

    make_request-Returns :
        (r : YieldMmioReq) (body : Option (Option (List ℕ)))
        → IsReadable r
        → Returns (make_request api emscripten_fetch host later uid r body)
    unfolding make_request
    make_request-Returns r none v = (_, refl)
    make_request-Returns r (some body) v =
        let attr : FetchAttr = record {
          request_method = v.method;
          url = v.url;
          request_headers = strings v.texts;
          request_data = body;
        } in
        let (h, e) = start_fetch-Returns body attr in
        (
          h,
          rw (request_attr-Reads r v.texts attr v.rows_read v.counted refl v.method_read v.url_read)
              e,
        )

    request_body-Returns :
        (r : YieldMmioReq)
        → r.body_length < 2 ^ 32
        → (body : Option (Option (List ℕ))) × (request_body api host r ≡ ok body)
    unfolding request_body
    request_body-Returns r short =
        wide (ltb (r.body_length % 2 ^ 32) r.body_length) _
          (le→ltb_false (r.body_length % 2 ^ 32) r.body_length (omega arith))
      where
        wide :
            (b : Bool) (x : Option (Option (List ℕ)))
            → b ≡ false
            → (body : Option (Option (List ℕ))) × ((if b then fault else ok x) ≡ ok body)
        wide true x e = absurd (cc e)
        wide false x e = (x, refl)

    new_request-Returns :
        (r : YieldMmioReq) (o : Option FetchObject)
        → IsReadable r
        → Returns (new_request api emscripten_fetch host later uid r o)
    unfolding new_request
    new_request-Returns r (some o) v = (_, refl)
    new_request-Returns r none v =
        let (body, e) = request_body-Returns r v.body_u32 in
        let (h, k) = make_request-Returns r body v in (h, rw e k)

    on_request-Returns :
        (read : Option (List ℕ))
        → ((bytes : List ℕ) → read ≡ some bytes → IsReadable (decode_req bytes))
        → Returns (on_request api emscripten_fetch host later uid read)
    unfolding on_request
    on_request-Returns none v = (_, refl)
    on_request-Returns (some bytes) v =
        new_request-Returns (decode_req bytes) (find uid host.fetches) (v bytes refl)

  module _ (host : Host api) (later : List Completion) (uid : ℕ) where
    write_response-Returns :
        (res : YieldMmioRes) (m : Option api.Machine)
        → Returns (write_response api host later uid res m)
    unfolding write_response
    write_response-Returns res none = (_, refl)
    write_response-Returns res (some m) = succeed-Returns _ later

    write_body-Returns : (m : Option api.Machine) → Returns (write_body api host later uid m)
    unfolding write_body
    write_body-Returns none = (_, refl)
    write_body-Returns (some m) = succeed-Returns _ later

    on_poll_body-Returns :
        (vaddr : ℕ) (o : Option FetchObject)
        → ((p : FetchObject) → o ≡ some p → p.fetch.total_bytes ≤ length p.fetch.body)
        → Returns (on_poll_body api host later uid vaddr o)
    unfolding on_poll_body fetch_body
    on_poll_body-Returns vaddr none v = (_, refl)
    on_poll_body-Returns vaddr (some o) v =
        rw (le→leb o.fetch.total_bytes (length o.fetch.body) (v o refl)) (
          write_body-Returns
            (api.write_virtual_memory host.machine vaddr (take o.fetch.total_bytes o.fetch.body)))

  module _ (host : Host api) (later : List Completion) (uid : ℕ) where
    answer_response-Returns :
        (vaddr : ℕ) (w : Waited) → Returns (answer_response api host uid vaddr w)
    unfolding answer_response
    answer_response-Returns vaddr w =
        let (res, e) = fetch_response_returns w.fetch in
        let (h, k) =
          write_response-Returns (record host { fetches = w.fetches }) w.later uid res
            (api.write_virtual_memory host.machine vaddr (encode_res res)) in
        (h, rw e k)

    on_poll_response-Returns :
        (vaddr : ℕ) (o : Option FetchObject)
        → find uid host.fetches ≡ o
        → ((p : FetchObject) → o ≡ some p → (p.done ≡ true) ⊎ Arrives uid later)
        → Returns (on_poll_response api host later uid vaddr o)
    unfolding on_poll_response
    on_poll_response-Returns vaddr none e v = (_, refl)
    on_poll_response-Returns vaddr (some o) e v =
        let (w, k) = wait_done_returns uid host.fetches o later e (v o refl) in
        let (h, l) = answer_response-Returns vaddr w in (h, rw k l)

  dispatch-Returns :
      (emscripten_fetch : FetchAttr → Fetch) (host : Host api) (later : List Completion)
      (t : YieldType)
      → IsServed t host later
      → Returns (
          dispatch api emscripten_fetch host later t
            (register api host x11)
            (register api host x12))
  unfolding dispatch
  dispatch-Returns emscripten_fetch host later invalid v = (_, refl)
  dispatch-Returns emscripten_fetch host later request v =
      on_request-Returns emscripten_fetch host later (register api host x11)
        (api.read_virtual_memory host.machine (register api host x12) sizeof_req) v
  dispatch-Returns emscripten_fetch host later poll_response v =
      on_poll_response-Returns host later (register api host x11) (register api host x12)
        (find (register api host x11) host.fetches) refl v
  dispatch-Returns emscripten_fetch host later poll_response_body v =
      on_poll_body-Returns host later (register api host x11) (register api host x12)
        (find (register api host x11) host.fetches) v

  -- A call that is served returns, with no access out of bounds and no endless wait, whether it
  -- succeeds or not; and if the map holds each fetch that was started and not closed, once, and no other,
  -- it still does afterwards.
  pub handle_softyield_returns :
      (emscripten_fetch : FetchAttr → Fetch) (host : Host api) (later : List Completion)
      → IsServed (yield_type (register api host x10)) host later
      → IsHeld api host
      → (r : Handled api) × (handle_softyield api emscripten_fetch host later ≡ ok r)
        × IsHeld api r.host
  handle_softyield_returns emscripten_fetch host later v held =
      let (r, e) =
        dispatch-Returns emscripten_fetch host later (yield_type (register api host x10)) v in
      let whole : handle_softyield api emscripten_fetch host later ≡ ok r =
        unfold handle_softyield in e in
      (
        r,
        whole,
        subst (Returned (λ (s : Handled api). IsHeld api s.host)) whole
            (handle_softyield-IsHeld api emscripten_fetch host later held),
      )
