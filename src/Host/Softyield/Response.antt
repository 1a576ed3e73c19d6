-- ===== src/Host/Softyield/Response.antt =====
-- A poll: what the guest gets of a fetch that has ended, and when the fetch is released.
use webcm.Common.{
  ℕ, inl, inr, Bool-cases, ◌+◌, ◌≤◌, ◌≡◌, ◌≢◌, refl, List, [], ◌∷◌, ◌++◌, All, length, take, min,
  true, false, ◌==◌, if◌then◌else◌, le→leb, some, ok, arith,
}
use webcm.Mmio.Structs.{
  YieldMmioRes, empty_rows, empty_res, yield_code, poll_response, poll_response_body,
}
use webcm.Mmio.Layout.{encode_res}
use webcm.Host.Machine.{x10, x11, x12, MachineApi, FetchAttr, Fetch}
use webcm.Host.Fetches.{FetchObject, find, erase, Completion}
use webcm.Host.Fetches.Waits.{after_ends, wait_done_arrives}
use webcm.Host.Headers.Bounds.{rows-IsRow, parse_headers-IsFilling}
use webcm.Host.Headers.Printed.{Field, IsField, print_fields, fill_rows, parse_headers-print_fields}
use webcm.Host.Exchange.{fetch_response}
use webcm.Host.Softyield.{closed, Host, register, succeed, or_same, close_fetch, handle_softyield}

-- The response to a fetch with these header fields.
abbrev pub reference_response : Fetch → List Field → YieldMmioRes
reference_response fetch fields = record {
  ready_state = fetch.ready_state;
  status = fetch.status;
  body_total_length = fetch.total_bytes;
  headers_count = min (length fields) 64;
  headers = fill_rows fields empty_rows;
}

fetch_response-print_fields :
    (fetch : Fetch) (fields : List Field)
    → All IsField fields
    → fetch.response_headers ++ (0 ∷ []) ≡ print_fields fields
    → fetch_response fetch ≡ ok (reference_response fetch fields)
unfolding fetch_response empty_res
fetch_response-print_fields fetch fields v e = rw e (
    parse_headers-print_fields fields (length (print_fields fields) + 1) _ v (omega arith) refl
      refl)

-- Whatever the headers are, there is a response.
pub fetch_response_returns :
    (fetch : Fetch) → (res : YieldMmioRes) × (fetch_response fetch ≡ ok res)
unfolding fetch_response empty_res
fetch_response_returns fetch =
    let text = fetch.response_headers ++ (0 ∷ []) in
    let (res, e, v, w) =
      parse_headers-IsFilling (length text + 1) text
        (record empty_res {
          ready_state = fetch.ready_state;
          status = fetch.status;
          body_total_length = fetch.total_bytes;
        })
        (omega arith) (record { rows = refl; row_sizes = rows-IsRow; counted = omega arith }) in
    (res, e)

module _ (api : MachineApi) where
  -- The guest polls for a fetch that has not ended, whose completion `c` arrives after others, and
  -- the response can be written where a2 says, which leaves `machine'`.
  pub record IsPoll (host : Host api) (others : List Completion) (c : Completion)
      (fields : List Field) (machine' : api.Machine) : Type 0 where
    pub yields : api.read_reg host.machine x10 ≡ some (yield_code poll_response)
    pub object : FetchObject
    pub found : find (register api host x11) host.fetches ≡ some object
    pub busy : object.done ≡ false
    pub before : All (λ d. d.uid ≢ register api host x11) others
    pub own : c.uid ≡ register api host x11
    pub fields_IsField : All IsField fields
    pub printed : c.fetch.response_headers ++ (0 ∷ []) ≡ print_fields fields
    pub written :
        api.write_virtual_memory host.machine
          (register api host x12)
          (encode_res (reference_response c.fetch fields))
        ≡ some machine'

  -- A fetch with no body is closed and leaves the map.
  abbrev pub release_bare : ℕ → Fetch → Host api → Host api
  release_bare uid fetch host =
      if fetch.total_bytes == 0
      then record host { fetches = erase uid host.fetches; calls = closed uid ∷ host.calls }
      else host

  abbrev pub answered : api.Machine → Host api → Host api
  answered machine' host = record host {
    machine = or_same api machine' (api.write_reg machine' x10 0);
  }

  -- At a poll as in `IsPoll` the guest gets the state and status of the fetch, the length of its body and its first 64 header
  -- fields, and 0 in a0; the completions that were waited for have taken place; a fetch with no body
  -- is closed and leaves the map.
  pub handle_softyield_poll :
      (emscripten_fetch : FetchAttr → Fetch) (host : Host api) (others : List Completion)
      (c : Completion) (later : List Completion) (fields : List Field) (machine' : api.Machine)
      → IsPoll host others c fields machine'
      → handle_softyield api emscripten_fetch host (others ++ (c ∷ later))
        ≡ ok (record {
          host = answered machine' (
              release_bare
                (register api host x11)
                c.fetch
                (record host { fetches = after_ends (others ++ (c ∷ [])) host.fetches }));
          later = later;
          success = true;
        })
  unfolding handle_softyield
  handle_softyield_poll emscripten_fetch host others c later fields machine' v =
      rw
        (
          v.yields,
          v.found,
          wait_done_arrives (register api host x11) host.fetches v.object others c later v.found
              v.busy v.before v.own,
          fetch_response-print_fields c.fetch fields v.fields_IsField v.printed,
          v.written,
        )
        (elim (Bool-cases (c.fetch.total_bytes == 0)) [
          | inl bare ↦ rw bare (unfold succeed in unfold close_fetch in refl)
          | inr full ↦ rw full (unfold succeed in refl)
        ])

  -- The guest polls for the body of a fetch that holds all its bytes, which can be written where a2
  -- says, which leaves `machine'`.
  pub record IsBodyPoll (host : Host api) (object : FetchObject) (machine' : api.Machine)
      : Type 0 where
    pub yields : api.read_reg host.machine x10 ≡ some (yield_code poll_response_body)
    pub found : find (register api host x11) host.fetches ≡ some object
    pub whole : object.fetch.total_bytes ≤ length object.fetch.body
    pub written :
        api.write_virtual_memory host.machine
          (register api host x12)
          (take object.fetch.total_bytes object.fetch.body)
        ≡ some machine'

  -- At a poll as in `IsBodyPoll` the guest gets the bytes and 0 in a0, and the fetch is closed and leaves the map.
  pub handle_softyield_body :
      (emscripten_fetch : FetchAttr → Fetch) (host : Host api) (later : List Completion)
      (object : FetchObject) (machine' : api.Machine)
      → IsBodyPoll host object machine'
      → handle_softyield api emscripten_fetch host later
        ≡ ok (record {
          host = answered machine' (record host {
            fetches = erase (register api host x11) host.fetches;
            calls = closed (register api host x11) ∷ host.calls;
          });
          later = later;
          success = true;
        })
  unfolding handle_softyield
  handle_softyield_body emscripten_fetch host later object machine' v =
      rw
        (
          v.yields,
          v.found,
          le→leb object.fetch.total_bytes (length object.fetch.body) v.whole,
          v.written,
        )
        (unfold succeed in unfold close_fetch in refl)
