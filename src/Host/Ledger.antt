-- ===== src/Host/Ledger.antt =====
-- The map of fetches against the calls of Emscripten: what is in the map is what was started and not
-- closed.
use webcm.Common.{
  ℕ, ◌+◌, ◌≤◌, ◌≡◌, refl, List, [], ◌∷◌, ◌==◌, Option, none, some, Outcome, ok, fault, stuck,
  Returned, Returned-bind, Bool-cases, inl, inr, arith,
}
use webcm.Mmio.Structs.{
  YieldType, request, poll_response, poll_response_body, invalid, yield_type, YieldMmioReq,
  YieldMmioRes,
}
use webcm.Mmio.Layout.{decode_req, encode_res, sizeof_req}
use webcm.Host.Machine.{x10, x11, x12, MachineApi, FetchAttr, Fetch}
use webcm.Host.Fetches.{FetchObject, Fetches, find, insert, erase, Completion, Waited, wait_done}
use webcm.Host.Fetches.Entries.{
  occurs, entries, entries-find-none, entries-insert, entries-erase, IsWaited, wait_done-IsWaited,
}
use webcm.Host.Exchange.{request_attr, fetch_response, fetch_body}
use webcm.Host.Softyield.{
  FetchCall, started, closed, Host, Handled, register, start_fetch, request_body, make_request,
  new_request, on_request, close_fetch, write_response, answer_response, on_poll_response,
  write_body, on_poll_body, dispatch, handle_softyield,
}

abbrev pub starts : ℕ → List FetchCall → ℕ
starts k [] = 0
starts k (started uid attr ∷ cs) = occurs uid k + starts k cs
starts k (closed uid ∷ cs) = starts k cs

abbrev pub closes : ℕ → List FetchCall → ℕ
closes k [] = 0
closes k (started uid attr ∷ cs) = closes k cs
closes k (closed uid ∷ cs) = occurs uid k + closes k cs

any : {A : Type 0} (m : Outcome A) → Returned (λ a. Unit) m
any (ok a) = tt
any fault = tt
any stuck = tt

-- A key stands in the map once at most, and for as long as its fetch is started and not closed.
pub record IsBalanced (fs : Fetches) (calls : List FetchCall) : Type 0 where
  pub unique : (k : ℕ) → entries k fs ≤ 1
  pub balanced : (k : ℕ) → starts k calls ≡ closes k calls + entries k fs

start-IsBalanced :
    (uid : ℕ) (o : FetchObject) (attr : FetchAttr) (fs : Fetches) (calls : List FetchCall)
    → find uid fs ≡ none
    → IsBalanced fs calls
    → IsBalanced (insert uid o fs) (started uid attr ∷ calls)
start-IsBalanced uid o attr fs calls e v = record {
  unique = λ k. ground (arith, entries-insert k uid o fs e, entries-find-none uid fs e, v.unique k);
  balanced = λ k. omega (arith, v.balanced k, entries-insert k uid o fs e);
}

close-IsBalanced :
    (uid : ℕ) (o : FetchObject) (fs : Fetches) (calls : List FetchCall)
    → find uid fs ≡ some o
    → IsBalanced fs calls
    → IsBalanced (erase uid fs) (closed uid ∷ calls)
close-IsBalanced uid o fs calls e v = record {
  unique = λ k. omega (arith, v.unique k, entries-erase k uid o fs e);
  balanced = λ k. omega (arith, v.balanced k, entries-erase k uid o fs e);
}

waited-IsBalanced :
    (uid : ℕ) (fs : Fetches) (w : Waited) (calls : List FetchCall)
    → IsWaited uid fs w
    → IsBalanced fs calls
    → IsBalanced w.fetches calls
waited-IsBalanced uid fs w calls u v = record {
  unique = λ k. omega (arith, v.unique k, u.same_keys k);
  balanced = λ k. omega (arith, v.balanced k, u.same_keys k);
}

module _ (api : MachineApi) where
  abbrev pub IsHeld : Host api → Type 0
  IsHeld h = IsBalanced h.fetches h.calls

  abbrev Leaves : Handled api → Type 0
  Leaves r = IsHeld r.host

  module _ (emscripten_fetch : FetchAttr → Fetch) (host : Host api) (later : List Completion)
      (uid : ℕ) (v : IsHeld host) where
    start_fetch-IsHeld :
        (body : Option (List ℕ)) (attr : FetchAttr)
        → find uid host.fetches ≡ none
        → Returned Leaves (start_fetch api emscripten_fetch host later uid body attr)
    unfolding start_fetch
    start_fetch-IsHeld body attr e = start-IsBalanced uid _ attr host.fetches host.calls e v

    make_request-IsHeld :
        (mmio_req : YieldMmioReq) (body : Option (Option (List ℕ)))
        → find uid host.fetches ≡ none
        → Returned Leaves (make_request api emscripten_fetch host later uid mmio_req body)
    unfolding make_request
    make_request-IsHeld mmio_req none e = v
    make_request-IsHeld mmio_req (some body) e =
        Returned-bind (λ a. Unit) Leaves (request_attr mmio_req body)
          (start_fetch api emscripten_fetch host later uid body) (any (request_attr mmio_req body))
          (λ attr _. start_fetch-IsHeld body attr e)

    new_request-IsHeld :
        (mmio_req : YieldMmioReq) (o : Option FetchObject)
        → find uid host.fetches ≡ o
        → Returned Leaves (new_request api emscripten_fetch host later uid mmio_req o)
    unfolding new_request
    new_request-IsHeld mmio_req (some o) e = v
    new_request-IsHeld mmio_req none e =
        Returned-bind (λ a. Unit) Leaves (request_body api host mmio_req)
          (make_request api emscripten_fetch host later uid mmio_req)
          (any (request_body api host mmio_req)) (λ body _. make_request-IsHeld mmio_req body e)

    on_request-IsHeld :
        (bytes : Option (List ℕ))
        → Returned Leaves (on_request api emscripten_fetch host later uid bytes)
    unfolding on_request
    on_request-IsHeld none = v
    on_request-IsHeld (some bytes) =
        new_request-IsHeld (decode_req bytes) (find uid host.fetches) refl

    -- A fetch that leaves the map is closed.
    close_fetch-IsHeld :
        (o : FetchObject) → find uid host.fetches ≡ some o → IsHeld (close_fetch api host uid)
    unfolding close_fetch
    close_fetch-IsHeld o e = close-IsBalanced uid o host.fetches host.calls e v

    write_response-IsHeld :
        (o : FetchObject) (res : YieldMmioRes) (m : Option api.Machine)
        → find uid host.fetches ≡ some o
        → Returned Leaves (write_response api host later uid res m)
    unfolding write_response
    write_response-IsHeld o res none e = v
    write_response-IsHeld o res (some m) e = elim (Bool-cases (res.body_total_length == 0)) [
      | inl bare ↦ rw bare (close-IsBalanced uid o host.fetches host.calls e v)
      | inr full ↦ rw full v
    ]

    write_body-IsHeld :
        (o : FetchObject) (m : Option api.Machine)
        → find uid host.fetches ≡ some o
        → Returned Leaves (write_body api host later uid m)
    unfolding write_body
    write_body-IsHeld o none e = v
    write_body-IsHeld o (some m) e = close-IsBalanced uid o host.fetches host.calls e v

    on_poll_body-IsHeld :
        (vaddr : ℕ) (o : Option FetchObject)
        → find uid host.fetches ≡ o
        → Returned Leaves (on_poll_body api host later uid vaddr o)
    unfolding on_poll_body
    on_poll_body-IsHeld vaddr none e = v
    on_poll_body-IsHeld vaddr (some o) e =
        Returned-bind (λ a. Unit) Leaves (fetch_body o.fetch) _ (any (fetch_body o.fetch))
          (λ bytes _. write_body-IsHeld o (api.write_virtual_memory host.machine vaddr bytes) e)

  module _ (emscripten_fetch : FetchAttr → Fetch) (host : Host api) (later : List Completion)
      (uid : ℕ) (v : IsHeld host) where
    answer_response-IsHeld :
        (vaddr : ℕ) (w : Waited)
        → IsWaited uid host.fetches w
        → Returned Leaves (answer_response api host uid vaddr w)
    unfolding answer_response
    answer_response-IsHeld vaddr w u =
        Returned-bind (λ a. Unit) Leaves (fetch_response w.fetch) _ (any (fetch_response w.fetch))
          (λ res _.
            write_response-IsHeld emscripten_fetch (record host { fetches = w.fetches }) w.later uid
              (waited-IsBalanced uid host.fetches w host.calls u v) u.object res
              (api.write_virtual_memory host.machine vaddr (encode_res res)) u.found)

    on_poll_response-IsHeld :
        (vaddr : ℕ) (o : Option FetchObject)
        → Returned Leaves (on_poll_response api host later uid vaddr o)
    unfolding on_poll_response
    on_poll_response-IsHeld vaddr none = v
    on_poll_response-IsHeld vaddr (some o) =
        Returned-bind (IsWaited uid host.fetches) Leaves (wait_done uid host.fetches later)
          (answer_response api host uid vaddr) (wait_done-IsWaited uid host.fetches later)
          (answer_response-IsHeld vaddr)

    dispatch-IsHeld :
        (t : YieldType) (vaddr : ℕ)
        → Returned Leaves (dispatch api emscripten_fetch host later t uid vaddr)
    unfolding dispatch
    dispatch-IsHeld invalid vaddr = v
    dispatch-IsHeld request vaddr =
        on_request-IsHeld emscripten_fetch host later uid v
          (api.read_virtual_memory host.machine vaddr sizeof_req)
    dispatch-IsHeld poll_response vaddr = on_poll_response-IsHeld vaddr (find uid host.fetches)
    dispatch-IsHeld poll_response_body vaddr =
        on_poll_body-IsHeld emscripten_fetch host later uid v vaddr (find uid host.fetches) refl

  -- Whatever the guest's registers and memory hold, and whether the call succeeds or not, a fetch is
  -- afterwards in the map exactly if it was started and has not been closed, and is there once.
  pub handle_softyield-IsHeld :
      (emscripten_fetch : FetchAttr → Fetch) (host : Host api) (later : List Completion)
      → IsHeld host
      → Returned
          (λ (r : Handled api). IsHeld r.host)
          (handle_softyield api emscripten_fetch host later)
  unfolding handle_softyield
  handle_softyield-IsHeld emscripten_fetch host later v =
      dispatch-IsHeld emscripten_fetch host later (register api host x11) v
        (yield_type (register api host x10)) (register api host x12)
