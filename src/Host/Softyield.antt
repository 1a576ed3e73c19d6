-- ===== src/Host/Softyield.antt =====
-- `handle_softyield` of webcm.cpp, over a machine that is a parameter. What Emscripten is told is kept
-- in `calls`, newest first.
pub mod Request
pub mod Response
use webcm.Common.{
  ℕ, zero, suc, ◌+◌, ◌%◌, ◌^◌, ◌<◌, List, [], ◌∷◌, ◌++◌, Bool, true, false, ltb, leb, ◌==◌,
  if◌then◌else◌, Option, none, some, length, take, Outcome, ok, fault, ◌>>=◌, read,
}
use webcm.Mmio.Structs.{
  YieldType, invalid, request, poll_response, poll_response_body, yield_type, HeaderRow,
  YieldMmioReq, YieldMmioRes, empty_res, c_str,
}
use webcm.Mmio.Layout.{decode_req, encode_res, sizeof_req}
use webcm.Host.Machine.{Reg, x10, x11, x12, MachineApi, FetchAttr, Fetch}
use webcm.Host.Fetches.{FetchObject, Fetches, find, insert, erase, Completion, Waited, wait_done}
use webcm.Host.Exchange.{request_attr, fetch_response, fetch_body}

-- The calls of `emscripten_fetch` and `emscripten_fetch_close`, with the key of their fetch.
pub data FetchCall : Type 0 where
  started : ℕ → FetchAttr → FetchCall
  closed : ℕ → FetchCall

abbrev pub or_empty : Option (List ℕ) → List ℕ
or_empty none = []
or_empty (some body) = body

-- What is read counts if there is a body to read.
abbrev pub body_read : Bool → Option (List ℕ) → Option (Option (List ℕ))
body_read false read = some none
body_read true none = none
body_read true (some bytes) = some (some bytes)

module _ (api : MachineApi) where
  open api use {Machine, read_reg, write_reg, read_virtual_memory, write_virtual_memory}

  pub record Host : Type 0 where
    pub machine : Machine
    pub fetches : Fetches
    pub calls : List FetchCall

  -- The value returned, what is left behind, and the completions that have not arrived yet.
  pub record Handled : Type 0 where
    pub host : Host
    pub later : List Completion
    pub success : Bool

  abbrev pub done : Host → List Completion → Bool → Outcome Handled
  done host later success = ok (record { host = host; later = later; success = success })

  -- A register that cannot be read leaves the variable at 0.
  abbrev pub or_zero : Option ℕ → ℕ
  or_zero none = 0
  or_zero (some x) = x

  abbrev pub register : Host → Reg → ℕ
  register host r = or_zero (read_reg host.machine r)

  abbrev pub or_same : Machine → Option Machine → Machine
  or_same m none = m
  or_same m (some m') = m'

  -- The end of the function: `cm_write_reg(machine, CM_REG_X10, 0); return true;`
  unfoldable pub succeed : Host → List Completion → Outcome Handled
  succeed host later =
      done (record host { machine = or_same host.machine (write_reg host.machine x10 0) }) later
        true

  -- The fetch is started and put into the map.
  unfoldable pub start_fetch :
      (FetchAttr → Fetch)
      → Host
      → List Completion
      → ℕ
      → Option (List ℕ)
      → FetchAttr
      → Outcome Handled
  unfolding insert succeed
  start_fetch emscripten_fetch host later uid body attr =
      succeed
        (record host {
          fetches =
              insert uid
                (record {
                  uid = 0;
                  fetch = emscripten_fetch attr;
                  body = or_empty body;
                  done = false;
                })
                host.fetches;
          calls = started uid attr ∷ host.calls;
        })
        later

  -- The body of a request: `none` is a failed read, `some none` no body at all. `resize` takes a `size_t`
  -- of 32 bits, and the read the whole length: a buffer that is shorter than what the read may write is
  -- an access out of bounds.
  unfoldable pub request_body : Host → YieldMmioReq → Outcome (Option (Option (List ℕ)))
  request_body host mmio_req =
      if ltb (mmio_req.body_length % 2 ^ 32) mmio_req.body_length
      then fault
      else ok (
          body_read (ltb 0 mmio_req.body_length)
            (read_virtual_memory host.machine mmio_req.body_vaddr mmio_req.body_length))

  -- The headers are read when the fetch is started, behind the body.
  unfoldable pub make_request :
      (FetchAttr → Fetch)
      → Host
      → List Completion
      → ℕ
      → YieldMmioReq
      → Option (Option (List ℕ))
      → Outcome Handled
  unfolding request_attr start_fetch
  make_request emscripten_fetch host later uid mmio_req none = done host later false
  make_request emscripten_fetch host later uid mmio_req (some body) =
      request_attr mmio_req body >>= start_fetch emscripten_fetch host later uid body

  -- `if (fetches.find(uid) != fetches.end()) return true;`, behind the read of the structure.
  unfoldable pub new_request :
      (FetchAttr → Fetch)
      → Host
      → List Completion
      → ℕ
      → YieldMmioReq
      → Option FetchObject
      → Outcome Handled
  unfolding request_body make_request
  new_request emscripten_fetch host later uid mmio_req (some o) = done host later true
  new_request emscripten_fetch host later uid mmio_req none =
      request_body host mmio_req >>= make_request emscripten_fetch host later uid mmio_req

  unfoldable pub on_request :
      (FetchAttr → Fetch) → Host → List Completion → ℕ → Option (List ℕ) → Outcome Handled
  unfolding find decode_req new_request
  on_request emscripten_fetch host later uid none = done host later false
  on_request emscripten_fetch host later uid (some bytes) =
      new_request emscripten_fetch host later uid (decode_req bytes) (find uid host.fetches)

  -- `emscripten_fetch_close(fetch); fetches.erase(it);`
  unfoldable pub close_fetch : Host → ℕ → Host
  unfolding erase
  close_fetch host uid = record host {
    fetches = erase uid host.fetches;
    calls = closed uid ∷ host.calls;
  }

  -- `cm_write_virtual_memory` of the response, and the release of a fetch with no body.
  unfoldable pub write_response :
      Host → List Completion → ℕ → YieldMmioRes → Option Machine → Outcome Handled
  unfolding close_fetch succeed
  write_response host later uid res none = done host later false
  write_response host later uid res (some machine') =
      let host' = record host { machine = machine' } in
      succeed (if res.body_total_length == 0 then close_fetch host' uid else host') later

  -- Behind the wait: the response is built and written.
  unfoldable pub answer_response : Host → ℕ → ℕ → Waited → Outcome Handled
  unfolding fetch_response encode_res write_response
  answer_response host uid vaddr w =
      let host' = record host { fetches = w.fetches } in
      do
        res ← fetch_response w.fetch
        write_response host' w.later uid res
            (write_virtual_memory host.machine vaddr (encode_res res))

  unfoldable pub on_poll_response :
      Host → List Completion → ℕ → ℕ → Option FetchObject → Outcome Handled
  unfolding wait_done answer_response
  on_poll_response host later uid vaddr none = done host later true
  on_poll_response host later uid vaddr (some o) =
      wait_done uid host.fetches later >>= answer_response host uid vaddr

  unfoldable pub write_body : Host → List Completion → ℕ → Option Machine → Outcome Handled
  unfolding close_fetch succeed
  write_body host later uid none = done host later false
  write_body host later uid (some machine') =
      succeed (close_fetch (record host { machine = machine' }) uid) later

  unfoldable pub on_poll_body :
      Host → List Completion → ℕ → ℕ → Option FetchObject → Outcome Handled
  unfolding fetch_body write_body
  on_poll_body host later uid vaddr none = done host later true
  on_poll_body host later uid vaddr (some o) = do
    bytes ← fetch_body o.fetch
    write_body host later uid (write_virtual_memory host.machine vaddr bytes)

  -- The `switch`.
  unfoldable pub dispatch :
      (FetchAttr → Fetch) → Host → List Completion → YieldType → ℕ → ℕ → Outcome Handled
  unfolding on_request on_poll_response on_poll_body find
  dispatch emscripten_fetch host later request uid vaddr =
      on_request emscripten_fetch host later uid (read_virtual_memory host.machine vaddr sizeof_req)
  dispatch emscripten_fetch host later poll_response uid vaddr =
      on_poll_response host later uid vaddr (find uid host.fetches)
  dispatch emscripten_fetch host later poll_response_body uid vaddr =
      on_poll_body host later uid vaddr (find uid host.fetches)
  dispatch emscripten_fetch host later invalid uid vaddr = done host later false

  unfoldable pub handle_softyield : (FetchAttr → Fetch) → Host → List Completion → Outcome Handled
  unfolding dispatch
  handle_softyield emscripten_fetch host later =
      dispatch emscripten_fetch host later (yield_type (register host x10)) (register host x11)
        (register host x12)
