-- ===== src/Proxy/Tests.antt =====
-- A request through the guest program, and through the host.
use webcm.Common.{
  ℕ, ◌≡◌, refl, List, [], ◌∷◌, if◌then◌else◌, ok, true, false, Bool, ◌==◌, suc, arith,
}
use webcm.Mmio.Structs.{YieldMmioReq, empty_req}
use webcm.Mmio.Text.{IsText}
use webcm.Mmio.Layout.{encode_req, length-encode_req}
use webcm.Host.Machine.{x10}
use webcm.Host.Board.{board_write, board_api, always_200}
use webcm.Host.Fetches.{find, insert}
use webcm.Host.Softyield.{Host, started, or_same, handle_softyield}
use webcm.Proxy.Fill.{FieldName, user_agent, other, HttpRequest, fill_mmio_req}
use webcm.Proxy.Filled.{IsTextRequest, IsFilled, fill_mmio_req-IsFilled}
use webcm.Proxy.Carried.{carried, IsYielded, fill_mmio_req_carried}
use webcm.Proxy.Handler.{HostApi}
use webcm.Proxy.Session.{Completion, failed, detected}
use webcm.Proxy.Listener.{
  Accepted, accepted, make_acceptor, do_accept, on_accept, dns_on_accept, accepts, listener_accepts,
  dns_accepts,
}

-- `POST /` with the host `h`, a user agent, a field `a: b`, and a body of one byte.
abbrev req : HttpRequest
req = record {
  version = 11;
  method_string = 80 ∷ 79 ∷ 83 ∷ 84 ∷ [];
  target = 47 ∷ [];
  fields =
      record { name = FieldName.host; name_string = 72 ∷ []; value = 104 ∷ [] }
      ∷ record { name = user_agent; name_string = 85 ∷ []; value = 117 ∷ [] }
      ∷ record { name = other; name_string = 97 ∷ []; value = 98 ∷ [] }
      ∷ [];
  body = 9 ∷ [];
}

abbrev is_text : List ℕ → Bool
is_text [] = true
is_text (c ∷ cs) = if c == 0 then false else is_text cs

text : (cs : List ℕ) → is_text cs ≡ true → IsText cs
text [] e = tt
text (c ∷ cs) e = ground (arith, text cs)

req-IsTextRequest : IsTextRequest req 0x10000
req-IsTextRequest = record {
  fields_text = (
    (text (72 ∷ []) refl, text (104 ∷ []) refl),
    ((text (85 ∷ []) refl, text (117 ∷ []) refl), ((text (97 ∷ []) refl, text (98 ∷ []) refl), tt)),
  );
  method_text = text req.method_string refl;
  url_text = text (104 ∷ 116 ∷ 116 ∷ 112 ∷ 115 ∷ 58 ∷ 47 ∷ 47 ∷ 104 ∷ 47 ∷ []) refl;
  vaddr_u64 = omega arith;
  body_u64 = omega arith;
}

req-IsFilled :
    (r : YieldMmioReq) × (fill_mmio_req empty_req req 0x10000 ≡ ok r) × IsFilled req 0x10000 r
req-IsFilled = fill_mmio_req-IsFilled req 0x10000 req-IsTextRequest

fill_mmio_req-IsFilled_example :
    (r : YieldMmioReq) × (fill_mmio_req empty_req req 0x10000 ≡ ok r) × IsFilled req 0x10000 r
fill_mmio_req-IsFilled_example = fill_mmio_req-IsFilled req 0x10000 req-IsTextRequest

-- The structure for the request.
abbrev filled_req : YieldMmioReq
filled_req = req-IsFilled.0

-- The guest has yielded it.
abbrev yielded : Host board_api
yielded = record {
  machine = record {
    a0 = 1;
    a1 = 7;
    a2 = 0x2000;
    blocks = (0x2000, encode_req filled_req) ∷ (0x10000, 9 ∷ []) ∷ [];
  };
  fetches = [];
  calls = [];
}

req-IsYielded : IsYielded board_api yielded req 0x10000 filled_req
req-IsYielded = record {
  filled = req-IsFilled.1;
  yields = refl;
  key = unfold find in refl;
  in_memory = rw (length-encode_req filled_req req-IsFilled.2.formed);
  body_u32 = omega arith;
  body_in_memory = λ long. refl;
}

fill_mmio_req_carried_example :
    handle_softyield board_api always_200 yielded []
    ≡ ok (record {
      host = record {
        machine = or_same board_api yielded.machine (board_write yielded.machine x10 0);
        fetches =
            insert 7
              (record { uid = 0; fetch = always_200 (carried req); body = 9 ∷ []; done = false })
              [];
        calls = started 7 (carried req) ∷ [];
      };
      later = [];
      success = true;
    })
fill_mmio_req_carried_example =
    fill_mmio_req_carried board_api always_200 yielded [] req 0x10000 filled_req req-IsTextRequest
      req-IsYielded

-- A host that counts its calls, and answers with 204.
abbrev counting : HostApi
counting = record {
  World = ℕ;
  rdcycle = λ w. w;
  yield_request = λ w uid r body. (suc w, 0);
  yield_response = λ w uid m. (suc w, 0, record m { status = 204 });
  yield_body = λ w uid body. (suc w, 0, body);
  int_to_status = λ n. n;
}

-- TLS is detected, and its handshake fails.
abbrev interrupted : List Completion
interrupted = detected true ∷ failed ∷ []

-- A listener that cannot bind its port, and goes on to accept.
listener_accepts_example :
    accepts on_accept
      (do_accept (make_acceptor {Socket = ℕ} true true false true))
      (Accepted.failed ∷ Accepted.failed ∷ [])
    ≡ record { listening = false; pending = 1; sessions = []; reported = 3 }
listener_accepts_example =
    listener_accepts true true false true (Accepted.failed ∷ Accepted.failed ∷ [])

dns_accepts_example :
    accepts dns_on_accept
      (do_accept (make_acceptor {Socket = ℕ} true true true true))
      (accepted 7 ∷ Accepted.failed ∷ accepted 8 ∷ [])
    ≡ record { listening = true; pending = 1; sessions = 7 ∷ 8 ∷ []; reported = 0 }
dns_accepts_example =
    dns_accepts true true true true (accepted 7 ∷ Accepted.failed ∷ accepted 8 ∷ [])
