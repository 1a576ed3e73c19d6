-- ===== src/Host/Tests.antt =====
-- Calls of `handle_softyield` on a concrete machine.
use webcm.Common.{
  subst, some-injective, ℕ, zero, suc, ◌≤◌, ◌≡◌, refl, List, [], ◌∷◌, All, length, true, false,
  none, some, ok, fault, replicate, arith,
}
use webcm.Mmio.Structs.{
  HeaderRow, YieldMmioReq, YieldMmioRes, IsRow, IsReq, empty_res, c_str, yield_type,
}
use webcm.Mmio.Text.{Reads}
use webcm.Mmio.Layout.{encode_req, encode_res, sizeof_req, length-encode_req}
use webcm.Host.Board.{Board, board_write, block_at, board_api, always_200}
use webcm.Host.Machine.{x10, FetchAttr, Fetch}
use webcm.Host.Fetches.{FetchObject, find, insert, erase, Completion}
use webcm.Host.Fetches.Waits.{after_ends}
use webcm.Host.Headers.{parse_headers}
use webcm.Host.Headers.Bounds.{IsFilling, Keeps, rows-IsRow, parse_headers-IsFilling}
use webcm.Host.Headers.Printed.{Field, IsField, print_fields, fill_rows, parse_headers-print_fields}
use webcm.Host.Softyield.{
  request_body, started, closed, Host, Handled, register, or_same, handle_softyield,
}
use webcm.Host.Softyield.Request.{IsRequest, handle_softyield_request, handle_softyield_overrun}
use webcm.Host.Softyield.Response.{
  reference_response, IsPoll, answered, release_bare, handle_softyield_poll, handle_softyield_body,
}
use webcm.Host.Ledger.{IsHeld}
use webcm.Host.Returns.{IsServed, handle_softyield_returns}

abbrev blank : HeaderRow
blank = record { name = replicate 256 0; value = replicate 256 0 }

abbrev row : HeaderRow
row = record { name = 97 ∷ replicate 255 0; value = 98 ∷ replicate 255 0 }

-- `GET h`, with the header `a: b`.
abbrev req : YieldMmioReq
req = record {
  headers_count = 1;
  body_vaddr = 0;
  body_length = 0;
  url = 104 ∷ replicate 4095 0;
  method = 71 ∷ 69 ∷ 84 ∷ replicate 29 0;
  headers = row ∷ replicate 63 blank;
}

blanks-IsRow : (n : ℕ) → All IsRow (replicate n blank)
blanks-IsRow zero = tt
blanks-IsRow (suc n) = ((refl, refl), blanks-IsRow n)

req-IsReq : IsReq req
req-IsReq = record {
  count_u64 = omega arith;
  vaddr_u64 = omega arith;
  body_u64 = omega arith;
  url_size = refl;
  method_size = refl;
  rows = refl;
  row_sizes = ((refl, refl), blanks-IsRow 63);
}

abbrev texts : List (List ℕ × List ℕ)
texts = (97 ∷ [], 98 ∷ []) ∷ []

abbrev attr : FetchAttr
attr = record {
  request_method = 71 ∷ 69 ∷ 84 ∷ [];
  url = 104 ∷ [];
  request_headers = (97 ∷ []) ∷ (98 ∷ []) ∷ [];
  request_data = none;
}

abbrev requesting : YieldMmioReq → Host board_api
requesting r = record {
  machine = record { a0 = 1; a1 = 7; a2 = 0x2000; blocks = (0x2000, encode_req r) ∷ [] };
  fetches = [];
  calls = [];
}

read_whole :
    (r : YieldMmioReq)
    → IsReq r
    → block_at ((0x2000, encode_req r) ∷ []) 0x2000 sizeof_req ≡ some (encode_req r)
read_whole r v = rw (length-encode_req r v)

req-IsRequest : IsRequest board_api (requesting req) req texts attr
req-IsRequest = record {
  yields = refl;
  key = unfold find in refl;
  formed = req-IsReq;
  in_memory = read_whole req req-IsReq;
  texts = (unfold c_str in (refl, refl), tt);
  method_text = unfold c_str in refl;
  url_text = unfold c_str in refl;
  body_read = unfold request_body in refl;
}

handle_softyield_request_example :
    handle_softyield board_api always_200 (requesting req) []
    ≡ ok (record {
      host = record {
        machine =
            or_same board_api (requesting req).machine (board_write (requesting req).machine x10 0);
        fetches =
            insert 7 (record { uid = 0; fetch = always_200 attr; body = []; done = false }) [];
        calls = started 7 attr ∷ [];
      };
      later = [];
      success = true;
    })
handle_softyield_request_example =
    handle_softyield_request board_api always_200 (requesting req) [] req texts attr req-IsRequest
      refl refl

-- The same request, with a count of 65 and rows that are all blank.
abbrev long_req : YieldMmioReq
long_req = record req { headers_count = 65; headers = replicate 64 blank }

long_req-IsReq : IsReq long_req
long_req-IsReq = record {
  count_u64 = omega arith;
  vaddr_u64 = omega arith;
  body_u64 = omega arith;
  url_size = refl;
  method_size = refl;
  rows = refl;
  row_sizes = blanks-IsRow 64;
}

blanks-Reads : (n : ℕ) → Reads (replicate n blank) (replicate n ([], []))
unfolding c_str
blanks-Reads zero = tt
blanks-Reads (suc n) = ((refl, refl), blanks-Reads n)

long_req-IsRequest :
    IsRequest board_api
      (requesting long_req)
      long_req
      (replicate 64 ([], []))
      (record attr { request_headers = [] })
long_req-IsRequest = record {
  yields = refl;
  key = unfold find in refl;
  formed = long_req-IsReq;
  in_memory = read_whole long_req long_req-IsReq;
  texts = blanks-Reads 64;
  method_text = unfold c_str in refl;
  url_text = unfold c_str in refl;
  body_read = unfold request_body in refl;
}

handle_softyield_overrun_example :
    handle_softyield board_api always_200 (requesting long_req) [] ≡ fault
handle_softyield_overrun_example =
    handle_softyield_overrun board_api always_200 (requesting long_req) [] long_req
      (replicate 64 ([], [])) (record attr { request_headers = [] }) long_req-IsRequest refl
      (omega arith)

abbrev object : FetchObject
object = record { uid = 0; fetch = always_200 attr; body = []; done = false }

-- The guest waits for fetch 7, of two, and the other one ends first.
abbrev polling : ℕ → Host board_api
polling type = record {
  machine = record { a0 = type; a1 = 7; a2 = 0x2000; blocks = [] };
  fetches = (7, object) ∷ (8, object) ∷ [];
  calls = started 8 attr ∷ started 7 attr ∷ [];
}

-- `a: b`.
abbrev fields : List Field
fields = record { name = 97 ∷ []; value = 98 ∷ [] } ∷ []

abbrev fetched : Fetch
fetched = record {
  ready_state = 4;
  status = 204;
  total_bytes = 0;
  body = [];
  response_headers = 97 ∷ 58 ∷ 32 ∷ 98 ∷ 13 ∷ 10 ∷ [];
}

abbrev other_ends : Completion
other_ends = record { uid = 8; fetch = fetched }

abbrev own_ends : Completion
own_ends = record { uid = 7; fetch = fetched }

fields-IsField : All IsField fields
fields-IsField = ((omega arith, ((omega arith, omega arith), tt), (omega arith, tt)), tt)

abbrev written : Board
written = record {
  a0 = 2;
  a1 = 7;
  a2 = 0x2000;
  blocks = (0x2000, encode_res (reference_response fetched fields)) ∷ [];
}

polling-IsPoll : IsPoll board_api (polling 2) (other_ends ∷ []) own_ends fields written
polling-IsPoll = record {
  yields = refl;
  object = object;
  found = unfold find in refl;
  busy = refl;
  before = (omega arith, tt);
  own = refl;
  fields_IsField = fields-IsField;
  printed = refl;
  written = refl;
}

handle_softyield_poll_example :
    handle_softyield board_api always_200 (polling 2) (other_ends ∷ own_ends ∷ [])
    ≡ ok (record {
      host = answered board_api written (
          release_bare board_api 7 fetched (record {
            machine = (polling 2).machine;
            fetches = after_ends (other_ends ∷ own_ends ∷ []) (polling 2).fetches;
            calls = (polling 2).calls;
          }));
      later = [];
      success = true;
    })
handle_softyield_poll_example =
    handle_softyield_poll board_api always_200 (polling 2) (other_ends ∷ []) own_ends [] fields
      written polling-IsPoll

abbrev loaded : FetchObject
loaded = record {
  uid = 0;
  fetch = record {
    ready_state = 4;
    status = 200;
    total_bytes = 2;
    body = 1 ∷ 2 ∷ [];
    response_headers = [];
  };
  body = [];
  done = true;
}

abbrev reading : Host board_api
reading = record {
  machine = record { a0 = 3; a1 = 7; a2 = 0x2000; blocks = [] };
  fetches = (7, loaded) ∷ [];
  calls = started 7 attr ∷ [];
}

abbrev body_written : Board
body_written = record { a0 = 3; a1 = 7; a2 = 0x2000; blocks = (0x2000, 1 ∷ 2 ∷ []) ∷ [] }

handle_softyield_body_example :
    handle_softyield board_api always_200 reading []
    ≡ ok (record {
      host = answered board_api body_written (record {
        machine = reading.machine;
        fetches = erase 7 reading.fetches;
        calls = closed 7 ∷ started 7 attr ∷ [];
      });
      later = [];
      success = true;
    })
handle_softyield_body_example =
    handle_softyield_body board_api always_200 reading [] loaded body_written
      (record { yields = refl; found = unfold find in refl; whole = omega arith; written = refl })

reading-IsHeld : IsHeld board_api reading
reading-IsHeld = record { unique = λ k. ground arith; balanced = λ k. ground arith }

reading-IsServed : IsServed board_api (yield_type (register board_api reading x10)) reading []
unfolding find
reading-IsServed o e =
    subst (λ (p : FetchObject). p.fetch.total_bytes ≤ length p.fetch.body)
      (some-injective loaded o e) (omega arith)

handle_softyield_returns_example :
    (r : Handled board_api) × (handle_softyield board_api always_200 reading [] ≡ ok r)
    × IsHeld board_api r.host
handle_softyield_returns_example =
    handle_softyield_returns board_api always_200 reading [] reading-IsServed reading-IsHeld

empty_res-IsFilling : IsFilling empty_res
unfolding empty_res
empty_res-IsFilling = record { rows = refl; row_sizes = rows-IsRow; counted = omega arith }

parse_headers-IsFilling_example :
    (res' : YieldMmioRes) × (parse_headers 6 (97 ∷ 58 ∷ 32 ∷ 98 ∷ 10 ∷ []) empty_res ≡ ok res')
    × IsFilling res'
    × Keeps empty_res res'
parse_headers-IsFilling_example =
    parse_headers-IsFilling 6 (97 ∷ 58 ∷ 32 ∷ 98 ∷ 10 ∷ []) empty_res (omega arith)
      empty_res-IsFilling

parse_headers-print_fields_example :
    parse_headers 8 (print_fields fields) empty_res
    ≡ ok (record empty_res { headers = fill_rows fields empty_res.headers; headers_count = 1 })
parse_headers-print_fields_example =
    parse_headers-print_fields fields 8 empty_res fields-IsField (omega arith)
      (unfold empty_res in refl) (unfold empty_res in refl)
