-- ===== src/Mmio/Tests.antt =====
-- Copies and layouts at concrete inputs.
use webcm.Common.{ℕ, zero, suc, ◌≡◌, refl, [], ◌∷◌, replicate, ok, All, arith}
use webcm.Mmio.Structs.{
  HeaderRow, YieldMmioReq, YieldMmioRes, IsRow, IsReq, IsRes, strsvcopy, c_str,
}
use webcm.Mmio.Text.{c_str-strsvcopy}
use webcm.Mmio.Layout.{
  encode_req, decode_req, encode_res, decode_res, decode_req-encode_req, decode_res-encode_res,
}

-- A text of five characters in an array of four is cut to three.
strsvcopy_cut : strsvcopy (9 ∷ 9 ∷ 9 ∷ 9 ∷ []) (1 ∷ 2 ∷ 3 ∷ 4 ∷ 5 ∷ []) ≡ 1 ∷ 2 ∷ 3 ∷ 0 ∷ []
unfolding strsvcopy
strsvcopy_cut = refl

c_str-strsvcopy_example :
    c_str (strsvcopy (9 ∷ 9 ∷ 9 ∷ 9 ∷ []) (1 ∷ 2 ∷ 3 ∷ 4 ∷ 5 ∷ [])) ≡ ok (1 ∷ 2 ∷ 3 ∷ [])
c_str-strsvcopy_example =
    c_str-strsvcopy (9 ∷ 9 ∷ 9 ∷ 9 ∷ []) (1 ∷ 2 ∷ 3 ∷ 4 ∷ 5 ∷ []) (omega arith)
      (omega arith, (omega arith, (omega arith, (omega arith, (omega arith, tt)))))

-- `a: b`, in each of the rows.
abbrev row : HeaderRow
row = record { name = 97 ∷ replicate 255 0; value = 98 ∷ replicate 255 0 }

All-replicate : (n : ℕ) → All IsRow (replicate n row)
All-replicate zero = tt
All-replicate (suc n) = ((refl, refl), All-replicate n)

abbrev req : YieldMmioReq
req = record {
  headers_count = 64;
  body_vaddr = 0x10000;
  body_length = 300;
  url = 104 ∷ replicate 4095 0;
  method = 71 ∷ replicate 31 0;
  headers = replicate 64 row;
}

req-IsReq : IsReq req
req-IsReq = record {
  count_u64 = omega arith;
  vaddr_u64 = omega arith;
  body_u64 = omega arith;
  url_size = refl;
  method_size = refl;
  rows = refl;
  row_sizes = All-replicate 64;
}

decode_req-encode_req_example : decode_req (encode_req req) ≡ req
decode_req-encode_req_example = decode_req-encode_req req req-IsReq

abbrev res : YieldMmioRes
res = record {
  ready_state = 4;
  status = 200;
  body_total_length = 300;
  headers_count = 64;
  headers = replicate 64 row;
}

res-IsRes : IsRes res
res-IsRes = record {
  state_u64 = omega arith;
  status_u64 = omega arith;
  body_u64 = omega arith;
  count_u64 = omega arith;
  rows = refl;
  row_sizes = All-replicate 64;
}

decode_res-encode_res_example : decode_res (encode_res res) ≡ res
decode_res-encode_res_example = decode_res-encode_res res res-IsRes
