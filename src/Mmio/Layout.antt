-- ===== src/Mmio/Layout.antt =====
-- The bytes of the structures in memory: `(uint8_t*)(&mmio_req)`. Both programs are little-endian and
-- lay the members out in their order, with no padding between them.
use webcm.Common.{
  ℕ, zero, suc, ◌+◌, ◌*◌, ◌/◌, ◌%◌, ◌^◌, ◌<◌, ◌≡◌, refl, sym, ap, ◌∙◌, List, [], ◌∷◌, ◌++◌, length,
  take, drop, take-append, drop-append, All, length-append, arith,
}
use webcm.Mmio.Structs.{HeaderRow, YieldMmioReq, YieldMmioRes, IsRow, IsReq, IsRes}
use native.Mathlib.Nat.{pow-suc}

unfoldable pub encode_le : ℕ → ℕ → List ℕ
encode_le zero x = []
encode_le (suc n) x = x % 256 ∷ encode_le n (x / 256)

unfoldable pub decode_le : List ℕ → ℕ
decode_le [] = 0
decode_le (b ∷ bs) = b + 256 * decode_le bs

unfoldable pub encode_rows : List HeaderRow → List ℕ
encode_rows [] = []
encode_rows (r ∷ rs) = r.name ++ (r.value ++ encode_rows rs)

unfoldable pub decode_rows : ℕ → List ℕ → List HeaderRow
decode_rows zero bytes = []
decode_rows (suc n) bytes =
    record { name = take 256 bytes; value = take 256 (drop 256 bytes) }
    ∷ decode_rows n (drop 256 (drop 256 bytes))

unfoldable pub encode_req : YieldMmioReq → List ℕ
encode_req r =
    encode_le 8 r.headers_count
    ++ (encode_le 8 r.body_vaddr
        ++ (encode_le 8 r.body_length ++ (r.url ++ (r.method ++ encode_rows r.headers))))

unfoldable pub decode_req : List ℕ → YieldMmioReq
decode_req bytes =
    let at_vaddr = drop 8 bytes in
    let at_length = drop 8 at_vaddr in
    let at_url = drop 8 at_length in
    let at_method = drop 4096 at_url in
    record {
      headers_count = decode_le (take 8 bytes);
      body_vaddr = decode_le (take 8 at_vaddr);
      body_length = decode_le (take 8 at_length);
      url = take 4096 at_url;
      method = take 32 at_method;
      headers = decode_rows 64 (drop 32 at_method);
    }

unfoldable pub encode_res : YieldMmioRes → List ℕ
encode_res r =
    encode_le 8 r.ready_state
    ++ (encode_le 8 r.status
        ++ (encode_le 8 r.body_total_length
            ++ (encode_le 8 r.headers_count ++ encode_rows r.headers)))

unfoldable pub decode_res : List ℕ → YieldMmioRes
decode_res bytes =
    let at_status = drop 8 bytes in
    let at_length = drop 8 at_status in
    let at_count = drop 8 at_length in
    record {
      ready_state = decode_le (take 8 bytes);
      status = decode_le (take 8 at_status);
      body_total_length = decode_le (take 8 at_length);
      headers_count = decode_le (take 8 at_count);
      headers = decode_rows 64 (drop 8 at_count);
    }

-- `sizeof(yield_mmio_req)` and `sizeof(yield_mmio_res)`.
abbrev pub sizeof_req : ℕ
sizeof_req = 8 + 8 + 8 + 4096 + 32 + 64 * 2 * 256

abbrev pub sizeof_res : ℕ
sizeof_res = 8 + 8 + 8 + 8 + 64 * 2 * 256

length-encode_le : (n x : ℕ) → length (encode_le n x) ≡ n
unfolding encode_le
length-encode_le zero x = refl
length-encode_le (suc n) x = ap suc (length-encode_le n (x / 256))

decode_le-encode_le : (n x : ℕ) → x < 256 ^ n → decode_le (encode_le n x) ≡ x
unfolding encode_le decode_le
decode_le-encode_le zero x h = omega arith
decode_le-encode_le (suc n) x h =
    omega (arith, decode_le-encode_le n (x / 256) (omega (arith, pow-suc 256 n)))

take_front : (n : ℕ) (xs ys : List ℕ) → length xs ≡ n → take n (xs ++ ys) ≡ xs
take_front n xs ys h = ap (λ k. take k (xs ++ ys)) (sym h) ∙ take-append xs ys

drop_front : (n : ℕ) (xs ys : List ℕ) → length xs ≡ n → drop n (xs ++ ys) ≡ ys
drop_front n xs ys h = ap (λ k. drop k (xs ++ ys)) (sym h) ∙ drop-append xs ys

decode_rows-encode_rows :
    (rs : List HeaderRow) → All IsRow rs → decode_rows (length rs) (encode_rows rs) ≡ rs
unfolding encode_rows decode_rows
decode_rows-encode_rows [] v = refl
decode_rows-encode_rows (r ∷ rs) v = rw (
  take_front 256 r.name (r.value ++ encode_rows rs) v.0.0,
  drop_front 256 r.name (r.value ++ encode_rows rs) v.0.0,
  take_front 256 r.value (encode_rows rs) v.0.1,
  drop_front 256 r.value (encode_rows rs) v.0.1,
  decode_rows-encode_rows rs v.1,
)

decode_64_rows :
    (rs : List HeaderRow) → length rs ≡ 64 → All IsRow rs → decode_rows 64 (encode_rows rs) ≡ rs
decode_64_rows rs h v =
    ap (λ n. decode_rows n (encode_rows rs)) (sym h) ∙ decode_rows-encode_rows rs v

drop_u64 : (x : ℕ) (ys : List ℕ) → drop 8 (encode_le 8 x ++ ys) ≡ ys
drop_u64 x ys = drop_front 8 (encode_le 8 x) ys (length-encode_le 8 x)

decode_u64 : (x : ℕ) (ys : List ℕ) → x < 2 ^ 64 → decode_le (take 8 (encode_le 8 x ++ ys)) ≡ x
decode_u64 x ys h =
    ap decode_le (take_front 8 (encode_le 8 x) ys (length-encode_le 8 x))
    ∙ decode_le-encode_le 8 x h

length-encode_rows :
    (rs : List HeaderRow) → All IsRow rs → length (encode_rows rs) ≡ 512 * length rs
unfolding encode_rows
length-encode_rows [] v = omega arith
length-encode_rows (r ∷ rs) v = omega (
  arith,
  length-append r.name (r.value ++ encode_rows rs),
  length-append r.value (encode_rows rs),
  length-encode_rows rs v.1,
)

-- A request whose members have the sizes of their declarations is read back from its bytes.
pub decode_req-encode_req : (r : YieldMmioReq) → IsReq r → decode_req (encode_req r) ≡ r
unfolding encode_req decode_req
decode_req-encode_req r v =
    let rows = encode_rows r.headers in
    let from_method = r.method ++ rows in
    let from_url = r.url ++ from_method in
    let from_length = encode_le 8 r.body_length ++ from_url in
    let from_vaddr = encode_le 8 r.body_vaddr ++ from_length in
    rw (
      drop_u64 r.headers_count from_vaddr,
      drop_u64 r.body_vaddr from_length,
      drop_u64 r.body_length from_url,
      drop_front 4096 r.url from_method v.url_size,
      drop_front 32 r.method rows v.method_size,
      decode_u64 r.headers_count from_vaddr v.count_u64,
      decode_u64 r.body_vaddr from_length v.vaddr_u64,
      decode_u64 r.body_length from_url v.body_u64,
      take_front 4096 r.url from_method v.url_size,
      take_front 32 r.method rows v.method_size,
      decode_64_rows r.headers v.rows v.row_sizes,
    )

-- A response whose members have the sizes of their declarations is read back from its bytes.
pub decode_res-encode_res : (r : YieldMmioRes) → IsRes r → decode_res (encode_res r) ≡ r
unfolding encode_res decode_res
decode_res-encode_res r v =
    let rows = encode_rows r.headers in
    let from_count = encode_le 8 r.headers_count ++ rows in
    let from_length = encode_le 8 r.body_total_length ++ from_count in
    let from_status = encode_le 8 r.status ++ from_length in
    rw (
      drop_u64 r.ready_state from_status,
      drop_u64 r.status from_length,
      drop_u64 r.body_total_length from_count,
      drop_u64 r.headers_count rows,
      decode_u64 r.ready_state from_status v.state_u64,
      decode_u64 r.status from_length v.status_u64,
      decode_u64 r.body_total_length from_count v.body_u64,
      decode_u64 r.headers_count rows v.count_u64,
      decode_64_rows r.headers v.rows v.row_sizes,
    )

-- A request takes as many bytes as the host reads.
pub length-encode_req : (r : YieldMmioReq) → IsReq r → length (encode_req r) ≡ sizeof_req
unfolding encode_req
length-encode_req r v =
    let rows = encode_rows r.headers in
    omega (
      arith,
      length-append (encode_le 8 r.headers_count) (
          encode_le 8 r.body_vaddr ++ (encode_le 8 r.body_length ++ (r.url ++ (r.method ++ rows)))),
      length-append (encode_le 8 r.body_vaddr)
          (encode_le 8 r.body_length ++ (r.url ++ (r.method ++ rows))),
      length-append (encode_le 8 r.body_length) (r.url ++ (r.method ++ rows)),
      length-append r.url (r.method ++ rows),
      length-append r.method rows,
      length-encode_le 8 r.headers_count,
      length-encode_le 8 r.body_vaddr,
      length-encode_le 8 r.body_length,
      length-encode_rows r.headers v.row_sizes,
    )
