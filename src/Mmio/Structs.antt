-- ===== src/Mmio/Structs.antt =====
-- `yield_type`, `yield_mmio_req`, `yield_mmio_res` and `strsvcopy`, of https-proxy/https-proxy.cpp and
-- of webcm.cpp. A `char` is a byte, an array is the list of its elements.
use webcm.Common.{
  ℕ, zero, suc, ◌-◌, ◌^◌, ◌<◌, ◌≡◌, List, [], ◌∷◌, ◌++◌, min, length, take, drop, set, replicate,
  All, Outcome, ok, fault, ◌>>=◌, ◌==◌, if◌then◌else◌,
}

pub data YieldType : Type 0 where
  invalid request poll_response poll_response_body : YieldType

-- The values of the enumeration, and the cast from `uint64_t`, whose other values end in `default`.
abbrev pub yield_code : YieldType → ℕ
yield_code invalid = 0
yield_code request = 1
yield_code poll_response = 2
yield_code poll_response_body = 3

abbrev pub yield_type : ℕ → YieldType
yield_type zero = invalid
yield_type (suc zero) = request
yield_type (suc (suc zero)) = poll_response
yield_type (suc (suc (suc zero))) = poll_response_body
yield_type _ = invalid

-- A row of `char headers[64][2][256]`.
pub record HeaderRow : Type 0 where
  pub name : List ℕ
  pub value : List ℕ

pub record YieldMmioReq : Type 0 where
  pub headers_count : ℕ
  pub body_vaddr : ℕ
  pub body_length : ℕ
  pub url : List ℕ
  pub method : List ℕ
  pub headers : List HeaderRow

pub record YieldMmioRes : Type 0 where
  pub ready_state : ℕ
  pub status : ℕ
  pub body_total_length : ℕ
  pub headers_count : ℕ
  pub headers : List HeaderRow

-- The members' initialisers: zeros.
abbrev pub empty_rows : List HeaderRow
empty_rows = replicate 64 (record { name = replicate 256 0; value = replicate 256 0 })

unfoldable pub empty_req : YieldMmioReq
empty_req = record {
  headers_count = 0;
  body_vaddr = 0;
  body_length = 0;
  url = replicate 4096 0;
  method = replicate 32 0;
  headers = empty_rows;
}

unfoldable pub empty_res : YieldMmioRes
empty_res = record {
  ready_state = 0;
  status = 0;
  body_total_length = 0;
  headers_count = 0;
  headers = empty_rows;
}

-- `memcpy(dest, sv.data(), min(sv.length(), N)); dest[min(sv.length(), N - 1)] = 0;`
unfoldable pub strsvcopy : List ℕ → List ℕ → List ℕ
strsvcopy dest sv =
    let n = length dest in
    let copied = take (min (length sv) n) sv ++ drop (min (length sv) n) dest in
    set copied (min (length sv) (n - 1)) 0

-- The text that a `char` pointer to the array stands for: what is before the first null byte. To look
-- for that byte past the array is a fault.
unfoldable pub c_str : List ℕ → Outcome (List ℕ)
c_str [] = fault
c_str (c ∷ cs) = let rest = (do text ← c_str cs; ok (c ∷ text)) in if c == 0 then ok [] else rest

-- The sizes that the declarations give.
abbrev pub IsRow : HeaderRow → Type 0
IsRow r = (length r.name ≡ 256) × (length r.value ≡ 256)

pub record IsReq (r : YieldMmioReq) : Type 0 where
  pub count_u64 : r.headers_count < 2 ^ 64
  pub vaddr_u64 : r.body_vaddr < 2 ^ 64
  pub body_u64 : r.body_length < 2 ^ 64
  pub url_size : length r.url ≡ 4096
  pub method_size : length r.method ≡ 32
  pub rows : length r.headers ≡ 64
  pub row_sizes : All IsRow r.headers

pub record IsRes (r : YieldMmioRes) : Type 0 where
  pub state_u64 : r.ready_state < 2 ^ 64
  pub status_u64 : r.status < 2 ^ 64
  pub body_u64 : r.body_total_length < 2 ^ 64
  pub count_u64 : r.headers_count < 2 ^ 64
  pub rows : length r.headers ≡ 64
  pub row_sizes : All IsRow r.headers
