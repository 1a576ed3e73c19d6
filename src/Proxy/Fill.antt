-- ===== src/Proxy/Fill.antt =====
-- `fill_mmio_req` of https-proxy/https-proxy.cpp. A request is what Boost.Beast's parser makes of it,
-- its fields in their order, each with what `name()` says of its name.
use webcm.Common.{
  ℕ, ◌+◌, List, [], ◌∷◌, ◌++◌, Bool, true, false, leb, if◌then◌else◌, length, set, Outcome, ok,
  ◌>>=◌, read,
}
use webcm.Mmio.Structs.{HeaderRow, YieldMmioReq, strsvcopy}

-- `http::field`, as far as it is asked for.
pub data FieldName : Type 0 where
  user_agent host content_length other : FieldName

pub record HttpField : Type 0 where
  pub name : FieldName
  pub name_string : List ℕ
  pub value : List ℕ

pub record HttpRequest : Type 0 where
  pub version : ℕ
  pub method_string : List ℕ
  pub target : List ℕ
  pub fields : List HttpField
  pub body : List ℕ

abbrev pub is_host : FieldName → Bool
is_host host = true
is_host user_agent = false
is_host content_length = false
is_host other = false

-- `req["Host"]`: the first field of that name, or nothing.
unfoldable pub find_host : List HttpField → List ℕ
find_host [] = []
find_host (f ∷ fs) = if is_host f.name then f.value else find_host fs

-- `https://`
abbrev pub scheme : List ℕ
scheme = 104 ∷ 116 ∷ 116 ∷ 112 ∷ 115 ∷ 58 ∷ 47 ∷ 47 ∷ []

abbrev pub url : HttpRequest → List ℕ
url req = scheme ++ (find_host req.fields ++ req.target)

-- The condition on `field.name()`.
abbrev pub is_passed : FieldName → Bool
is_passed user_agent = false
is_passed host = false
is_passed content_length = false
is_passed other = true

abbrev pub field_row : HeaderRow → HttpField → HeaderRow
field_row row field = record {
  name = strsvcopy row.name field.name_string;
  value = strsvcopy row.value field.value;
}

-- The row at `headers_count` is filled, and counted.
unfoldable pub put_field : YieldMmioReq → HttpField → Outcome YieldMmioReq
unfolding read strsvcopy
put_field mmio_req field = do
  row ← read mmio_req.headers mmio_req.headers_count
  ok (record mmio_req {
    headers = set mmio_req.headers mmio_req.headers_count (field_row row field);
    headers_count = mmio_req.headers_count + 1;
  })

-- One round, with the rounds behind it.
unfoldable pub field_round :
    (YieldMmioReq → Outcome YieldMmioReq) → YieldMmioReq → HttpField → Outcome YieldMmioReq
unfolding put_field
field_round go_on mmio_req field =
    let put = (do
      mmio_req' ← put_field mmio_req field
      if leb 64 mmio_req'.headers_count then ok mmio_req' else go_on mmio_req') in
    if is_passed field.name then put else go_on mmio_req

unfoldable pub fill_fields : List HttpField → YieldMmioReq → Outcome YieldMmioReq
unfolding field_round
fill_fields [] mmio_req = ok mmio_req
fill_fields (field ∷ fields) mmio_req = field_round (fill_fields fields) mmio_req field

-- The body stays where the request has it, at `body_vaddr`.
unfoldable pub fill_mmio_req : YieldMmioReq → HttpRequest → ℕ → Outcome YieldMmioReq
unfolding find_host strsvcopy fill_fields
fill_mmio_req mmio_req req body_vaddr = do
  filled ← fill_fields req.fields (record mmio_req {
    url = strsvcopy mmio_req.url (url req);
    method = strsvcopy mmio_req.method req.method_string;
    headers_count = 0;
  })
  ok (record filled { body_vaddr = body_vaddr; body_length = length req.body })
