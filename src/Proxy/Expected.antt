-- ===== src/Proxy/Expected.antt =====
-- What a fetch for a request should be, told apart from `fill_mmio_req`: the URL in the scheme https, and
-- the fields that the browser does not add itself.
use webcm.Common.{ℕ, ◌≡◌, refl, List, [], ◌∷◌, ◌++◌, true, false, if◌then◌else◌}
use webcm.Proxy.Fill.{
  FieldName, user_agent, host, content_length, other, HttpField, HttpRequest, is_host, find_host,
  is_passed, url,
}

-- The value of the first field named `Host`, or nothing.
abbrev first_host : FieldName → List ℕ → List ℕ → List ℕ
first_host host value rest = value
first_host user_agent value rest = rest
first_host content_length value rest = rest
first_host other value rest = rest

abbrev pub host_of : List HttpField → List ℕ
host_of [] = []
host_of (f ∷ fs) = first_host f.name f.value (host_of fs)

-- `https://`, the host, and the target.
abbrev pub url_of : HttpRequest → List ℕ
url_of req = 104 ∷ 116 ∷ 116 ∷ 112 ∷ 115 ∷ 58 ∷ 47 ∷ 47 ∷ (host_of req.fields ++ req.target)

-- All but `User-Agent`, `Host` and `Content-Length`.
abbrev keep : FieldName → HttpField → List HttpField → List HttpField
keep user_agent f fs = fs
keep host f fs = fs
keep content_length f fs = fs
keep other f fs = f ∷ fs

abbrev pub passed : List HttpField → List HttpField
passed [] = []
passed (f ∷ fs) = keep f.name f (passed fs)

keep_if :
    (name : FieldName) (f : HttpField) (fs : List HttpField)
    → keep name f fs ≡ (if is_passed name then f ∷ fs else fs)
keep_if user_agent f fs = refl
keep_if host f fs = refl
keep_if content_length f fs = refl
keep_if other f fs = refl

pub passed_kept :
    (f : HttpField) (fs : List HttpField)
    → is_passed f.name ≡ true
    → passed (f ∷ fs) ≡ f ∷ passed fs
passed_kept f fs e = rw (keep_if f.name f (passed fs), e)

pub passed_dropped :
    (f : HttpField) (fs : List HttpField) → is_passed f.name ≡ false → passed (f ∷ fs) ≡ passed fs
passed_dropped f fs e = rw (keep_if f.name f (passed fs), e)

first_if :
    (name : FieldName) (value rest : List ℕ)
    → first_host name value rest ≡ (if is_host name then value else rest)
first_if user_agent value rest = refl
first_if host value rest = refl
first_if content_length value rest = refl
first_if other value rest = refl

host_of_lem : (fs : List HttpField) → find_host fs ≡ host_of fs
unfolding find_host
host_of_lem [] = refl
host_of_lem (f ∷ fs) = rw (first_if f.name f.value (host_of fs), host_of_lem fs)

pub url_of_lem : (req : HttpRequest) → url req ≡ url_of req
url_of_lem req = rw (host_of_lem req.fields)
