-- ===== src/Proxy/Filled.antt =====
-- What `fill_mmio_req` leaves in the structure, as C strings.
use webcm.Common.{
  subst, sym, set-append, ℕ, zero, suc, ◌+◌, ◌^◌, ◌<◌, ◌≡◌, refl, ◌∙◌, ap, List, [], ◌∷◌, ◌++◌,
  append_assoc, append-nil, All, le→leb, lt→leb_false, Bool-cases, inl, inr, min, replicate, length,
  length-append, take, get_elem?-append, ok, ◌>>=◌, read-some, arith,
}
use webcm.Mmio.Structs.{
  HeaderRow, YieldMmioReq, IsRow, IsReq, empty_req, empty_rows, strsvcopy, c_str,
}
use webcm.Mmio.Text.{IsText, length-strsvcopy, c_str-strsvcopy_size, Reads}
use webcm.Host.Headers.Bounds.{rows-IsRow}
use webcm.Proxy.Expected.{passed, passed_kept, passed_dropped, url_of, url_of_lem}
use webcm.Proxy.Fill.{
  HttpField, HttpRequest, is_passed, url, field_row, put_field, field_round, fill_fields,
  fill_mmio_req,
}

-- The first `n` fields, each part cut to 255 characters.
abbrev pub cut_fields : ℕ → List HttpField → List (List ℕ × List ℕ)
cut_fields zero fs = []
cut_fields (suc n) [] = []
cut_fields (suc n) (f ∷ fs) = (take 255 f.name_string, take 255 f.value) ∷ cut_fields n fs

abbrev put_rows : List HttpField → List HeaderRow → List HeaderRow
put_rows [] rows = rows
put_rows (f ∷ fs) [] = []
put_rows (f ∷ fs) (r ∷ rs) = field_row r f ∷ put_rows fs rs

put_rows-nil : (fs : List HttpField) → put_rows fs [] ≡ []
put_rows-nil [] = refl
put_rows-nil (f ∷ fs) = refl

-- The structure with these rows, the first of which are counted.
abbrev at_rows : YieldMmioReq → List HeaderRow → List HeaderRow → YieldMmioReq
at_rows m filled blank = record m { headers = filled ++ blank; headers_count = length filled }

put_field-at_rows :
    (m : YieldMmioReq) (filled blank : List HeaderRow) (r : HeaderRow) (f : HttpField)
    → put_field (at_rows m filled (r ∷ blank)) f
      ≡ ok (at_rows m (filled ++ (field_row r f ∷ [])) blank)
unfolding put_field
put_field-at_rows m filled blank r f =
    let row = field_row r f in
    rw
      (
        read-some (filled ++ (r ∷ blank)) (length filled) r (get_elem?-append filled r blank),
        set-append filled r row blank,
      )
      (ground (arith, length-append filled (row ∷ []), append_assoc filled (row ∷ []) blank))

fill_fields-at_rows :
    (fs : List HttpField) (m : YieldMmioReq) (filled blank : List HeaderRow)
    → length filled + length blank ≡ 64
    → 0 < length blank
    → fill_fields fs (at_rows m filled blank)
      ≡ ok (record m {
        headers = filled ++ put_rows (passed fs) blank;
        headers_count = length filled + min (length (passed fs)) (length blank);
      })
unfolding fill_fields field_round
fill_fields-at_rows [] m filled blank h k = ground arith
fill_fields-at_rows (f ∷ fs) m filled [] h k = absurd (omega arith)
fill_fields-at_rows (f ∷ fs) m filled (r ∷ []) h k = elim (Bool-cases (is_passed f.name)) [
  | inl kept ↦
      rw
        (
          passed_kept f fs kept,
          kept,
          put_field-at_rows m filled [] r f,
          le→leb 64 (length (filled ++ (field_row r f ∷ [])))
              (omega (arith, length-append filled (field_row r f ∷ []))),
        )
        (rw (append-nil (filled ++ (field_row r f ∷ [])), put_rows-nil (passed fs))
          (ground (arith, length-append filled (field_row r f ∷ []))))
  | inr dropped ↦
      rw (passed_dropped f fs dropped, dropped) (fill_fields-at_rows fs m filled (r ∷ []) h k)
]
fill_fields-at_rows (f ∷ fs) m filled (r ∷ s ∷ blank) h k = elim (Bool-cases (is_passed f.name)) [
  | inl kept ↦
      let wider = length-append filled (field_row r f ∷ []) in
      rw
        (
          passed_kept f fs kept,
          kept,
          put_field-at_rows m filled (s ∷ blank) r f,
          lt→leb_false 64 (length (filled ++ (field_row r f ∷ []))) (omega arith),
        )
        (fill_fields-at_rows fs m (filled ++ (field_row r f ∷ [])) (s ∷ blank) (omega arith)
            (omega arith)
          ∙ ground (
            arith,
            wider,
            append_assoc filled (field_row r f ∷ []) (put_rows (passed fs) (s ∷ blank)),
          ))
  | inr dropped ↦
      rw (passed_dropped f fs dropped, dropped)
        (fill_fields-at_rows fs m filled (r ∷ s ∷ blank) h k)
]

-- No part of a request holds a null byte.
abbrev pub IsTextField : HttpField → Type 0
IsTextField f = IsText f.name_string × IsText f.value

passed-IsTextField : (fs : List HttpField) → All IsTextField fs → All IsTextField (passed fs)
passed-IsTextField [] v = tt
passed-IsTextField (f ∷ fs) v = elim (Bool-cases (is_passed f.name)) [
  | inl kept ↦ rw (passed_kept f fs kept) (v.0, passed-IsTextField fs v.1)
  | inr dropped ↦ rw (passed_dropped f fs dropped) (passed-IsTextField fs v.1)
]

Reads-put_rows :
    (fs : List HttpField) (rows : List HeaderRow)
    → All IsTextField fs
    → All IsRow rows
    → Reads (put_rows fs rows) (cut_fields (length rows) fs)
Reads-put_rows [] [] v w = tt
Reads-put_rows [] (r ∷ rows) v w = tt
Reads-put_rows (f ∷ fs) [] v w = tt
Reads-put_rows (f ∷ fs) (r ∷ rows) v w = (
  (
    c_str-strsvcopy_size 255 r.name f.name_string w.0.0 v.0.0,
    c_str-strsvcopy_size 255 r.value f.value w.0.1 v.0.1,
  ),
  Reads-put_rows fs rows v.1 w.1,
)

length-cut_fields : (n : ℕ) (fs : List HttpField) → length (cut_fields n fs) ≡ min (length fs) n
length-cut_fields zero fs = omega arith
length-cut_fields (suc n) [] = omega arith
length-cut_fields (suc n) (f ∷ fs) = omega (arith, length-cut_fields n fs)

length-put_rows :
    (fs : List HttpField) (rows : List HeaderRow) → length (put_rows fs rows) ≡ length rows
length-put_rows [] rows = refl
length-put_rows (f ∷ fs) [] = refl
length-put_rows (f ∷ fs) (r ∷ rows) = ap suc (length-put_rows fs rows)

put_rows-IsRow :
    (fs : List HttpField) (rows : List HeaderRow) → All IsRow rows → All IsRow (put_rows fs rows)
put_rows-IsRow [] rows w = w
put_rows-IsRow (f ∷ fs) [] w = tt
put_rows-IsRow (f ∷ fs) (r ∷ rows) w = (
  (length-strsvcopy r.name f.name_string ∙ w.0.0, length-strsvcopy r.value f.value ∙ w.0.1),
  put_rows-IsRow fs rows w.1,
)

pub record IsTextRequest (req : HttpRequest) (body_vaddr : ℕ) : Type 0 where
  pub fields_text : All IsTextField req.fields
  pub method_text : IsText req.method_string
  pub url_text : IsText (url_of req)
  pub vaddr_u64 : body_vaddr < 2 ^ 64
  pub body_u64 : length req.body < 2 ^ 64

-- The structure holds the request, each part cut to its array.
pub record IsFilled (req : HttpRequest) (body_vaddr : ℕ) (r : YieldMmioReq) : Type 0 where
  pub formed : IsReq r
  pub texts : Reads r.headers (cut_fields 64 (passed req.fields))
  pub counted : r.headers_count ≡ length (cut_fields 64 (passed req.fields))
  pub method_text : c_str r.method ≡ ok (take 31 req.method_string)
  pub url_text : c_str r.url ≡ ok (take 4095 (url_of req))
  pub same_vaddr : r.body_vaddr ≡ body_vaddr
  pub same_length : r.body_length ≡ length req.body

-- For a request with no null bytes, whose body has a place and a length of 64 bits, the code fills an
-- empty structure with no access outside its arrays: it holds the URL, the method,
-- and the first 64 fields but for `User-Agent`, `Host` and `Content-Length`, each cut to its array.
pub fill_mmio_req-IsFilled :
    (req : HttpRequest) (body_vaddr : ℕ)
    → IsTextRequest req body_vaddr
    → (r : YieldMmioReq) × (fill_mmio_req empty_req req body_vaddr ≡ ok r)
      × IsFilled req body_vaddr r
unfolding fill_mmio_req empty_req
fill_mmio_req-IsFilled req body_vaddr v =
    let fs = passed req.fields in
    let start : YieldMmioReq = record empty_req {
      url = strsvcopy (replicate 4096 0) (url req);
      method = strsvcopy (replicate 32 0) req.method_string;
    } in
    let ws = passed-IsTextField req.fields v.fields_text in
    (
      _,
      ap
          (λ o. o >>= (λ (filled : YieldMmioReq).
            ok (record filled { body_vaddr = body_vaddr; body_length = length req.body })))
          (fill_fields-at_rows req.fields start [] empty_rows refl (omega arith)),
      record {
        formed = record {
          count_u64 = omega arith;
          vaddr_u64 = v.vaddr_u64;
          body_u64 = v.body_u64;
          url_size = length-strsvcopy (replicate 4096 0) (url req);
          method_size = length-strsvcopy (replicate 32 0) req.method_string;
          rows = length-put_rows fs empty_rows;
          row_sizes = put_rows-IsRow fs empty_rows rows-IsRow;
        };
        texts = Reads-put_rows fs empty_rows ws rows-IsRow;
        counted = omega (arith, length-cut_fields 64 fs);
        method_text = c_str-strsvcopy_size 31 (replicate 32 0) req.method_string refl v.method_text;
        url_text =
            c_str-strsvcopy_size 4095 (replicate 4096 0) (url req) refl
              (subst IsText (sym (url_of_lem req)) v.url_text)
            ∙ ap (λ u. ok (take 4095 u)) (url_of_lem req);
        same_vaddr = refl;
        same_length = refl;
      },
    )
