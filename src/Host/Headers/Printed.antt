-- ===== src/Host/Headers/Printed.antt =====
-- Response headers as the browser prints them, read back.
use webcm.Common.{
  set-append, ℕ, zero, suc, ◌+◌, ◌<◌, ◌≡◌, ◌≢◌, refl, ap, ◌∙◌, List, [], ◌∷◌, ◌++◌, append_assoc,
  lt→ltb, le→ltb_false, ne→==_false, some, length, length-append, get_elem?-append, All, Outcome,
  ok, ◌>>=◌, read-some, min, arith,
}
use webcm.Mmio.Structs.{HeaderRow, YieldMmioRes}
use webcm.Mmio.Text.{written, strsvcopy-written}
use webcm.Host.Headers.{
  split_line, remove_cr, split_colon, copy_row, add_header, add_line, add_found, header_round,
  parse_headers,
}

pub record Field : Type 0 where
  pub name : List ℕ
  pub value : List ℕ

-- A name has no colon, and neither part has a line feed; a name is not empty.
abbrev pub IsNameChar : ℕ → Type 0
IsNameChar c = (c ≢ 10) × (c ≢ 58)

abbrev pub IsField : Field → Type 0
IsField f = (0 < length f.name) × All IsNameChar f.name × All (λ c. c ≢ 10) f.value

-- `name: value` and its line's end.
abbrev pub print_field : Field → List ℕ → List ℕ
print_field f rest = (f.name ++ (58 ∷ 32 ∷ (f.value ++ (13 ∷ [])))) ++ (10 ∷ rest)

-- The fields, and the null byte behind them.
abbrev pub print_fields : List Field → List ℕ
print_fields [] = 0 ∷ []
print_fields (f ∷ fs) = print_field f (print_fields fs)

split_line-append :
    (line rest : List ℕ)
    → All (λ c. c ≢ 10) line
    → split_line (line ++ (10 ∷ rest)) ≡ some (line, rest)
unfolding split_line
split_line-append [] rest v = refl
split_line-append (c ∷ line) rest v = rw (ne→==_false c 10 v.0, split_line-append line rest v.1)

remove_cr-append : (xs : List ℕ) → remove_cr (xs ++ (13 ∷ [])) ≡ xs
unfolding remove_cr
remove_cr-append [] = refl
remove_cr-append (x ∷ []) = refl
remove_cr-append (x ∷ y ∷ xs) = ap (◌∷◌ x) (remove_cr-append (y ∷ xs))

split_colon-append :
    (name value : List ℕ)
    → All IsNameChar name
    → split_colon (name ++ (58 ∷ 32 ∷ value)) ≡ some (name, value)
unfolding split_colon
split_colon-append [] value v = refl
split_colon-append (c ∷ []) value v = rw (ne→==_false c 58 v.0.1)
split_colon-append (c ∷ d ∷ name) value v =
    rw (ne→==_false c 58 v.0.1, split_colon-append (d ∷ name) value v.1)

-- What the fields leave in the rows from a place on, as long as there are rows: the name of each in the
-- first array of a row, and its value in the second.
abbrev pub fill_rows : List Field → List HeaderRow → List HeaderRow
fill_rows [] rows = rows
fill_rows (f ∷ fs) [] = []
fill_rows (f ∷ fs) (r ∷ rs) =
    record { name = written r.name f.name; value = written r.value f.value } ∷ fill_rows fs rs

-- The rows that the code copies are these.
abbrev copied_rows : List Field → List HeaderRow → List HeaderRow
copied_rows [] rows = rows
copied_rows (f ∷ fs) [] = []
copied_rows (f ∷ fs) (r ∷ rs) = copy_row r f.name f.value ∷ copied_rows fs rs

copy_row-written :
    (r : HeaderRow) (name value : List ℕ)
    → copy_row r name value ≡ record { name = written r.name name; value = written r.value value }
unfolding copy_row
copy_row-written r name value = rw (strsvcopy-written r.name name, strsvcopy-written r.value value)

copied-fill_rows :
    (fs : List Field) (rows : List HeaderRow) → copied_rows fs rows ≡ fill_rows fs rows
copied-fill_rows [] rows = refl
copied-fill_rows (f ∷ fs) [] = refl
copied-fill_rows (f ∷ fs) (r ∷ rs) = rw (copy_row-written r f.name f.value, copied-fill_rows fs rs)

-- The response with these rows, the first of which are counted.
abbrev with_rows : YieldMmioRes → List HeaderRow → List HeaderRow → YieldMmioRes
with_rows res filled blank = record res { headers = filled ++ blank; headers_count = length filled }

add_header-with_rows :
    (res : YieldMmioRes) (filled blank : List HeaderRow) (r : HeaderRow) (name value : List ℕ)
    → add_header (with_rows res filled (r ∷ blank)) name value
      ≡ ok (with_rows res (filled ++ (copy_row r name value ∷ [])) blank)
unfolding add_header
add_header-with_rows res filled blank r name value =
    let row = copy_row r name value in
    rw
      (
        read-some (filled ++ (r ∷ blank)) (length filled) r (get_elem?-append filled r blank),
        set-append filled r row blank,
      )
      (ground (arith, length-append filled (row ∷ []), append_assoc filled (row ∷ []) blank))

All-append : (P : ℕ → Type 0) (xs ys : List ℕ) → All P xs → All P ys → All P (xs ++ ys)
All-append P [] ys v w = w
All-append P (x ∷ xs) ys v w = (v.0, All-append P xs ys v.1 w)

All-name : (xs : List ℕ) → All IsNameChar xs → All (λ c. c ≢ 10) xs
All-name [] v = tt
All-name (x ∷ xs) v = (v.0.0, All-name xs v.1)

line-IsLine :
    (f : Field) → IsField f → All (λ c. c ≢ 10) (f.name ++ (58 ∷ 32 ∷ (f.value ++ (13 ∷ []))))
line-IsLine f v =
    All-append (λ c. c ≢ 10) f.name (58 ∷ 32 ∷ (f.value ++ (13 ∷ []))) (All-name f.name v.1)
      (omega arith, (omega arith, All-append (λ c. c ≢ 10) f.value (13 ∷ []) v.2 (omega arith)))

add_line-print :
    (res : YieldMmioRes) (filled blank : List HeaderRow) (r : HeaderRow) (f : Field)
    → IsField f
    → add_line (with_rows res filled (r ∷ blank)) (f.name ++ (58 ∷ 32 ∷ (f.value ++ (13 ∷ []))))
      ≡ ok (with_rows res (filled ++ (copy_row r f.name f.value ∷ [])) blank)
unfolding add_line
add_line-print res filled blank r f v =
    rw
      (
        ← append_assoc f.name (58 ∷ 32 ∷ f.value) (13 ∷ []),
        remove_cr-append (f.name ++ (58 ∷ 32 ∷ f.value)),
        split_colon-append f.name f.value v.1,
      )
      (unfold add_found in add_header-with_rows res filled blank r f.name f.value)

header_round-print :
    (go_on : List ℕ → YieldMmioRes → Outcome YieldMmioRes) (res : YieldMmioRes) (f : Field)
    (rest : List ℕ)
    → IsField f
    → header_round go_on res (split_line (print_field f rest))
      ≡ (add_line res (f.name ++ (58 ∷ 32 ∷ (f.value ++ (13 ∷ [])))) >>= go_on rest)
header_round-print go_on res f rest v =
    rw (split_line-append (f.name ++ (58 ∷ 32 ∷ (f.value ++ (13 ∷ [])))) rest (line-IsLine f v))
      (not_empty f.name v.0)
  where
    not_empty :
        (name : List ℕ)
        → 0 < length name
        → header_round go_on res (some (name ++ (58 ∷ 32 ∷ (f.value ++ (13 ∷ []))), rest))
          ≡ (add_line res (name ++ (58 ∷ 32 ∷ (f.value ++ (13 ∷ [])))) >>= go_on rest)
    not_empty [] h = absurd (omega arith)
    not_empty (c ∷ name) h = unfold header_round in refl

parse_headers-with_rows :
    (fs : List Field) (fuel : ℕ) (res : YieldMmioRes) (filled blank : List HeaderRow)
    → All IsField fs
    → length (print_fields fs) < fuel
    → length filled + length blank ≡ 64
    → parse_headers fuel (print_fields fs) (with_rows res filled blank)
      ≡ ok (record res {
        headers = filled ++ copied_rows fs blank;
        headers_count = length filled + min (length fs) (length blank);
      })
unfolding parse_headers
parse_headers-with_rows fs zero res filled blank v h k = absurd (omega arith)
parse_headers-with_rows [] (suc fuel) res filled blank v h k = ground arith
parse_headers-with_rows (f ∷ fs) (suc fuel) res filled [] v h k =
    rw (le→ltb_false (length filled) 64 (omega arith)) (ground arith)
parse_headers-with_rows (f ∷ fs) (suc fuel) res filled (r ∷ blank) v h k =
    let row = copy_row r f.name f.value in
    let line = f.name ++ (58 ∷ 32 ∷ (f.value ++ (13 ∷ []))) in
    let wider = length-append filled (row ∷ []) in
    rw
      (
        lt→ltb (length filled) 64 (omega arith),
        header_round-print (parse_headers fuel) (with_rows res filled (r ∷ blank)) f
            (print_fields fs) v.0,
        add_line-print res filled blank r f v.0,
      )
      (parse_headers-with_rows fs fuel res (filled ++ (row ∷ [])) blank v.1
          (omega (arith, length-append line (10 ∷ print_fields fs))) (omega arith)
        ∙ ground (arith, append_assoc filled (row ∷ []) (copied_rows fs blank)))

-- Fields that are well formed, printed one by one, with more fuel than characters, are read into the
-- 64 rows of a response that counts none, in their order, as long as there
-- are rows, and counted; the other rows and members stay as they were.
pub parse_headers-print_fields :
    (fs : List Field) (fuel : ℕ) (res : YieldMmioRes)
    → All IsField fs
    → length (print_fields fs) < fuel
    → length res.headers ≡ 64
    → res.headers_count ≡ 0
    → parse_headers fuel (print_fields fs) res
      ≡ ok (record res { headers = fill_rows fs res.headers; headers_count = min (length fs) 64 })
parse_headers-print_fields fs fuel res v h k z =
    ap (parse_headers fuel (print_fields fs)) {y = with_rows res [] res.headers} (ground arith)
    ∙ parse_headers-with_rows fs fuel res [] res.headers v h (omega arith)
    ∙ rw (copied-fill_rows fs res.headers) (ground arith)
