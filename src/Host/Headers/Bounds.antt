-- ===== src/Host/Headers/Bounds.antt =====
-- The loop over the response headers ends and stays inside the array, on any text.
use webcm.Common.{
  replicate, ℕ, zero, suc, ◌+◌, ◌≤◌, ◌<◌, ◌≡◌, refl, ◌∙◌, inl, inr, List, [], ◌∷◌, Bool-cases,
  ltb→lt, ltb, ◌==◌, Option, none, some, length, length-set, get_elem?, set, All, get_elem?_lt,
  read-some, Outcome, ok, arith,
}
use webcm.Mmio.Structs.{empty_rows, HeaderRow, YieldMmioRes, IsRow}
use webcm.Mmio.Text.{length-strsvcopy}
use webcm.Host.Headers.{
  before, split_line, remove_cr, split_colon, copy_row, add_header, add_found, header_round,
  parse_headers,
}

-- A line and its end leave less text.
abbrev Shorter : ℕ → Option (List ℕ × List ℕ) → Type 0
Shorter n none = Unit
Shorter n (some (line, after)) = length after < n

Shorter-before :
    (n c : ℕ) (o : Option (List ℕ × List ℕ)) → Shorter n o → Shorter (suc n) (before c o)
Shorter-before n c none h = tt
Shorter-before n c (some (line, after)) h = omega arith

split_line-Shorter : (text : List ℕ) → Shorter (length text) (split_line text)
unfolding split_line
split_line-Shorter [] = tt
split_line-Shorter (c ∷ cs) = elim (Bool-cases (c == 10)) [
  | inl stop ↦ rw stop (omega arith)
  | inr more ↦ rw more (Shorter-before (length cs) c (split_line cs) (split_line-Shorter cs))
]

-- The array has its size, and the count stays inside it.
pub record IsFilling (res : YieldMmioRes) : Type 0 where
  pub rows : length res.headers ≡ 64
  pub row_sizes : All IsRow res.headers
  pub counted : res.headers_count ≤ 64

All-set :
    (rs : List HeaderRow) (i : ℕ) (r : HeaderRow) → All IsRow rs → IsRow r → All IsRow (set rs i r)
All-set [] i r v w = tt
All-set (x ∷ xs) zero r v w = (w, v.1)
All-set (x ∷ xs) (suc i) r v w = (v.0, All-set xs i r v.1 w)

All-read :
    (rs : List HeaderRow) (i : ℕ) (r : HeaderRow) → All IsRow rs → get_elem? rs i ≡ some r → IsRow r
All-read [] i r v e = cc
All-read (x ∷ xs) zero r v e = ground arith
All-read (x ∷ xs) (suc i) r v e = All-read xs i r v.1 e

-- What a step keeps of the response.
pub record Keeps (res res' : YieldMmioRes) : Type 0 where
  pub same_state : res'.ready_state ≡ res.ready_state
  pub same_status : res'.status ≡ res.status
  pub same_length : res'.body_total_length ≡ res.body_total_length

add_header-IsFilling :
    (res : YieldMmioRes) (name value : List ℕ)
    → IsFilling res
    → res.headers_count < 64
    → (res' : YieldMmioRes) × (add_header res name value ≡ ok res')
      × IsFilling res'
      × Keeps res res'
unfolding add_header
add_header-IsFilling res name value v h =
    let (row, e) = get_elem?_lt res.headers res.headers_count (omega (arith, v.rows)) in
    let w = All-read res.headers res.headers_count row v.row_sizes e in
    let row' = copy_row row name value in
    (
      record res {
        headers = set res.headers res.headers_count row';
        headers_count = res.headers_count + 1;
      },
      rw (read-some res.headers res.headers_count row e),
      record {
        rows = length-set res.headers res.headers_count row' ∙ v.rows;
        row_sizes = All-set res.headers res.headers_count row' v.row_sizes (
            unfold copy_row in
            (length-strsvcopy row.name name ∙ w.0, length-strsvcopy row.value value ∙ w.1));
        counted = omega arith;
      },
      record { same_state = refl; same_status = refl; same_length = refl },
    )

-- A part of the loop ends well.
abbrev Fills : YieldMmioRes → Outcome YieldMmioRes → Type 0
Fills res r = (res' : YieldMmioRes) × (r ≡ ok res') × IsFilling res' × Keeps res res'

Fills-self : (res : YieldMmioRes) → IsFilling res → Fills res (ok res)
Fills-self res v =
    (res, refl, v, record { same_state = refl; same_status = refl; same_length = refl })

add_found-Fills :
    (res : YieldMmioRes) (o : Option (List ℕ × List ℕ))
    → IsFilling res
    → res.headers_count < 64
    → Fills res (add_found res o)
unfolding add_found
add_found-Fills res none v h = Fills-self res v
add_found-Fills res (some (name, value)) v h = add_header-IsFilling res name value v h

header_round-Fills :
    (go_on : List ℕ → YieldMmioRes → Outcome YieldMmioRes) (n : ℕ) (res : YieldMmioRes)
    (o : Option (List ℕ × List ℕ))
    → ((after : List ℕ) (res' : YieldMmioRes)
        → length after < n
        → IsFilling res'
        → Fills res' (go_on after res'))
    → Shorter n o
    → IsFilling res
    → res.headers_count < 64
    → Fills res (header_round go_on res o)
unfolding header_round
header_round-Fills go_on n res none k s v h = Fills-self res v
header_round-Fills go_on n res (some ([], after)) k s v h = Fills-self res v
header_round-Fills go_on n res (some (c ∷ line, after)) k s v h =
    let (res', e, v', w) = add_found-Fills res (split_colon (remove_cr (c ∷ line))) v h in
    let (res'', e', v'', w') = k after res' s v' in (res'', rw (e, e'), v'', ground arith)

All-replicate : (P : HeaderRow → Type 0) (n : ℕ) (r : HeaderRow) → P r → All P (replicate n r)
All-replicate P zero r h = tt
All-replicate P (suc n) r h = (h, All-replicate P n r h)

pub rows-IsRow : All IsRow empty_rows
rows-IsRow =
    All-replicate IsRow 64 (record { name = replicate 256 0; value = replicate 256 0 }) (refl, refl)

-- With more fuel than the text has characters, and an array of 64 rows, at most 64 of them counted, the
-- loop ends on any text, with no access outside the array; the array keeps its size, at most 64
-- headers are counted, and the other members are left alone.
pub parse_headers-IsFilling :
    (fuel : ℕ) (text : List ℕ) (res : YieldMmioRes)
    → length text < fuel
    → IsFilling res
    → (res' : YieldMmioRes) × (parse_headers fuel text res ≡ ok res')
      × IsFilling res'
      × Keeps res res'
unfolding parse_headers
parse_headers-IsFilling zero text res h v = absurd (omega arith)
parse_headers-IsFilling (suc fuel) text res h v = elim (Bool-cases (ltb res.headers_count 64)) [
  | inl room ↦ rw room (
      header_round-Fills (parse_headers fuel) (length text) res (split_line text)
        (λ after res' shorter v'. parse_headers-IsFilling fuel after res' (omega arith) v')
        (split_line-Shorter text) v (ltb→lt res.headers_count 64 room))
  | inr full ↦ rw full (Fills-self res v)
]
