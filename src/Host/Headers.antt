-- ===== src/Host/Headers.antt =====
-- The response headers in `handle_softyield` of webcm.cpp. The text is the list of its bytes from `pos`
-- on, so `pos` only shows as what is left of it; each round drops a line, and the length of the text
-- is fuel enough.
pub mod Bounds
pub mod Printed
use webcm.Common.{
  ℕ, zero, suc, ◌+◌, List, [], ◌∷◌, ◌++◌, ltb, ◌==◌, ◌&&◌, if◌then◌else◌, Option, none, some,
  length, set, Outcome, ok, fault, stuck, ◌>>=◌, read,
}
use webcm.Mmio.Structs.{HeaderRow, YieldMmioRes, strsvcopy}

-- A character in front of the place that was found.
abbrev before : ℕ → Option (List ℕ × List ℕ) → Option (List ℕ × List ℕ)
before c none = none
before c (some (xs, ys)) = some (c ∷ xs, ys)

-- `headers_str.find('\n', pos)`: the line, and what follows its end.
unfoldable pub split_line : List ℕ → Option (List ℕ × List ℕ)
split_line [] = none
split_line (c ∷ cs) = if c == 10 then some ([], cs) else before c (split_line cs)

-- `if (line.back() == '\r') line.remove_suffix(1);`, on a line that is not empty.
unfoldable pub remove_cr : List ℕ → List ℕ
remove_cr [] = []
remove_cr (c ∷ []) = if c == 13 then [] else c ∷ []
remove_cr (c ∷ d ∷ cs) = c ∷ remove_cr (d ∷ cs)

-- `line.find(": ")`, with the two `substr`s.
unfoldable pub split_colon : List ℕ → Option (List ℕ × List ℕ)
split_colon [] = none
split_colon (c ∷ []) = none
split_colon (c ∷ d ∷ cs) =
    if c == 58 && d == 32 then some ([], cs) else before c (split_colon (d ∷ cs))

unfoldable pub copy_row : HeaderRow → List ℕ → List ℕ → HeaderRow
unfolding strsvcopy
copy_row row name value = record {
  name = strsvcopy row.name name;
  value = strsvcopy row.value value;
}

-- The row at `headers_count` is filled, and counted.
unfoldable pub add_header : YieldMmioRes → List ℕ → List ℕ → Outcome YieldMmioRes
unfolding read copy_row
add_header res name value = do
  row ← read res.headers res.headers_count
  ok (record res {
    headers = set res.headers res.headers_count (copy_row row name value);
    headers_count = res.headers_count + 1;
  })

unfoldable pub add_found : YieldMmioRes → Option (List ℕ × List ℕ) → Outcome YieldMmioRes
unfolding add_header
add_found res none = ok res
add_found res (some (name, value)) = add_header res name value

unfoldable pub add_line : YieldMmioRes → List ℕ → Outcome YieldMmioRes
unfolding remove_cr split_colon add_found
add_line res line = add_found res (split_colon (remove_cr line))

-- One round: it breaks if there is no line or an empty one, and goes on behind the line otherwise.
unfoldable pub header_round :
    (List ℕ → YieldMmioRes → Outcome YieldMmioRes)
    → YieldMmioRes
    → Option (List ℕ × List ℕ)
    → Outcome YieldMmioRes
unfolding add_line
header_round go_on res none = ok res
header_round go_on res (some ([], after)) = ok res
header_round go_on res (some (c ∷ line, after)) = add_line res (c ∷ line) >>= go_on after

unfoldable pub parse_headers : ℕ → List ℕ → YieldMmioRes → Outcome YieldMmioRes
unfolding split_line header_round
parse_headers zero text res = stuck
parse_headers (suc fuel) text res =
    let round = header_round (parse_headers fuel) res (split_line text) in
    if ltb res.headers_count 64 then round else ok res
