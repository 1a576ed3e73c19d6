-- ===== src/Dns/Response.antt =====
-- `build_dns_response` of https-proxy/https-proxy.cpp. A byte is a number below 256; the query buffer
-- is the list of its bytes, and `len` (`length` in the source) is the number of them that were
-- received. `none` stands for an early `return {}`.
use webcm.Common.{
  ℕ, zero, suc, ◌+◌, ◌-◌, ◌*◌, ◌/◌, ◌%◌, ◌^◌, bit_and, List, [], ◌∷◌, ◌++◌, ltb, leb, ◌==◌, ◌&&◌,
  ◌||◌, if◌then◌else◌, not, Option, none, some, length, set, take, drop, Outcome, ok, fault, stuck,
  ◌>>=◌, and_then, read,
}

-- `uint16_t x = (p[i] << 8) | p[i + 1]`: the operands of `|` are bytes, with no bit in common.
unfoldable pub read_u16 : List ℕ → ℕ → Outcome ℕ
unfolding read
read_u16 query_buffer i = do
  high ← read query_buffer i
  low ← read query_buffer (i + 1)
  ok (high * 256 + low)

-- `v.insert(v.end(), p + first, p + last)` reads these bytes.
unfoldable pub copy : List ℕ → ℕ → ℕ → Outcome (List ℕ)
copy query_buffer first last =
    if leb first last && leb last (length query_buffer)
    then ok (take (last - first) (drop first query_buffer))
    else fault

-- `while (pos < length && query_buffer[pos] != 0)`. Each round moves `pos` on, so `len` is fuel
-- enough.
unfoldable pub skip_labels : ℕ → List ℕ → ℕ → ℕ → Outcome (Option ℕ)
unfolding read
skip_labels zero query_buffer len pos = stuck
skip_labels (suc fuel) query_buffer len pos =
    let loop = (do
      label_len ← read query_buffer pos
      let next = skip_labels fuel query_buffer len (pos + (label_len + 1))
      if label_len == 0
          then ok (some pos)
          else if leb 192 label_len
          then ok (some (pos + 2))
          else if leb len (pos + (label_len + 1))
          then ok none
          else next) in
    if ltb pos len then loop else ok (some pos)

-- `if (pos < length && query_buffer[pos] == 0) pos++;`
unfoldable pub skip_terminator : List ℕ → ℕ → ℕ → Outcome ℕ
unfolding read
skip_terminator query_buffer len pos =
    if ltb pos len
    then (do b ← read query_buffer pos; ok (if b == 0 then pos + 1 else pos))
    else ok pos

-- The sixteen `push_back`s of an answer; a byte that is pushed is cut to eight bits.
unfoldable pub answer_record : ℕ → ℕ → List ℕ
answer_record response_question_start response_ip =
    0xc0
    ∷ response_question_start % 256
    ∷ 0x00
    ∷ 0x01
    ∷ 0x00
    ∷ 0x01
    ∷ 0x00
    ∷ 0x00
    ∷ 0x00
    ∷ 0x3c
    ∷ 0x00
    ∷ 0x04
    ∷ response_ip / 2 ^ 24 % 256
    ∷ response_ip / 2 ^ 16 % 256
    ∷ response_ip / 2 ^ 8 % 256
    ∷ response_ip % 256
    ∷ []

-- The variables of the loop over the questions.
pub record Progress : Type 0 where
  pub pos : ℕ
  pub response : List ℕ
  pub answer_count : ℕ

-- The end of a round, once the name is skipped: `pos` stands behind it.
unfoldable pub take_question : List ℕ → ℕ → ℕ → Progress → ℕ → Outcome (Option Progress)
unfolding read_u16 copy answer_record
take_question query_buffer len response_ip s pos = if ltb len (pos + 4) then ok none else (do
  qtype ← read_u16 query_buffer pos
  qclass ← read_u16 query_buffer (pos + 2)
  question ← copy query_buffer s.pos (pos + 4)
  ok (
      some (
        if qtype == 1 && qclass == 1
        then record {
          pos = pos + 4;
          response = s.response ++ (question ++ answer_record (length s.response) response_ip);
          answer_count = (s.answer_count + 1) % 2 ^ 16;
        }
        else record {
          pos = pos + 4;
          response = s.response ++ question;
          answer_count = s.answer_count;
        })))

-- The rest of a round, behind the loop over the labels.
unfoldable pub end_round : List ℕ → ℕ → ℕ → Progress → ℕ → Outcome (Option Progress)
unfolding skip_terminator take_question
end_round query_buffer len response_ip s name_end = do
  pos ← skip_terminator query_buffer len name_end
  take_question query_buffer len response_ip s pos

unfoldable pub question_round : List ℕ → ℕ → ℕ → Progress → Outcome (Option Progress)
unfolding skip_labels end_round
question_round query_buffer len response_ip s =
    and_then (skip_labels len query_buffer len s.pos) (end_round query_buffer len response_ip s)

-- `for (uint16_t q = 0; q < questions && pos < length; ++q)`, by the rounds left.
unfoldable pub question_loop : ℕ → List ℕ → ℕ → ℕ → Progress → Outcome (Option Progress)
unfolding question_round
question_loop zero query_buffer len response_ip s = ok (some s)
question_loop (suc rounds) query_buffer len response_ip s =
    let loop =
      and_then (question_round query_buffer len response_ip s)
        (question_loop rounds query_buffer len response_ip) in
    if ltb s.pos len then loop else ok (some s)

-- The header that is copied from the query, with its flags and counts set.
unfoldable pub response_header : List ℕ → List ℕ
response_header header =
    set (set (set (set (set (set (set (set header 2 0x81) 3 0x80) 6 0) 7 0) 8 0) 9 0) 10 0) 11 0

-- `return {}`, or the response with its answer count.
unfoldable pub finish : Option Progress → List ℕ
finish none = []
finish (some s) = set (set s.response 6 (s.answer_count / 256 % 256)) 7 (s.answer_count % 256)

unfoldable pub build_dns_response : List ℕ → ℕ → ℕ → Outcome (List ℕ)
unfolding read_u16 copy question_loop response_header finish
build_dns_response query_buffer len response_ip = do
  flags ← read_u16 query_buffer 2
  questions ← read_u16 query_buffer 4
  if not (bit_and flags 0x7800 == 0) || questions == 0 then ok [] else (do
    header ← copy query_buffer 0 12
    end ←
        question_loop questions query_buffer len response_ip
          (record { pos = 12; response = response_header header; answer_count = 0 })
    ok (finish end))
