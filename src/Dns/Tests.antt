-- ===== src/Dns/Tests.antt =====
-- Runs of the DNS code on concrete messages, and the theorems at concrete inputs.
use webcm.Common.{
  ℕ, ◌+◌, ◌*◌, ◌≤◌, ◌<◌, ◌≡◌, ◌⊎◌, ◌↔◌, refl, max, List, [], ◌∷◌, ◌++◌, none, some, ok, replicate,
  length, arith,
}
use webcm.Dns.Query.{
  Question, Header, IsQuery, encode_question, encode_query, reference_answer, reference_response,
}
use webcm.Dns.Response.{build_dns_response}
use webcm.Dns.Exact.Whole.{build_dns_response-encode}
use webcm.Dns.Safety.{build_dns_response_safe}
use webcm.Dns.Agree.{build_dns_response_same}
use webcm.Dns.Pointers.{Answer, decode_answer, second_answer_pointer}
use webcm.Dns.Compressed.{compressed_query, compressed_query_dropped}
use webcm.Dns.Server.{
  UdpServer, Receive, failed, received, udp_run, on_receive, udp_receives, TcpSession, writing,
  shut_down, tcp_run, tcp_step, tcp_steps,
}
use webcm.Dns.Server.Udp.{
  IsListening, Handled, udp_run-IsListening, on_receive_query, udp_receives-IsListening,
  udp_answers,
}
use webcm.Dns.Server.Tcp.{
  Advances, tcp_run-IsReady, tcp_step-Advances, tcp_answers, tcp_short_answered,
}

abbrev header : Header
header = record {
  id_high = 0x12;
  id_low = 0x34;
  flags_high = 1;
  flags_low = 0;
  answers = 0;
  authorities = 0;
  additionals = 0;
}

-- `a.b IN A`.
abbrev question : Question
question = record { labels = (97 ∷ []) ∷ (98 ∷ []) ∷ []; qtype = 1; qclass = 1 }

abbrev questions : List Question
questions = question ∷ []

abbrev proxy_ip : ℕ
proxy_ip = 0x7ffefefe

abbrev query_a : List ℕ
query_a =
    0x12 ∷ 0x34 ∷ 1 ∷ 0 ∷ 0 ∷ 1 ∷ 0 ∷ 0 ∷ 0 ∷ 0 ∷ 0 ∷ 0 ∷ 1 ∷ 97 ∷ 1 ∷ 98 ∷ 0 ∷ 0 ∷ 1 ∷ 0 ∷ 1 ∷ []

abbrev answer_a : List ℕ
answer_a =
    0x12 ∷ 0x34 ∷ 0x81 ∷ 0x80 ∷ 0 ∷ 1 ∷ 0 ∷ 1 ∷ 0 ∷ 0 ∷ 0 ∷ 0 ∷ 1 ∷ 97 ∷ 1 ∷ 98 ∷ 0 ∷ 0 ∷ 1 ∷ 0 ∷ 1
    ∷ 0xc0 ∷ 12 ∷ 0 ∷ 1 ∷ 0 ∷ 1 ∷ 0 ∷ 0 ∷ 0 ∷ 60 ∷ 0 ∷ 4 ∷ 127 ∷ 254 ∷ 254 ∷ 254 ∷ []

query_a_answered : build_dns_response (query_a ++ replicate 20 0) 21 proxy_ip ≡ ok answer_a
unfolding build_dns_response
query_a_answered = refl

questions-IsQuery : IsQuery header questions
questions-IsQuery = record {
  standard = refl;
  asked = λ e. cc;
  few = omega arith;
  spelled = omega arith;
}

build_dns_response-encode_example :
    build_dns_response (encode_query header questions ++ (0 ∷ 0 ∷ [])) 23 proxy_ip ≡ ok answer_a
unfolding reference_response encode_question reference_answer
build_dns_response-encode_example =
    build_dns_response-encode header questions (0 ∷ 0 ∷ []) 23 proxy_ip questions-IsQuery
      (unfold encode_question in omega arith)

build_dns_response_safe_example :
    (r : List ℕ) × (build_dns_response (replicate 512 7) 300 proxy_ip ≡ ok r)
    × ((r ≡ []) ⊎ ((12 ≤ length r) × (length r + 48 ≤ 5 * max 12 300)))
build_dns_response_safe_example =
    build_dns_response_safe (replicate 512 7) 300 (omega arith) proxy_ip (omega arith)

build_dns_response_same_example :
    build_dns_response (query_a ++ (1 ∷ [])) 21 proxy_ip
    ≡ build_dns_response (query_a ++ (2 ∷ 3 ∷ [])) 21 proxy_ip
build_dns_response_same_example =
    build_dns_response_same (query_a ++ (1 ∷ [])) (query_a ++ (2 ∷ 3 ∷ [])) 21 (omega arith)
      (omega arith) refl proxy_ip (omega arith)

-- Endpoints are numbers here.
abbrev any_endpoint : ℕ
any_endpoint = 0

abbrev udp_start : UdpServer ℕ
udp_start = udp_run any_endpoint proxy_ip

abbrev history : List (Receive ℕ)
history = failed ∷ received 8 (1 ∷ 2 ∷ []) ∷ received 9 query_a ∷ []

udp_receives-IsListening_example :
    (t : UdpServer ℕ) × (udp_receives udp_start history ≡ ok t)
    × IsListening t
    × (t.response_ip ≡ udp_start.response_ip)
    × (length t.sent ≤ length udp_start.sent + 3)
udp_receives-IsListening_example =
    udp_receives-IsListening udp_start history (udp_run-IsListening any_endpoint proxy_ip)
      (omega arith)

on_receive_query_example :
    (t : UdpServer ℕ) × (response : List ℕ) × (on_receive udp_start (received 9 query_a) ≡ ok t)
    × (build_dns_response query_a 21 udp_start.response_ip ≡ ok response)
    × Handled udp_start t 9 response
on_receive_query_example =
    on_receive_query udp_start 9 query_a (udp_run-IsListening any_endpoint proxy_ip) (omega arith)
      (omega arith)

udp_answers_example :
    (s t : UdpServer ℕ) × (udp_receives udp_start history ≡ ok s)
    × (on_receive s (received 9 (encode_query header questions ++ [])) ≡ ok t)
    × (t.sent ≡ record { endpoint = 9; payload = answer_a } ∷ s.sent)
unfolding reference_response encode_question reference_answer
udp_answers_example =
    udp_answers 0 9 proxy_ip history header questions [] (omega arith) questions-IsQuery
      (omega arith)

tcp_step-Advances_example : Advances 3 (tcp_step (tcp_run proxy_ip) (some (0 ∷ 21 ∷ [])))
unfolding tcp_run
tcp_step-Advances_example =
    tcp_step-Advances (tcp_run proxy_ip) (some (0 ∷ 21 ∷ [])) (tcp_run-IsReady proxy_ip) refl

tcp_answers_example :
    (s t : TcpSession) × (tcp_steps (tcp_run proxy_ip) (some (0 ∷ 21 ∷ []) ∷ some query_a ∷ [])
      ≡ ok s)
    × (s.phase ≡ writing (0 ∷ 37 ∷ answer_a))
    × (tcp_step s none ≡ ok t)
    × (t.phase ≡ shut_down)
unfolding reference_response encode_question reference_answer
tcp_answers_example = tcp_answers proxy_ip header questions [] none questions-IsQuery (omega arith)

tcp_short_answered_example :
    (s : TcpSession) × (tcp_steps
        (tcp_run proxy_ip)
        (some (0 ∷ 6 ∷ []) ∷ some (5 ∷ 6 ∷ 1 ∷ 0 ∷ 0 ∷ 9 ∷ []) ∷ [])
      ≡ ok s)
    × (s.phase ≡ writing (0 ∷ 12 ∷ 5 ∷ 6 ∷ 0x81 ∷ 0x80 ∷ 0 ∷ 9 ∷ 0 ∷ 0 ∷ 0 ∷ 0 ∷ 0 ∷ 0 ∷ []))
tcp_short_answered_example = tcp_short_answered proxy_ip 5 6 1 0 0 9 refl (omega arith)

-- A name of four labels of sixty bytes.
abbrev long_question : Question
long_question = record {
  labels = replicate 60 97 ∷ replicate 60 98 ∷ replicate 60 99 ∷ replicate 60 100 ∷ [];
  qtype = 1;
  qclass = 1;
}

two_questions-IsQuery : IsQuery header (long_question ∷ question ∷ [])
two_questions-IsQuery = record {
  standard = refl;
  asked = λ e. cc;
  few = omega arith;
  spelled = omega arith;
}

second_answer_pointer_example :
    (front : List ℕ) × (a : Answer) × (build_dns_response
        (encode_query header (long_question ∷ question ∷ []))
        270
        proxy_ip
      ≡ ok (front ++ (encode_question question ++ reference_answer 277 proxy_ip)))
    × (length front ≡ 277)
    × (decode_answer (reference_answer 277 proxy_ip) ≡ some a)
    × ((a.name_at ≡ 277) ↔ (277 < 256))
unfolding encode_question reference_answer
second_answer_pointer_example =
    second_answer_pointer header long_question question proxy_ip two_questions-IsQuery refl
      (omega arith)

compressed_query_dropped_example :
    build_dns_response (compressed_query header question 0xc0 12) 27 proxy_ip ≡ ok []
unfolding encode_question
compressed_query_dropped_example =
    compressed_query_dropped header question 0xc0 12 proxy_ip refl (omega arith) (omega arith)
