-- ===== src/Dns/Server/Tcp.antt =====
-- The TCP session, from its first read to its end.
use webcm.Common.{
  bit_and, ◌≢◌, ne→==_false, ℕ, ◌+◌, ◌-◌, ◌*◌, ◌^◌, ◌≤◌, ◌<◌, ◌≡◌, refl, sym, subst, ap, ◌∙◌, ◌⊎◌,
  inl, inr, List, [], ◌∷◌, ◌++◌, ltb, le→ltb_false, Bool-cases, ltb_false→le, Option, none, some,
  length, length-append, length-drop, length-take, length-replicate, take, drop, replicate, Outcome,
  ok, ok-injective, max, arith,
}
use webcm.Dns.Query.{Question, Header, IsQuery, encode_u16, encode_query, reference_response}
use webcm.Dns.Response.{build_dns_response}
use webcm.Dns.Safety.{build_dns_response_safe, question_loop_past, read_u16_lt}
use webcm.Dns.Exact.Whole.{recombine, build_dns_response-encode}
use webcm.Dns.Server.{
  overwrite, TcpSession, Phase, reading_length, reading_message, writing, shut_down, released,
  tcp_run, on_length, frame, on_message, on_complete, tcp_step, tcp_steps,
}
use webcm.Dns.Server.Udp.{length-overwrite, build-overwrite}

-- A read completes when it has filled the buffer that it was given, or with an error.
abbrev pub Fits : Phase → Option (List ℕ) → Type 0
Fits reading_length (some bytes) = length bytes ≡ 2
Fits (reading_message len) (some bytes) = length bytes ≡ len
Fits _ _ = Unit

-- The message that is awaited fits behind the length in the buffer; a response that is written has
-- its own length in front.
abbrev pub IsPhase : Phase → Type 0
IsPhase (reading_message len) = len ≤ 512
IsPhase (writing payload) =
    (response : List ℕ) × (payload ≡ encode_u16 (length response) ++ response)
    × (12 ≤ length response)
    × (length response < 2 ^ 16)
IsPhase _ = Unit

pub record IsReady (s : TcpSession) : Type 0 where
  pub sized : length s.recv_buffer ≡ 514
  pub phased : IsPhase s.phase

-- How many completions are left.
abbrev pub rank : Phase → ℕ
rank reading_length = 3
rank (reading_message len) = 2
rank (writing payload) = 1
rank shut_down = 0
rank released = 0

pub tcp_run-IsReady : (ip : ℕ) → IsReady (tcp_run ip)
unfolding tcp_run
tcp_run-IsReady ip = record { sized = length-replicate {A = ℕ} 514 0; phased = tt }

frame-IsPhase :
    (r : List ℕ)
    → (r ≡ []) ⊎ ((12 ≤ length r) × (length r < 2 ^ 16))
    → IsPhase (frame r) × (rank (frame r) ≤ 1)
unfolding frame
frame-IsPhase [] h = (tt, omega arith)
frame-IsPhase (b ∷ r) (inl e) = cc
frame-IsPhase (b ∷ r) (inr h) = ((b ∷ r, ground (arith, h), h.0, h.1), omega arith)

short :
    (r : List ℕ) (len : ℕ)
    → len ≤ 512
    → (r ≡ []) ⊎ ((12 ≤ length r) × (length r + 48 ≤ 5 * max 12 len))
    → (r ≡ []) ⊎ ((12 ≤ length r) × (length r < 2 ^ 16))
short r len k (inl e) = inl e
short r len k (inr h) = inr (omega arith)

-- What one completion leaves behind.
abbrev pub Advances : ℕ → Outcome TcpSession → Type 0
Advances n r = (t : TcpSession) × (r ≡ ok t) × IsReady t × (rank t.phase ≤ n - 1)

module _ (s : TcpSession) (sized : length s.recv_buffer ≡ 514) where
  on_length_lem : (bytes : List ℕ) → length bytes ≡ 2 → Advances 3 (on_length s bytes)
  unfolding on_length
  on_length_lem bytes h =
      let wide = length-overwrite bytes s.recv_buffer (omega (arith, sized)) ∙ sized in
      let (n, e) =
        read_u16_lt (overwrite bytes s.recv_buffer) 0 (omega arith) 0 (omega (arith, wide)) in
      elim (Bool-cases (ltb 512 n)) [
        | inl long ↦ (
          record s { recv_buffer = overwrite bytes s.recv_buffer; phase = released },
          rw (e, long),
          record { sized = wide; phased = tt },
          omega arith,
        )
        | inr fits ↦ (
          record s { recv_buffer = overwrite bytes s.recv_buffer; phase = reading_message n },
          rw (e, fits),
          record { sized = wide; phased = ltb_false→le 512 n fits },
          omega arith,
        )
      ]

  on_message_lem :
      (len : ℕ) (bytes : List ℕ)
      → len ≤ 512
      → length bytes ≡ len
      → Advances 2 (on_message s len bytes)
  unfolding on_message
  on_message_lem len bytes k h =
      let behind = length-drop 2 s.recv_buffer in
      let message : List ℕ = overwrite bytes (drop 2 s.recv_buffer) in
      let wide : length message ≡ 512 =
        length-overwrite bytes (drop 2 s.recv_buffer) (omega (arith, sized))
        ∙ omega (arith, sized) in
      let (r, e, shape) =
        build_dns_response_safe message len (omega (arith, wide)) s.response_ip
          (omega (arith, wide)) in
      let (p, q) = frame-IsPhase r (short r len k shape) in
      (
        record s { recv_buffer = take 2 s.recv_buffer ++ message; phase = frame r },
        rw e,
        record {
          sized = omega (
            arith,
            sized,
            wide,
            length-append (take 2 s.recv_buffer) message,
            length-take 2 s.recv_buffer,
          );
          phased = p;
        },
        q,
      )

  on_complete-Advances :
      (p : Phase) (c : Option (List ℕ))
      → s.phase ≡ p
      → IsPhase p
      → Fits p c
      → Advances (rank p) (on_complete s p c)
  unfolding on_complete
  on_complete-Advances reading_length none e v f =
      (record s { phase = released }, refl, record { sized = sized; phased = tt }, omega arith)
  on_complete-Advances reading_length (some bytes) e v f = on_length_lem bytes f
  on_complete-Advances (reading_message len) none e v f =
      (record s { phase = released }, refl, record { sized = sized; phased = tt }, omega arith)
  on_complete-Advances (reading_message len) (some bytes) e v f = on_message_lem len bytes v f
  on_complete-Advances (writing payload) c e v f =
      (record s { phase = shut_down }, refl, record { sized = sized; phased = tt }, omega arith)
  on_complete-Advances shut_down c e v f =
      (s, refl, record { sized = sized; phased = subst IsPhase (sym e) tt }, rw e (omega arith))
  on_complete-Advances released c e v f =
      (s, refl, record { sized = sized; phased = subst IsPhase (sym e) tt }, rw e (omega arith))

-- Whatever a peer sends or a socket reports, a completion is handled with no access out of bounds,
-- and brings the session at least one step nearer to its end.
pub tcp_step-Advances :
    (s : TcpSession) (c : Option (List ℕ))
    → IsReady s
    → Fits s.phase c
    → Advances (rank s.phase) (tcp_step s c)
unfolding tcp_step
tcp_step-Advances s c v f = on_complete-Advances s v.sized s.phase c refl v.phased f

-- The session behind its first read.
abbrev awaiting : ℕ → ℕ → TcpSession
awaiting ip n = record {
  recv_buffer = overwrite (encode_u16 n) (replicate 514 0);
  response_ip = ip;
  phase = reading_message n;
}

first_read : (ip n : ℕ) → n ≤ 512 → tcp_step (tcp_run ip) (some (encode_u16 n)) ≡ ok (awaiting ip n)
unfolding tcp_step tcp_run
first_read ip n k = rw (recombine n, le→ltb_false 512 n k)

-- The session behind its second read.
abbrev answering : ℕ → List ℕ → List ℕ → TcpSession
answering ip query response = record (awaiting ip (length query)) {
  recv_buffer =
      take 2 (awaiting ip (length query)).recv_buffer
      ++ overwrite query (drop 2 (awaiting ip (length query)).recv_buffer);
  phase = frame response;
}

second_read :
    (ip : ℕ) (query response : List ℕ)
    → 12 ≤ length query
    → length query ≤ 512
    → build_dns_response query (length query) ip ≡ ok response
    → tcp_step (awaiting ip (length query)) (some query) ≡ ok (answering ip query response)
unfolding tcp_step
second_read ip query response h k e =
    rw (build-overwrite query (drop 2 (awaiting ip (length query)).recv_buffer) ip h k, e)

frame-cons :
    (b : ℕ) (r : List ℕ)
    → length (b ∷ r) < 2 ^ 16
    → frame (b ∷ r) ≡ writing (encode_u16 (length (b ∷ r)) ++ b ∷ r)
unfolding frame
frame-cons b r h = ground arith

frame-reference :
    (h : Header) (qs : List Question) (ip : ℕ)
    → length (reference_response h qs ip) < 2 ^ 16
    → frame (reference_response h qs ip)
      ≡ writing (encode_u16 (length (reference_response h qs ip)) ++ reference_response h qs ip)
unfolding reference_response
frame-reference h qs ip k = frame-cons _ _ k

short_narrow :
    (r : List ℕ) (len : ℕ)
    → len ≤ 512
    → (r ≡ []) ⊎ ((12 ≤ length r) × (length r + 48 ≤ 5 * max 12 len))
    → length r < 2 ^ 16
short_narrow r len k (inl e) = omega (arith, ap length e)
short_narrow r len k (inr h) = omega arith

tcp_steps_two :
    (s t u : TcpSession) (c d : Option (List ℕ))
    → tcp_step s c ≡ ok t
    → tcp_step t d ≡ ok u
    → tcp_steps s (c ∷ d ∷ []) ≡ ok u
unfolding tcp_steps
tcp_steps_two s t u c d e e' = rw (e, e')

-- The end of a write shuts the socket down.
tcp_step-writing :
    (s : TcpSession) (payload : List ℕ) (c : Option (List ℕ))
    → s.phase ≡ writing payload
    → tcp_step s c ≡ ok (record s { phase = shut_down })
unfolding tcp_step
tcp_step-writing s payload c e = rw (e, on_complete)

-- A well-formed query that is sent with its length is answered by the reference response behind its
-- own length; once that is written, with an error or not, the socket is shut down.
pub tcp_answers :
    (ip : ℕ) (h : Header) (qs : List Question) (ys : List ℕ) (last : Option (List ℕ))
    → IsQuery h qs
    → length (encode_query h qs ++ ys) ≤ 512
    → let query = encode_query h qs ++ ys in
      let response = reference_response h qs ip in
      (s t : TcpSession) × (tcp_steps
          (tcp_run ip)
          (some (encode_u16 (length query)) ∷ some query ∷ [])
        ≡ ok s)
      × (s.phase ≡ writing (encode_u16 (length response) ++ response))
      × (tcp_step s last ≡ ok t)
      × (t.phase ≡ shut_down)
tcp_answers ip h qs ys last v k =
    let query : List ℕ = encode_query h qs ++ ys in
    let whole =
      build_dns_response-encode h qs ys (length query) ip v
        (omega (arith, length-append (encode_query h qs) ys)) in
    let (r, e, shape) =
      build_dns_response_safe query (length query) (omega arith) ip (omega arith) in
    let exact = ok-injective (sym e ∙ whole) in
    let narrow : length r < 2 ^ 16 = short_narrow r (length query) k shape in
    let written = frame-reference h qs ip (subst (λ x. length x < 2 ^ 16) exact narrow) in
    (
      answering ip query (reference_response h qs ip),
      record (answering ip query (reference_response h qs ip)) { phase = shut_down },
      tcp_steps_two _ _ _ _ _ (first_read ip (length query) k)
          (second_read ip query (reference_response h qs ip) (omega arith) k whole),
      written,
      tcp_step-writing _ _ last written,
      refl,
    )

-- A message of six bytes, shorter than a header, is answered too if it has opcode 0 and counts a
-- question: the rest of the header comes from the zeros of the new buffer.
pub tcp_short_answered :
    (ip id_high id_low flags_high flags_low count_high count_low : ℕ)
    → bit_and (flags_high * 256 + flags_low) 0x7800 ≡ 0
    → count_high * 256 + count_low ≢ 0
    → (s : TcpSession) × (tcp_steps (tcp_run ip) (
          some (0 ∷ 6 ∷ [])
          ∷ some (id_high ∷ id_low ∷ flags_high ∷ flags_low ∷ count_high ∷ count_low ∷ [])
          ∷ [])
        ≡ ok s)
      × (s.phase
          ≡ writing (
              0 ∷ 12 ∷ id_high ∷ id_low ∷ 0x81 ∷ 0x80 ∷ count_high ∷ count_low ∷ 0 ∷ 0 ∷ 0 ∷ 0 ∷ 0
              ∷ 0 ∷ []))
unfolding tcp_steps tcp_run build_dns_response
tcp_short_answered ip a b c d e f op some_q = (
  record {
    recv_buffer = 0 ∷ 6 ∷ a ∷ b ∷ c ∷ d ∷ e ∷ f ∷ replicate 506 0;
    response_ip = ip;
    phase = writing (0 ∷ 12 ∷ a ∷ b ∷ 0x81 ∷ 0x80 ∷ e ∷ f ∷ 0 ∷ 0 ∷ 0 ∷ 0 ∷ 0 ∷ 0 ∷ []);
  },
  rw (
    op,
    ne→==_false (e * 256 + f) 0 some_q,
    question_loop_past (a ∷ b ∷ c ∷ d ∷ e ∷ f ∷ replicate 506 0) 6 ip (e * 256 + f)
        (record {
          pos = 12;
          response = a ∷ b ∷ 0x81 ∷ 0x80 ∷ e ∷ f ∷ 0 ∷ 0 ∷ 0 ∷ 0 ∷ 0 ∷ 0 ∷ [];
          answer_count = 0;
        })
        (omega arith),
  ),
  refl,
)
