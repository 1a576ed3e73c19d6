-- ===== src/Dns/Server/Udp.antt =====
-- The UDP server over any sequence of receives.
use webcm.Common.{
  ok-injective, ℕ, ◌+◌, ◌-◌, ◌≤◌, ◌<◌, ◌≡◌, refl, sym, ap, ◌∙◌, inl, inr, List, [], ◌∷◌, ◌++◌, leb,
  lt→leb_false, le→leb, Bool-cases, length, length-append, length-drop, length-replicate, take,
  take-append, drop, All, ok, arith,
}
use webcm.Dns.Response.{build_dns_response}
use webcm.Dns.Query.{Question, Header, IsQuery, encode_query, reference_response}
use webcm.Dns.Exact.Whole.{build_dns_response-encode}
use webcm.Dns.Safety.{build_dns_response_safe}
use webcm.Dns.Agree.{build_dns_response_same}
use webcm.Dns.Server.{
  overwrite, Datagram, UdpServer, Receive, failed, received, do_receive, udp_run, send_response,
  fill, on_receive, udp_receives,
}

pub length-overwrite :
    (bytes buffer : List ℕ)
    → length bytes ≤ length buffer
    → length (overwrite bytes buffer) ≡ length buffer
length-overwrite bytes buffer h =
    omega
      (arith, length-append bytes (drop (length bytes) buffer), length-drop (length bytes) buffer)

take_self : (xs : List ℕ) → take (length xs) xs ≡ xs
take_self [] = refl
take_self (x ∷ xs) = ap (◌∷◌ x) (take_self xs)

-- The buffer that a receive fills gets the response that the datagram gets alone.
pub build-overwrite :
    (bytes buffer : List ℕ) (ip : ℕ)
    → 12 ≤ length bytes
    → length bytes ≤ length buffer
    → build_dns_response (overwrite bytes buffer) (length bytes) ip
      ≡ build_dns_response bytes (length bytes) ip
build-overwrite bytes buffer ip h k =
    build_dns_response_same (overwrite bytes buffer) bytes (length bytes)
      (omega (arith, length-overwrite bytes buffer k)) (omega arith)
      (take-append bytes (drop (length bytes) buffer) ∙ sym (take_self bytes)) ip h

module _ {Endpoint : Type 0} where
  -- Between two receives one is pending, and the buffer has its size.
  pub record IsListening (s : UdpServer Endpoint) : Type 0 where
    pub sized : length s.recv_buffer ≡ 512
    pub one_pending : s.pending ≡ 1

  -- A receive does not write past the buffer.
  abbrev pub Fits : Receive Endpoint → Type 0
  Fits failed = Unit
  Fits (received endpoint bytes) = length bytes ≤ 512

  -- An error, or fewer bytes than a header.
  abbrev pub IsShort : Receive Endpoint → Type 0
  IsShort failed = Unit
  IsShort (received endpoint bytes) = length bytes < 12

  abbrev pub add_reply : Endpoint → List ℕ → List (Datagram Endpoint) → List (Datagram Endpoint)
  add_reply endpoint [] sent = sent
  add_reply endpoint (b ∷ r) sent = record { endpoint = endpoint; payload = b ∷ r } ∷ sent

  length-add_reply :
      (endpoint : Endpoint) (r : List ℕ) (sent : List (Datagram Endpoint))
      → length (add_reply endpoint r sent) ≤ length sent + 1
  length-add_reply endpoint [] sent = omega arith
  length-add_reply endpoint (b ∷ r) sent = omega arith

  pub udp_run-IsListening : (unset : Endpoint) (ip : ℕ) → IsListening (udp_run unset ip)
  unfolding udp_run
  udp_run-IsListening unset ip = record {
    sized = length-replicate {A = ℕ} 512 0;
    one_pending = refl;
  }

  -- What one receive does to the server.
  pub record Handled (s t : UdpServer Endpoint) (endpoint : Endpoint) (response : List ℕ)
      : Type 0 where
    pub listening : IsListening t
    pub same_ip : t.response_ip ≡ s.response_ip
    pub replied : t.sent ≡ add_reply endpoint response s.sent

  send_response-Handled :
      (s t : UdpServer Endpoint) (response : List ℕ)
      → length t.recv_buffer ≡ 512
      → t.pending ≡ 0
      → t.response_ip ≡ s.response_ip
      → t.sent ≡ s.sent
      → Handled s (do_receive (send_response t response)) t.remote_endpoint response
  unfolding do_receive send_response
  send_response-Handled s t [] l p i e = ground arith
  send_response-Handled s t (b ∷ r) l p i e = ground arith

  -- A datagram with a header is answered, to its sender, by what the function makes of the datagram
  -- alone: nothing that was received before shows in the reply.
  pub on_receive_query :
      (s : UdpServer Endpoint) (endpoint : Endpoint) (bytes : List ℕ)
      → IsListening s
      → 12 ≤ length bytes
      → length bytes ≤ 512
      → (t : UdpServer Endpoint) × (response : List ℕ) × (on_receive s (received endpoint bytes)
          ≡ ok t)
        × (build_dns_response bytes (length bytes) s.response_ip ≡ ok response)
        × Handled s t endpoint response
  unfolding on_receive
  on_receive_query s endpoint bytes v h k =
      let (r, e, _) = build_dns_response_safe bytes (length bytes) (omega arith) s.response_ip h in
      (
        do_receive (send_response (fill s endpoint bytes) r),
        r,
        rw (
          le→leb 12 (length bytes) h,
          build-overwrite bytes s.recv_buffer s.response_ip h (omega (arith, v.sized)),
          e,
        ),
        e,
        send_response-Handled s (fill s endpoint bytes) r
            (length-overwrite bytes s.recv_buffer (omega (arith, v.sized)) ∙ v.sized)
            (omega (arith, v.one_pending)) refl refl,
      )

  -- Any other receive sends nothing.
  pub on_receive_other :
      (s : UdpServer Endpoint) (r : Receive Endpoint)
      → IsListening s
      → IsShort r
      → (t : UdpServer Endpoint) × (on_receive s r ≡ ok t)
        × IsListening t
        × (t.response_ip ≡ s.response_ip)
        × (t.sent ≡ s.sent)
  unfolding on_receive
  on_receive_other s failed v h = (
    record s { pending = s.pending - 1 + 1 },
    refl,
    record { sized = v.sized; one_pending = omega (arith, v.one_pending) },
    refl,
    refl,
  )
  on_receive_other s (received endpoint bytes) v h = (
    do_receive (fill s endpoint bytes),
    rw (lt→leb_false 12 (length bytes) h),
    record {
      sized = length-overwrite bytes s.recv_buffer (omega (arith, v.sized)) ∙ v.sized;
      one_pending = omega (arith, v.one_pending);
    },
    refl,
    refl,
  )

  on_receive-IsListening :
      (s : UdpServer Endpoint) (r : Receive Endpoint)
      → IsListening s
      → Fits r
      → (t : UdpServer Endpoint) × (on_receive s r ≡ ok t)
        × IsListening t
        × (t.response_ip ≡ s.response_ip)
        × (length t.sent ≤ length s.sent + 1)
  on_receive-IsListening s failed v k =
      let (t, e, l, i, n) = on_receive_other s failed v tt in
      (t, e, l, i, omega (arith, ap length n))
  on_receive-IsListening s (received endpoint bytes) v k =
      elim (Bool-cases (leb 12 (length bytes))) [
        | inl long ↦
            let (t, r, e, _, w) = on_receive_query s endpoint bytes v (ground arith) k in
            (t, e, w.listening, w.same_ip, rw w.replied (length-add_reply endpoint r s.sent))
        | inr short ↦
            let (t, e, l, i, n) = on_receive_other s (received endpoint bytes) v (ground arith) in
            (t, e, l, i, omega (arith, ap length n))
      ]

  -- Whatever is received in whatever order, the server handles it with no access out of bounds, keeps
  -- one receive pending, and sends at most one datagram for each that it received.
  pub udp_receives-IsListening :
      (s : UdpServer Endpoint) (rs : List (Receive Endpoint))
      → IsListening s
      → All Fits rs
      → (t : UdpServer Endpoint) × (udp_receives s rs ≡ ok t)
        × IsListening t
        × (t.response_ip ≡ s.response_ip)
        × (length t.sent ≤ length s.sent + length rs)
  unfolding udp_receives
  udp_receives-IsListening s [] v f = (s, refl, v, refl, omega arith)
  udp_receives-IsListening s (r ∷ rs) v f =
      let (t, e, l, i, n) = on_receive-IsListening s r v f.0 in
      let (u, e', l', i', n') = udp_receives-IsListening t rs l f.1 in
      (u, rw e e', l', i' ∙ i, omega arith)

  -- After any receives at all, a well-formed query is answered to its sender by the reference
  -- response, and by nothing else.
  pub udp_answers :
      (unset endpoint : Endpoint) (ip : ℕ) (rs : List (Receive Endpoint)) (h : Header)
      (qs : List Question) (ys : List ℕ)
      → All Fits rs
      → IsQuery h qs
      → length (encode_query h qs ++ ys) ≤ 512
      → (s t : UdpServer Endpoint) × (udp_receives (udp_run unset ip) rs ≡ ok s)
        × (on_receive s (received endpoint (encode_query h qs ++ ys)) ≡ ok t)
        × (t.sent ≡ record { endpoint = endpoint; payload = reference_response h qs ip } ∷ s.sent)
  unfolding udp_run reference_response
  udp_answers unset endpoint ip rs h qs ys f v k =
      let (s, e, l, i, _) =
        udp_receives-IsListening (udp_run unset ip) rs (udp_run-IsListening unset ip) f in
      let (t, r, e', er, w) =
        on_receive_query s endpoint (encode_query h qs ++ ys) l (omega arith) k in
      let whole =
        build_dns_response-encode h qs ys (length (encode_query h qs ++ ys)) s.response_ip v
          (omega (arith, length-append (encode_query h qs) ys)) in
      (
        s,
        t,
        e,
        e',
        w.replied
            ∙ ap (λ x. add_reply endpoint x s.sent) (ok-injective (sym er ∙ whole))
            ∙ ap (λ n. add_reply endpoint (reference_response h qs n) s.sent) i,
      )
