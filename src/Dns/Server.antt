-- ===== src/Dns/Server.antt =====
-- `dns_udp_server` and `dns_tcp_session` of https-proxy/https-proxy.cpp. The sockets belong to
-- Boost.Asio: a completed operation is an argument of the handler that the server gave it. What a
-- server hands to a socket to send is the content of the vector at that call.
pub mod Udp
pub mod Tcp
use webcm.Common.{
  ℕ, suc, ◌+◌, ◌-◌, ◌*◌, ◌/◌, ◌%◌, ◌^◌, List, [], ◌∷◌, ◌++◌, ltb, leb, if◌then◌else◌, Option, none,
  some, length, take, drop, replicate, Outcome, ok, ◌>>=◌, read,
}
use webcm.Dns.Response.{build_dns_response, read_u16}

-- A socket wrote these bytes into the buffer, from its start on.
abbrev pub overwrite : List ℕ → List ℕ → List ℕ
overwrite bytes buffer = bytes ++ drop (length bytes) buffer

-- A message that is sent, with its receiver.
pub record Datagram (Endpoint : Type 0) : Type 0 where
  pub endpoint : Endpoint
  pub payload : List ℕ

-- `pending` counts the receives that were started and have not completed; `sent` is what was sent,
-- newest first.
pub record UdpServer (Endpoint : Type 0) : Type 0 where
  pub recv_buffer : List ℕ
  pub remote_endpoint : Endpoint
  pub response_ip : ℕ
  pub pending : ℕ
  pub sent : List (Datagram Endpoint)

-- How a receive completes: with an error, or with a datagram from an endpoint.
pub data Receive (Endpoint : Type 0) : Type 0 where
  failed : Receive Endpoint
  received : Endpoint → List ℕ → Receive Endpoint

module _ {Endpoint : Type 0} where
  unfoldable pub do_receive : UdpServer Endpoint → UdpServer Endpoint
  do_receive s = record s { pending = s.pending + 1 }

  -- The constructor, with the endpoint that the library makes by default, and `run`.
  unfoldable pub udp_run : Endpoint → ℕ → UdpServer Endpoint
  unfolding do_receive
  udp_run unset response_ip = do_receive (record {
    recv_buffer = replicate 512 0;
    remote_endpoint = unset;
    response_ip = response_ip;
    pending = 0;
    sent = [];
  })

  -- `if (response.empty()) return;`, and the send.
  unfoldable pub send_response : UdpServer Endpoint → List ℕ → UdpServer Endpoint
  send_response s [] = s
  send_response s (b ∷ response) = record s {
    sent = record { endpoint = s.remote_endpoint; payload = b ∷ response } ∷ s.sent;
  }

  unfoldable pub udp_handle_query : UdpServer Endpoint → ℕ → Outcome (UdpServer Endpoint)
  unfolding send_response
  udp_handle_query s len = do
    response ← build_dns_response s.recv_buffer len s.response_ip
    ok (send_response s response)

  -- A receive that completes fills the buffer and the endpoint.
  abbrev pub fill : UdpServer Endpoint → Endpoint → List ℕ → UdpServer Endpoint
  fill s endpoint bytes = record s {
    recv_buffer = overwrite bytes s.recv_buffer;
    remote_endpoint = endpoint;
    pending = s.pending - 1;
  }

  -- The handler of a receive, which starts the next one.
  unfoldable pub on_receive : UdpServer Endpoint → Receive Endpoint → Outcome (UdpServer Endpoint)
  unfolding do_receive udp_handle_query
  on_receive s failed = ok (do_receive (record s { pending = s.pending - 1 }))
  on_receive s (received endpoint bytes) =
      let s' = fill s endpoint bytes in
      do
        after ← (if leb 12 (length bytes) then udp_handle_query s' (length bytes) else ok s')
        ok (do_receive after)

  -- The receives of a lifetime, in their order.
  unfoldable pub udp_receives :
      UdpServer Endpoint → List (Receive Endpoint) → Outcome (UdpServer Endpoint)
  unfolding on_receive
  udp_receives s [] = ok s
  udp_receives s (r ∷ rs) = do after ← on_receive s r; udp_receives after rs

-- What a TCP session waits for; `released` means that nothing is pending any more, so that the
-- session's last reference is gone.
pub data Phase : Type 0 where
  reading_length : Phase
  reading_message : ℕ → Phase
  writing : List ℕ → Phase
  shut_down : Phase
  released : Phase

pub record TcpSession : Type 0 where
  pub recv_buffer : List ℕ
  pub response_ip : ℕ
  pub phase : Phase

-- The constructor, and `run`.
unfoldable pub tcp_run : ℕ → TcpSession
tcp_run response_ip = record {
  recv_buffer = replicate 514 0;
  response_ip = response_ip;
  phase = reading_length;
}

-- The handler of the first read.
unfoldable pub on_length : TcpSession → List ℕ → Outcome TcpSession
unfolding read_u16
on_length s bytes =
    let buffer = overwrite bytes s.recv_buffer in
    do
      msg_length ← read_u16 buffer 0
      ok (record s {
        recv_buffer = buffer;
        phase = if ltb 512 msg_length then released else reading_message msg_length;
      })

-- The response behind its length, which is a `uint16_t`.
unfoldable pub frame : List ℕ → Phase
frame [] = released
frame (b ∷ response) =
    let response_length = length (b ∷ response) % 2 ^ 16 in
    writing (response_length / 256 % 256 ∷ response_length % 256 ∷ b ∷ response)

-- The handler of the second read, which fills the buffer behind the length.
unfoldable pub on_message : TcpSession → ℕ → List ℕ → Outcome TcpSession
unfolding frame
on_message s len bytes =
    let message = overwrite bytes (drop 2 s.recv_buffer) in
    do
      response ← build_dns_response message len s.response_ip
      ok (record s { recv_buffer = take 2 s.recv_buffer ++ message; phase = frame response })

-- A completed operation: `none` is an error. The end of the write shuts the socket down either way.
unfoldable pub on_complete : TcpSession → Phase → Option (List ℕ) → Outcome TcpSession
unfolding on_length on_message
on_complete s reading_length none = ok (record s { phase = released })
on_complete s reading_length (some bytes) = on_length s bytes
on_complete s (reading_message len) none = ok (record s { phase = released })
on_complete s (reading_message len) (some bytes) = on_message s len bytes
on_complete s (writing payload) c = ok (record s { phase = shut_down })
on_complete s shut_down c = ok s
on_complete s released c = ok s

unfoldable pub tcp_step : TcpSession → Option (List ℕ) → Outcome TcpSession
unfolding on_complete
tcp_step s c = on_complete s s.phase c

unfoldable pub tcp_steps : TcpSession → List (Option (List ℕ)) → Outcome TcpSession
unfolding tcp_step
tcp_steps s [] = ok s
tcp_steps s (c ∷ cs) = do after ← tcp_step s c; tcp_steps after cs
