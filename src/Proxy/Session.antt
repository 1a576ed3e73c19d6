-- ===== src/Proxy/Session.antt =====
-- `detect_session`, `session`, `plain_session` and `ssl_session` of https-proxy/https-proxy.cpp: what
-- becomes of an accepted connection. A completed operation is an argument of its handler.
use webcm.Common.{List, [], ◌∷◌, Bool, true, false, ℕ, if◌then◌else◌, Outcome, ok, ◌>>=◌}
use webcm.Proxy.Fill.{HttpRequest}
use webcm.Proxy.Handler.{HostApi, HttpResponse, handle_request}

-- The operation that is waited for: the detection of TLS, the handshake, a read, a write with the
-- `keep_alive` of its message, or the TLS shutdown; `secure` is an `ssl_session`. `ended` is a session
-- that nothing holds any more.
pub data Phase : Type 0 where
  detecting handshaking : Phase
  reading : Bool → Phase
  writing : Bool → Bool → Phase
  closing ended : Phase

-- `failed` is any error but the end of the stream; a request arrives with the place of its body.
pub data Completion : Type 0 where
  failed shaken end_of_stream written closed : Completion
  detected : Bool → Completion
  arrived : HttpRequest → ℕ → Completion

module _ (api : HostApi) (version_string : List ℕ) where
  -- `sent` are the responses given to `async_write`, newest first; `shut` says that a shutdown was
  -- sent, of TCP or of TLS.
  pub record Connection : Type 0 where
    pub phase : Phase
    pub world : api.World
    pub sent : List HttpResponse
    pub shut : Bool

  abbrev pub await : Connection → Phase → Connection
  await c phase = record c { phase = phase }

  -- `detect_session`, from the listener.
  abbrev pub detect_run : api.World → Connection
  detect_run world = record { phase = detecting; world = world; sent = []; shut = false }

  abbrev pub do_read : Connection → Bool → Connection
  do_read c secure = await c (reading secure)

  -- A plain session is shut down at once, one of TLS waits for it.
  unfoldable pub do_eof : Connection → Bool → Connection
  do_eof c true = record c { phase = closing; shut = true }
  do_eof c false = record c { phase = ended; shut = true }

  unfoldable pub session_send : Connection → Bool → api.World × HttpResponse → Connection
  session_send c secure (world, res) = record c {
    phase = writing secure res.keep_alive;
    world = world;
    sent = res ∷ c.sent;
  }

  unfoldable pub on_detect : Connection → Completion → Connection
  on_detect c (detected true) = await c handshaking
  on_detect c (detected false) = do_read c false
  on_detect c _ = await c ended

  unfoldable pub on_handshake : Connection → Completion → Connection
  on_handshake c shaken = do_read c true
  on_handshake c _ = await c ended

  unfoldable pub on_read : Connection → Bool → Completion → Outcome Connection
  unfolding do_eof session_send handle_request
  on_read c secure end_of_stream = ok (do_eof c secure)
  on_read c secure (arrived req body_vaddr) = do
    answer ← handle_request api version_string c.world req body_vaddr
    ok (session_send c secure answer)
  on_read c secure _ = ok (await c ended)

  unfoldable pub on_write : Connection → Bool → Bool → Completion → Connection
  unfolding do_eof
  on_write c secure keep_alive written = if keep_alive then do_read c secure else do_eof c secure
  on_write c secure keep_alive _ = await c ended

  -- The handler of the operation that is waited for.
  unfoldable pub connection_step : Connection → Phase → Completion → Outcome Connection
  unfolding on_detect on_handshake on_read on_write
  connection_step c detecting x = ok (on_detect c x)
  connection_step c handshaking x = ok (on_handshake c x)
  connection_step c (reading secure) x = on_read c secure x
  connection_step c (writing secure keep_alive) x = ok (on_write c secure keep_alive x)
  connection_step c closing x = ok (await c ended)
  connection_step c ended x = ok c

  unfoldable pub connection_steps : Connection → List Completion → Outcome Connection
  unfolding connection_step
  connection_steps c [] = ok c
  connection_steps c (x ∷ xs) = do c' ← connection_step c c.phase x; connection_steps c' xs
