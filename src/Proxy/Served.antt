-- ===== src/Proxy/Served.antt =====
-- A connection serves one request, and comes to its end.
use webcm.Common.{ℕ, ◌≤◌, ◌<◌, ◌≡◌, List, [], ◌∷◌, length, Bool, true, false, Outcome, ok}
use webcm.Proxy.Fill.{HttpRequest}
use webcm.Proxy.Filled.{IsTextRequest}
use webcm.Proxy.Handler.{HostApi}
use webcm.Proxy.Session.{
  Phase, detecting, handshaking, reading, writing, closing, ended, Completion, failed, shaken,
  end_of_stream, written, closed, detected, arrived, Connection, connection_step,
}

-- The completions of one request, in their order.
abbrev pub exchange : Bool → HttpRequest → ℕ → List Completion
exchange true req body_vaddr =
    detected true ∷ shaken ∷ arrived req body_vaddr ∷ written ∷ closed ∷ []
exchange false req body_vaddr = detected false ∷ arrived req body_vaddr ∷ written ∷ []

-- How far a phase is from the end.
abbrev pub rank : Phase → ℕ
rank detecting = 5
rank handshaking = 4
rank (reading secure) = 3
rank (writing secure keep_alive) = 2
rank closing = 1
rank ended = 0

-- What can complete in a phase.
pub data Fits : Phase → Completion → Type 0 where
  detect_failed : Fits detecting failed
  detect_done : (secure : Bool) → Fits detecting (detected secure)
  handshake_failed : Fits handshaking failed
  handshake_done : Fits handshaking shaken
  read_failed : (secure : Bool) → Fits (reading secure) failed
  read_end : (secure : Bool) → Fits (reading secure) end_of_stream
  read_done :
      (secure : Bool) (req : HttpRequest) (body_vaddr : ℕ)
      → IsTextRequest req body_vaddr
      → Fits (reading secure) (arrived req body_vaddr)
  write_failed : (secure keep_alive : Bool) → Fits (writing secure keep_alive) failed
  write_done : (secure keep_alive : Bool) → Fits (writing secure keep_alive) written
  shutdown_failed : Fits closing failed
  shutdown_done : Fits closing closed

-- How many responses a phase allows: none up to the read, then one, and no write keeps the connection.
abbrev pub Allows : Phase → ℕ → Type 0
Allows detecting n = n ≡ 0
Allows handshaking n = n ≡ 0
Allows (reading secure) n = n ≡ 0
Allows (writing secure keep_alive) n = (n ≡ 1) × (keep_alive ≡ false)
Allows closing n = n ≤ 1
Allows ended n = n ≤ 1

module _ (api : HostApi) (version_string : List ℕ) where
  -- A step that ends well.
  abbrev pub Moves : Phase → Outcome (Connection api version_string) → Type 0
  Moves phase o =
      (c' : Connection api version_string) × (o ≡ ok c')
      × Allows c'.phase (length c'.sent)
      × (rank c'.phase < rank phase)

  -- Completions that fit the phases they meet.
  abbrev pub AllFit : Connection api version_string → List Completion → Type 0
  AllFit c [] = Unit
  AllFit c (x ∷ xs) =
      Fits c.phase x
      × ((c' : Connection api version_string)
          → connection_step api version_string c c.phase x ≡ ok c'
          → AllFit c' xs)
