-- ===== src/Proxy/Listener.antt =====
-- `listener` and `dns_tcp_server` of https-proxy/https-proxy.cpp: their acceptors. `Socket` is what an
-- accepted connection is to Boost.Asio.
use webcm.Common.{
  ℕ, ◌+◌, ◌-◌, ◌≡◌, refl, ◌∙◌, List, [], ◌∷◌, ◌++◌, append_assoc, append-nil, Bool, true, false,
  ◌&&◌, if◌then◌else◌, arith,
}

-- `sessions` are the sockets whose session was made and run, in their order; `reported` counts the calls
-- of `fail`, and `pending` the accepts that were started and have not completed.
pub record Acceptor (Socket : Type 0) : Type 0 where
  pub listening : Bool
  pub pending : ℕ
  pub sessions : List Socket
  pub reported : ℕ

pub data Accepted (Socket : Type 0) : Type 0 where
  failed : Accepted Socket
  accepted : Socket → Accepted Socket

module _ {Socket : Type 0} where
  abbrev pub unopened : ℕ → Acceptor Socket
  unopened reported = record { listening = false; pending = 0; sessions = []; reported = reported }

  -- The constructors of both classes, by what their four calls give: an error is reported, and the
  -- steps behind it are left out.
  unfoldable pub make_acceptor : Bool → Bool → Bool → Bool → Acceptor Socket
  make_acceptor opened option bound listens =
      if opened
      then if option
        then if bound
          then if listens then record (unopened 0) { listening = true } else unopened 1
          else unopened 1
        else unopened 1
      else unopened 1

  unfoldable pub do_accept : Acceptor Socket → Acceptor Socket
  do_accept a = record a { pending = a.pending + 1 }

  -- `listener::on_accept`, and the handler in `dns_tcp_server::do_accept`.
  unfoldable pub on_accept : Acceptor Socket → Accepted Socket → Acceptor Socket
  unfolding do_accept
  on_accept a failed = do_accept (record a { pending = a.pending - 1; reported = a.reported + 1 })
  on_accept a (accepted socket) =
      do_accept (record a { pending = a.pending - 1; sessions = a.sessions ++ (socket ∷ []) })

  unfoldable pub dns_on_accept : Acceptor Socket → Accepted Socket → Acceptor Socket
  unfolding do_accept
  dns_on_accept a failed = do_accept (record a { pending = a.pending - 1 })
  dns_on_accept a (accepted socket) =
      do_accept (record a { pending = a.pending - 1; sessions = a.sessions ++ (socket ∷ []) })

  unfoldable pub accepts :
      (Acceptor Socket → Accepted Socket → Acceptor Socket)
      → Acceptor Socket
      → List (Accepted Socket)
      → Acceptor Socket
  accepts handler a [] = a
  accepts handler a (x ∷ xs) = accepts handler (handler a x) xs

  abbrev pub sockets : List (Accepted Socket) → List Socket
  sockets [] = []
  sockets (failed ∷ xs) = sockets xs
  sockets (accepted s ∷ xs) = s ∷ sockets xs

  abbrev pub failures : List (Accepted Socket) → ℕ
  failures [] = 0
  failures (failed ∷ xs) = 1 + failures xs
  failures (accepted s ∷ xs) = failures xs

  listener_accepts_from :
      (xs : List (Accepted Socket)) (a : Acceptor Socket)
      → a.pending ≡ 1
      → accepts on_accept a xs
        ≡ record a { sessions = a.sessions ++ sockets xs; reported = a.reported + failures xs }
  unfolding accepts on_accept do_accept
  listener_accepts_from [] a h = ground (arith, append-nil a.sessions)
  listener_accepts_from (failed ∷ xs) a h = listener_accepts_from xs _ (omega arith) ∙ ground arith
  listener_accepts_from (accepted s ∷ xs) a h =
      listener_accepts_from xs _ (omega arith)
      ∙ ground (arith, append_assoc a.sessions (s ∷ []) (sockets xs))

  dns_accepts_from :
      (xs : List (Accepted Socket)) (a : Acceptor Socket)
      → a.pending ≡ 1
      → accepts dns_on_accept a xs
        ≡ record a { sessions = a.sessions ++ sockets xs; reported = a.reported }
  unfolding accepts dns_on_accept do_accept
  dns_accepts_from [] a h = ground (arith, append-nil a.sessions)
  dns_accepts_from (failed ∷ xs) a h = dns_accepts_from xs _ (omega arith) ∙ ground arith
  dns_accepts_from (accepted s ∷ xs) a h =
      dns_accepts_from xs _ (omega arith)
      ∙ ground (arith, append_assoc a.sessions (s ∷ []) (sockets xs))

  -- Whatever the four calls of its constructor give, and whatever accepts complete, a listener that runs
  -- has one accept pending, has run a session for every connection, in their order, and for nothing
  -- else, and has reported every error.
  pub listener_accepts :
      (opened option bound listens : Bool) (xs : List (Accepted Socket))
      → accepts on_accept (do_accept (make_acceptor opened option bound listens)) xs ≡ record {
        listening = opened && (option && (bound && listens));
        pending = 1;
        sessions = sockets xs;
        reported = (if opened && (option && (bound && listens)) then 0 else 1) + failures xs;
      }
  unfolding make_acceptor do_accept
  listener_accepts true true true true xs = listener_accepts_from xs _ refl
  listener_accepts true true true false xs = listener_accepts_from xs _ refl
  listener_accepts true true false listens xs = listener_accepts_from xs _ refl
  listener_accepts true false bound listens xs = listener_accepts_from xs _ refl
  listener_accepts false option bound listens xs = listener_accepts_from xs _ refl

  -- The same of the DNS server over TCP, which reports no error of an accept.
  pub dns_accepts :
      (opened option bound listens : Bool) (xs : List (Accepted Socket))
      → accepts dns_on_accept (do_accept (make_acceptor opened option bound listens)) xs ≡ record {
        listening = opened && (option && (bound && listens));
        pending = 1;
        sessions = sockets xs;
        reported = if opened && (option && (bound && listens)) then 0 else 1;
      }
  unfolding make_acceptor do_accept
  dns_accepts true true true true xs = dns_accepts_from xs _ refl
  dns_accepts true true true false xs = dns_accepts_from xs _ refl
  dns_accepts true true false listens xs = dns_accepts_from xs _ refl
  dns_accepts true false bound listens xs = dns_accepts_from xs _ refl
  dns_accepts false option bound listens xs = dns_accepts_from xs _ refl
