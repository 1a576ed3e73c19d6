-- ===== src/Host/Program/Loop.antt =====
-- The loop in `main` of webcm.cpp.
use webcm.Common.{
  ℕ, zero, suc, ◌+◌, ◌*◌, ◌%◌, ◌^◌, ◌≡◌, inl, inr, refl, sym, ◌∙◌, ap, List, [], ◌∷◌, ◌++◌, false,
  Bool-cases, Option, none, some, Outcome, ok, ◌>>=◌, arith,
}
use webcm.Mmio.Structs.{yield_type}
use webcm.Host.Machine.{x10, mcycle, MachineApi}
use webcm.Host.Fetches.{Fetches, Completion, on_fetch_end}
use webcm.Host.Fetches.Entries.{entries-on_fetch_end}
use webcm.Host.Softyield.{Handled, FetchCall, register, handle_softyield}
use webcm.Host.Ledger.{IsBalanced, IsHeld}
use webcm.Host.Returns.{IsServed, handle_softyield_returns}
use webcm.Host.Program.Rounds.{
  boot_output, IsLooping, Reaches, round, Ran, unread, unrun, unserved, IsRound, IsFine,
}
use webcm.Host.Program.{
  cycle_failed, run_failed, softyield_failed, BreakReason, failed, halted, yielded_manually,
  yielded_automatically, yielded_softly, reached_target_mcycle, Emulator, Message, goes_on, sleep,
  Program, State, running, broken, exited, end_turn, on_handled, on_break, on_run, on_cycle, turn,
  turns, and_turn,
}

sleep-IsBalanced :
    (n : ℕ) (fs : Fetches) (later : List Completion) (calls : List FetchCall)
    → IsBalanced fs calls
    → IsBalanced ((sleep n fs later).0) calls
unfolding sleep
sleep-IsBalanced zero fs later calls v = v
sleep-IsBalanced (suc n) fs [] calls v = v
sleep-IsBalanced (suc n) fs (c ∷ later) calls v =
    sleep-IsBalanced n (on_fetch_end c fs) later calls (record {
      unique = λ k. omega (arith, v.unique k, entries-on_fetch_end k c fs);
      balanced = λ k. omega (arith, v.balanced k, entries-on_fetch_end k c fs);
    })

module _ (api : MachineApi) where
  abbrev pub Ends : (State api → Type 0) → Outcome (State api) → Type 0
  Ends P m = (s : State api) × (m ≡ ok s) × P s

  module _ (emulator : Emulator api) where
    -- Whenever the machine yields softly in these rounds, the call is served.
    abbrev pub IsServedAll : List ℕ → Program api → Type 0
    IsServedAll [] p = Unit {0}
    IsServedAll (n ∷ ns) p =
        ((cycle : ℕ) (machine : api.Machine)
          → api.read_reg p.host.machine mcycle ≡ some cycle
          → emulator.run p.host.machine ((cycle + 4 * 1024 * 1024) % 2 ^ 64)
            ≡ some (machine, yielded_softly)
          → IsServed api (yield_type (register api (record p.host { machine = machine }) x10))
              (record p.host { machine = machine }) p.later)
        × ((p' : Program api) → turn api emulator n p ≡ ok (running p') → IsServedAll ns p')

    -- What the end of a round that has stopped for this reason comes to.
    abbrev IsAfter : Program api → BreakReason → State api → Type 0
    IsAfter p reason (running p') = IsLooping api p'
    IsAfter p reason (broken p' reason') =
        IsLooping api p'
        × (p'.host.machine ≡ p.host.machine)
        × (reason' ≡ reason)
        × (goes_on reason' ≡ false)
    IsAfter p reason (exited code output deleted) =
        (code ≡ 1)
        × (deleted ≡ 1)
        × (output ≡ boot_output ++ (softyield_failed ∷ []))
        × (reason ≡ yielded_softly)
        × (r : Handled api) × (handle_softyield api emulator.emscripten_fetch p.host p.later ≡ ok r)
        × (r.success ≡ false)

    sleep-IsLooping :
        (n : ℕ) (p : Program api)
        → IsLooping api p
        → IsLooping api (record p {
          host = record p.host { fetches = (sleep n p.host.fetches p.later).0 };
          later = (sleep n p.host.fetches p.later).1;
        })
    sleep-IsLooping n p v = record {
      held = sleep-IsBalanced n p.host.fetches p.later p.host.calls v.held;
      kept = v.kept;
      output = v.output;
    }

    end_turn-IsAfter :
        (n : ℕ) (reason : BreakReason) (p : Program api)
        → IsLooping api p
        → IsAfter p reason (end_turn api emulator n reason p)
    unfolding end_turn
    end_turn-IsAfter n reason p v = elim (Bool-cases (goes_on reason)) [
      | inl e ↦ rw e (sleep-IsLooping n p v)
      | inr e ↦ rw e (sleep-IsLooping n p v, refl, refl, e)
    ]

    -- A message behind those of the beginning.
    said :
        (p : Program api) (message : Message)
        → IsLooping api p
        → p.output ++ (message ∷ []) ≡ boot_output ++ (message ∷ [])
    said p message v = ap (λ o. o ++ (message ∷ [])) v.output

    end_softly :
        (n : ℕ) (p : Program api) (start : Program api)
        → IsLooping api p
        → IsAfter start yielded_softly (end_turn api emulator n yielded_softly p)
    unfolding end_turn
    end_softly n p start v = sleep-IsLooping n p v

    on_break-Ends :
        (n : ℕ) (p : Program api) (reason : BreakReason)
        → IsLooping api p
        → (reason ≡ yielded_softly
            → IsServed api (yield_type (register api p.host x10)) p.host p.later)
        → Ends (IsAfter p reason) (on_break api emulator n p reason)
    on_break-Ends n p failed v served = (_, refl, end_turn-IsAfter n failed p v)
    on_break-Ends n p halted v served = (_, refl, end_turn-IsAfter n halted p v)
    on_break-Ends n p yielded_manually v served = (_, refl, end_turn-IsAfter n yielded_manually p v)
    on_break-Ends n p yielded_automatically v served =
        (_, refl, end_turn-IsAfter n yielded_automatically p v)
    on_break-Ends n p reached_target_mcycle v served =
        (_, refl, end_turn-IsAfter n reached_target_mcycle p v)
    on_break-Ends n p yielded_softly v served =
        let (r, e, held) =
          handle_softyield_returns api emulator.emscripten_fetch p.host p.later (served refl)
            v.held in
        (on_handled api emulator n p r, rw e, handled r e held)
      where
        handled :
            (r : Handled api)
            → handle_softyield api emulator.emscripten_fetch p.host p.later ≡ ok r
            → IsHeld api r.host
            → IsAfter p yielded_softly (on_handled api emulator n p r)
        handled r e' held = elim (Bool-cases r.success) [
          | inl e ↦ rw e (
              end_softly n (record p { host = r.host; later = r.later }) p
                (record { held = held; kept = v.kept; output = v.output }))
          | inr e ↦ rw e (refl, ap (λ k. k + 1) v.kept, said p softyield_failed v, refl, r, e', e)
        ]

    -- A round that has run, and has stopped so.
    after-IsRound :
        (p : Program api) (machine : api.Machine) (reason : BreakReason) (s : State api)
        → Ran api emulator p (some (machine, reason))
        → IsAfter (record p { host = record p.host { machine = machine } }) reason s
        → IsRound api emulator p s
    after-IsRound p machine reason (running p') ran v = v
    after-IsRound p machine reason (broken p' reason') ran (v, e, e', stops) =
        (v, rw (e, e') ran, stops)
    after-IsRound p machine reason (exited code output deleted) ran (c, d, o, e, r, e', refused) =
        (c, d, softyield_failed, unserved machine (rw (sym e) ran) r e' refused, o)

    on_run-Ends :
        (n : ℕ) (p : Program api) (o : Option (api.Machine × BreakReason))
        → IsLooping api p
        → Ran api emulator p o
        → ((machine : api.Machine)
            → o ≡ some (machine, yielded_softly)
            → IsServed api
                (yield_type (register api (record p.host { machine = machine }) x10))
                (record p.host { machine = machine })
                p.later)
        → Ends (IsRound api emulator p) (on_run api emulator n p o)
    on_run-Ends n p none v ran served =
        (_, refl, (refl, ap (λ k. k + 1) v.kept, run_failed, unrun ran, said p run_failed v))
    on_run-Ends n p (some (machine, reason)) v ran served =
        let (s, e, after) =
          on_break-Ends n (record p { host = record p.host { machine = machine } }) reason
            (record { held = v.held; kept = v.kept; output = v.output })
            (λ e. served machine (ap (λ r. some (machine, r)) e)) in
        (s, e, after-IsRound p machine reason s ran after)

    turn-Ends :
        (n : ℕ) (ns : List ℕ) (p : Program api)
        → IsLooping api p
        → IsServedAll (n ∷ ns) p
        → Ends (IsRound api emulator p) (turn api emulator n p)
    unfolding turn
    turn-Ends n ns p v served = cycle_read (api.read_reg p.host.machine mcycle) refl
      where
        cycle_read :
            (o : Option ℕ)
            → api.read_reg p.host.machine mcycle ≡ o
            → Ends (IsRound api emulator p) (on_cycle api emulator n p o)
        cycle_read none e =
            (_, refl, (refl, ap (λ k. k + 1) v.kept, cycle_failed, unread e, said p cycle_failed v))
        cycle_read (some cycle) e =
            on_run-Ends n p (emulator.run p.host.machine ((cycle + 4 * 1024 * 1024) % 2 ^ 64)) v
              (cycle, e, refl) (λ machine e'. served.0 cycle machine e e')

    module _ (start : Program api) where
      pub turns-Ends :
          (ns : List ℕ) (p : Program api)
          → Reaches api emulator start p
          → IsLooping api p
          → IsServedAll ns p
          → Ends (IsFine api emulator start) (turns api emulator ns p)
      unfolding turns
      turns-Ends [] p reached v served = (_, refl, (reached, v))
      turns-Ends (n ∷ ns) p reached v served =
          let (s, e, came) = turn-Ends n ns p v served in
          let (t, e', fine) = next s came (λ p' v' k.
            let went = e ∙ ap (λ q. ok q) k in
            turns-Ends ns p' (round n p p' reached went) v' (served.1 p' went)) in
          (t, ap (λ o. o >>= and_turn api emulator (turns api emulator ns)) e ∙ e', fine)
        where
          next :
              (s : State api)
              → IsRound api emulator p s
              → ((p' : Program api)
                  → IsLooping api p'
                  → s ≡ running p'
                  → Ends (IsFine api emulator start) (turns api emulator ns p'))
              → Ends (IsFine api emulator start) (and_turn api emulator (turns api emulator ns) s)
          next (running p') came later = later p' came refl
          next (broken p' reason) (v', ran, stops) later = (_, refl, (v', p, reached, ran, stops))
          next (exited code output deleted) (c, d, message, breaks, o) later =
              (_, refl, (c, d, p, message, reached, breaks, o))
