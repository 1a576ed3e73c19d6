-- ===== src/Host/Program/Rounds.antt =====
-- The rounds of the loop in `main` of webcm.cpp, as steps.
use webcm.Common.{ℕ, ◌+◌, ◌*◌, ◌%◌, ◌^◌, ◌≡◌, List, [], ◌∷◌, ◌++◌, false, Option, none, some, ok}
use webcm.Host.Machine.{mcycle, MachineApi}
use webcm.Host.Softyield.{Handled, handle_softyield}
use webcm.Host.Ledger.{IsHeld}
use webcm.Host.Program.{
  BreakReason, yielded_softly, Emulator, Message, allocating, decompressing, booting, cycle_failed,
  run_failed, softyield_failed, goes_on, Program, State, running, broken, exited, turn,
}

-- What is printed before the loop.
abbrev pub boot_output : List Message
boot_output = allocating ∷ decompressing ∷ booting ∷ []

module _ (api : MachineApi) where
  -- The program in its loop: the map is in step with the fetches, and the machine is there.
  pub record IsLooping (p : Program api) : Type 0 where
    pub held : IsHeld api p.host
    pub kept : p.deleted ≡ 0
    pub output : p.output ≡ boot_output

  module _ (emulator : Emulator api) where
    -- The programs that rounds lead to.
    pub data Reaches (start : Program api) : Program api → Type 0 where
      here : Reaches start start
      round :
          (n : ℕ) (p p' : Program api)
          → Reaches start p
          → turn api emulator n p ≡ ok (running p')
          → Reaches start p'

    -- In a round the machine runs from the cycle that is read, for 4 * 2 ^ 20 cycles at most.
    abbrev pub Ran : Program api → Option (api.Machine × BreakReason) → Type 0
    Ran p result =
        (cycle : ℕ) × (api.read_reg p.host.machine mcycle ≡ some cycle)
        × (emulator.run p.host.machine ((cycle + 4 * 1024 * 1024) % 2 ^ 64) ≡ result)

    -- The error that ends the program in a round, and its message.
    pub data Breaks (p : Program api) : Message → Type 0 where
      unread : api.read_reg p.host.machine mcycle ≡ none → Breaks p cycle_failed
      unrun : Ran p none → Breaks p run_failed
      unserved :
          (machine : api.Machine)
          → Ran p (some (machine, yielded_softly))
          → (r : Handled api)
          → handle_softyield api emulator.emscripten_fetch
              (record p.host { machine = machine })
              p.later
            ≡ ok r
          → r.success ≡ false
          → Breaks p softyield_failed

    -- What one round of the loop comes to.
    abbrev pub IsRound : Program api → State api → Type 0
    IsRound p (running p') = IsLooping p'
    IsRound p (broken p' reason) =
        IsLooping p' × Ran p (some (p'.host.machine, reason)) × (goes_on reason ≡ false)
    IsRound p (exited code output deleted) =
        (code ≡ 1)
        × (deleted ≡ 1)
        × (message : Message) × Breaks p message
        × (output ≡ boot_output ++ (message ∷ []))

    -- What rounds from this program come to: the last one has left the loop, or ended the program.
    abbrev pub IsFine : Program api → State api → Type 0
    IsFine start (running p) = Reaches start p × IsLooping p
    IsFine start (broken p reason) =
        IsLooping p
        × (last : Program api) × Reaches start last
        × Ran last (some (p.host.machine, reason))
        × (goes_on reason ≡ false)
    IsFine start (exited code output deleted) =
        (code ≡ 1)
        × (deleted ≡ 1)
        × (last : Program api) × (message : Message) × Reaches start last
        × Breaks last message
        × (output ≡ boot_output ++ (message ∷ []))
