-- ===== src/Host/Program/Ends.antt =====
-- How `main` of webcm.cpp ends.
use webcm.Common.{ℕ, ◌%◌, ◌^◌, ◌≡◌, ◌⊎◌, List, [], ◌∷◌, ◌++◌, false, none, some}
use webcm.Host.Machine.{mcycle, MachineApi}
use webcm.Host.Fetches.{Completion}
use webcm.Host.Program.{
  BreakReason, Emulator, Message, allocating, decompressing, create_failed, cycle_failed, Program,
  stopped, cycles, goes_on, State, running, broken, exited, prepared, unprepared, booted,
  uncompress_memory,
}
use webcm.Host.Program.Rounds.{boot_output, IsLooping, Reaches, Ran, Breaks}

module _ (api : MachineApi) (emulator : Emulator api) (now : ℕ) where
  -- The machine with both images in its memory.
  pub record IsPrepared (machine : api.Machine) : Type 0 where
    pub made : api.Machine
    pub with_kernel : api.Machine
    pub create :
        emulator.create_new (record { now = now; ram_length = 268435456; drive_length = 402653184 })
        ≡ some made
    pub kernel :
        uncompress_memory api emulator made 0x80000000 emulator.linux_bin ≡ prepared with_kernel
    pub root :
        uncompress_memory api emulator with_kernel 0x80000000000000 emulator.rootfs
        ≡ prepared machine

  -- There is no machine with both images, and what is printed then.
  pub data IsUnprepared : List Message → Type 0 where
    uncreated :
        emulator.create_new (record { now = now; ram_length = 268435456; drive_length = 402653184 })
          ≡ none
        → IsUnprepared (allocating ∷ create_failed ∷ [])
    without_kernel :
        (made : api.Machine) (message : Message)
        → emulator.create_new
            (record { now = now; ram_length = 268435456; drive_length = 402653184 })
          ≡ some made
        → uncompress_memory api emulator made 0x80000000 emulator.linux_bin ≡ unprepared message
        → IsUnprepared (allocating ∷ decompressing ∷ message ∷ [])
    without_root :
        (made with_kernel : api.Machine) (message : Message)
        → emulator.create_new
            (record { now = now; ram_length = 268435456; drive_length = 402653184 })
          ≡ some made
        → uncompress_memory api emulator made 0x80000000 emulator.linux_bin ≡ prepared with_kernel
        → uncompress_memory api emulator with_kernel 0x80000000000000 emulator.rootfs
          ≡ unprepared message
        → IsUnprepared (allocating ∷ decompressing ∷ message ∷ [])

  -- The loop is left by a round that stops for this reason, and this machine is left.
  abbrev pub Leaves : Program api → api.Machine → BreakReason → Type 0
  Leaves start machine reason =
      (last : Program api) × Reaches api emulator start last
      × Ran api emulator last (some (machine, reason))
      × (goes_on reason ≡ false)

  -- What the program prints and returns at its end, when the loop has started with this program: it is in
  -- the loop; the loop was left, and the cycles are read; or they are not; or a round has failed.
  abbrev pub IsEnd : Program api → State api → Type 0
  IsEnd start (running p) = Reaches api emulator start p × IsLooping api p
  IsEnd start (broken p reason) = ⊥
  IsEnd start (exited code output deleted) =
      (deleted ≡ 1)
      × (((code ≡ 0)
            × (machine : api.Machine) × (reason : BreakReason) × (cycle : ℕ) × Leaves start machine
                reason
            × (api.read_reg machine mcycle ≡ some cycle)
            × (output ≡ boot_output ++ (stopped reason ∷ cycles (cycle % 2 ^ 32) ∷ [])))
          ⊎ ((code ≡ 1)
              × (machine : api.Machine) × (reason : BreakReason) × Leaves start machine reason
              × (api.read_reg machine mcycle ≡ none)
              × (output ≡ boot_output ++ (stopped reason ∷ cycle_failed ∷ [])))
          ⊎ ((code ≡ 1)
              × (last : Program api) × (message : Message) × Reaches api emulator start last
              × Breaks api emulator last message
              × (output ≡ boot_output ++ (message ∷ []))))

  -- The whole program: the machine is prepared and it ends so, or it is not.
  abbrev pub IsRun : List Completion → State api → Type 0
  IsRun later s =
      ((machine : api.Machine) × IsPrepared machine × IsEnd (booted api machine later) s)
      ⊎ ((output : List Message) × IsUnprepared output × (s ≡ exited 1 output 0))
