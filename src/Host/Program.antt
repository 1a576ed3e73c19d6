-- ===== src/Host/Program.antt =====
-- `main` of webcm.cpp and the decompression in front of it. The emulator, the decompressor and the two
-- images are parameters.
pub mod Rounds
pub mod Loop
pub mod Ends
mod Tests
use webcm.Common.{
  ℕ, zero, suc, ◌+◌, ◌*◌, ◌%◌, ◌^◌, List, [], ◌∷◌, ◌++◌, length, Bool, true, false, ◌==◌,
  if◌then◌else◌, Option, none, some, Outcome, ok, ◌>>=◌,
}
use webcm.Host.Machine.{mcycle, MachineApi, FetchAttr, Fetch}
use webcm.Host.Fetches.{Fetches, Completion, on_fetch_end}
use webcm.Host.Softyield.{Host, Handled, handle_softyield}

pub data BreakReason : Type 0 where
  failed halted yielded_manually yielded_automatically yielded_softly reached_target_mcycle :
      BreakReason

-- What varies in the configuration: the time, and the lengths of the memory and the drive.
pub record Config : Type 0 where
  pub now : ℕ
  pub ram_length : ℕ
  pub drive_length : ℕ

-- The pieces that the decompressor gives to its callback, the bytes that it reads, and what it returns.
pub record Inflated : Type 0 where
  pub chunks : List (List ℕ)
  pub consumed : ℕ
  pub status : ℕ

pub record Emulator (api : MachineApi) : Type 0 where
  pub create_new : Config → Option api.Machine
  pub write_memory : api.Machine → ℕ → List ℕ → Option api.Machine
  pub run : api.Machine → ℕ → Option (api.Machine × BreakReason)
  pub inflate : List ℕ → Inflated
  pub emscripten_fetch : FetchAttr → Fetch
  pub linux_bin : List ℕ
  pub rootfs : List ℕ

-- What is printed.
pub data Message : Type 0 where
  allocating decompressing booting : Message
  create_failed write_failed uncompress_failed cycle_failed run_failed softyield_failed : Message
  stopped : BreakReason → Message
  cycles : ℕ → Message

abbrev pub ram_size : ℕ
ram_size = 256 * 1024 * 1024

abbrev pub rootfs_size : ℕ
rootfs_size = 384 * 1024 * 1024

abbrev pub ram_start : ℕ
ram_start = 0x80000000

abbrev pub rootfs_start : ℕ
rootfs_start = 0x80000000000000

-- The condition of the `do` loop.
abbrev pub goes_on : BreakReason → Bool
goes_on reached_target_mcycle = true
goes_on yielded_softly = true
goes_on failed = false
goes_on halted = false
goes_on yielded_manually = false
goes_on yielded_automatically = false

-- The completions that arrive in a sleep.
unfoldable pub sleep : ℕ → Fetches → List Completion → Fetches × List Completion
unfolding on_fetch_end
sleep zero fs later = (fs, later)
sleep (suc n) fs [] = (fs, [])
sleep (suc n) fs (c ∷ later) = sleep n (on_fetch_end c fs) later

module _ (api : MachineApi) where
  open api use {Machine, read_reg}

  -- `deleted` counts the calls of `cm_delete`.
  pub record Program : Type 0 where
    pub host : Host api
    pub later : List Completion
    pub output : List Message
    pub deleted : ℕ

  -- The loop goes on, or is left with a reason, or the program has ended with this code, these messages
  -- and this number of deletions.
  pub data State : Type 0 where
    running : Program → State
    broken : Program → BreakReason → State
    exited : ℕ → List Message → ℕ → State

  -- A machine, or what is printed before `exit(1)`.
  pub data Prepared : Type 0 where
    prepared : Machine → Prepared
    unprepared : Message → Prepared

  -- A message, `cm_delete`, and `exit(1)`.
  abbrev pub quit : Program → Message → State
  quit p message = exited 1 (p.output ++ (message ∷ [])) (p.deleted + 1)

  -- Where the loop starts.
  abbrev pub booted : Machine → List Completion → Program
  booted machine later = record {
    host = record { machine = machine; fetches = []; calls = [] };
    later = later;
    output = allocating ∷ decompressing ∷ booting ∷ [];
    deleted = 0;
  }

  module _ (emulator : Emulator api) where
    open emulator use {write_memory, run, inflate, emscripten_fetch}

    -- `uncompress_cb`, for one piece after the other: `none` is its `exit(1)`.
    abbrev pub with_memory : (Machine → Option Machine) → Option Machine → Option Machine
    with_memory rest none = none
    with_memory rest (some machine) = rest machine

    unfoldable pub uncompress_chunks : List (List ℕ) → ℕ → Machine → Option Machine
    uncompress_chunks [] offset machine = some machine
    uncompress_chunks (chunk ∷ chunks) offset machine =
        with_memory (uncompress_chunks chunks ((offset + length chunk) % 2 ^ 64))
          (write_memory machine offset chunk)

    abbrev pub uncompressed : ℕ → Option Machine → Prepared
    uncompressed status none = unprepared write_failed
    uncompressed status (some machine) =
        if status == 1 then prepared machine else unprepared uncompress_failed

    unfoldable pub uncompress_memory : Machine → ℕ → List ℕ → Prepared
    uncompress_memory machine paddr image =
        uncompressed (inflate image).status (uncompress_chunks (inflate image).chunks paddr machine)

    -- `emscripten_sleep(0)`, in which so many completions arrive, and the test of the loop.
    unfoldable pub end_turn : ℕ → BreakReason → Program → State
    unfolding sleep
    end_turn arrivals reason p =
        let slept = sleep arrivals p.host.fetches p.later in
        let p' = record p { host = record p.host { fetches = slept.0 }; later = slept.1 } in
        if goes_on reason then running p' else broken p' reason

    abbrev pub on_handled : ℕ → Program → Handled api → State
    on_handled arrivals p r =
        let p' = record p { host = r.host; later = r.later } in
        if r.success then end_turn arrivals yielded_softly p' else quit p' softyield_failed

    -- Behind `cm_run`.
    abbrev pub on_break : ℕ → Program → BreakReason → Outcome State
    on_break arrivals p yielded_softly = do
      r ← handle_softyield api emscripten_fetch p.host p.later
      ok (on_handled arrivals p r)
    on_break arrivals p failed = ok (end_turn arrivals failed p)
    on_break arrivals p halted = ok (end_turn arrivals halted p)
    on_break arrivals p yielded_manually = ok (end_turn arrivals yielded_manually p)
    on_break arrivals p yielded_automatically = ok (end_turn arrivals yielded_automatically p)
    on_break arrivals p reached_target_mcycle = ok (end_turn arrivals reached_target_mcycle p)

    abbrev pub on_run : ℕ → Program → Option (Machine × BreakReason) → Outcome State
    on_run arrivals p none = ok (quit p run_failed)
    on_run arrivals p (some (machine, reason)) =
        on_break arrivals (record p { host = record p.host { machine = machine } }) reason

    abbrev pub on_cycle : ℕ → Program → Option ℕ → Outcome State
    on_cycle arrivals p none = ok (quit p cycle_failed)
    on_cycle arrivals p (some cycle) =
        on_run arrivals p (run p.host.machine ((cycle + 4 * 1024 * 1024) % 2 ^ 64))

    -- The body of the loop.
    unfoldable pub turn : ℕ → Program → Outcome State
    turn arrivals p = on_cycle arrivals p (read_reg p.host.machine mcycle)

    -- As many rounds of the loop as the list has sleeps.
    abbrev pub and_turn : (Program → Outcome State) → State → Outcome State
    and_turn rest (running p) = rest p
    and_turn rest (broken p reason) = ok (broken p reason)
    and_turn rest (exited code output deleted) = ok (exited code output deleted)

    unfoldable pub turns : List ℕ → Program → Outcome State
    unfolding turn
    turns [] p = ok (running p)
    turns (n ∷ ns) p = turn n p >>= and_turn (turns ns)

    -- Behind the loop. `unsigned long` has 32 bits there, so the cycles are printed modulo 2 ^ 32.
    abbrev pub finish_cycles : Program → BreakReason → Option ℕ → State
    finish_cycles p reason none =
        quit (record p { output = p.output ++ (stopped reason ∷ []) }) cycle_failed
    finish_cycles p reason (some cycle) =
        exited 0 (p.output ++ (stopped reason ∷ cycles (cycle % 2 ^ 32) ∷ [])) (p.deleted + 1)

    abbrev pub finish : State → State
    finish (running p) = running p
    finish (broken p reason) = finish_cycles p reason (read_reg p.host.machine mcycle)
    finish (exited code output deleted) = exited code output deleted

    -- The images are decompressed one after the other.
    abbrev pub with_rootfs : List ℕ → List Completion → Prepared → Outcome State
    with_rootfs arrivals later (unprepared message) =
        ok (exited 1 (allocating ∷ decompressing ∷ message ∷ []) 0)
    with_rootfs arrivals later (prepared machine) = do
      s ← turns arrivals (booted machine later)
      ok (finish s)

    abbrev pub with_linux : List ℕ → List Completion → Prepared → Outcome State
    with_linux arrivals later (unprepared message) =
        ok (exited 1 (allocating ∷ decompressing ∷ message ∷ []) 0)
    with_linux arrivals later (prepared machine) =
        with_rootfs arrivals later (uncompress_memory machine rootfs_start emulator.rootfs)

    abbrev pub with_machine : List ℕ → List Completion → Option Machine → Outcome State
    with_machine arrivals later none = ok (exited 1 (allocating ∷ create_failed ∷ []) 0)
    with_machine arrivals later (some machine) =
        with_linux arrivals later (uncompress_memory machine ram_start emulator.linux_bin)

    -- The time; the completions that arrive during the sleeps of each round; and all that arrive, in
    -- their order.
    unfoldable pub webcm_main : ℕ → List ℕ → List Completion → Outcome State
    webcm_main now arrivals later = with_machine arrivals later (
        emulator.create_new
          (record { now = now; ram_length = ram_size; drive_length = rootfs_size }))
