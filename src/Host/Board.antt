-- ===== src/Host/Board.antt =====
-- A concrete machine, for the tests of webcm.cpp and of what talks to it.
use webcm.Common.{ℕ, List, [], ◌∷◌, length, ◌==◌, if◌then◌else◌, Option, none, some}
use webcm.Host.Machine.{Reg, x10, x11, x12, mcycle, MachineApi, FetchAttr, Fetch}

-- Three registers, and memory as blocks that are read whole, the newest first.
pub record Board : Type 0 where
  pub a0 : ℕ
  pub a1 : ℕ
  pub a2 : ℕ
  pub blocks : List (ℕ × List ℕ)

abbrev pub board_read : Board → Reg → Option ℕ
board_read b x10 = some b.a0
board_read b x11 = some b.a1
board_read b x12 = some b.a2
board_read b mcycle = none

abbrev pub board_write : Board → Reg → ℕ → Option Board
board_write b x10 x = some (record b { a0 = x })
board_write b x11 x = some (record b { a1 = x })
board_write b x12 x = some (record b { a2 = x })
board_write b mcycle x = none

abbrev pub block_at : List (ℕ × List ℕ) → ℕ → ℕ → Option (List ℕ)
block_at [] vaddr n = none
block_at ((at, bytes) ∷ bs) vaddr n =
    if at == vaddr then (if length bytes == n then some bytes else none) else block_at bs vaddr n

abbrev pub board_api : MachineApi
board_api = record {
  Machine = Board;
  read_reg = board_read;
  write_reg = board_write;
  read_virtual_memory = λ b vaddr n. block_at b.blocks vaddr n;
  write_virtual_memory = λ b vaddr bytes. some (record b { blocks = (vaddr, bytes) ∷ b.blocks });
}

-- Every fetch answers with 200 and nothing else.
abbrev pub always_200 : FetchAttr → Fetch
always_200 attr = record {
  ready_state = 4;
  status = 200;
  total_bytes = 0;
  body = [];
  response_headers = [];
}
