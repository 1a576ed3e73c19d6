-- ===== src/Host/Program/Tests.antt =====
-- A run of `main` of webcm.cpp on a machine that polls for a fetch it has not started.
use webcm.Common.{ℕ, [], ◌∷◌, Option, some}
use webcm.Host.Machine.{Reg, x10, x11, x12, mcycle, MachineApi}
use webcm.Host.Board.{Board, board_api, always_200}
use webcm.Host.Program.{Emulator, yielded_softly}

-- Its first argument says that it polls, its second names the fetch 7, and its cycle is 5.
abbrev polling_read : Board → Reg → Option ℕ
polling_read b x10 = some 2
polling_read b x11 = some 7
polling_read b x12 = some 0
polling_read b mcycle = some 5

abbrev polling : MachineApi
polling = record {
  Machine = Board;
  read_reg = polling_read;
  write_reg = board_api.write_reg;
  read_virtual_memory = board_api.read_virtual_memory;
  write_virtual_memory = board_api.write_virtual_memory;
}

abbrev small : Emulator polling
small = record {
  create_new = λ config. some (record { a0 = 2; a1 = 7; a2 = 0; blocks = [] });
  write_memory = λ b paddr bytes. some (record b { blocks = (paddr, bytes) ∷ b.blocks });
  run = λ b target. some (b, yielded_softly);
  inflate = λ image. record { chunks = image ∷ image ∷ []; consumed = 2; status = 1 };
  emscripten_fetch = always_200;
  linux_bin = 1 ∷ 2 ∷ [];
  rootfs = 3 ∷ [];
}
