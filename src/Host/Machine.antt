-- ===== src/Host/Machine.antt =====
-- What webcm.cpp uses of the machine emulator (`cartesi-machine/machine-c-api.h`) and of Emscripten's
-- fetches, which are not part of the repository: a machine is a parameter, and an operation that can
-- fail gives `none` where the library gives an error code.
use webcm.Common.{ℕ, List, Option}

pub data Reg : Type 0 where
  x10 x11 x12 mcycle : Reg

pub record MachineApi : Type 1 where
  pub Machine : Type 0
  pub read_reg : Machine → Reg → Option ℕ
  pub write_reg : Machine → Reg → ℕ → Option Machine
  pub read_virtual_memory : Machine → ℕ → ℕ → Option (List ℕ)
  pub write_virtual_memory : Machine → ℕ → List ℕ → Option Machine

-- The attributes that `emscripten_fetch` is given, as it copies them: the header strings in their
-- order, names and values in turn.
pub record FetchAttr : Type 0 where
  pub request_method : List ℕ
  pub url : List ℕ
  pub request_headers : List (List ℕ)
  pub request_data : Option (List ℕ)

-- The members of `emscripten_fetch_t` that are read, and the text of the response headers.
pub record Fetch : Type 0 where
  pub ready_state : ℕ
  pub status : ℕ
  pub total_bytes : ℕ
  pub body : List ℕ
  pub response_headers : List ℕ
