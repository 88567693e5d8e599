-- ===== src/Integrations.antt =====
-- hoc-clk/sysmodule/src/integrations.cpp: what SaltyNX tells of a game, in memory that it shares.
-- What the system answers, and what others write to the memory, are parameters.
pub mod Block
use horizon_oc.Prelude.{
  ◌>>=◌, ltb, ◌==◌, if◌then◌else◌, ℕ, zero, suc, ◌+◌, ◌*◌, Bool, true, false, Option, none, some,
}

-- The 4096 bytes of the shared memory, by their offsets.
abbrev pub Bytes : Type 0
Bytes = ℕ → ℕ

-- A read of a byte; `none` is one behind the memory.
abbrev pub byte_at : Bytes → ℕ → Option ℕ
byte_at b o = if ltb o 0x1000 then some (b o) else none

abbrev pub word16_at : Bytes → ℕ → Option ℕ
word16_at b o = if ltb (o + 1) 0x1000 then some (b o + b (o + 1) * 256) else none

-- Fields of the packed `NxFpsSharedBlock`, from its offset on. The search stays inside the memory.
abbrev pub magic_of : Bytes → ℕ → ℕ
magic_of b o = b o + b (o + 1) * 256 + b (o + 2) * 65536 + b (o + 3) * 16777216

abbrev pub fps_of : Bytes → ℕ → Option ℕ
fps_of b o = byte_at b (o + 4)

-- `renderCalls[0]` and `viewportCalls[0]`.
abbrev pub render_height : Bytes → ℕ → Option ℕ
render_height b o = word16_at b (o + 62)

abbrev pub viewport_height : Bytes → ℕ → Option ℕ
viewport_height b o = word16_at b (o + 110)

abbrev pub set_render_calls : ℕ → Bytes → Option Bytes
set_render_calls o b =
    if ltb (o + 65) 0x1000
    then some (λ i. if i == o + 64 then 255 else if i == o + 65 then 255 else b i)
    else none

-- The globals; `gNxFps` is the offset of the block.
pub record SaltyNx : Type 0 where
  pub nx_fps : Option ℕ
  pub shared_memory_used : Bool
  pub prev_tid : ℕ

-- A loop of `CheckSaltyNXPort`, with the rounds that are left and the number of the attempt, for
-- which the port answers or not; the number of the next attempt, if one has succeeded.
unfoldable pub connect_loop : (ℕ → Bool) → ℕ → ℕ → Option ℕ
connect_loop connects zero attempt = none
connect_loop connects (suc n) attempt =
    let rest = connect_loop connects n (suc attempt) in
    if connects attempt then some (suc attempt) else rest

unfoldable pub check_salty_nx_port : (ℕ → Bool) → Bool
unfolding connect_loop
check_salty_nx_port connects = elim (connect_loop connects 67 0) [
  | none ↦ false
  | some attempt ↦ elim (connect_loop connects 67 attempt) [ none ↦ false | some next ↦ true ]
]

-- The loop of `SearchSharedMemoryBlock`, with the rounds that are left.
unfoldable pub search_loop : Bytes → ℕ → ℕ → Option ℕ
search_loop b zero offset = none
search_loop b (suc n) offset =
    let rest = search_loop b n (offset + 4) in
    if magic_of b offset == 0x465053 then some offset else rest

unfoldable pub search_shared_memory_block : Bytes → Option ℕ
search_shared_memory_block b = search_loop b 1024 0

-- The middle of both functions: forget the block of another application, and search for one if
-- there is none.
unfoldable pub locate : ℕ → Bytes → SaltyNx → SaltyNx
locate tid b s =
    let known = if s.prev_tid == tid then s.nx_fps else none in
    let searched = search_shared_memory_block b in
    record s { nx_fps = elim known [ none ↦ searched | some offset ↦ some offset ]; prev_tid = tid }

-- The end of `GetSaltyNXFPS`.
abbrev pub told_from : Bytes → SaltyNx → Option (ℕ × SaltyNx)
told_from b s = elim s.nx_fps [
  | none ↦ some (254, s)
  | some offset ↦ fps_of b offset >>= λ fps. some (fps, s)
]

-- The argument is what `GetCurrentApplicationId` gives; `none` is an access behind the memory.
unfoldable pub get_salty_nx_fps : ℕ → Bytes → SaltyNx → Option (ℕ × SaltyNx)
get_salty_nx_fps tid b s =
    let located = locate tid b s in
    if s.shared_memory_used
    then (if tid == 0 then some (254, s) else told_from b located)
    else some (254, s)

-- The end of `GetSaltyNXResolutionHeight` for a block. `slept` is what the game does to the memory
-- in the meantime.
abbrev pub height_of : (Bytes → Bytes) → Bytes → SaltyNx → ℕ → Option (ℕ × Bytes × SaltyNx)
height_of slept b s offset = do
  written ← set_render_calls offset b
  height ← render_height (slept written) offset
  told ← if height == 0 then viewport_height (slept written) offset else some height
  some (told, slept written, s)

unfoldable pub get_salty_nx_resolution_height :
    (Bytes → Bytes) → ℕ → Bytes → SaltyNx → Option (ℕ × Bytes × SaltyNx)
get_salty_nx_resolution_height slept tid b s =
    let located = locate tid b s in
    if s.shared_memory_used
    then (if tid == 0 then some (0, b, s) else elim located.nx_fps [
      | none ↦ some (0, b, located)
      | some offset ↦ height_of slept b located offset
    ])
    else some (0, b, s)
