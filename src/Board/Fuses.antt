-- ===== src/Board/Fuses.antt =====
-- `ReadFuses` of hoc-clk/sysmodule/src/board/board_fuse.cpp: the search for the fuses of the chip in
-- the memory of the process usb.
pub mod Loops
use horizon_oc.Prelude.{
  u64, ltb, get_or, ◌==◌, ◌&&◌, if◌then◌else◌, ℕ, zero, suc, ◌+◌, ◌*◌, ◌%◌, ◌^◌, Bool, true, Option,
  none, some, List, [], ◌∷◌,
}
use horizon_oc.Board.Hijack.Cache.{MemoryInfo, DebugMemory}

-- The members are `u16`.
pub record FuseData : Type 0 where
  pub cpu_speedo : ℕ
  pub gpu_speedo : ℕ
  pub soc_speedo : ℕ
  pub cpu_iddq : ℕ
  pub gpu_iddq : ℕ
  pub soc_iddq : ℕ
  pub wafer_x : ℕ
  pub wafer_y : ℕ

abbrev fuse_word : List ℕ → ℕ → ℕ
fuse_word dump o = get_or dump o 0 + get_or dump (o + 1) 0 * 256

-- The offsets are those of common/include/fuse.h.
abbrev pub fuses_of : List ℕ → FuseData
fuses_of dump = record {
  cpu_speedo = fuse_word dump 0x114;
  gpu_speedo = fuse_word dump 0x130;
  soc_speedo = fuse_word dump 0x134;
  cpu_iddq = fuse_word dump 0x118 * 4 % 2 ^ 16;
  gpu_iddq = fuse_word dump 0x228 * 5 % 2 ^ 16;
  soc_iddq = fuse_word dump 0x140 * 4 % 2 ^ 16;
  wafer_x = fuse_word dump 0x214;
  wafer_y = fuse_word dump 0x218;
}

-- `memcmp` with a block of zeros.
abbrev pub zeros : List ℕ → Bool
zeros [] = true
zeros (x ∷ xs) = (x == 0) && zeros xs

-- `MemType_Io` is an argument.
abbrev pub may_hold_fuses : ℕ → MemoryInfo → Bool
may_hold_fuses io info = (info.mem_type == io) && (info.size == 4096)

-- The loop, with the queries that are left; `none` is that they do not suffice.
unfoldable pub fuses_loop : ℕ → DebugMemory → ℕ → ℕ → FuseData → Option FuseData
fuses_loop io m zero addr data_before = none
fuses_loop io m (suc n) addr data_before = elim (m.query addr) [
  | none ↦ some data_before
  | some info ↦
      (let rest = fuses_loop io m n (u64 (info.addr + info.size)) data_before in
        if ltb info.addr addr
        then some data_before
        else if may_hold_fuses io info
        then elim (m.read_bytes info.addr 16) [
          | none ↦ some data_before
          | some stack ↦
              (if zeros stack
                then elim (m.read_bytes (info.addr + 0x800) 0x400) [
                  | none ↦ some data_before
                  | some dump ↦ some (fuses_of dump)
                ]
                else rest)
        ]
        else rest)
]

-- The arguments tell whether usb is found and can be debugged.
unfoldable pub read_fuses : Bool → Bool → ℕ → DebugMemory → ℕ → FuseData → Option FuseData
read_fuses has_pid opens io m n data_before =
    if has_pid && opens then fuses_loop io m n 0 data_before else some data_before
