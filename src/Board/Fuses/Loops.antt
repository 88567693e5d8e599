-- ===== src/Board/Fuses/Loops.antt =====
-- The search does not end by itself at the end of the memory.
use horizon_oc.Prelude.{u64, ltb, ℕ, zero, suc, ◌+◌, ◌≡◌, refl, false, none, some}
use horizon_oc.Board.Hijack.Cache.{MemoryInfo, DebugMemory}
use horizon_oc.Board.Fuses.{FuseData, fuses_loop, may_hold_fuses}

-- When a single region without fuses fills all addresses, no number of queries suffices: its end wraps
-- around to the address 0, from where the search starts again.
pub fuses_loop-none :
    (io : ℕ) (m : DebugMemory) (info : MemoryInfo) (n : ℕ) (fuses : FuseData)
    → m.query 0 ≡ some info
    → info.addr ≡ 0
    → u64 (info.addr + info.size) ≡ 0
    → may_hold_fuses io info ≡ false
    → fuses_loop io m n 0 fuses ≡ none
unfolding fuses_loop
fuses_loop-none io m info zero fuses found start wraps other = refl
fuses_loop-none io m info (suc n) fuses found start wraps other =
    let first : ltb info.addr 0 ≡ false = rw start refl in
    rw (found, fuses_loop, first, other, wraps)
      (fuses_loop-none io m info n fuses found start wraps other)
