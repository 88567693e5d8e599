-- ===== src/Governor/State.antt =====
-- common/include/hocclk/board.h: the three governor states packed into one word.
use horizon_oc.Prelude.{ℕ, ◌*◌, ◌/◌, ◌^◌, u8, bit_and, bit_or}

-- `ComponentGovernorState`.
abbrev pub do_not_override : ℕ
do_not_override = 0

abbrev pub disabled : ℕ
disabled = 1

abbrev pub enabled : ℕ
enabled = 2

-- A shift left of a byte by at most 16 bits does not wrap in a `u32`.
unfoldable pub governor_state_pack : ℕ → ℕ → ℕ → ℕ
governor_state_pack cpu gpu vrr = bit_or (bit_or cpu (gpu * 2 ^ 8)) (vrr * 2 ^ 16)

unfoldable pub governor_state_cpu : ℕ → ℕ
governor_state_cpu p = u8 (bit_and p 0xff)

unfoldable pub governor_state_gpu : ℕ → ℕ
governor_state_gpu p = u8 (bit_and (p / 2 ^ 8) 0xff)

unfoldable pub governor_state_vrr : ℕ → ℕ
governor_state_vrr p = u8 (bit_and (p / 2 ^ 16) 0xff)
