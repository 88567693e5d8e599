-- ===== src/ClockManager/Resets/Tdp.antt =====
-- When the power limit of the handheld mode throttles.
use horizon_oc.Prelude.{
  ltb, u32, signed32, lt_ℤ, neg_ℤ, zero, arith, negsuc, ℕ, suc, ◌^◌, ◌<◌, ◌≡◌, ◌↔◌, true, false,
  pos,
}
use horizon_oc.Board.Types.{avg, docked, profile_eq}
use horizon_oc.Config.Values.{handheld_tdp}
use horizon_oc.ClockManager.State.{Sys, Hw, config_value}
use horizon_oc.ClockManager.Resets.{over_tdp, tdp_limit}

same_word : (n : ℕ) → n < 2 ^ 31 → signed32 (u32 n) ≡ pos n
same_word n small = let word : u32 n ≡ n = omega arith in rw word (ground arith)

drain : (n d : ℕ) → n < 2 ^ 31 → lt_ℤ (negsuc d) (neg_ℤ (signed32 (u32 n))) ≡ ltb n (suc d)
drain zero d small = ground arith
drain (suc n) d small = rw (same_word (suc n) small) (ground arith)

gain : (n d : ℕ) → n < 2 ^ 31 → lt_ℤ (pos d) (neg_ℤ (signed32 (u32 n))) ≡ false
gain zero d small = ground arith
gain (suc n) d small = rw (same_word (suc n) small)

-- A drain of `suc d` milliwatts throttles exactly if the limit is on, the console is not docked,
-- and the drain is above the limit, for a limit of less than 31 bits; no gain ever throttles.
pub over_tdp_iff :
    (hw : Hw) (s : Sys) (d : ℕ)
    → tdp_limit hw s < 2 ^ 31
    → (hw.get_power_mw s.log avg ≡ negsuc d
        → (over_tdp hw s ≡ true) ↔ (
            (0 < config_value s handheld_tdp)
            × (profile_eq s.context.profile docked ≡ false)
            × (tdp_limit hw s < suc d)))
      × (hw.get_power_mw s.log avg ≡ pos d → over_tdp hw s ≡ false)
unfolding over_tdp
over_tdp_iff hw s d small = (
  λ e. rw (e, drain (tdp_limit hw s) d small) (ground arith),
  λ e. rw (e, gain (tdp_limit hw s) d small) (ground arith),
)
