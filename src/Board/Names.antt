-- ===== src/Board/Names.antt =====
-- hoc-clk/sysmodule/src/board/board_name.cpp and common/include/hocclk/board.h: the names of
-- profiles and modules in config.ini, `hocclkFormatProfile` and `hocclkFormatModule` with
-- `pretty == false`, as code points.
use horizon_oc.Board.Types.{
  Profile, handheld, handheld_charging, handheld_charging_usb, handheld_charging_official, docked,
  Module, cpu, gpu, mem, governor, display,
}
use horizon_oc.Prelude.Text.{Text, codes}

unfoldable pub format_profile : Profile → Text
format_profile docked = codes "docked"
format_profile handheld = codes "handheld"
format_profile handheld_charging = codes "handheld_charging"
format_profile handheld_charging_usb = codes "handheld_charging_usb"
format_profile handheld_charging_official = codes "handheld_charging_official"

unfoldable pub format_module : Module → Text
format_module cpu = codes "cpu"
format_module gpu = codes "gpu"
format_module mem = codes "mem"
format_module display = codes "display"
format_module governor = codes "governor"
