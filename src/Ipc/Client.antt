-- ===== src/Ipc/Client.antt =====
-- hoc-clk/common/src/client/ipc.c: the calls that the overlay makes, and the messages that they send.
-- How large a message is for the server is fixed by the library that sends it: a parameter.
pub mod Served
use horizon_oc.Prelude.{
  if◌then◌else◌, truthy, ◌==◌, ℕ, ◌+◌, ◌-◌, ◌*◌, Bool, true, false, none, some,
}
use horizon_oc.Board.Types.{Module, module_rank}
use horizon_oc.Config.Values.{ConfigValue}
use horizon_oc.Config.Save.{Profiles}
use horizon_oc.Ipc.{Request, Build, profile_list_size, set_profiles_size, value_list_size}

-- The functions with the arguments that they pass on.
pub data ClientCall : Type 0 where
  call_get_api_version call_get_current_context call_get_config_values call_set_kip_data :
      ClientCall
  call_get_kip_data : ClientCall
  call_get_version_string : ℕ → ClientCall
  call_get_profile_count call_get_profiles : ℕ → ClientCall
  call_set_profiles : ℕ → Profiles → ClientCall
  call_set_enabled : Bool → ClientCall
  call_set_override : Module → ℕ → ClientCall
  call_set_config_values : (ConfigValue → ℕ) → ClientCall
  call_get_freq_list : Module → ℕ → ClientCall

-- A message with `size` bytes of data and no more.
abbrev message : (ℕ → ℕ) → ℕ → ℕ → Request
message sent_size cmd size = record {
  cmd_id = cmd;
  data_size = sent_size size;
  recv_size = none;
  send_size = none;
  tid = 0;
  enabled = 0;
  mod_id = 0;
  hz = 0;
  max_count = 0;
  profiles = λ p m. 0;
  values = λ k. 0;
}

unfoldable pub to_request : (ℕ → ℕ) → Build → ClientCall → Request
to_request sent build call_get_api_version = message sent 0 0
to_request sent build (call_get_version_string len) = record (message sent 1 0) {
  recv_size = some len;
}
to_request sent build call_get_current_context = record (message sent 2 0) {
  recv_size = some build.context_size;
}
to_request sent build (call_get_profile_count tid) = record (message sent 4 8) { tid = tid }
to_request sent build (call_get_profiles tid) = record (message sent 5 8) {
  tid = tid;
  recv_size = some profile_list_size;
}
to_request sent build (call_set_profiles tid profiles) = record (message sent 6 set_profiles_size) {
  tid = tid;
  profiles = profiles;
}
to_request sent build (call_set_enabled enabled) = record (message sent 7 1) {
  enabled = if enabled then 1 else 0;
}
to_request sent build (call_set_override m hz) = record (message sent 8 8) {
  mod_id = module_rank m;
  hz = hz;
}
to_request sent build call_get_config_values = record (message sent 9 0) {
  recv_size = some value_list_size;
}
to_request sent build (call_set_config_values values) = record (message sent 10 0) {
  send_size = some value_list_size;
  values = values;
}
to_request sent build (call_get_freq_list m max_count) = record (message sent 11 8) {
  mod_id = module_rank m;
  max_count = max_count;
  recv_size = some (max_count * 4);
}
to_request sent build call_set_kip_data = message sent 12 4
to_request sent build call_get_kip_data = message sent 13 4

-- `g_refCnt`, and whether the session is open.
pub record Connection : Type 0 where
  pub ref_cnt : ℕ
  pub active : Bool

unfoldable pub ipc_exit : Connection → Connection
ipc_exit c = record {
  ref_cnt = c.ref_cnt - 1;
  active = if c.ref_cnt - 1 == 0 then false else c.active;
}

-- What `smGetService` returns is an argument; 0 opens the session.
unfoldable pub ipc_initialize : ℕ → Connection → ℕ × Connection
unfolding ipc_exit
ipc_initialize rc c =
    let counted = record c { ref_cnt = c.ref_cnt + 1 } in
    if c.active
    then (0, counted)
    else if truthy rc
    then (rc, ipc_exit counted)
    else (0, record counted { active = true })
