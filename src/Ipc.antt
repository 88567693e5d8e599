-- ===== src/Ipc.antt =====
-- hoc-clk/sysmodule/src/ipc_service.cpp: the service that the overlay calls. A request is what
-- `ServiceHandlerFunc` reads of the message: the command, the sizes of its data and buffers, and
-- the arguments that stand in them.
pub mod Safety
pub mod Client
use horizon_oc.Prelude.{
  get_elem?, ◌∷◌, leb, ◌==◌, if◌then◌else◌, truthy, take, ℕ, ◌-◌, ◌/◌, Bool, true, false, ◌&&◌,
  Option, none, some, List, [],
}
use horizon_oc.Prelude.Text.{Text}
use horizon_oc.Board.Types.{Module, cpu, gpu, mem, governor, display}
use horizon_oc.Config.Values.{ConfigValue}
use horizon_oc.Config.Store.{
  get_profiles, get_profile_count, set_enabled, set_override_hz, has_profiles_loaded,
}
use horizon_oc.Config.Ini.{IniFile, PutSection}
use horizon_oc.Config.Save.{Profiles, set_profiles, set_config_values}
use horizon_oc.ClockManager.State.{Sys, Context}
use horizon_oc.ClockManager.FreqList.{get_freq_list}
use horizon_oc.Kip.{KipFile, set_kip_data}

pub record Request : Type 0 where
  pub cmd_id : ℕ
  pub data_size : ℕ
  pub recv_size : Option ℕ  -- `none`: no receive buffer
  pub send_size : Option ℕ
  pub tid : ℕ
  pub enabled : ℕ
  pub mod_id : ℕ  -- `args->module`
  pub hz : ℕ
  pub max_count : ℕ
  pub profiles : Profiles
  pub values : ConfigValue → ℕ

-- The errors of the service.
pub data Failure : Type 0 where
  generic config_not_loaded config_save_failed : Failure

-- What the handlers write for the client, or the error.
pub data Reply : Type 0 where
  api_version : ℕ → Reply
  version_string : Text → Reply
  context_copy : Context → Reply
  done : Reply
  profile_count_of : ℕ → Reply
  profiles_of : Profiles → Reply
  values_of : (ConfigValue → ℕ) → Reply
  freq_list : ℕ → List ℕ → Reply
  failed : Failure → Reply

-- HOCCLK_IPC_API_VERSION; TARGET_VERSION and `sizeof(HocClkContext)` are fixed by the build.
abbrev pub ipc_api_version : ℕ
ipc_api_version = 1

pub record Build : Type 0 where
  pub target_version : Text
  pub context_size : ℕ

-- The sizes of HocClkTitleProfileList, of the arguments of SetProfiles and of
-- HocClkConfigValueList.
abbrev pub profile_list_size : ℕ
profile_list_size = 100

abbrev pub set_profiles_size : ℕ
set_profiles_size = 112

abbrev pub value_list_size : ℕ
value_list_size = 968

-- `HOCCLK_ENUM_VALID(HocClkModule, v)`, with the module.
abbrev pub to_module : ℕ → Option Module
to_module n =
    if n == 0
    then some cpu
    else if n == 1
    then some gpu
    else if n == 2
    then some mem
    else if n == 3
    then some governor
    else if n == 4
    then some display
    else none

abbrev pub has : Option ℕ → ℕ → Bool
has none least = false
has (some size) least = leb least size

abbrev pub size_or_zero : Option ℕ → ℕ
size_or_zero none = 0
size_or_zero (some size) = size

abbrev pub World : Type 0
World = IniFile × Sys

abbrev pub reply : Reply → World → Reply × World
reply r w = (r, w)

abbrev pub if_loaded : World → Reply × World → Reply × World
if_loaded w r = if has_profiles_loaded w.1.config then r else (failed config_not_loaded, w)

-- `GetVersionString`: a buffer of size 0 stays.
unfoldable pub version_copy : Build → ℕ → Text
version_copy build size = if truthy size then take (size - 1) build.target_version else []

unfoldable pub set_profiles_handler : PutSection → Request → World → Reply × World
set_profiles_handler put_section r w =
    let (f, config, ok) = set_profiles put_section r.tid r.profiles true w.0 w.1.config in
    (if ok then done else failed config_save_failed, (f, record w.1 { config = config }))

unfoldable pub set_config_values_handler : PutSection → Request → World → Reply × World
set_config_values_handler put_section r w =
    let (f, config, ok) = set_config_values put_section r.values true w.0 w.1.config in
    (if ok then done else failed config_save_failed, (f, record w.1 { config = config }))

unfoldable pub set_override_in : Request → World → Option Module → Reply × World
set_override_in r w none = (failed generic, w)
set_override_in r w (some m) =
    (done, (w.0, record w.1 { config = set_override_hz w.1.config m r.hz }))

unfoldable pub set_override_handler : Request → World → Reply × World
unfolding set_override_in
set_override_handler r w = set_override_in r w (to_module r.mod_id)

get_freq_list_in : Request → World → Option Module → Reply × World
get_freq_list_in r w none = (failed generic, w)
get_freq_list_in r w (some m) =
    let (count, list) = get_freq_list w.1 m r.max_count in
    if r.max_count == size_or_zero r.recv_size / 4
    then (freq_list count list, w)
    else (failed generic, w)

unfoldable pub get_freq_list_handler : Request → World → Reply × World
unfolding get_freq_list_in
get_freq_list_handler r w = get_freq_list_in r w (to_module r.mod_id)

-- `if (...) return ...; break;`, and after the `switch` a generic error.
abbrev pub guarded : Bool → World → Reply × World → Reply × World
guarded b w r = if b then r else (failed generic, w)

-- `HocClkIpcCmd`, in the order of its numbers from 0.
pub data IpcCmd : Type 0 where
  get_api_version_cmd get_version_string_cmd get_current_context_cmd exit_cmd : IpcCmd
  get_profile_count_cmd get_profiles_cmd set_profiles_cmd set_enabled_cmd set_override_cmd : IpcCmd
  get_config_values_cmd set_config_values_cmd get_freq_list_cmd set_kip_data_cmd get_kip_data_cmd :
      IpcCmd

abbrev pub all_ipc_cmds : List IpcCmd
all_ipc_cmds =
    get_api_version_cmd ∷ get_version_string_cmd ∷ get_current_context_cmd ∷ exit_cmd
    ∷ get_profile_count_cmd ∷ get_profiles_cmd ∷ set_profiles_cmd ∷ set_enabled_cmd
    ∷ set_override_cmd ∷ get_config_values_cmd ∷ set_config_values_cmd ∷ get_freq_list_cmd
    ∷ set_kip_data_cmd ∷ get_kip_data_cmd ∷ []

-- The cases of the `switch`.
unfoldable pub serve : Build → PutSection → KipFile → Request → World → IpcCmd → Reply × World
unfolding version_copy set_profiles_handler set_config_values_handler set_override_handler
    get_freq_list_handler
serve build put_section kip r w get_api_version_cmd = reply (api_version ipc_api_version) w
serve build put_section kip r w get_version_string_cmd =
    guarded (has r.recv_size 0) w
      (reply (version_string (version_copy build (size_or_zero r.recv_size))) w)
serve build put_section kip r w get_current_context_cmd =
    guarded (leb 8 r.data_size && has r.recv_size build.context_size) w
      (reply (context_copy w.1.context) w)
serve build put_section kip r w exit_cmd = (done, (w.0, record w.1 { running = false }))
serve build put_section kip r w get_profile_count_cmd =
    guarded (leb 8 r.data_size) w
      (if_loaded w (reply (profile_count_of (get_profile_count w.1.config r.tid)) w))
serve build put_section kip r w get_profiles_cmd =
    guarded (leb 8 r.data_size && has r.recv_size profile_list_size) w
      (if_loaded w (reply (profiles_of (get_profiles w.1.config r.tid)) w))
serve build put_section kip r w set_profiles_cmd =
    guarded (leb set_profiles_size r.data_size) w
      (if_loaded w (set_profiles_handler put_section r w))
serve build put_section kip r w set_enabled_cmd =
    guarded (leb 1 r.data_size) w
      (done, (w.0, record w.1 { config = set_enabled w.1.config (truthy r.enabled) }))
serve build put_section kip r w set_override_cmd =
    guarded (leb 8 r.data_size) w (set_override_handler r w)
serve build put_section kip r w get_config_values_cmd =
    guarded (has r.recv_size value_list_size) w
      (if_loaded w (reply (values_of w.1.config.values) w))
serve build put_section kip r w set_config_values_cmd =
    guarded (has r.send_size value_list_size) w
      (if_loaded w (set_config_values_handler put_section r w))
serve build put_section kip r w get_freq_list_cmd =
    guarded (leb 8 r.data_size && has r.recv_size 0) w (get_freq_list_handler r w)
serve build put_section kip r w set_kip_data_cmd = (done, set_kip_data put_section kip w.0 w.1)
serve build put_section kip r w get_kip_data_cmd = (failed generic, w)

unfoldable pub serve_known :
    Build → PutSection → KipFile → Request → World → Option IpcCmd → Reply × World
unfolding serve
serve_known build put_section kip r w none = (failed generic, w)
serve_known build put_section kip r w (some cmd) = serve build put_section kip r w cmd

-- The `switch` as a whole; a number that it has no case for is an error.
unfoldable pub service_handler : Build → PutSection → KipFile → Request → World → Reply × World
unfolding serve_known
service_handler build put_section kip r w =
    serve_known build put_section kip r w (get_elem? all_ipc_cmds r.cmd_id)
