-- ===== src/Ipc/Safety.antt =====
-- What a request that fails leaves behind.
use horizon_oc.Prelude.{
  get_elem?, if◌then◌else◌, ◌≡◌, refl, Bool, true, false, Option, none, some, arith,
}
use horizon_oc.Config.Store.{Config, has_profiles_loaded}
use horizon_oc.Config.Ini.{IniFile, PutSection}
use horizon_oc.Config.Save.{on_write, set_profiles, set_config_values}
use horizon_oc.Kip.{KipFile}
use horizon_oc.Ipc.{
  get_api_version_cmd, get_version_string_cmd, get_current_context_cmd, exit_cmd,
  get_profile_count_cmd, get_profiles_cmd, set_profiles_cmd, set_enabled_cmd, set_override_cmd,
  get_config_values_cmd, set_config_values_cmd, get_freq_list_cmd, set_kip_data_cmd,
  get_kip_data_cmd, serve, serve_known, IpcCmd, all_ipc_cmds, Request, Reply, done, failed, Failure,
  generic, config_not_loaded, config_save_failed, World, Build, service_handler,
  set_profiles_handler, set_config_values_handler, set_override_handler, set_override_in,
  get_freq_list_handler, get_freq_list_in, if_loaded,
}

abbrev pub is_failed : Reply → Bool
is_failed (failed e) = true
is_failed _ = false

-- An answer with an error comes with the file and the state as they were.
pub record FailsClean (w : World) (r : Reply × World) : Type 0 where
  pub unchanged : is_failed r.0 ≡ true → r.1 ≡ w

on_write_clean :
    (o : Option IniFile) (w : World) (c : Config)
    → let (f, d, ok) = on_write o w.0 w.1.config c in
      FailsClean w (if ok then done else failed config_save_failed, (f, record w.1 { config = d }))
on_write_clean none w c = record { unchanged = λ h. refl }
on_write_clean (some f) w c = record { unchanged = λ h. cc }

set_profiles_clean :
    (put_section : PutSection) (r : Request) (w : World)
    → FailsClean w (set_profiles_handler put_section r w)
unfolding set_profiles_handler set_profiles
set_profiles_clean put_section r w = on_write_clean _ w _

set_config_values_clean :
    (put_section : PutSection) (r : Request) (w : World)
    → FailsClean w (set_config_values_handler put_section r w)
unfolding set_config_values_handler set_config_values
set_config_values_clean put_section r w = on_write_clean _ w _

set_override_clean : (r : Request) (w : World) → FailsClean w (set_override_handler r w)
unfolding set_override_handler set_override_in
set_override_clean r w = record { unchanged = ground arith }

get_freq_list_clean : (r : Request) (w : World) → FailsClean w (get_freq_list_handler r w)
unfolding get_freq_list_handler get_freq_list_in
get_freq_list_clean r w = record { unchanged = ground arith }

checked_clean :
    (b : Bool) (e : Failure) (w : World) (r : Reply × World)
    → FailsClean w r
    → FailsClean w (if b then r else (failed e, w))
checked_clean true e w r h = h
checked_clean false e w r h = record { unchanged = λ f. refl }

if_loaded_clean : (w : World) (r : Reply × World) → FailsClean w r → FailsClean w (if_loaded w r)
if_loaded_clean w r h = checked_clean (has_profiles_loaded w.1.config) config_not_loaded w r h

choose_clean :
    (b : Bool) (w : World) (r r' : Reply × World)
    → FailsClean w r
    → FailsClean w r'
    → FailsClean w (if b then r else r')
choose_clean true w r r' h h' = h
choose_clean false w r r' h h' = h'

-- A reply with no error asks for nothing.
good : (w : World) (r : Reply × World) → is_failed r.0 ≡ false → FailsClean w r
good w r h = record { unchanged = λ f. cc }

serve_clean :
    (build : Build) (put_section : PutSection) (kip : KipFile) (r : Request) (w : World)
    (cmd : IpcCmd)
    → FailsClean w (serve build put_section kip r w cmd)
unfolding serve
serve_clean build put_section kip r w get_api_version_cmd = good w _ refl
serve_clean build put_section kip r w get_version_string_cmd = record { unchanged = ground arith }
serve_clean build put_section kip r w get_current_context_cmd = record { unchanged = ground arith }
serve_clean build put_section kip r w exit_cmd = good w _ refl
serve_clean build put_section kip r w get_profile_count_cmd = record { unchanged = ground arith }
serve_clean build put_section kip r w get_profiles_cmd = record { unchanged = ground arith }
serve_clean build put_section kip r w set_profiles_cmd =
    checked_clean _ generic w _ (if_loaded_clean w _ (set_profiles_clean put_section r w))
serve_clean build put_section kip r w set_enabled_cmd = record { unchanged = ground arith }
serve_clean build put_section kip r w set_override_cmd =
    checked_clean _ generic w _ (set_override_clean r w)
serve_clean build put_section kip r w get_config_values_cmd = record { unchanged = ground arith }
serve_clean build put_section kip r w set_config_values_cmd =
    checked_clean _ generic w _ (if_loaded_clean w _ (set_config_values_clean put_section r w))
serve_clean build put_section kip r w get_freq_list_cmd =
    checked_clean _ generic w _ (get_freq_list_clean r w)
serve_clean build put_section kip r w set_kip_data_cmd = good w _ refl
serve_clean build put_section kip r w get_kip_data_cmd = record { unchanged = λ f. refl }

known_clean :
    (build : Build) (put_section : PutSection) (kip : KipFile) (r : Request) (w : World)
    (cmd : Option IpcCmd)
    → FailsClean w (serve_known build put_section kip r w cmd)
unfolding serve_known
known_clean build put_section kip r w none = record { unchanged = λ f. refl }
known_clean build put_section kip r w (some cmd) = serve_clean build put_section kip r w cmd

-- Whatever the request, if the service answers with an error, then it has changed neither the
-- configuration file nor any of its own state, and has given no command to the hardware.
pub service_handler-clean :
    (build : Build) (put_section : PutSection) (kip : KipFile) (r : Request) (w : World)
    → is_failed (service_handler build put_section kip r w).0 ≡ true
    → (service_handler build put_section kip r w).1 ≡ w
unfolding service_handler
service_handler-clean build put_section kip r w f =
    (known_clean build put_section kip r w (get_elem? all_ipc_cmds r.cmd_id)).unchanged f
