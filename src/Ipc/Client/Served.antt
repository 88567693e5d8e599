-- ===== src/Ipc/Client/Served.antt =====
-- What the service does for each call of the client library.
use horizon_oc.Prelude.{
  le→leb, if◌then◌else◌, truthy, leb, ◌==◌, ℕ, ◌+◌, ◌-◌, ◌*◌, ◌/◌, ◌≤◌, ◌≡◌, refl, true, false,
  some, take, [], arith,
}
use horizon_oc.Board.Types.{Module, cpu, gpu, mem, governor, display, module_rank}
use horizon_oc.Config.Store.{
  get_profiles, get_profile_count, set_enabled, set_override_hz, has_profiles_loaded,
}
use horizon_oc.Config.Ini.{PutSection}
use horizon_oc.Config.Save.{set_profiles, set_config_values}
use horizon_oc.ClockManager.FreqList.{get_freq_list}
use horizon_oc.Kip.{KipFile, set_kip_data}
use horizon_oc.Ipc.{
  Build, Reply, World, api_version, version_string, context_copy, done, profile_count_of,
  profiles_of, values_of, freq_list, failed, generic, config_save_failed, service_handler,
  set_profiles_handler, set_config_values_handler, set_override_handler, get_freq_list_handler,
  to_module,
}
use horizon_oc.Ipc.Client.{
  ClientCall, call_get_api_version, call_get_current_context, call_get_config_values,
  call_set_kip_data, call_get_kip_data, call_get_version_string, call_get_profile_count,
  call_get_profiles, call_set_profiles, call_set_enabled, call_set_override, call_set_config_values,
  call_get_freq_list, to_request,
}

-- What each call asks for.
abbrev pub asked_for : Build → PutSection → KipFile → ClientCall → World → Reply × World
asked_for build put_section kip call_get_api_version w = (api_version 1, w)
asked_for build put_section kip (call_get_version_string len) w =
    (version_string (if truthy len then take (len - 1) build.target_version else []), w)
asked_for build put_section kip call_get_current_context w = (context_copy w.1.context, w)
asked_for build put_section kip (call_get_profile_count tid) w =
    (profile_count_of (get_profile_count w.1.config tid), w)
asked_for build put_section kip (call_get_profiles tid) w =
    (profiles_of (get_profiles w.1.config tid), w)
asked_for build put_section kip (call_set_profiles tid profiles) w =
    let (f, config, ok) = set_profiles put_section tid profiles true w.0 w.1.config in
    (if ok then done else failed config_save_failed, (f, record w.1 { config = config }))
asked_for build put_section kip (call_set_enabled enabled) w =
    (done, (w.0, record w.1 { config = set_enabled w.1.config enabled }))
asked_for build put_section kip (call_set_override m hz) w =
    (done, (w.0, record w.1 { config = set_override_hz w.1.config m hz }))
asked_for build put_section kip call_get_config_values w = (values_of w.1.config.values, w)
asked_for build put_section kip (call_set_config_values values) w =
    let (f, config, ok) = set_config_values put_section values true w.0 w.1.config in
    (if ok then done else failed config_save_failed, (f, record w.1 { config = config }))
asked_for build put_section kip (call_get_freq_list m max_count) w =
    let (count, list) = get_freq_list w.1 m max_count in (freq_list count list, w)
asked_for build put_section kip call_set_kip_data w = (done, set_kip_data put_section kip w.0 w.1)
asked_for build put_section kip call_get_kip_data w = (failed generic, w)

to_module-module_rank : (m : Module) → to_module (module_rank m) ≡ some m
to_module-module_rank cpu = refl
to_module-module_rank gpu = refl
to_module-module_rank mem = refl
to_module-module_rank governor = refl
to_module-module_rank display = refl

least : (a : ℕ) → leb 0 a ≡ true
least a = ground arith

four_times : (n : ℕ) → (n == n * 4 / 4) ≡ true
four_times n = ground arith

-- Once the configuration is loaded, and when a message has 16 bytes of padding beside its data, the
-- service accepts every call of the client library and does what it asks for; the call
-- for the settings of the loader is always refused.
pub to_request-asked_for :
    (sent : ℕ → ℕ) (build : Build) (put_section : PutSection) (kip : KipFile) (call : ClientCall)
    (w : World)
    → ((n : ℕ) → n + 16 ≤ sent n)
    → has_profiles_loaded w.1.config ≡ true
    → service_handler build put_section kip (to_request sent build call) w
      ≡ asked_for build put_section kip call w
unfolding service_handler to_request set_profiles_handler set_config_values_handler
    set_override_handler get_freq_list_handler
to_request-asked_for sent build put_section kip call_get_api_version w pad on = refl
to_request-asked_for sent build put_section kip (call_get_version_string len) w pad on =
    rw (least len) refl
to_request-asked_for sent build put_section kip call_get_current_context w pad on =
    rw
      (
        le→leb 8 (sent 0) (omega (arith, pad 0)),
        le→leb build.context_size build.context_size (omega arith),
      )
      refl
to_request-asked_for sent build put_section kip (call_get_profile_count tid) w pad on =
    rw (le→leb 8 (sent 8) (omega (arith, pad 8)), on) refl
to_request-asked_for sent build put_section kip (call_get_profiles tid) w pad on =
    rw (le→leb 8 (sent 8) (omega (arith, pad 8)), on) refl
to_request-asked_for sent build put_section kip (call_set_profiles tid profiles) w pad on =
    rw (le→leb 112 (sent 112) (omega (arith, pad 112)), on) refl
to_request-asked_for sent build put_section kip (call_set_enabled true) w pad on =
    rw (le→leb 1 (sent 1) (omega (arith, pad 1))) refl
to_request-asked_for sent build put_section kip (call_set_enabled false) w pad on =
    rw (le→leb 1 (sent 1) (omega (arith, pad 1))) refl
to_request-asked_for sent build put_section kip (call_set_override m hz) w pad on =
    rw (le→leb 8 (sent 8) (omega (arith, pad 8)), to_module-module_rank m) refl
to_request-asked_for sent build put_section kip call_get_config_values w pad on = rw on refl
to_request-asked_for sent build put_section kip (call_set_config_values values) w pad on =
    rw on refl
to_request-asked_for sent build put_section kip (call_get_freq_list m max_count) w pad on =
    rw
      (
        le→leb 8 (sent 8) (omega (arith, pad 8)),
        least (max_count * 4),
        to_module-module_rank m,
        four_times max_count,
      )
      refl
to_request-asked_for sent build put_section kip call_set_kip_data w pad on = refl
to_request-asked_for sent build put_section kip call_get_kip_data w pad on = refl
