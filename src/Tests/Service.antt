-- ===== src/Tests/Service.antt =====
-- Examples for the service and the loader's file.
use horizon_oc.Prelude.{◌^◌, ◌+◌, ◌<◌, ◌≡◌, ◌∷◌, refl, ℕ, true, false, none, some, List, [], arith}
use horizon_oc.Prelude.Text.{codes}
use horizon_oc.Tests.World.{empty_file, put_last, put_last-WritesSection, process, kip_file}
use horizon_oc.Config.Values.{ConfigValue, kip_crc32, default_config_value}
use horizon_oc.Config.Store.{initialize, has_profiles_loaded}
use horizon_oc.Config.Ini.{to_entries}
use horizon_oc.Config.Load.{load, config_val_section}
use horizon_oc.Config.Save.{value_lines}
use horizon_oc.Ipc.{
  Request, Build, service_handler, serve_known, serve, set_override_handler, set_override_in,
}
use horizon_oc.Ipc.Safety.{service_handler-clean}
use horizon_oc.Board.Types.{gpu}
use horizon_oc.Ipc.Client.{to_request, call_set_override}
use horizon_oc.Ipc.Client.Served.{to_request-asked_for, asked_for}
use horizon_oc.Process.{PlayEvent, PlayServices, AppletIds, FocusState, is_application_out_of_focus}
use horizon_oc.Process.Focus.{HasNews, IsLast, is_application_out_of_focus-IsLast}
use horizon_oc.Kip.{set_kip_data, saved_sums}
use horizon_oc.Kip.Checksum.{set_kip_data-checksum}

-- An override for a module that does not exist.
abbrev wrong_module : Request
wrong_module = record {
  cmd_id = 8;
  data_size = 8;
  recv_size = none;
  send_size = none;
  tid = 0;
  enabled = 0;
  mod_id = 9;
  hz = 1000;
  max_count = 0;
  profiles = λ p m. 0;
  values = λ k. 0;
}

abbrev build : Build
build = record { target_version = codes "1.0"; context_size = 256 }

service_handler-clean_example :
    (service_handler build put_last kip_file wrong_module (empty_file, process)).1
    ≡ (empty_file, process)
unfolding service_handler serve_known serve set_override_handler set_override_in
service_handler-clean_example =
    service_handler-clean build put_last kip_file wrong_module (empty_file, process) refl

default_small : (k : ConfigValue) → process.config.values k < 2 ^ 64
unfolding initialize default_config_value
default_small k = ground arith

set_kip_data-checksum_example :
    (load (set_kip_data put_last kip_file empty_file process).0 initialize).values kip_crc32
    ≡ kip_file.checksum (set_kip_data put_last kip_file empty_file process).1.log
set_kip_data-checksum_example =
    set_kip_data-checksum put_last put_last-WritesSection kip_file empty_file
      (record {
        mtime = 8;
        entries = some (to_entries config_val_section (value_lines (saved_sums kip_file process)));
      })
      process [] initialize refl refl default_small (λ log. omega arith) refl refl (ground arith)

-- A message is 16 bytes longer than its data.
abbrev padded : ℕ → ℕ
padded n = n + 16

to_request-asked_for_example :
    service_handler build put_last kip_file
      (to_request padded build (call_set_override gpu 768000000))
      (empty_file, process)
    ≡ asked_for build put_last kip_file (call_set_override gpu 768000000) (empty_file, process)
unfolding has_profiles_loaded
to_request-asked_for_example =
    to_request-asked_for padded build put_last kip_file (call_set_override gpu 768000000)
      (empty_file, process) (λ n. omega arith) refl

abbrev ids : AppletIds
ids = record { application = 1; out_of_focus = 5; out_of_focus4 = 6 }

-- An event of the application 2^32 + 4096.
abbrev event : ℕ → PlayEvent
event event_type = record {
  is_applet = true;
  applet_id = 1;
  program_id_0 = 1;
  program_id_1 = 4096;
  event_type = event_type;
}

abbrev services : PlayServices
services = record {
  application_process_id = (0, 80);
  program_id = λ pid. (0, 2 ^ 32 + 4097);
  play_event_range = (0, 2, 1);
  query_play_event = λ start. (0, event 2 ∷ event 5 ∷ []);
}

abbrev focus_state : FocusState
focus_state = record { last_total_entries = 1; is_out_of_focus = false }

services-HasNews : HasNews services focus_state
services-HasNews = record { pid_ok = refl; tid_ok = refl; range_ok = refl; grown = ground arith }

event-IsLast : IsLast ids (2 ^ 32 + 4097) (event 2 ∷ event 5 ∷ []) (event 5)
event-IsLast = record { before = event 2 ∷ []; after = []; parts = refl; of_it = refl; rest = tt }

-- A query that fails.
abbrev later_query : ℕ → ℕ × List PlayEvent
later_query start = (1, [])

is_application_out_of_focus-IsLast_example :
    let told = record focus_state { last_total_entries = 2; is_out_of_focus = true } in
    (is_application_out_of_focus ids services focus_state ≡ (0, some true, told))
    × (is_application_out_of_focus ids (record services { query_play_event = later_query }) told
        ≡ (0, some true, told))
is_application_out_of_focus-IsLast_example =
    is_application_out_of_focus-IsLast ids services focus_state (event 5) later_query
      services-HasNews refl event-IsLast
