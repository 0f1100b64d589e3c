-- ===== src/Examples/FilterRuns.antt =====
-- The theorems of the filters on specifications at concrete configurations.
use cluster_api_provider_ocn.Base.{◌≡◌, refl, true, false, none, some, is_some}
use cluster_api_provider_ocn.ControlPlane.Filters.{
  initialized, InitConfiguration, ConfigSpec, match_init_or_join_configuration, cleaned_machine,
  join_control_plane_config, initial_control_plane_config, joined,
}
use cluster_api_provider_ocn.ControlPlane.Filters.Generated.{
  with_init_type, generated_match, match-cleaned_machine,
}

abbrev init_settings : InitConfiguration
init_settings = record { init_type_meta = ""; init_settings = "taints" }

abbrev specification : ConfigSpec
specification = record {
  cluster = some "images";
  init = some init_settings;
  join = none;
  format = "cloud-config";
  settings = "users";
}

abbrev first_machine : ConfigSpec
first_machine = record (initial_control_plane_config specification) {
  init = some (record init_settings { init_type_meta = "InitConfiguration" });
}

generated_match_example :
    (match_init_or_join_configuration specification
        (joined "token" (join_control_plane_config specification))
      ≡ true)
    × (match_init_or_join_configuration specification (
          with_init_type "InitConfiguration"
            (initialized (initial_control_plane_config specification)))
        ≡ is_some specification.init)
generated_match_example = generated_match specification "token" "InitConfiguration"

match-cleaned_machine_example :
    match_init_or_join_configuration specification (cleaned_machine specification first_machine)
    ≡ match_init_or_join_configuration specification first_machine
match-cleaned_machine_example = match-cleaned_machine specification first_machine

-- Without an init configuration in the specification, the first machine does not match.
unmatched :
    match_init_or_join_configuration (record specification { init = none }) first_machine ≡ false
unfolding match_init_or_join_configuration cleaned_machine
    cluster_api_provider_ocn.ControlPlane.Filters.cleanup_machine
    cluster_api_provider_ocn.ControlPlane.Filters.cleanup_kcp
    cluster_api_provider_ocn.ControlPlane.Filters.clean_machine_init
    cluster_api_provider_ocn.ControlPlane.Filters.default_format
    cluster_api_provider_ocn.ControlPlane.Filters.get_adjusted_kcp_config
    cluster_api_provider_ocn.ControlPlane.Filters.keep_if initial_control_plane_config
unmatched = refl
