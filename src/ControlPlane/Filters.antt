-- ===== src/ControlPlane/Filters.antt =====
-- controlplane/ocne/internal/filters.go: whether a machine has been made from the specification that
-- the control plane has now. Parts of a configuration that are only compared as a whole are texts,
-- "" where they are empty. The configurations of machines are changed in place by the comparison.
pub mod Generated
use cluster_api_provider_ocn.Base.{
  String, Bool, true, false, not, ◌&&◌, ◌||◌, Option, none, some, List, [], ◌∷◌, ◌==◌,
  if◌then◌else◌, any,
}

pub record InitConfiguration : Type 0 where
  pub init_type_meta : String
  pub init_settings : String

pub record JoinConfiguration : Type 0 where
  pub join_type_meta : String
  pub node_registration : String
  pub discovery : String
  pub control_plane : Option String
  pub join_settings : String

-- OCNEConfigSpec, by the parts that the comparison tells apart.
pub record ConfigSpec : Type 0 where
  pub cluster : Option String
  pub init : Option InitConfiguration
  pub join : Option JoinConfiguration
  pub format : String
  pub settings : String

-- Labels and annotations, as an association list.
abbrev pub Metadata : Type 0
Metadata = List (String × String)

unfoldable pub has_entry : Metadata → String → String → Bool
has_entry existing k v = any (λ e. e.0 == k && e.1 == v) existing

-- isSubsetMapOf
unfoldable pub is_subset_map_of : Metadata → Metadata → Bool
is_subset_map_of base existing = not (any (λ e. not (has_entry existing e.0 e.1)) base)

unfoldable pub match_machine_template_metadata : Metadata × Metadata → Metadata × Metadata → Bool
match_machine_template_metadata template (annotations, labels) =
    is_subset_map_of template.0 annotations && is_subset_map_of template.1 labels

unfoldable pub default_format : ConfigSpec → ConfigSpec
default_format s = if s.format == "" then record s { format = "cloud-config" } else s

unfoldable pub keep_if : {A B : Type 0} → Option A → Option B → Option B
keep_if none b = none
keep_if (some a) b = b

unfoldable pub get_adjusted_kcp_config : ConfigSpec → ConfigSpec → ConfigSpec
get_adjusted_kcp_config kcp machine = record kcp {
  join = keep_if machine.join kcp.join;
  init = keep_if machine.init kcp.init;
}

unfoldable pub clean_kcp_join : Option JoinConfiguration → Option JoinConfiguration
clean_kcp_join none = none
clean_kcp_join (some k) = some (record k { discovery = "" })

unfoldable pub clean_machine_join :
    Option JoinConfiguration → Option JoinConfiguration → Option JoinConfiguration
clean_machine_join none m = none
clean_machine_join (some k) none = none
clean_machine_join (some k) (some m) = some (record m {
  join_type_meta = k.join_type_meta;
  node_registration = if k.node_registration == "" then "" else m.node_registration;
  discovery = "";
  control_plane = keep_if k.control_plane m.control_plane;
})

unfoldable pub clean_machine_init :
    Option InitConfiguration → Option InitConfiguration → Option InitConfiguration
clean_machine_init none m = m
clean_machine_init (some k) none = none
clean_machine_init (some k) (some m) = some (record m { init_type_meta = k.init_type_meta })

-- cleanupConfigFields, on the specification and on the machine's configuration.
unfoldable pub cleanup_kcp : ConfigSpec → ConfigSpec
cleanup_kcp kcp = record kcp { cluster = none; join = clean_kcp_join kcp.join }

unfoldable pub cleanup_machine : ConfigSpec → ConfigSpec → ConfigSpec
cleanup_machine kcp machine = record machine {
  cluster = none;
  init = clean_machine_init kcp.init machine.init;
  join = clean_machine_join kcp.join machine.join;
}

-- reflect.DeepEqual
abbrev pub same_option : {A : Type 0} → (A → A → Bool) → Option A → Option A → Bool
same_option eq none none = true
same_option eq none (some b) = false
same_option eq (some a) none = false
same_option eq (some a) (some b) = eq a b

abbrev pub same_text : String → String → Bool
same_text a b = a == b

abbrev pub same_init : InitConfiguration → InitConfiguration → Bool
same_init a b = a.init_type_meta == b.init_type_meta && a.init_settings == b.init_settings

abbrev pub same_join : JoinConfiguration → JoinConfiguration → Bool
same_join a b =
    a.join_type_meta == b.join_type_meta
    && (a.node_registration == b.node_registration
        && (a.discovery == b.discovery
            && (same_option same_text a.control_plane b.control_plane
                && a.join_settings == b.join_settings)))

abbrev pub same_spec : ConfigSpec → ConfigSpec → Bool
same_spec a b =
    same_option same_text a.cluster b.cluster
    && (same_option same_init a.init b.init
        && (same_option same_join a.join b.join
            && (a.format == b.format && a.settings == b.settings)))

-- The configuration of the machine as the comparison leaves it.
unfoldable pub cleaned_machine : ConfigSpec → ConfigSpec → ConfigSpec
cleaned_machine kcp machine =
    cleanup_machine (default_format (get_adjusted_kcp_config kcp machine)) (default_format machine)

unfoldable pub match_init_or_join_configuration : ConfigSpec → ConfigSpec → Bool
match_init_or_join_configuration kcp machine =
    same_spec (cleaned_machine kcp machine)
      (cleanup_kcp (default_format (get_adjusted_kcp_config kcp machine)))

-- The annotation with the cluster configuration; what Unmarshal makes of it, none for "null".
unfoldable pub match_cluster_configuration :
    (String → Option (Option String)) → Option String → Option String → Bool
match_cluster_configuration unmarshal kcp none = true
match_cluster_configuration unmarshal kcp (some annotation) = elim (unmarshal annotation) [
  | none ↦ false
  | some machine ↦ elim machine [
    | none ↦ elim kcp [ none ↦ true | some k ↦ "" == k ]
    | some m ↦ elim kcp [ none ↦ m == "" | some k ↦ m == k ]
  ]
]

-- InitialControlPlaneConfig and JoinControlPlaneConfig of control_plane.go
unfoldable pub initial_control_plane_config : ConfigSpec → ConfigSpec
initial_control_plane_config kcp = record kcp { join = none }

unfoldable pub join_control_plane_config : ConfigSpec → ConfigSpec
join_control_plane_config kcp = record kcp { init = none }

abbrev empty_join : JoinConfiguration
empty_join = record {
  join_type_meta = "";
  node_registration = "";
  discovery = "";
  control_plane = none;
  join_settings = "";
}

abbrev join_or_empty : Option JoinConfiguration → JoinConfiguration
join_or_empty none = empty_join
join_or_empty (some j) = j

abbrev control_plane_or_empty : Option String → String
control_plane_or_empty none = ""
control_plane_or_empty (some c) = c

unfoldable pub joined_part : String → Option JoinConfiguration → JoinConfiguration
joined_part found o = record (join_or_empty o) {
  discovery = found;
  control_plane = some (control_plane_or_empty (join_or_empty o).control_plane);
}

-- What the bootstrap controller makes of the configuration of a control plane machine that joins, with
-- the discovery that it has prepared.
unfoldable pub joined : String → ConfigSpec → ConfigSpec
joined found machine = record machine { join = some (joined_part found machine.join) }

abbrev init_or_empty : Option InitConfiguration → InitConfiguration
init_or_empty none = record { init_type_meta = "InitConfiguration"; init_settings = "" }
init_or_empty (some i) = i

-- What the bootstrap controller leaves as the configuration of the machine that initializes the
-- cluster: an init configuration, the empty one with its kind where there is none.
unfoldable pub initialized : ConfigSpec → ConfigSpec
initialized machine = record machine { init = some (init_or_empty machine.init) }
