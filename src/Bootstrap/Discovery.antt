-- ===== src/Bootstrap/Discovery.antt =====
-- reconcileDiscovery and reconcileTopLevelObjectSettings of kubeadmconfig_controller.go.
pub mod Complete
use cluster_api_provider_ocn.Base.{
  ℕ, String, ◌≡◌, ◌≢◌, Bool, true, false, not, ◌&&◌, Option, none, some, List, [], ◌∷◌, ◌==◌,
  if◌then◌else◌, is_empty,
}

-- BootstrapTokenDiscovery
pub record TokenDiscovery : Type 0 where
  pub token : String
  pub api_server_endpoint : String
  pub ca_cert_hashes : List String
  pub unsafe_skip_ca_verification : Bool

-- Discovery: whether there is a file, and the token's part.
pub record DiscoverySettings : Type 0 where
  pub has_file : Bool
  pub bootstrap_token : Option TokenDiscovery

-- The hashes of the cluster's certificates, the endpoint of the cluster where it is valid, and the
-- token that createToken makes. A host with its port is not empty, and no token is.
pub record JoinApi : Type 0 where
  pub hashes : Option (List String)
  pub endpoint : Option String
  pub remote_client : Bool
  pub create_token : Option String
  pub endpoint_text : (e : String) → endpoint ≡ some e → (e == "") ≡ false
  pub token_text : (t : String) → create_token ≡ some t → (t == "") ≡ false

-- An empty result, a delay in seconds, or an error.
pub data Prepared : Type 0 where
  prepared stopped : Prepared
  delayed : ℕ → Prepared

abbrev no_token : TokenDiscovery
no_token = record {
  token = "";
  api_server_endpoint = "";
  ca_cert_hashes = [];
  unsafe_skip_ca_verification = false;
}

unfoldable pub token_of : Option TokenDiscovery → TokenDiscovery
token_of none = no_token
token_of (some b) = b

unfoldable pub with_verification : TokenDiscovery → TokenDiscovery
with_verification b =
    if is_empty b.ca_cert_hashes then record b { unsafe_skip_ca_verification = true } else b

module _ (api : JoinApi) where
  unfoldable pub new_token : Option String
  new_token = if api.remote_client then api.create_token else none

  unfoldable pub set_token : TokenDiscovery → Option String → TokenDiscovery × Prepared
  set_token b none = (b, stopped)
  set_token b (some t) = (with_verification (record b { token = t }), prepared)

  unfoldable pub prepare_token : TokenDiscovery → TokenDiscovery × Prepared
  prepare_token b = if b.token == "" then set_token b new_token else (with_verification b, prepared)

  unfoldable pub set_endpoint : TokenDiscovery → Option String → TokenDiscovery × Prepared
  set_endpoint b none = (b, delayed 10)
  set_endpoint b (some e) = prepare_token (record b { api_server_endpoint = e })

  unfoldable pub prepare_endpoint : TokenDiscovery → TokenDiscovery × Prepared
  prepare_endpoint b =
      if b.api_server_endpoint == "" then set_endpoint b api.endpoint else prepare_token b

  unfoldable pub set_hashes : TokenDiscovery → Option (List String) → TokenDiscovery × Prepared
  set_hashes b none = (b, stopped)
  set_hashes b (some hs) = prepare_endpoint (record b { ca_cert_hashes = hs })

  unfoldable pub prepare_hashes : TokenDiscovery → TokenDiscovery × Prepared
  prepare_hashes b =
      if is_empty b.ca_cert_hashes then set_hashes b api.hashes else prepare_endpoint b

  -- What it has set so far stays when it stops.
  unfoldable pub reconcile_discovery : DiscoverySettings → DiscoverySettings × Prepared
  reconcile_discovery d = if d.has_file then (d, prepared) else (
    record d { bootstrap_token = some (prepare_hashes (token_of d.bootstrap_token)).0 },
    (prepare_hashes (token_of d.bootstrap_token)).1,
  )

-- The settings of ClusterConfiguration that may come from the cluster or the machine, "" if not set.
pub record ClusterSettings : Type 0 where
  pub control_plane_endpoint : String
  pub cluster_name : String
  pub dns_domain : String
  pub service_subnet : String
  pub pod_subnet : String
  pub kubernetes_version : String

-- A setting of the user is respected; otherwise another one is used, where there is one.
unfoldable pub keep_or : String → Option String → String
keep_or s none = s
keep_or s (some t) = if s == "" then t else s

-- The values of the cluster and the machine, none where they are not set or not valid.
pub record TopLevel : Type 0 where
  pub cluster_endpoint : Option String
  pub name : String
  pub service_domain : Option String
  pub services : Option String
  pub pods : Option String
  pub machine_version : Option String

unfoldable pub reconcile_top_level_object_settings : TopLevel → ClusterSettings → ClusterSettings
reconcile_top_level_object_settings t c = record {
  control_plane_endpoint = keep_or c.control_plane_endpoint t.cluster_endpoint;
  cluster_name = keep_or c.cluster_name (some t.name);
  dns_domain = keep_or c.dns_domain t.service_domain;
  service_subnet = keep_or c.service_subnet t.services;
  pod_subnet = keep_or c.pod_subnet t.pods;
  kubernetes_version = keep_or c.kubernetes_version t.machine_version;
}
