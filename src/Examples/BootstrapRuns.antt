-- ===== src/Examples/BootstrapRuns.antt =====
-- The theorems of the bootstrap configurations at concrete values.
use cluster_api_provider_ocn.Base.{
  ℕ, ◌+◌, ◌≡◌, ◌==◌, refl, true, false, String, Option, none, some, List, [], ◌∷◌, inl, arith,
  if◌then◌else◌,
}
use cluster_api_provider_ocn.Admission.{File}
use cluster_api_provider_ocn.Bootstrap.Discovery.{
  TokenDiscovery, DiscoverySettings, JoinApi, reconcile_discovery, token_of,
}
use cluster_api_provider_ocn.Bootstrap.Discovery.Complete.{Completes, reconcile_discovery-Completes}
use cluster_api_provider_ocn.Bootstrap.Files.{AreResolved, resolve_files-source}
use cluster_api_provider_ocn.Bootstrap.Tokens.{Token, token_secret, Lives, kept_until-Lives}

same_text : (a b : String) → (a == "") ≡ false → some a ≡ some b → (b == "") ≡ false
same_text a b e h = cc (e, h)

abbrev joining : JoinApi
joining = record {
  hashes = some ("sha256:1" ∷ []);
  endpoint = some "10.0.0.1:6443";
  remote_client = true;
  create_token = some "abcdef.0123456789abcdef";
  endpoint_text = λ e h. same_text "10.0.0.1:6443" e refl h;
  token_text = λ t h. same_text "abcdef.0123456789abcdef" t refl h;
}

-- The user has given a token.
abbrev by_token : DiscoverySettings
by_token = record {
  has_file = false;
  bootstrap_token = some (record {
    token = "user00.0123456789abcdef";
    api_server_endpoint = "";
    ca_cert_hashes = [];
    unsafe_skip_ca_verification = false;
  });
}

reconcile_discovery-Completes_example :
    (b : TokenDiscovery) × ((reconcile_discovery joining by_token).0.bootstrap_token ≡ some b)
    × Completes (token_of by_token.bootstrap_token) b
unfolding reconcile_discovery cluster_api_provider_ocn.Bootstrap.Discovery.prepare_hashes token_of
    cluster_api_provider_ocn.Bootstrap.Discovery.set_hashes
    cluster_api_provider_ocn.Bootstrap.Discovery.prepare_endpoint
    cluster_api_provider_ocn.Bootstrap.Discovery.set_endpoint
    cluster_api_provider_ocn.Bootstrap.Discovery.prepare_token
reconcile_discovery-Completes_example = reconcile_discovery-Completes joining by_token refl refl

abbrev secrets : String → String → Option String
secrets name key = if name == "keys" then some "pem" else none

abbrev plain_file : File
plain_file = record {
  path = "/a";
  owner = "root:root";
  permissions = "0640";
  encoding = "";
  append = true;
  content = "x";
  content_from = none;
}

abbrev secret_file : File
secret_file = record {
  path = "/b";
  owner = "root:root";
  permissions = "0600";
  encoding = "base64";
  append = false;
  content = "";
  content_from = some (record { secret_name = "keys"; secret_key = "ca" });
}

abbrev resolved : List File
resolved = plain_file ∷ record secret_file { content = "pem"; content_from = none } ∷ []

resolve_files-source_example : AreResolved secrets (plain_file ∷ secret_file ∷ []) resolved
unfolding cluster_api_provider_ocn.Bootstrap.Files.resolve_files
    cluster_api_provider_ocn.Bootstrap.Files.resolve_file
    cluster_api_provider_ocn.Bootstrap.Files.resolve_secret
resolve_files-source_example =
    resolve_files-source secrets (plain_file ∷ secret_file ∷ []) resolved refl

abbrev minutes : ℕ
minutes = 900000000000

-- A token of fifteen minutes, refreshed after ten seconds.
kept_until-Lives_example : Lives (token_secret (some 910000000000)) (10000000000 + 450000000000)
unfolding cluster_api_provider_ocn.Bootstrap.Tokens.refresh_bootstrap_token
    cluster_api_provider_ocn.Bootstrap.Tokens.after_refresh
    cluster_api_provider_ocn.Bootstrap.Tokens.refresh_token
    cluster_api_provider_ocn.Bootstrap.Tokens.written
kept_until-Lives_example =
    kept_until-Lives 10000000000 minutes 450000000000 true true (token_secret none)
      (token_secret (some 910000000000)) (omega arith) (inl refl)
