-- ===== src/Bootstrap/Discovery/Complete.antt =====
-- A discovery that is prepared can be used to join.
use cluster_api_provider_ocn.Base.{
  String, ◌≡◌, refl, ap, ◌∙◌, true, false, Option, none, some, List, ◌==◌, is_empty, arith, ◌⊎◌,
  inl, inr, Bool-cases,
}
use cluster_api_provider_ocn.Bootstrap.Discovery.{
  TokenDiscovery, DiscoverySettings, JoinApi, prepared, token_of, with_verification, new_token,
  set_token, prepare_token, set_endpoint, prepare_endpoint, set_hashes, prepare_hashes,
  reconcile_discovery,
}

-- The token's part is complete, and what was set before is the same.
abbrev pub Completes : TokenDiscovery → TokenDiscovery → Type 0
Completes a b =
    ((b.token == "") ≡ false)
    × ((b.api_server_endpoint == "") ≡ false)
    × ((is_empty b.ca_cert_hashes ≡ false) ⊎ (b.unsafe_skip_ca_verification ≡ true))
    × (((a.token == "") ≡ true) ⊎ (b.token ≡ a.token))
    × (((a.api_server_endpoint == "") ≡ true) ⊎ (b.api_server_endpoint ≡ a.api_server_endpoint))
    × ((is_empty a.ca_cert_hashes ≡ true) ⊎ (b.ca_cert_hashes ≡ a.ca_cert_hashes))

-- The verification leaves what is set, and is skipped without hashes.
verification :
    (b : TokenDiscovery)
    → ((with_verification b).token ≡ b.token)
      × ((with_verification b).api_server_endpoint ≡ b.api_server_endpoint)
      × ((with_verification b).ca_cert_hashes ≡ b.ca_cert_hashes)
      × ((is_empty b.ca_cert_hashes ≡ false)
          ⊎ ((with_verification b).unsafe_skip_ca_verification ≡ true))
unfolding with_verification
verification b = ground arith

module _ (api : JoinApi) where
  new_token_text : (t : String) → new_token api ≡ some t → (t == "") ≡ false
  unfolding new_token
  new_token_text t h = elim (Bool-cases api.remote_client) [
    | inl e ↦ api.token_text t (rw e at h)
    | inr e ↦ cc (rw e at h)
  ]

  -- The same of the token's part from the token on.
  abbrev Keeps : TokenDiscovery → TokenDiscovery → Type 0
  Keeps a b =
      ((b.token == "") ≡ false)
      × (b.api_server_endpoint ≡ a.api_server_endpoint)
      × (b.ca_cert_hashes ≡ a.ca_cert_hashes)
      × ((is_empty b.ca_cert_hashes ≡ false) ⊎ (b.unsafe_skip_ca_verification ≡ true))
      × (((a.token == "") ≡ true) ⊎ (b.token ≡ a.token))

  set_token-Keeps :
      (b : TokenDiscovery) (o : Option String)
      → ((t : String) → o ≡ some t → (t == "") ≡ false)
      → (b.token == "") ≡ true
      → (set_token api b o).1 ≡ prepared
      → Keeps b (set_token api b o).0
  unfolding set_token
  set_token-Keeps b none t e h = cc h
  set_token-Keeps b (some x) t e h =
      let (p, q, r, s) = verification (record b { token = x }) in
      (ap (λ z. z == "") p ∙ t x refl, q, r, ground (arith, s, r), inl e)

  prepare_token-Keeps :
      (b : TokenDiscovery) → (prepare_token api b).1 ≡ prepared → Keeps b (prepare_token api b).0
  unfolding prepare_token
  prepare_token-Keeps b h = elim (Bool-cases (b.token == "")) [
    | inl e ↦
        let (p, q, r, s, t) =
          set_token-Keeps b (new_token api) new_token_text e (rw (e, prepare_token) at h) in
        ground (arith, e, p, q, r, s)
    | inr e ↦
        let (p, q, r, s) = verification b in
        rw e (ap (λ z. z == "") p ∙ e, q, r, ground (arith, s, r), inr p)
  ]

  set_endpoint-Keeps :
      (b : TokenDiscovery) (o : Option String)
      → ((x : String) → o ≡ some x → (x == "") ≡ false)
      → (set_endpoint api b o).1 ≡ prepared
      → (e : String) × ((e == "") ≡ false)
        × Keeps (record b { api_server_endpoint = e }) (set_endpoint api b o).0
  unfolding set_endpoint
  set_endpoint-Keeps b none t h = cc h
  set_endpoint-Keeps b (some x) t h =
      (x, t x refl, prepare_token-Keeps (record b { api_server_endpoint = x }) h)

  -- The same from the endpoint on.
  abbrev Reaches : TokenDiscovery → TokenDiscovery → Type 0
  Reaches a b =
      ((b.token == "") ≡ false)
      × ((b.api_server_endpoint == "") ≡ false)
      × (b.ca_cert_hashes ≡ a.ca_cert_hashes)
      × ((is_empty b.ca_cert_hashes ≡ false) ⊎ (b.unsafe_skip_ca_verification ≡ true))
      × (((a.token == "") ≡ true) ⊎ (b.token ≡ a.token))
      × (((a.api_server_endpoint == "") ≡ true) ⊎ (b.api_server_endpoint ≡ a.api_server_endpoint))

  prepare_endpoint-Reaches :
      (b : TokenDiscovery)
      → (prepare_endpoint api b).1 ≡ prepared
      → Reaches b (prepare_endpoint api b).0
  unfolding prepare_endpoint
  prepare_endpoint-Reaches b h = elim (Bool-cases (b.api_server_endpoint == "")) [
    | inl e ↦
        let (x, n, k) =
          set_endpoint-Keeps b api.endpoint api.endpoint_text (rw (e, prepare_endpoint) at h) in
        let (p, q, r, s, t) = k in
        let q' = ap (λ z. z == "") q ∙ n in ground (arith, e, p, q', r, s, t)
    | inr e ↦
        let (p, q, r, s, t) = prepare_token-Keeps b (rw (e, prepare_endpoint) at h) in
        let q' = ap (λ z. z == "") q ∙ e in ground (arith, e, p, q, q', r, s, t)
  ]

  set_hashes-Completes :
      (b : TokenDiscovery) (o : Option (List String))
      → is_empty b.ca_cert_hashes ≡ true
      → (set_hashes api b o).1 ≡ prepared
      → Completes b (set_hashes api b o).0
  unfolding set_hashes
  set_hashes-Completes b none e h = cc h
  set_hashes-Completes b (some hs) e h =
      let (p, q, r, s, t, u) = prepare_endpoint-Reaches (record b { ca_cert_hashes = hs }) h in
      (p, q, s, t, u, inl e)

  prepare_hashes-Completes :
      (b : TokenDiscovery)
      → (prepare_hashes api b).1 ≡ prepared
      → Completes b (prepare_hashes api b).0
  unfolding prepare_hashes
  prepare_hashes-Completes b h = elim (Bool-cases (is_empty b.ca_cert_hashes)) [
    | inl e ↦
        let (p, q, r, s, t, u) =
          set_hashes-Completes b api.hashes e (rw (e, prepare_hashes) at h) in
        ground (arith, e, p, q, r, s, t)
    | inr e ↦
        let (p, q, r, s, t, u) = prepare_endpoint-Reaches b (rw (e, prepare_hashes) at h) in
        ground (arith, e, p, q, r, s, t, u)
  ]

  -- A discovery without a file that is prepared has a token and an endpoint, has hashes of
  -- certificates or skips the verification, and keeps the token, the endpoint and the hashes that
  -- the user has set.
  pub reconcile_discovery-Completes :
      (d : DiscoverySettings)
      → d.has_file ≡ false
      → (reconcile_discovery api d).1 ≡ prepared
      → (b : TokenDiscovery) × ((reconcile_discovery api d).0.bootstrap_token ≡ some b)
        × Completes (token_of d.bootstrap_token) b
  unfolding reconcile_discovery
  reconcile_discovery-Completes d f h =
      let k =
        prepare_hashes-Completes (token_of d.bootstrap_token) (rw (f, reconcile_discovery) at h) in
      rw (f, reconcile_discovery) ((prepare_hashes api (token_of d.bootstrap_token)).0, refl, k)
