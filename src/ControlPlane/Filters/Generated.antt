-- ===== src/ControlPlane/Filters/Generated.antt =====
-- Machines that are made from the specification match it, and matching can be repeated.
use cluster_api_provider_ocn.Base.{
  String, ◌≡◌, refl, true, Option, none, some, is_some, false, ◌==◌, if◌then◌else◌, eq_iff,
  Bool-cases, inl, inr,
}
use cluster_api_provider_ocn.ControlPlane.Filters.{
  InitConfiguration, JoinConfiguration, ConfigSpec, default_format, keep_if,
  get_adjusted_kcp_config, clean_kcp_join, clean_machine_join, clean_machine_init, cleanup_kcp,
  cleanup_machine, same_option, same_text, same_init, same_join, cleaned_machine,
  control_plane_or_empty, match_init_or_join_configuration, join_control_plane_config,
  initial_control_plane_config, joined_part, joined, initialized,
}

same_text_self : (s : String) → (s == s) ≡ true
same_text_self s = (eq_iff s s).1 refl

same_option_self : (o : Option String) → same_option same_text o o ≡ true
same_option_self none = refl
same_option_self (some s) = same_text_self s

same_init_self : (o : Option InitConfiguration) → same_option same_init o o ≡ true
same_init_self none = refl
same_init_self (some i) = rw (same_text_self i.init_type_meta) (same_text_self i.init_settings)

control_plane_self :
    (o : Option String)
    → same_option same_text (keep_if o (some (control_plane_or_empty o))) o ≡ true
unfolding keep_if
control_plane_self none = refl
control_plane_self (some c) = same_text_self c

registration_self : (r : String) → ((if r == "" then "" else r) == r) ≡ true
registration_self r = elim (Bool-cases (r == "")) [
  | inl e ↦ rw (e, (eq_iff r "").0 e) (same_text_self "")
  | inr e ↦ rw e (same_text_self r)
]

-- The join configurations of a machine that has joined, and of the specification.
joined_part-same_join :
    (found : String) (o : Option JoinConfiguration)
    → same_option same_join (clean_machine_join o (some (joined_part found o))) (clean_kcp_join o)
      ≡ true
unfolding clean_machine_join clean_kcp_join joined_part
joined_part-same_join found none = refl
joined_part-same_join found (some j) =
    rw
      (
        same_text_self j.join_type_meta,
        registration_self j.node_registration,
        control_plane_self j.control_plane,
      )
      (same_text_self j.join_settings)

-- The comparison by its parts: only the init and join configurations may differ.
same_parts :
    (kcp machine : ConfigSpec)
    → machine.format ≡ kcp.format
    → machine.settings ≡ kcp.settings
    → same_option same_init
        (clean_machine_init (keep_if machine.init kcp.init) machine.init)
        (keep_if machine.init kcp.init)
      ≡ true
    → same_option same_join
        (clean_machine_join (keep_if machine.join kcp.join) machine.join)
        (clean_kcp_join (keep_if machine.join kcp.join))
      ≡ true
    → match_init_or_join_configuration kcp machine ≡ true
unfolding match_init_or_join_configuration cleaned_machine cleanup_machine cleanup_kcp
    default_format get_adjusted_kcp_config
same_parts kcp machine f s i j = elim (Bool-cases (kcp.format == "")) [
  | inl e ↦ rw (f, e, s, i, j) (same_text_self kcp.settings)
  | inr e ↦ rw (f, e, s, i, j, same_text_self kcp.format) (same_text_self kcp.settings)
]

-- The machine's init configuration with another kind and API version.
abbrev pub with_init_type : String → ConfigSpec → ConfigSpec
with_init_type t m = elim m.init [
  | none ↦ m
  | some i ↦ record m { init = some (record i { init_type_meta = t }) }
]

without_init-match :
    (kcp : ConfigSpec) (i : InitConfiguration)
    → match_init_or_join_configuration
        (record kcp { init = none })
        (record kcp { init = some i; join = none })
      ≡ false
unfolding match_init_or_join_configuration cleaned_machine cleanup_machine cleanup_kcp
    default_format get_adjusted_kcp_config keep_if clean_machine_init clean_machine_join
    clean_kcp_join
without_init-match kcp i = elim (Bool-cases (kcp.format == "")) [
  | inl e ↦ rw e refl
  | inr e ↦ rw e refl
]

initialized-match :
    (kcp : ConfigSpec) (t : String) (o : Option InitConfiguration)
    → match_init_or_join_configuration
        (record kcp { init = o })
        (with_init_type t (initialized (initial_control_plane_config (record kcp { init = o }))))
      ≡ is_some o
unfolding initialized initial_control_plane_config keep_if clean_machine_init clean_machine_join
    clean_kcp_join
initialized-match kcp t none =
    without_init-match kcp (record { init_type_meta = t; init_settings = "" })
initialized-match kcp t (some i) =
    same_parts (record kcp { init = some i })
      (record kcp { join = none; init = some (record i { init_type_meta = t }) }) refl refl
      (same_init_self (some i)) refl

-- The configuration that the control plane generates for a machine that joins matches the
-- specification after the bootstrap controller has put in the discovery, whatever that is. The one
-- for the machine that initializes the cluster, as the bootstrap controller leaves it and with
-- whatever kind and API version, matches exactly if the specification has an init configuration.
pub generated_match :
    (kcp : ConfigSpec) (found type_meta : String)
    → (match_init_or_join_configuration kcp (joined found (join_control_plane_config kcp)) ≡ true)
      × (match_init_or_join_configuration kcp
            (with_init_type type_meta (initialized (initial_control_plane_config kcp)))
          ≡ is_some kcp.init)
unfolding joined join_control_plane_config keep_if clean_machine_init clean_machine_join
    clean_kcp_join
generated_match kcp found type_meta = (
  same_parts kcp (joined found (join_control_plane_config kcp)) refl refl refl
      (joined_part-same_join found kcp.join),
  initialized-match kcp type_meta kcp.init,
)

keep_if-clean_machine_init :
    (k m : Option InitConfiguration) → keep_if (clean_machine_init (keep_if m k) m) k ≡ keep_if m k
unfolding keep_if clean_machine_init
keep_if-clean_machine_init none none = refl
keep_if-clean_machine_init none (some m) = refl
keep_if-clean_machine_init (some k) none = refl
keep_if-clean_machine_init (some k) (some m) = refl

keep_if-clean_machine_join :
    (k m : Option JoinConfiguration) → keep_if (clean_machine_join (keep_if m k) m) k ≡ keep_if m k
unfolding keep_if clean_machine_join
keep_if-clean_machine_join none none = refl
keep_if-clean_machine_join none (some m) = refl
keep_if-clean_machine_join (some k) none = refl
keep_if-clean_machine_join (some k) (some m) = refl

clean_machine_init-idempotent :
    (a m : Option InitConfiguration)
    → clean_machine_init a (clean_machine_init a m) ≡ clean_machine_init a m
unfolding clean_machine_init
clean_machine_init-idempotent none m = refl
clean_machine_init-idempotent (some k) none = refl
clean_machine_init-idempotent (some k) (some m) = refl

keep_if-idempotent : (a b : Option String) → keep_if a (keep_if a b) ≡ keep_if a b
unfolding keep_if
keep_if-idempotent none b = refl
keep_if-idempotent (some a) b = refl

clean_machine_join-idempotent :
    (a m : Option JoinConfiguration)
    → clean_machine_join a (clean_machine_join a m) ≡ clean_machine_join a m
unfolding clean_machine_join
clean_machine_join-idempotent none m = refl
clean_machine_join-idempotent (some k) none = refl
clean_machine_join-idempotent (some k) (some m) = elim (Bool-cases (k.node_registration == "")) [
  | inl e ↦ rw (e, keep_if-idempotent k.control_plane m.control_plane) refl
  | inr e ↦ rw (e, keep_if-idempotent k.control_plane m.control_plane) refl
]

-- The comparison changes the machine's configuration in place, and made again on what it has left it
-- gives the same answer.
pub match-cleaned_machine :
    (kcp machine : ConfigSpec)
    → match_init_or_join_configuration kcp (cleaned_machine kcp machine)
      ≡ match_init_or_join_configuration kcp machine
unfolding match_init_or_join_configuration cleaned_machine cleanup_machine cleanup_kcp
    default_format get_adjusted_kcp_config
match-cleaned_machine kcp machine =
    let a = keep_if-clean_machine_init kcp.init machine.init in
    let b = keep_if-clean_machine_join kcp.join machine.join in
    let c = clean_machine_init-idempotent (keep_if machine.init kcp.init) machine.init in
    let d = clean_machine_join-idempotent (keep_if machine.join kcp.join) machine.join in
    elim (Bool-cases (kcp.format == "")) [
      | inl e ↦ elim (Bool-cases (machine.format == "")) [
        | inl f ↦ rw (e, f, a, b, c, d) refl
        | inr f ↦ rw (e, f, f, a, b, c, d) refl
      ]
      | inr e ↦ elim (Bool-cases (machine.format == "")) [
        | inl f ↦ rw (e, f, a, b, c, d) refl
        | inr f ↦ rw (e, f, f, a, b, c, d) refl
      ]
    ]
