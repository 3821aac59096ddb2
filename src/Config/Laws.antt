-- ===== src/Config/Laws.antt =====
-- What loading a configuration guarantees (internal/config/config.go).
use prometheus_multi_tenant.Shared.{
  ℕ, String, ◌≡◌, refl, Bool, true, false, Option, none, some, List, [], ◌∷◌, arith, All,
  Bool-cases, inl, inr, eq_iff, subst,
}
use prometheus_multi_tenant.Shared.Int.{ℤ, is_positive}
use prometheus_multi_tenant.Shared.Text.{is_empty}
use prometheus_multi_tenant.Config.{
  Config, RemoteWriteConfig, ProxyConfig, DiscoveryConfig, default_zero, default_nonpositive,
  default_empty, or_disabled, AuthConfig, Result, ok, err, set_defaults, remote_write_defaults,
  validate, validate_resource_types, validate_auth, load, parse, read, is_resource_type,
  is_auth_type, lacks_secret, ◌>>=◌, auth_defaults, proxy_defaults, discovery_defaults,
}

-- The windows of the self-heal watchdog are positive, and the pod restart is decided.
pub record HasWindows (r : RemoteWriteConfig) : Type 0 where
  pub batch : is_positive r.batch_size ≡ true
  pub stall : is_positive r.stall_grace_period ≡ true
  pub backoff : is_positive r.recreate_backoff ≡ true
  pub restart : is_positive r.pod_restart_grace_period ≡ true
  pub cooldown : is_positive r.pod_restart_cooldown ≡ true

remote_write_defaults-HasWindows : (r : RemoteWriteConfig) → HasWindows (remote_write_defaults r)
unfolding remote_write_defaults default_nonpositive
remote_write_defaults-HasWindows r = ground arith

default_zero_idem : (v : ℤ) (d : ℕ) → default_zero (default_zero v d) d ≡ default_zero v d
unfolding default_zero
default_zero_idem v d = ground arith

default_nonpositive_idem :
    (v : ℤ) (d : ℕ) → default_nonpositive (default_nonpositive v d) d ≡ default_nonpositive v d
unfolding default_nonpositive
default_nonpositive_idem v d = ground arith

default_empty_idem {ℓ} :
    {A : Type ℓ} (xs d : List A) → default_empty (default_empty xs d) d ≡ default_empty xs d
unfolding default_empty
default_empty_idem [] [] = refl
default_empty_idem [] (y ∷ ys) = refl
default_empty_idem (x ∷ xs) d = refl

or_disabled_idem : (o : Option Bool) → or_disabled (or_disabled o) ≡ or_disabled o
unfolding or_disabled
or_disabled_idem none = refl
or_disabled_idem (some b) = refl

ruleset default_laws =
    (default_zero_idem, default_nonpositive_idem, default_empty_idem, or_disabled_idem)

remote_write_defaults_idem :
    (r : RemoteWriteConfig)
    → remote_write_defaults (remote_write_defaults r) ≡ remote_write_defaults r
unfolding remote_write_defaults
remote_write_defaults_idem r = simp default_laws

proxy_defaults_idem : (p : ProxyConfig) → proxy_defaults (proxy_defaults p) ≡ proxy_defaults p
unfolding proxy_defaults
proxy_defaults_idem p = simp default_laws

discovery_defaults_idem :
    (d : DiscoveryConfig) → discovery_defaults (discovery_defaults d) ≡ discovery_defaults d
unfolding discovery_defaults
discovery_defaults_idem d =
    simp default_laws
      (elim (Bool-cases (is_empty d.kubernetes.port)) [ inl e ↦ rw e refl | inr e ↦ simp e refl ])

auth_defaults_idem : (a : Option AuthConfig) → auth_defaults (auth_defaults a) ≡ auth_defaults a
unfolding auth_defaults
auth_defaults_idem none = refl
auth_defaults_idem (some a) = ground arith

-- Defaulting is idempotent: every field that was set, by the file or by an earlier pass, is kept.
pub set_defaults_idem : (c : Config) → set_defaults (set_defaults c) ≡ set_defaults c
set_defaults_idem c =
    unfold set_defaults in
    simp
      (discovery_defaults_idem, proxy_defaults_idem, remote_write_defaults_idem, auth_defaults_idem)

-- What the rest of the program relies on.
pub record IsLoaded (c : Config) : Type 0 where
  pub windows : HasWindows c.remote_write
  pub decided : (b : Bool) × (c.remote_write.self_heal_pod_restart ≡ some b)
  pub refresh : is_positive c.discovery.refresh_interval ≡ true
  pub resources : All (λ t. is_resource_type t ≡ true) c.discovery.kubernetes.resource_types
  pub auth_type : (a : AuthConfig) → c.auth ≡ some a → is_auth_type a.type ≡ true
  pub secret : (a : AuthConfig) → c.auth ≡ some a → a.type ≡ "jwt" → lacks_secret a.jwt ≡ false

resource_types_valid :
    (ts : List String)
    → validate_resource_types ts ≡ ok tt
    → All (λ t. is_resource_type t ≡ true) ts
unfolding validate_resource_types
resource_types_valid [] h = tt
resource_types_valid (t ∷ ts) h = ground (arith, resource_types_valid ts)

auth_valid :
    (a : AuthConfig)
    → validate_auth (some a) ≡ ok tt
    → (is_auth_type a.type ≡ true) × (a.type ≡ "jwt" → lacks_secret a.jwt ≡ false)
unfolding validate_auth
auth_valid a h = ground (arith, eq_iff a.type "jwt")

-- Steps that return did so at every step.
>>=-returns {ℓ κ} :
    {X : Type ℓ} {Y : Type κ} (step : Result X) (next : X → Result Y) {result : Y}
    → (step >>= next) ≡ ok result
    → (value : X) × (step ≡ ok value) × (next value ≡ ok result)
>>=-returns (err reason) next h = cc
>>=-returns (ok value) next h = (value, refl, h)

ok-injective {ℓ} : {A : Type ℓ} {a b : A} → ok a ≡ ok b → a ≡ b
ok-injective h = cc

auth_checked :
    (c : Config) (a : AuthConfig)
    → validate_auth c.auth ≡ ok tt
    → c.auth ≡ some a
    → (is_auth_type a.type ≡ true) × (a.type ≡ "jwt" → lacks_secret a.jwt ≡ false)
auth_checked c a h e = auth_valid a (rw e at h)

or_disabled_decides : (o : Option Bool) → (b : Bool) × (or_disabled o ≡ some b)
unfolding or_disabled
or_disabled_decides none = (false, refl)
or_disabled_decides (some b) = (b, refl)

validate_parts :
    (c : Config)
    → validate c ≡ ok tt
    → (is_positive c.discovery.refresh_interval ≡ true)
      × (validate_resource_types c.discovery.kubernetes.resource_types ≡ ok tt)
      × (validate_auth c.auth ≡ ok tt)
unfolding validate
validate_parts c h = ground arith

defaults_decided :
    (c : Config) → (b : Bool) × ((set_defaults c).remote_write.self_heal_pod_restart ≡ some b)
unfolding set_defaults
defaults_decided c = or_disabled_decides c.remote_write.self_heal_pod_restart

defaults-HasWindows : (c : Config) → HasWindows (set_defaults c).remote_write
unfolding set_defaults
defaults-HasWindows c = remote_write_defaults-HasWindows c.remote_write

validated-IsLoaded : (c : Config) → validate (set_defaults c) ≡ ok tt → IsLoaded (set_defaults c)
validated-IsLoaded c h =
    let parts = validate_parts (set_defaults c) h in
    record {
      windows = defaults-HasWindows c;
      decided = defaults_decided c;
      refresh = parts.0;
      resources = resource_types_valid _ parts.1;
      auth_type = λ a e. (auth_checked (set_defaults c) a parts.2 e).0;
      secret = λ a e. (auth_checked (set_defaults c) a parts.2 e).1;
    }

-- A configuration that `load` returns has positive windows and batch size, a decided pod-restart
-- switch, a positive refresh interval, known resource types, and, where authentication is
-- configured, a known type with a secret key in the case of "jwt".
pub load-IsLoaded :
    (read_file : String → Option String) (unmarshal : String → Option Config) (filename : String)
    (c : Config)
    → load read_file unmarshal filename ≡ ok c
    → IsLoaded c
unfolding load
load-IsLoaded read_file unmarshal filename c h =
    let (text, _, after_read) = >>=-returns (read read_file unmarshal filename) _ h in
    let (parsed, _, after_parse) = >>=-returns (parse read_file unmarshal text) _ after_read in
    let (_, valid, returned) = >>=-returns (validate (set_defaults parsed)) _ after_parse in
    subst IsLoaded (ok-injective returned) (validated-IsLoaded parsed (ground (arith, valid)))
