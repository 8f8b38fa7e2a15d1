-- ===== src/Startup.antt =====
-- src/main.rs: what the start-up takes from the configuration and the store.
use dockdoe.Prelude.{ℕ, Option, none, some, List, Text}
use dockdoe.Auth.{Auth}
use dockdoe.Config.{HostConfig, effective_interval_secs}
use dockdoe.Config.Load.{AppConfig}
use dockdoe.Collector.{Settings}
use dockdoe.Store.Secret.{session_secret}
pub mod Restart
mod Tests

abbrev pub settings_with : AppConfig → Option ℕ → Option Settings
settings_with cfg none = none
settings_with cfg (some interval) = some (record {
  interval = interval;
  raw_retention = cfg.raw_retention_secs;
  trend_bucket_secs = cfg.trend_bucket_secs;
  trend_retention = cfg.trend_retention_secs;
  prune_interval = cfg.prune_interval_secs;
})

-- `none` is the panic of a host without an endpoint, which `validate_hosts` rules out.
unfoldable pub collector_config : AppConfig → HostConfig → Option Settings
unfolding effective_interval_secs
collector_config cfg host_cfg =
    settings_with cfg (effective_interval_secs host_cfg cfg.interval_secs)

abbrev pub seed_window : AppConfig → ℕ
seed_window cfg = cfg.raw_retention_secs

abbrev pub Meta : Type 0
Meta = List (Text × List ℕ)

-- A start that is refused, or the login with the table `meta` after it.
pub data AuthSetup : Type 0 where
  refused : AuthSetup
  ready : Option Auth → Meta → AuthSetup

-- `as_bytes` of a text is a parameter.
module _ (as_bytes : Text → List ℕ) where
  abbrev pub auth_with : Text → Text → AppConfig → List ℕ × Meta → AuthSetup
  auth_with user password cfg (secret, meta) =
      ready
        (some (record {
          user = as_bytes user;
          password = as_bytes password;
          secret = secret;
          secure_cookie = cfg.cookie_secure;
        }))
        meta

  abbrev pub auth_for : Option Text → Option Text → AppConfig → List ℕ → Meta → AuthSetup
  auth_for (some user) (some password) cfg generated meta =
      auth_with user password cfg (session_secret generated meta)
  auth_for none none cfg generated meta = ready none meta
  auth_for (some user) none cfg generated meta = refused
  auth_for none (some password) cfg generated meta = refused

  unfoldable pub build_auth : AppConfig → List ℕ → Meta → AuthSetup
  unfolding session_secret
  build_auth cfg generated meta = auth_for cfg.auth_user cfg.auth_password cfg generated meta
