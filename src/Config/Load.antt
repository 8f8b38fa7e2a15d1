-- ===== src/Config/Load.antt =====
-- src/config.rs: `load`, which merges the file with the flags (`Cli` of src/main.rs) and checks the result.
use dockdoe.Prelude.{
  ℕ, ◌*◌, Bool, false, Option, none, some, List, [], ◌∷◌, if◌then◌else◌, ltb, Text, text, trim,
}
use dockdoe.Config.{
  ScaleMode, SizeError, ConfigError, unreadable, malformed, invalid_mem_cap, mem_cap_too_small,
  empty_api_token, Result, ok, err, HostConfig, unwrap_or, or_else, is_blank, validate_hosts,
  parse_size,
}

pub record OverviewConfig : Type 0 where
  pub cpu_scale : ScaleMode
  pub mem_scale : ScaleMode
  pub mem_cap : ℕ

pub record AppConfig : Type 0 where
  pub bind : Text
  pub db_path : Text
  pub interval_secs : ℕ
  pub raw_retention_secs : ℕ
  pub trend_bucket_secs : ℕ
  pub trend_retention_secs : ℕ
  pub prune_interval_secs : ℕ
  pub allowed_hosts : List Text
  pub apprise_url : Option Text
  pub notify_delay_secs : ℕ
  pub auth_user : Option Text
  pub auth_password : Option Text
  pub cookie_secure : Bool
  pub api_token : Option Text
  pub log : Text
  pub overview : OverviewConfig
  pub hosts : List HostConfig

-- The flags, their defaults filled in.
pub record Cli : Type 0 where
  pub bind : Text
  pub db_path : Text
  pub interval_secs : ℕ
  pub raw_retention_secs : ℕ
  pub trend_bucket_secs : ℕ
  pub trend_retention_secs : ℕ
  pub prune_interval_secs : ℕ
  pub allowed_hosts : List Text
  pub apprise_url : Option Text
  pub notify_delay_secs : ℕ
  pub auth_user : Option Text
  pub auth_password : Option Text
  pub cookie_secure : Bool
  pub api_token : Option Text
  pub port_host : Option Text
  pub overview_cpu_scale : ScaleMode
  pub overview_mem_scale : ScaleMode
  pub overview_mem_cap : ℕ
  pub log : Text

pub record FileConfig : Type 0 where
  pub bind : Option Text
  pub db_path : Option Text
  pub interval_secs : Option ℕ
  pub raw_retention_secs : Option ℕ
  pub trend_bucket_secs : Option ℕ
  pub trend_retention_secs : Option ℕ
  pub prune_interval_secs : Option ℕ
  pub allowed_hosts : Option (List Text)
  pub apprise_url : Option Text
  pub notify_delay_secs : Option ℕ
  pub auth_user : Option Text
  pub auth_password : Option Text
  pub cookie_secure : Option Bool
  pub api_token : Option Text
  pub log : Option Text
  pub overview_cpu_scale : Option ScaleMode
  pub overview_mem_scale : Option ScaleMode
  pub overview_mem_cap : Option Text
  pub host : List HostConfig

abbrev pub default_file : FileConfig
default_file = record {
  bind = none;
  db_path = none;
  interval_secs = none;
  raw_retention_secs = none;
  trend_bucket_secs = none;
  trend_retention_secs = none;
  prune_interval_secs = none;
  allowed_hosts = none;
  apprise_url = none;
  notify_delay_secs = none;
  auth_user = none;
  auth_password = none;
  cookie_secure = none;
  api_token = none;
  log = none;
  overview_cpu_scale = none;
  overview_mem_scale = none;
  overview_mem_cap = none;
  host = [];
}

-- What the path of the file led to.
pub data ConfigFile : Type 0 where
  no_path : ConfigFile
  unreadable_file malformed_file : ConfigFile
  contents : FileConfig → ConfigFile

abbrev pub overview_mem_floor : ℕ
overview_mem_floor = 16 * 1024 * 1024

abbrev pub local_host : Option Text → Option Text → HostConfig
local_host docker_host port_host = record {
  name = text "local";
  docker = some (unwrap_or docker_host (text "unix:///var/run/docker.sock"));
  dockdoe = none;
  token = none;
  node_host = none;
  public_host = port_host;
  interval_secs = none;
  tls_ca = none;
  tls_insecure = false;
}

abbrev pub configured_hosts : Option Text → Cli → List HostConfig → List HostConfig
configured_hosts docker_host cli [] = local_host docker_host cli.port_host ∷ []
configured_hosts docker_host cli (h ∷ hs) = h ∷ hs

abbrev pub as_cap : Result SizeError ℕ → Result ConfigError ℕ
as_cap (ok cap) = ok cap
as_cap (err e) = err (invalid_mem_cap e)

unfoldable pub mem_cap_of : Option Text → ℕ → Result ConfigError ℕ
unfolding parse_size
mem_cap_of none fallback = ok fallback
mem_cap_of (some s) fallback = as_cap (parse_size s)

unfoldable pub merged : FileConfig → Cli → ℕ → List HostConfig → AppConfig
merged file cli mem_cap hosts = record {
  bind = unwrap_or file.bind cli.bind;
  db_path = unwrap_or file.db_path cli.db_path;
  interval_secs = unwrap_or file.interval_secs cli.interval_secs;
  raw_retention_secs = unwrap_or file.raw_retention_secs cli.raw_retention_secs;
  trend_bucket_secs = unwrap_or file.trend_bucket_secs cli.trend_bucket_secs;
  trend_retention_secs = unwrap_or file.trend_retention_secs cli.trend_retention_secs;
  prune_interval_secs = unwrap_or file.prune_interval_secs cli.prune_interval_secs;
  allowed_hosts = unwrap_or file.allowed_hosts cli.allowed_hosts;
  apprise_url = or_else file.apprise_url cli.apprise_url;
  notify_delay_secs = unwrap_or file.notify_delay_secs cli.notify_delay_secs;
  auth_user = or_else file.auth_user cli.auth_user;
  auth_password = or_else file.auth_password cli.auth_password;
  cookie_secure = unwrap_or file.cookie_secure cli.cookie_secure;
  api_token = or_else file.api_token cli.api_token;
  log = unwrap_or file.log cli.log;
  overview = record {
    cpu_scale = unwrap_or file.overview_cpu_scale cli.overview_cpu_scale;
    mem_scale = unwrap_or file.overview_mem_scale cli.overview_mem_scale;
    mem_cap = mem_cap;
  };
  hosts = hosts;
}

-- The checks behind the hosts.
abbrev pub checked :
    FileConfig → Cli → List HostConfig → Result ConfigError ℕ → Result ConfigError AppConfig
unfolding merged
checked file cli hosts (err e) = err e
checked file cli hosts (ok mem_cap) =
    if ltb mem_cap (2 * overview_mem_floor)
    then err mem_cap_too_small
    else if is_blank (or_else file.api_token cli.api_token)
    then err empty_api_token
    else ok (merged file cli mem_cap hosts)

abbrev pub unless_error :
    Option ConfigError → Result ConfigError AppConfig → Result ConfigError AppConfig
unless_error none r = r
unless_error (some e) r = err e

unfoldable pub resolve : Option Text → FileConfig → Cli → Result ConfigError AppConfig
unfolding merged mem_cap_of validate_hosts trim
resolve docker_host file cli =
    let hosts = configured_hosts docker_host cli file.host in
    unless_error (validate_hosts hosts)
      (checked file cli hosts (mem_cap_of file.overview_mem_cap cli.overview_mem_cap))

unfoldable pub load : Option Text → ConfigFile → Cli → Result ConfigError AppConfig
unfolding resolve
load docker_host no_path cli = resolve docker_host default_file cli
load docker_host unreadable_file cli = err unreadable
load docker_host malformed_file cli = err malformed
load docker_host (contents file) cli = resolve docker_host file cli
