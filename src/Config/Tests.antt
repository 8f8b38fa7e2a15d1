-- ===== src/Config/Tests.antt =====
-- The sizes and hosts of the source's tests, and the theorems at them.
use dockdoe.Prelude.{
  ◌≡◌, ◌≢◌, ◌↔◌, refl, false, Option, none, some, List, [], ◌∷◌, All, Text, text, u64_max,
  parse_unsigned,
}
use dockdoe.Config.{
  HostConfig, ScaleMode, ok, err, overflows, duplicate_name, parse_size, size_digits, size_unit,
  effective_interval_secs, validate_hosts,
}
use dockdoe.Config.Size.{size_of, unit_bytes, parse_size-exact}
use dockdoe.Config.Hosts.{IsValid, AreFresh, validate_hosts_iff}
use dockdoe.Config.Load.{Cli, contents, default_file, load, merged}
use dockdoe.Config.Loaded.{IsSound, load-IsSound}

abbrev host : Text → Option Text → Option Text → HostConfig
host name docker dockdoe = record {
  name = name;
  docker = docker;
  dockdoe = dockdoe;
  token = none;
  node_host = none;
  public_host = none;
  interval_secs = none;
  tls_ca = none;
  tls_insecure = false;
}

abbrev hosts : List HostConfig
hosts =
    host (text "local") (some (text "unix:///var/run/docker.sock")) none
    ∷ host (text "nas.lan") none (some (text "http://nas:8080"))
    ∷ []

size_64g : parse_size (text " 64 GiB ") ≡ ok 68719476736
unfolding parse_size
size_64g = refl

size_overflow : parse_size (text "16777216T") ≡ err overflows
unfolding parse_size
size_overflow = refl

twice :
    validate_hosts (
      host (text "a") (some (text "tcp://x:1")) none
      ∷ host (text "a") (some (text "tcp://y:1")) none
      ∷ [])
    ≡ some (duplicate_name (text "a"))
unfolding validate_hosts
twice = refl

remote_interval :
    effective_interval_secs (host (text "a") (some (text "tcp://x:1")) none) 3 ≡ some 10
unfolding effective_interval_secs
remote_interval = refl

local_interval : effective_interval_secs (host (text "a") (some (text "UNIX:///x")) none) 3 ≡ some 3
unfolding effective_interval_secs
local_interval = refl

parse_size-exact_example :
    parse_size (text "12K")
    ≡ size_of
        (parse_unsigned u64_max (size_digits (text "12K")))
        (unit_bytes (size_unit (text "12K")))
parse_size-exact_example = parse_size-exact (text "12K")

validate_hosts_iff_example :
    (validate_hosts hosts ≡ none) ↔ ((hosts ≢ []) × All IsValid hosts × AreFresh [] hosts)
validate_hosts_iff_example = validate_hosts_iff hosts

abbrev cli : Cli
cli = record {
  bind = text "127.0.0.1:8080";
  db_path = text "dockdoe.sqlite";
  interval_secs = 3;
  raw_retention_secs = 3600;
  trend_bucket_secs = 60;
  trend_retention_secs = 2592000;
  prune_interval_secs = 3600;
  allowed_hosts = [];
  apprise_url = none;
  notify_delay_secs = 30;
  auth_user = none;
  auth_password = none;
  cookie_secure = false;
  api_token = some (text "t");
  port_host = none;
  overview_cpu_scale = ScaleMode.log;
  overview_mem_scale = ScaleMode.log;
  overview_mem_cap = 68719476736;
  log = text "info";
}

load-IsSound_example : IsSound (merged (record default_file { host = hosts }) cli 68719476736 hosts)
unfolding load
load-IsSound_example =
    load-IsSound none (contents (record default_file { host = hosts })) cli
      (merged (record default_file { host = hosts }) cli 68719476736 hosts) refl
