-- ===== src/Config/Loaded.antt =====
-- src/config.rs: what holds of every configuration that `load` returns.
use dockdoe.Prelude.{
  ℕ, ◌*◌, ◌≤◌, ◌≡◌, ◌≢◌, subst, arith, false, Option, some, List, [], ltb, Text, trim, All,
  Bool-cases, Option-cases, inl, inr,
}
use dockdoe.Config.{
  ConfigError, mem_cap_too_small, empty_api_token, Result, ok, err, HostConfig, or_else, is_blank,
  validate_hosts,
}
use dockdoe.Config.Hosts.{IsValid, AreFresh, validate_hosts_iff, is_blank-false}
use dockdoe.Config.Load.{
  AppConfig, Cli, FileConfig, ConfigFile, no_path, unreadable_file, malformed_file, contents,
  default_file, overview_mem_floor, configured_hosts, checked, merged, mem_cap_of, resolve, load,
}

unfoldable pub IsSound : AppConfig → Type 0
IsSound config =
    (config.hosts ≢ [])
    × All IsValid config.hosts
    × AreFresh [] config.hosts
    × (2 * overview_mem_floor ≤ config.overview.mem_cap)
    × ((t : Text) → config.api_token ≡ some t → trim t ≢ [])

err-ok :
    (e : ConfigError) (config : AppConfig)
    → ◌≢◌ {A = Result ConfigError AppConfig} (err e) (ok config)
err-ok e config = λ h. cc

ok-injective : (a b : AppConfig) → ◌≡◌ {A = Result ConfigError AppConfig} (ok a) (ok b) → a ≡ b
ok-injective a b h = cc

ltb→ge : (n : ℕ) → ltb n (2 * overview_mem_floor) ≡ false → 2 * overview_mem_floor ≤ n
ltb→ge n h = ground arith

checked-IsSound :
    (file : FileConfig) (cli : Cli) (hosts : List HostConfig) (mem_cap : Result ConfigError ℕ)
    (config : AppConfig)
    → (hosts ≢ []) × All IsValid hosts × AreFresh [] hosts
    → checked file cli hosts mem_cap ≡ ok config
    → IsSound config
unfolding merged IsSound
checked-IsSound file cli hosts (err e) config valid h = cc
checked-IsSound file cli hosts (ok mem_cap) config (nonempty, valid, fresh) h =
    elim (Bool-cases (ltb mem_cap (2 * overview_mem_floor))) [
      | inl e ↦ absurd (err-ok mem_cap_too_small config (rw e at h))
      | inr e ↦ elim (Bool-cases (is_blank (or_else file.api_token cli.api_token))) [
        | inl f ↦ absurd (err-ok empty_api_token config (rw (e, f) at h))
        | inr f ↦
            let same = ok-injective (merged file cli mem_cap hosts) config (rw (e, f) at h) in
            subst IsSound same (
              nonempty,
              valid,
              fresh,
              ltb→ge mem_cap e,
              is_blank-false (or_else file.api_token cli.api_token) f,
            )
      ]
    ]

resolve-IsSound :
    (docker_host : Option Text) (file : FileConfig) (cli : Cli) (config : AppConfig)
    → resolve docker_host file cli ≡ ok config
    → IsSound config
unfolding resolve
resolve-IsSound docker_host file cli config h =
    let hosts = configured_hosts docker_host cli file.host in
    elim (Option-cases (validate_hosts hosts)) [
      | inl e ↦
          checked-IsSound file cli hosts (mem_cap_of file.overview_mem_cap cli.overview_mem_cap)
            config ((validate_hosts_iff hosts).0 e) (rw e at h)
      | inr (e, f) ↦ absurd (err-ok e config (rw f at h))
    ]

-- A configuration that is returned has valid hosts with distinct names, at least one, a memory cap of
-- at least 32 MiB, and no blank API token, from the file or from the flags alike.
pub load-IsSound :
    (docker_host : Option Text) (file : ConfigFile) (cli : Cli) (config : AppConfig)
    → load docker_host file cli ≡ ok config
    → IsSound config
unfolding load
load-IsSound docker_host no_path cli config h =
    resolve-IsSound docker_host default_file cli config h
load-IsSound docker_host unreadable_file cli config h = cc
load-IsSound docker_host malformed_file cli config h = cc
load-IsSound docker_host (contents file) cli config h =
    resolve-IsSound docker_host file cli config h
