-- ===== src/Startup/Tests.antt =====
-- Two starts with different passwords, and a login between them.
use dockdoe.Prelude.{
  ℕ, ◌+◌, ◌%◌, ◌<◌, ◌≡◌, refl, arith, false, ltb, none, some, List, [], ◌∷◌, Text, text, split_once,
}
use dockdoe.Auth.{Auth, session_ttl, cookie_name, cookie_value, issue_cookie, token_valid}
use dockdoe.Auth.Hex.{Bytes}
use dockdoe.Config.{linear}
use dockdoe.Config.Load.{AppConfig}
use dockdoe.Startup.{Meta, build_auth, ready}
use dockdoe.Startup.Restart.{build_auth-restart}

abbrev config : Text → AppConfig
config password = record {
  bind = text "0.0.0.0:8080";
  db_path = text "dockdoe.db";
  interval_secs = 3;
  raw_retention_secs = 3600;
  trend_bucket_secs = 60;
  trend_retention_secs = 86400;
  prune_interval_secs = 3600;
  allowed_hosts = [];
  apprise_url = none;
  notify_delay_secs = 30;
  auth_user = some (text "admin");
  auth_password = some password;
  cookie_secure = false;
  api_token = none;
  log = text "info";
  overview = record { cpu_scale = linear; mem_scale = linear; mem_cap = 1 };
  hosts = [];
}

abbrev checksum : ℕ → List ℕ → ℕ
checksum n [] = n % 256
checksum n (b ∷ bs) = checksum (n + b) bs

abbrev mac : List ℕ → List ℕ → List ℕ
mac key message = checksum (checksum 0 message) key ∷ []

checksum-byte : (n : ℕ) (bs : List ℕ) → checksum n bs < 256
checksum-byte n [] = omega arith
checksum-byte n (b ∷ bs) = checksum-byte (n + b) bs

mac-Bytes : (key message : List ℕ) → Bytes (mac key message)
mac-Bytes key message = (checksum-byte (checksum 0 message) key, tt)

abbrev as_bytes : Text → List ℕ
as_bytes s = s

abbrev auth : Text → Auth
auth password = record {
  user = text "admin";
  password = password;
  secret = 1 ∷ 2 ∷ [];
  secure_cookie = false;
}

abbrev stored : Meta
stored = (text "session_secret", 1 ∷ 2 ∷ []) ∷ []

first_start :
    build_auth as_bytes (config (text "a")) (1 ∷ 2 ∷ []) [] ≡ ready (some (auth (text "a"))) stored
unfolding build_auth
first_start = refl

second_start :
    build_auth as_bytes (config (text "b")) (3 ∷ []) stored ≡ ready (some (auth (text "b"))) stored
unfolding build_auth
second_start = refl

build_auth-restart_example :
    (stored ≡ stored)
    × (token : Text) × (pair : Text) × (attributes : Text) × (split_once b';'
          (issue_cookie mac (auth (text "a")) 1000)
        ≡ some (pair, attributes))
    × (cookie_value pair cookie_name ≡ some token)
    × (token_valid mac (auth (text "b")) token 2000 ≡ some (ltb 2000 (1000 + session_ttl)))
build_auth-restart_example =
    build_auth-restart mac mac-Bytes as_bytes (config (text "a")) (config (text "b")) (1 ∷ 2 ∷ [])
      (3 ∷ []) [] stored stored (auth (text "a")) (auth (text "b")) 1000 2000 first_start
      second_start (omega arith)
