-- ===== src/Store/Secret.antt =====
-- src/store.rs: the secret that signs the sessions, in the table `meta`.
-- The random bytes of `generate_secret` are an input.
use dockdoe.Prelude.{Option, none, some, List, text_eq, Text, text, lookup, insert, ℕ}

abbrev pub secret_key : Text
secret_key = text "session_secret"

abbrev pub stored_secret :
    List ℕ → List (Text × List ℕ) → Option (List ℕ) → List ℕ × List (Text × List ℕ)
stored_secret generated meta (some secret) = (secret, meta)
stored_secret generated meta none = (generated, insert secret_key generated meta)

unfoldable pub session_secret : List ℕ → List (Text × List ℕ) → List ℕ × List (Text × List ℕ)
session_secret generated meta = stored_secret generated meta (lookup secret_key meta)
