-- ===== src/Federation/Node/Tests.antt =====
-- The mirror of a node over a few rounds, and the theorems on them.
use dockdoe.Prelude.{
  ℕ, true, false, Bool, Option, none, some, List, [], ◌∷◌, ◌≡◌, refl, Text, text, is_empty,
  if◌then◌else◌,
}
use dockdoe.Model.{Snapshot, HostEntry}
use dockdoe.Federation.Node.{Mirror, Round, session, refused, failed, replied, run}
use dockdoe.Federation.Node.Following.{Keeps, run-Keeps}

abbrev snapshot_of : Bool → Snapshot ℕ
snapshot_of read_only = record {
  version = text "1";
  read_only = read_only;
  dashboard = record { generated_at_unix_ms = 7; cpu_count = 2; containers = [] };
}

abbrev decode : Text → Option (Snapshot ℕ)
decode payload = if is_empty payload then none else some (snapshot_of true)

abbrev start : Mirror ℕ
start = record { node_host = none; streaming = true; shared = none; read_only = false }

abbrev event : List ℕ
event = text "event: snapshot\ndata: {}\n\n"

abbrev listed : List HostEntry
listed = record { name = text "h"; version = text "1" } ∷ []

abbrev rounds : List (Round ℕ)
rounds =
    record { listing = failed; stream = refused 404; polled = failed }
    ∷ record {
      listing = replied 200 (some listed);
      stream = refused 404;
      polled = replied 503 none;
    }
    ∷ record {
      listing = failed;
      stream = session (event ∷ []);
      polled = replied 200 (some (snapshot_of false));
    }
    ∷ record { listing = failed; stream = session []; polled = failed }
    ∷ []

-- The first round finds no host, the second falls back to polling, the last two poll.
falls_back : run decode none rounds start ≡ record {
  node_host = some (text "h");
  streaming = false;
  shared = some ((snapshot_of false).dashboard);
  read_only = false;
}
unfolding run
falls_back = refl

run-Keeps_example : Keeps start (run decode none rounds start)
run-Keeps_example = run-Keeps decode none rounds start
