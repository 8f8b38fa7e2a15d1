-- ===== src/Web/History/Tests.antt =====
-- A request over a small database, and the bound of its answer.
use dockdoe.Prelude.{ℕ, arith, none, some, List, [], ◌∷◌, Text, text, text_eq}
use dockdoe.Float.Naturals.{nat_float}
use dockdoe.Model.{ContainerMetrics, running, HealthState}
use dockdoe.Store.Tables.{Db}
use dockdoe.Store.Raw.{insert_samples}
use dockdoe.Store.Naturals.{nat_engine}
use dockdoe.Web.History.{HistoryQuery}
use dockdoe.Web.History.Queries.{HostRuntime, docker, container_response, stack_response}
use dockdoe.Web.History.Limits.{InRange, IsLimited, responses-IsLimited}

abbrev container : ContainerMetrics ℕ
container = record {
  id = text "a";
  name = text "web";
  image = text "nginx";
  state = running;
  status = text "Up";
  health = HealthState.none;
  stack = none;
  cpu_percent = some 5;
  mem_used = some 7;
  mem_limit = none;
  net_rx_bps = none;
  net_tx_bps = none;
  disk_read_bps = none;
  disk_write_bps = none;
  ports = [];
}

abbrev db : Db ℕ
db = record {
  samples =
      insert_samples (text "h") 7000 (container ∷ [])
        (insert_samples (text "h") 4000 (container ∷ []) []);
  trends = [];
  meta = [];
}

abbrev hosts : List (Text × HostRuntime Text ℕ)
hosts = (text "h", record { source = docker; shared = none }) ∷ []

abbrev query : HistoryQuery
query = record { range = none; since_ms = some 1000; until_ms = some 9000 }

query-InRange : InRange query
query-InRange = omega arith

responses-IsLimited_example :
    IsLimited
      (container_response nat_float nat_engine 9500 3600 hosts (text "h") (text "a") query db)
    × IsLimited (stack_response nat_float nat_engine 9500 3600 hosts (text "h") (text "a") query db)
responses-IsLimited_example =
    responses-IsLimited nat_float nat_engine 9500 3600 query (omega arith) query-InRange hosts
      (text "h") (text "a") db
