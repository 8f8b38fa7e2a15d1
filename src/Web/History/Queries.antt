-- ===== src/Web/History/Queries.antt =====
-- src/web.rs: the handlers behind the charts. A host of Docker is answered from the store, one behind
-- a node by that node, whose response is an input; so are the clock and the shared snapshots.
use dockdoe.Prelude.{
  ℕ, ◌-◌, Option, none, some, List, [], if◌then◌else◌, ◌==◌, text_eq, Text, lookup, find_first,
}
use dockdoe.Float.{Float}
use dockdoe.Model.{ContainerMetrics, Dashboard}
use dockdoe.Store.Tables.{Db, MetricPoint, HistoryPoint}
use dockdoe.Store.Raw.{recent_container_samples}
use dockdoe.Store.History.{
  Engine, history_container_raw, history_container, history_stack, container_name,
  recent_stack_trends,
}
use dockdoe.Web.History.{
  HistoryQuery, HistoryWindow, clamp_since, resolve_history, raw_group_for_window,
}

module _ (A : Type 0) where
  -- `node` carries what `proxy_get` answers.
  pub data Source : Type 0 where
    docker : Source
    node : A → Source

  pub record HostRuntime (F : Type 0) : Type 0 where
    pub source : Source
    pub shared : Option (Dashboard F)

  pub data Response (P : Type 0) : Type 0 where
    points : List P → Response P
    invalid_range : Response P
    proxied : A → Response P

-- A failure is logged and shown as an empty series.
abbrev pub fetch_points {ℓ} : {T : Type ℓ} → Option (List T) → List T
fetch_points none = []
fetch_points (some ps) = ps

module _ {A : Type 0} where
  abbrev pub node_answer : Source A → Option A
  node_answer docker = none
  node_answer (node answer) = some answer

  -- A host that is not configured goes on to the store, as one of Docker does.
  abbrev pub at_source : {F : Type 0} → Option (HostRuntime A F) → Option A
  at_source none = none
  at_source (some rt) = node_answer rt.source

  abbrev pub proxied_or : {P : Type 0} → Option A → Response A P → Response A P
  proxied_or none local = local
  proxied_or (some answer) local = proxied answer

module _ {F : Type 0} where
  abbrev pub name_in : Option (ContainerMetrics F) → Option Text
  name_in none = none
  name_in (some c) = some c.name

  abbrev pub name_within : Text → Option (Dashboard F) → Option Text
  name_within id none = none
  name_within id (some d) =
      name_in (find_first (λ (c : ContainerMetrics F). c.id == id) d.containers)

  -- `current_snapshot`, and the container with that id in it.
  abbrev pub snapshot_name : {A : Type 0} → Text → Option (HostRuntime A F) → Option Text
  snapshot_name id none = none
  snapshot_name id (some rt) = name_within id rt.shared

module _ (M : Float) (E : Engine M.F) where
  -- The name that the trends are queried by, with the history under it.
  abbrev pub history_of_name : Text → HistoryWindow → Db M.F → Option Text → List (HistoryPoint M.F)
  history_of_name host w db none = []
  history_of_name host w db (some name) =
      history_container M E host name w.since w.until w.group_ms db.trends

  abbrev pub name_or : Option Text → Option Text → Option Text
  name_or (some name) stored = some name
  name_or none stored = stored

  abbrev pub container_points :
      Text → Text → Option Text → Db M.F → HistoryWindow → List (HistoryPoint M.F)
  container_points host id name db w =
      if w.raw
      then history_container_raw M E host id w.since w.until
          (raw_group_for_window (w.until - w.since)) db.samples
      else history_of_name host w db (name_or name (container_name host id db.trends))

  abbrev pub answered :
      {A : Type 0}
      → (HistoryWindow → List (HistoryPoint M.F))
      → Option HistoryWindow
      → Response A (HistoryPoint M.F)
  answered query none = invalid_range
  answered query (some w) = points (query w)

  -- The handler `history_container`.
  unfoldable pub container_response :
      {A : Type 0}
      → ℕ
      → ℕ
      → List (Text × HostRuntime A M.F)
      → Text
      → Text
      → HistoryQuery
      → Db M.F
      → Response A (HistoryPoint M.F)
  container_response now seed_window hosts host id q db =
      let rt = lookup host hosts in
      proxied_or (at_source rt) (
        answered (container_points host id (snapshot_name id rt) db)
          (resolve_history now q seed_window))

  -- The handler `history_stack`.
  unfoldable pub stack_response :
      {A : Type 0}
      → ℕ
      → ℕ
      → List (Text × HostRuntime A M.F)
      → Text
      → Text
      → HistoryQuery
      → Db M.F
      → Response A (HistoryPoint M.F)
  stack_response now seed_window hosts host name q db = proxied_or (at_source (lookup host hosts)) (
      answered (λ w. history_stack M E host name w.since w.until w.group_ms db.trends)
        (resolve_history now q seed_window))

  -- The handlers `metrics_container` and `metrics_stack`.
  unfoldable pub metrics_container :
      {A : Type 0}
      → ℕ
      → ℕ
      → List (Text × HostRuntime A M.F)
      → Text
      → Text
      → ℕ
      → Db M.F
      → Response A (MetricPoint M.F)
  metrics_container now seed_window hosts host id since_ms db =
      let since = clamp_since now since_ms seed_window in
      proxied_or (at_source (lookup host hosts))
        (points (fetch_points (recent_container_samples host id since db.samples)))

  unfoldable pub metrics_stack :
      {A : Type 0}
      → ℕ
      → ℕ
      → List (Text × HostRuntime A M.F)
      → Text
      → Text
      → ℕ
      → Db M.F
      → Response A (MetricPoint M.F)
  metrics_stack now seed_window hosts host name since_ms db =
      let since = clamp_since now since_ms seed_window in
      proxied_or (at_source (lookup host hosts))
        (points (recent_stack_trends M E host name since db.trends))
