-- ===== src/Web/Api/Hub.antt =====
-- src/web.rs, src/federation.rs: a hub against the node that it mirrors.
use dockdoe.Prelude.{
  ◌≡◌, ◌≢◌, refl, Bool, Bool-cases, inl, inr, Option, none, some, List, [], ◌∷◌, All, All-In, In,
  here, there, ◌==◌, lookup, text_eq, Text, find_first, subst,
}
use dockdoe.Model.{Dashboard, Snapshot, HostEntry}
use dockdoe.Federation.Node.{
  NodeError, Result, ok, err, replied, pick_only, found_or, pick_host, resolve_node_host,
  snapshot_answer,
}
use dockdoe.Web.Api.{Runtime, api_hosts, current_response, runtime_response, api_snapshot}

err-ok : {A : Type 0} {e : NodeError} {a : A} → ◌≢◌ {A = Result A} (err e) (ok a)
err-ok = λ h. cc

ok-injective : {A : Type 0} {a b : A} → ◌≡◌ {A = Result A} (ok a) (ok b) → a ≡ b
ok-injective h = cc

pick_only-In :
    (version : Text) (order : List Text) (entry : HostEntry)
    → pick_only (api_hosts version order) ≡ ok entry
    → In entry.name order
unfolding pick_only api_hosts
pick_only-In version [] entry h = absurd (err-ok h)
pick_only-In version (only ∷ []) entry h =
    subst (λ (e : HostEntry). In e.name (only ∷ [])) (ok-injective h) here
pick_only-In version (a ∷ b ∷ order) entry h = absurd (err-ok h)

found-In :
    (version want : Text) (order : List Text) (entry : HostEntry)
    → found_or (find_first (λ (h : HostEntry). h.name == want) (api_hosts version order)) ≡ ok entry
    → In entry.name order
unfolding api_hosts
found-In version want [] entry h = absurd (err-ok h)
found-In version want (name ∷ order) entry h = elim (Bool-cases (name == want)) [
  | inl e ↦ subst (λ (e : HostEntry). In e.name (name ∷ order)) (ok-injective (rw e at h)) here
  | inr e ↦ there (found-In version want order entry (rw e at h))
]

pick_host-In :
    (version : Text) (order : List Text) (configured : Option Text) (entry : HostEntry)
    → pick_host (api_hosts version order) configured ≡ ok entry
    → In entry.name order
unfolding pick_host
pick_host-In version order none entry h = pick_only-In version order entry h
pick_host-In version order (some want) entry h = found-In version want order entry h

module _ {F : Type 0} where
  abbrev pub snapshot_of : Text → Bool → Option (Dashboard F) → Option (Snapshot F)
  snapshot_of version read_only none = none
  snapshot_of version read_only (some dashboard) =
      some (record { version = version; read_only = read_only; dashboard = dashboard })

  -- What the node has of a host.
  abbrev pub latest_of : Text → Option (Runtime F) → Option (Snapshot F)
  latest_of version none = none
  latest_of version (some rt) = snapshot_of version rt.read_only rt.shared

  current-answer :
      (version : Text) (read_only : Bool) (shared : Option (Dashboard F))
      → snapshot_answer (current_response version read_only shared)
        ≡ ok (snapshot_of version read_only shared)
  unfolding snapshot_answer
  current-answer version read_only none = refl
  current-answer version read_only (some dashboard) = refl

  runtime-answer :
      (version : Text) (o : Option (Runtime F))
      → o ≢ none
      → snapshot_answer (runtime_response version o) ≡ ok (latest_of version o)
  runtime-answer version none h = absurd (h refl)
  runtime-answer version (some rt) h = current-answer version rt.read_only rt.shared

  -- The host that a hub resolves from a node's own list is one that the node serves: a request for its
  -- snapshot is answered with the latest snapshot of that host, or with none before the first, and
  -- never with an error, if the node has a runtime for each host of its list.
  pub resolve_node_host-serves :
      (version : Text) (order : List Text) (hosts : List (Text × Runtime F))
      (configured : Option Text) (entry : HostEntry)
      → All (λ name. lookup name hosts ≢ none) order
      → resolve_node_host (replied 200 (some (api_hosts version order))) configured ≡ ok entry
      → In entry.name order
        × (snapshot_answer (api_snapshot version hosts entry.name)
            ≡ ok (latest_of version (lookup entry.name hosts)))
  unfolding resolve_node_host api_snapshot
  resolve_node_host-serves version order hosts configured entry known h =
      let listed = pick_host-In version order configured entry h in
      (
        listed,
        runtime-answer version (lookup entry.name hosts)
            (All-In (λ name. lookup name hosts ≢ none) order known listed),
      )
