-- ===== src/Federation/Node/Following.antt =====
-- src/federation.rs: what the loop that mirrors a node keeps over its rounds.
use dockdoe.Prelude.{
  ℕ, Bool, true, false, Bool-cases, Option, none, some, List, [], ◌∷◌, ◌++◌, ◌≡◌, refl, sym, ◌∙◌,
  Text, text, text_eq, ◌==◌, nat_eq, ap, if◌then◌else◌, inl, inr,
}
use dockdoe.Model.{Snapshot, HostEntry}
use dockdoe.Federation.Utf8.{open_after}
use dockdoe.Federation.Sse.{push}
use dockdoe.Federation.Sse.Chunks.{push-append}
use dockdoe.Federation.Node.{
  Mirror, Round, Stream, StreamEnd, no_connection, refused, session, unsupported, disconnected,
  Answer, Result, ok, err, store_snapshot, store_decoded, store_answer, poll_unless,
  follow_resolved, round_at, handle_events, consume_chunks, consume_stream, poll, follow_node,
  round, run, snapshot_answer, resolve_node_host,
}

module _ {F : Type 0} where
  -- The mirror shows exactly one snapshot of the node.
  unfoldable pub Shows : Snapshot F → Mirror F → Type 0
  Shows snap m = (m.shared ≡ some snap.dashboard) × (m.read_only ≡ snap.read_only)

  -- What one mirror passes on to a later one: the resolved host, the fallback to polling, and that
  -- some snapshot is shown.
  pub record Keeps (m m' : Mirror F) : Type 0 where
    pub host : (h : Text) → m.node_host ≡ some h → m'.node_host ≡ some h
    pub fallback : m.streaming ≡ false → m'.streaming ≡ false
    pub shown : ((snap : Snapshot F) × Shows snap m) → (snap : Snapshot F) × Shows snap m'

  Keeps-refl : (m : Mirror F) → Keeps m m
  Keeps-refl m = record { host = λ h e. e; fallback = λ e. e; shown = λ s. s }

  Keeps-trans : {a b c : Mirror F} → Keeps a b → Keeps b c → Keeps a c
  Keeps-trans k l = record {
    host = λ h e. l.host h (k.host h e);
    fallback = λ e. l.fallback (k.fallback e);
    shown = λ s. l.shown (k.shown s);
  }

  Keeps-stop_streaming : (m : Mirror F) → Keeps m (record m { streaming = false })
  unfolding Shows
  Keeps-stop_streaming m = record { host = λ h e. e; fallback = λ e. refl; shown = λ s. s }

module _ {F : Type 0} (decode : Text → Option (Snapshot F)) where
  Keeps-store_snapshot : (snap : Snapshot F) (m : Mirror F) → Keeps m (store_snapshot decode snap m)
  unfolding Shows store_snapshot
  Keeps-store_snapshot snap m = record {
    host = λ h e. e;
    fallback = λ e. e;
    shown = λ _. (snap, (refl, refl));
  }

  Keeps-store_decoded :
      (d : Option (Snapshot F)) (m : Mirror F) → Keeps m (store_decoded decode d m)
  Keeps-store_decoded none m = Keeps-refl m
  Keeps-store_decoded (some snap) m = Keeps-store_snapshot snap m

  Keeps-test :
      (b : Bool) (d : Option (Snapshot F)) (m : Mirror F)
      → Keeps m (if b then store_decoded decode d m else m)
  Keeps-test true d m = Keeps-store_decoded d m
  Keeps-test false d m = Keeps-refl m

  Keeps-handle_events :
      (events : List (Text × Text)) (m : Mirror F) → Keeps m (handle_events decode events m)
  unfolding handle_events
  Keeps-handle_events [] m = Keeps-refl m
  Keeps-handle_events ((event, payload) ∷ events) m =
      Keeps-trans (Keeps-test (event == text "snapshot") (decode payload) m) (
        Keeps-handle_events events
          (if event == text "snapshot" then store_decoded decode (decode payload) m else m))

  Keeps-consume_chunks :
      (buf : Text) (chunks : List (List ℕ)) (m : Mirror F)
      → Keeps m (consume_chunks decode buf chunks m)
  unfolding consume_chunks
  Keeps-consume_chunks buf [] m = Keeps-refl m
  Keeps-consume_chunks buf (chunk ∷ chunks) m =
      Keeps-trans (Keeps-handle_events (push buf chunk).0 m)
        (Keeps-consume_chunks (push buf chunk).1 chunks (handle_events decode (push buf chunk).0 m))

  Keeps-consume_stream : (s : Stream) (m : Mirror F) → Keeps m (consume_stream decode s m).0
  unfolding consume_stream
  Keeps-consume_stream no_connection m = Keeps-refl m
  Keeps-consume_stream (refused status) m = elim (Bool-cases (status == 404)) [
    | inl e ↦ rw e (Keeps-refl m)
    | inr e ↦ rw e (Keeps-refl m)
  ]
  Keeps-consume_stream (session chunks) m = Keeps-consume_chunks [] chunks m

  Keeps-store_answer :
      (r : Result (Option (Snapshot F))) (m : Mirror F) → Keeps m (store_answer decode r m)
  Keeps-store_answer (ok found) m = Keeps-store_decoded found m
  Keeps-store_answer (err _) m = Keeps-refl m

  Keeps-poll : (answer : Answer (Snapshot F)) (m : Mirror F) → Keeps m (poll decode answer m)
  unfolding poll
  Keeps-poll answer m = Keeps-store_answer (snapshot_answer answer) m

  Keeps-poll_unless :
      (end : StreamEnd) (polled : Answer (Snapshot F)) (m : Mirror F)
      → Keeps m (poll_unless decode end polled m)
  Keeps-poll_unless disconnected polled m = Keeps-refl m
  Keeps-poll_unless unsupported polled m =
      Keeps-trans (Keeps-stop_streaming m) (Keeps-poll polled (record m { streaming = false }))

  Keeps-if : (b : Bool) {m x y : Mirror F} → Keeps m x → Keeps m y → Keeps m (if b then x else y)
  Keeps-if true k l = k
  Keeps-if false k l = l

  Keeps-follow_node : (r : Round F) (m : Mirror F) → Keeps m (follow_node decode r m)
  unfolding follow_node
  Keeps-follow_node r m =
      let streamed = consume_stream decode r.stream m in
      Keeps-if m.streaming
        (Keeps-trans (Keeps-consume_stream r.stream m)
          (Keeps-poll_unless streamed.1 r.polled streamed.0))
        (Keeps-poll r.polled m)

  Keeps-resolved :
      (e : HostEntry) (m : Mirror F)
      → m.node_host ≡ none
      → Keeps m (record m { node_host = some e.name })
  unfolding Shows
  Keeps-resolved entry m n = record { host = λ h e. cc; fallback = λ e. e; shown = λ s. s }

  Keeps-follow_resolved :
      (found : Result HostEntry) (r : Round F) (m : Mirror F)
      → m.node_host ≡ none
      → Keeps m (follow_resolved decode found r m)
  Keeps-follow_resolved (ok entry) r m n =
      Keeps-trans (Keeps-resolved entry m n)
        (Keeps-follow_node r (record m { node_host = some entry.name }))
  Keeps-follow_resolved (err _) r m n = Keeps-refl m

  Keeps-round_at :
      (host configured : Option Text) (r : Round F) (m : Mirror F)
      → m.node_host ≡ host
      → Keeps m (round_at decode host configured r m)
  Keeps-round_at (some _) configured r m e = Keeps-follow_node r m
  Keeps-round_at none configured r m e =
      Keeps-follow_resolved (resolve_node_host r.listing configured) r m e

  Keeps-round :
      (configured : Option Text) (r : Round F) (m : Mirror F)
      → Keeps m (round decode configured r m)
  unfolding round
  Keeps-round configured r m = Keeps-round_at m.node_host configured r m refl

  -- Over any number of rounds, whatever the node answers, the resolved host stays, streaming once
  -- given up stays given up, and a mirror that shows a snapshot goes on showing one.
  pub run-Keeps :
      (configured : Option Text) (rs : List (Round F)) (m : Mirror F)
      → Keeps m (run decode configured rs m)
  unfolding run
  run-Keeps configured [] m = Keeps-refl m
  run-Keeps configured (r ∷ rs) m =
      Keeps-trans (Keeps-round configured r m)
        (run-Keeps configured rs (round decode configured r m))

  handle_events-append :
      (a b : List (Text × Text)) (m : Mirror F)
      → handle_events decode (a ++ b) m ≡ handle_events decode b (handle_events decode a m)
  unfolding handle_events
  handle_events-append [] b m = refl
  handle_events-append ((event, payload) ∷ a) b m = handle_events-append a b _

  -- Two chunks of which the first ends with a whole character have the effect of one.
  pub consume_chunks-join :
      (buf : Text) (a b : List ℕ) (chunks : List (List ℕ)) (m : Mirror F)
      → open_after none a ≡ none
      → consume_chunks decode buf (a ∷ b ∷ chunks) m
        ≡ consume_chunks decode buf ((a ++ b) ∷ chunks) m
  unfolding consume_chunks
  consume_chunks-join buf a b chunks m h = sym (
      ap
        (λ (r : List (Text × Text) × Text).
          consume_chunks decode r.1 chunks (handle_events decode r.0 m))
        (push-append buf a b h)
      ∙ ap (consume_chunks decode (push (push buf a).1 b).1 chunks)
          (handle_events-append (push buf a).0 (push (push buf a).1 b).0 m))
