-- ===== src/Federation/Node.antt =====
-- src/federation.rs: the client of one node, and the loop that mirrors it. What the HTTP client and
-- the JSON decoder answer are inputs: a record of answers for each round, and the function `decode`.
use dockdoe.Prelude.{
  ℕ, Bool, true, false, not, Option, none, some, List, [], ◌∷◌, ◌++◌, ◌&&◌, if◌then◌else◌, ◌==◌,
  nat_eq, leb, ltb, Text, text, text_eq, find_first,
}
use dockdoe.Model.{Dashboard, Snapshot, HostEntry}
use dockdoe.Federation.Sse.{push}
pub mod Following
mod Tests

pub data NodeError : Type 0 where
  unreachable bad_payload : NodeError
  rejected_token login_redirect : NodeError
  answered : ℕ → NodeError
  no_such_host no_hosts several_hosts : NodeError

pub data Result {ℓ} (A : Type ℓ) : Type ℓ where
  ok : A → Result A
  err : NodeError → Result A

abbrev pub is_success : ℕ → Bool
is_success status = leb 200 status && ltb status 300

unfoldable pub check_status : ℕ → Result (Unit {0})
check_status status =
    if is_success status
    then ok tt
    else if status == 401
    then err rejected_token
    else if status == 303
    then err login_redirect
    else err (answered status)

unfoldable pub pick_only : List HostEntry → Result HostEntry
pick_only [] = err no_hosts
pick_only (only ∷ []) = ok only
pick_only (_ ∷ _ ∷ _) = err several_hosts

abbrev pub found_or : Option HostEntry → Result HostEntry
found_or none = err no_such_host
found_or (some h) = ok h

unfoldable pub pick_host : List HostEntry → Option Text → Result HostEntry
unfolding pick_only
pick_host hosts none = pick_only hosts
pick_host hosts (some want) = found_or (find_first (λ (h : HostEntry). h.name == want) hosts)

-- An HTTP request fails, or is answered by a status and a body; `none` is a body that cannot be decoded.
pub data Answer {ℓ} (A : Type ℓ) : Type ℓ where
  failed : Answer A
  replied : (status : ℕ) → Option A → Answer A

abbrev pub body_or_bad {ℓ} : {A : Type ℓ} → Option A → Result A
body_or_bad none = err bad_payload
body_or_bad (some a) = ok a

abbrev pub after_check {ℓ κ} : {A : Type ℓ} {B : Type κ} → Result A → Result B → Result B
after_check (ok _) k = k
after_check (err e) k = err e

-- `get_json`.
unfoldable pub get_json {ℓ} : {A : Type ℓ} → Answer A → Result A
unfolding check_status
get_json failed = err unreachable
get_json (replied status body) = after_check (check_status status) (body_or_bad body)

unfoldable pub resolve_node_host : Answer (List HostEntry) → Option Text → Result HostEntry
unfolding get_json pick_host
resolve_node_host listing configured = elim (get_json listing) [
  | ok hosts ↦ pick_host hosts configured
  | err e ↦ err e
]

abbrev pub some_ok {ℓ} : {A : Type ℓ} → Result A → Result (Option A)
some_ok (ok a) = ok (some a)
some_ok (err e) = err e

-- `snapshot`: a node that warms up answers 503.
unfoldable pub snapshot_answer {ℓ} : {A : Type ℓ} → Answer A → Result (Option A)
unfolding get_json
snapshot_answer failed = err unreachable
snapshot_answer (replied status body) =
    if status == 503 then ok none else some_ok (get_json (replied status body))

-- What opening the event stream gives: no answer, a status that is no success, or the chunks that
-- arrive until the stream stalls, closes or fails.
pub data Stream : Type 0 where
  no_connection : Stream
  refused : (status : ℕ) → Stream
  session : List (List ℕ) → Stream

pub data StreamEnd : Type 0 where
  unsupported disconnected : StreamEnd

module _ (F : Type 0) where
  -- One round of the loop: the node's answers, in the order in which they are asked for.
  pub record Round : Type 0 where
    pub listing : Answer (List HostEntry)
    pub stream : Stream
    pub polled : Answer (Snapshot F)

  -- What the loop and the web layer share.
  pub record Mirror : Type 0 where
    pub node_host : Option Text
    pub streaming : Bool
    pub shared : Option (Dashboard F)
    pub read_only : Bool

module _ {F : Type 0} (decode : Text → Option (Snapshot F)) where
  unfoldable pub store_snapshot : Snapshot F → Mirror F → Mirror F
  store_snapshot snap m = record m { read_only = snap.read_only; shared = some snap.dashboard }

  abbrev pub store_decoded : Option (Snapshot F) → Mirror F → Mirror F
  store_decoded none m = m
  store_decoded (some snap) m = store_snapshot snap m

  unfoldable pub handle_events : List (Text × Text) → Mirror F → Mirror F
  unfolding store_snapshot
  handle_events [] m = m
  handle_events ((event, payload) ∷ events) m =
      handle_events events
        (if event == text "snapshot" then store_decoded (decode payload) m else m)

  unfoldable pub consume_chunks : Text → List (List ℕ) → Mirror F → Mirror F
  unfolding handle_events
  consume_chunks buf [] m = m
  consume_chunks buf (chunk ∷ chunks) m =
      let (events, left) = push buf chunk in consume_chunks left chunks (handle_events events m)

  unfoldable pub consume_stream : Stream → Mirror F → Mirror F × StreamEnd
  unfolding consume_chunks
  consume_stream no_connection m = (m, disconnected)
  consume_stream (refused status) m = if status == 404 then (m, unsupported) else (m, disconnected)
  consume_stream (session chunks) m = (consume_chunks [] chunks m, disconnected)

  abbrev pub store_answer : Result (Option (Snapshot F)) → Mirror F → Mirror F
  store_answer (ok found) m = store_decoded found m
  store_answer (err _) m = m

  unfoldable pub poll : Answer (Snapshot F) → Mirror F → Mirror F
  unfolding snapshot_answer store_snapshot
  poll answer m = store_answer (snapshot_answer answer) m

  abbrev pub poll_unless : StreamEnd → Answer (Snapshot F) → Mirror F → Mirror F
  poll_unless disconnected polled m = m
  poll_unless unsupported polled m = poll polled (record m { streaming = false })

  -- The part of a round behind the resolved host.
  unfoldable pub follow_node : Round F → Mirror F → Mirror F
  unfolding consume_stream poll
  follow_node r m =
      if m.streaming
      then (let (m', end) = consume_stream r.stream m in poll_unless end r.polled m')
      else poll r.polled m

  -- A round that cannot resolve the host only waits.
  abbrev pub follow_resolved : Result HostEntry → Round F → Mirror F → Mirror F
  follow_resolved (ok entry) r m = follow_node r (record m { node_host = some entry.name })
  follow_resolved (err _) r m = m

  abbrev pub round_at : Option Text → Option Text → Round F → Mirror F → Mirror F
  round_at (some _) configured r m = follow_node r m
  round_at none configured r m = follow_resolved (resolve_node_host r.listing configured) r m

  unfoldable pub round : Option Text → Round F → Mirror F → Mirror F
  unfolding follow_node resolve_node_host
  round configured r m = round_at m.node_host configured r m

  unfoldable pub run : Option Text → List (Round F) → Mirror F → Mirror F
  unfolding round
  run configured [] m = m
  run configured (r ∷ rs) m = run configured rs (round configured r m)
