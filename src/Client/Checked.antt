-- ===== src/Client/Checked.antt =====
-- Which gateway a client (外置策略API/qmt_local_api/client.py) is connected to, in a run.
use qmt_python_tcp.Prelude.{
  ℕ, String, ◌≡◌, refl, sym, ◌∙◌, Bool, true, false, List, [], ◌∷◌, ◌++◌, ◌=t=◌, if◌then◌else◌,
  ◌==◌, arith, eq_iff,
}
use qmt_python_tcp.Client.Dispatcher.{dispatch_now}
use qmt_python_tcp.Client.Delivery.{disconnect, poll}
use qmt_python_tcp.Client.Connect.{protocol_version, mismatches}
use qmt_python_tcp.Client.Runs.{
  System, finish_item, Step, polled, taken, finished, stopped, arranged, asked, answered,
  disconnected, connected, Reach, here, after,
}
use qmt_python_tcp.Client.Identity.{
  unchanged, poll-IsTame, finish-IsTame, disconnect-IsTame, IsChecked, tame-IsChecked,
  connect-IsChecked,
}

Step-IsChecked : {s s' : System} → Step s s' → IsChecked s.client → IsChecked s'.client
Step-IsChecked (polled c current handled takes message) h =
    tame-IsChecked c (poll takes message c) (poll-IsTame takes message c) h
Step-IsChecked (taken c handled running) h = h
Step-IsChecked (finished c handled takes raises message completion) h =
    let result = dispatch_now raises message c.dispatcher in
    tame-IsChecked c (finish_item takes completion result c)
      (finish-IsTame takes completion result c) h
Step-IsChecked (stopped c handled) h = h
Step-IsChecked (arranged c current handled d how) h = h
Step-IsChecked (asked c current handled msg_id b e) h = h
Step-IsChecked (answered c current handled msg_id) h = h
Step-IsChecked (disconnected c current handled) h =
    tame-IsChecked c (disconnect c) (disconnect-IsTame c c (unchanged c c refl refl refl)) h
Step-IsChecked (connected c current handled accepted handshake) h =
    connect-IsChecked c accepted handshake (mismatches c.config handshake) refl

Reach-IsChecked : {first s : System} → IsChecked first.client → Reach first s → IsChecked s.client
Reach-IsChecked h here = h
Reach-IsChecked h (after reach step) = Step-IsChecked step (Reach-IsChecked h reach)

both_empty : (xs ys : List String) → xs ++ ys ≡ [] → (xs ≡ []) × (ys ≡ [])
both_empty [] ys e = (refl, e)
both_empty (x ∷ xs) ys e = absurd cc

field_agrees : (b : Bool) (name : String) → (if b then [] else name ∷ []) ≡ [] → b ≡ true
field_agrees true name e = refl
field_agrees false name e = absurd cc

same_number : (a b : ℕ) → (a == b) ≡ true → a ≡ b
same_number a b e = ground arith

-- In every run from a client that is not connected: while it is connected, the last handshake named
-- this protocol version, the expected build and the configured account.
pub connected_means_identified :
    {first s : System}
    → first.client.connected ≡ false
    → Reach first s
    → s.client.connected ≡ true
    → (s.client.last_handshake_response.protocol_version ≡ protocol_version)
      × (s.client.last_handshake_response.build_id ≡ s.client.config.expected_gateway_build_id)
      × (s.client.last_handshake_response.account_id ≡ s.client.config.account_id)
      × (s.client.last_handshake_response.account_name ≡ s.client.config.account_name)
unfolding mismatches
connected_means_identified {first} {s} off reach up =
    let handshake = s.client.last_handshake_response in
    let config = s.client.config in
    let none_differs = Reach-IsChecked (λ on. absurd (let bad = sym off ∙ on in cc)) reach up in
    let same_version = handshake.protocol_version == protocol_version in
    let same_build = handshake.build_id =t= config.expected_gateway_build_id in
    let same_account = handshake.account_id =t= config.account_id in
    let same_name = handshake.account_name =t= config.account_name in
    let versions : List String = if same_version then [] else "protocol_version" ∷ [] in
    let builds : List String = if same_build then [] else "build_id" ∷ [] in
    let accounts : List String = if same_account then [] else "account_id" ∷ [] in
    let names : List String = if same_name then [] else "account_name" ∷ [] in
    let (in_accounts, name) = both_empty ((versions ++ builds) ++ accounts) names none_differs in
    let (in_builds, account) = both_empty (versions ++ builds) accounts in_accounts in
    let (version, build) = both_empty versions builds in_builds in
    (
      same_number _ _ (field_agrees same_version "protocol_version" version),
      (eq_iff _ _).0 (field_agrees same_build "build_id" build),
      (eq_iff _ _).0 (field_agrees same_account "account_id" account),
      (eq_iff _ _).0 (field_agrees same_name "account_name" name),
    )
