-- ===== src/Sockets/Portfolio.antt =====
-- The portfolio channel of src/websocket/server.ts: who is subscribed to which addresses, and what the
-- subscribers are sent.
use nayft_backend.Common.{
  ℕ, ◌&&◌, not, Bool, false, if◌then◌else◌, List, [], ◌∷◌, ◌++◌, Option, none, some, filter_by, any,
  member,
}
use nayft_backend.Sockets.Hub.{
  Client, Realtime, wallet_event, wallet_status, holdings_delta, Message, realtime,
  portfolio_heartbeat, portfolio_subscribed, portfolio_sync_ready, notification_subscribed, Hub,
  update_clients, send_json, next_portfolio_envelope,
}
use nayft_backend.Common.{add_all}
use nayft_backend.Sockets.Prices.{is_empty}

-- `hasAddressIntersection`.
abbrev pub has_address_intersection : List ℕ → List ℕ → Bool
has_address_intersection subscribed targets = any (λ a. member a subscribed) targets

-- The addresses of a message of the portfolio channel.
abbrev pub target_addresses : {E : Type 0} → Realtime E → List ℕ
target_addresses (wallet_event a e) = a ∷ []
target_addresses (wallet_status a e) = a ∷ []
target_addresses (holdings_delta addresses e) = addresses

abbrev pub with_addresses : List ℕ → Client → Client
with_addresses addresses c = record c { addresses = addresses }

abbrev pub with_user : ℕ → Client → Client
with_user u c = record c { notify_user = some u }

-- A socket that the server starts to close is not open any more.
abbrev pub closing : Client → Client
closing c = record c { is_open = false }

module _ {Q E : Type 0} where
  -- The loop of `broadcastPortfolioMessage` over the sockets.
  unfoldable pub broadcast_to : Message Q E → List ℕ → List Client → List (ℕ × Message Q E)
  broadcast_to m targets [] = []
  broadcast_to m targets (c ∷ clients) =
      let rest = broadcast_to m targets clients in
      if c.is_open && has_address_intersection c.addresses targets then (c.id, m) ∷ rest else rest

  -- `broadcastPortfolioRealtime`.
  unfoldable pub broadcast_portfolio_realtime : Realtime E → Hub Q E → Hub Q E
  unfolding broadcast_to
  broadcast_portfolio_realtime r h =
      let (h', seq) = next_portfolio_envelope h in
      record h' { sent = h.sent ++ broadcast_to (realtime seq r) (target_addresses r) h.clients }

  unfoldable pub heartbeat_to : ℕ → List Client → List (ℕ × Message Q E)
  heartbeat_to seq [] = []
  heartbeat_to seq (c ∷ clients) =
      let rest = heartbeat_to seq clients in
      if c.is_open && not (is_empty c.addresses)
      then (c.id, portfolio_heartbeat seq) ∷ rest
      else rest

  -- The timer of `startPortfolioHeartbeat`.
  unfoldable pub send_portfolio_heartbeat : Hub Q E → Hub Q E
  unfolding heartbeat_to
  send_portfolio_heartbeat h =
      let (h', seq) = next_portfolio_envelope h in
      record h' { sent = h.sent ++ heartbeat_to seq h.clients }

  -- The two calls of `sendPortfolioLifecycleMessage`.
  abbrev pub send_lifecycle : Client → List ℕ → Hub Q E → Hub Q E
  send_lifecycle c addresses h =
      let (h1, n) = next_portfolio_envelope h in
      let h2 = send_json c (portfolio_subscribed n addresses) h1 in
      let (h3, m) = next_portfolio_envelope h2 in send_json c (portfolio_sync_ready m addresses) h3

  -- `applySubscription`; the set of the socket is as it is when the owned addresses are known.
  unfoldable pub apply_subscription : Client → List ℕ → List ℕ → Hub Q E → Hub Q E
  apply_subscription c requested owned h =
      let set = add_all (filter_by (λ a. member a owned) requested) c.addresses in
      let h' = record h { clients = update_clients c.id (with_addresses set) h.clients } in
      if is_empty set then h' else send_lifecycle c set h'

  -- `handlePortfolioSubscribe`, whose user owns what the cache says. A cache without them loads them
  -- first, and `applySubscription` runs later.
  unfoldable pub handle_portfolio_subscribe : Client → List ℕ → Option (List ℕ) → Hub Q E → Hub Q E
  unfolding apply_subscription
  handle_portfolio_subscribe c requested none h = record h {
    clients = update_clients c.id (with_addresses []) h.clients;
  }
  handle_portfolio_subscribe c requested (some owned) h =
      apply_subscription (with_addresses [] c) requested owned
        (record h { clients = update_clients c.id (with_addresses []) h.clients })

  abbrev pub reject : Client → Hub Q E → Hub Q E
  reject c h = record h { clients = update_clients c.id closing h.clients }

  -- The message `portfolio_subscribe` of a socket with the user, if it has one that is verified;
  -- `cached` is what the cache says that a user owns.
  unfoldable pub portfolio_subscribe :
      Client → List ℕ → (ℕ → Bool) → (ℕ → Option (List ℕ)) → Option ℕ → Hub Q E → Hub Q E
  unfolding handle_portfolio_subscribe
  portfolio_subscribe c requested verified cached none h = reject c h
  portfolio_subscribe c requested verified cached (some u) h =
      if verified u then handle_portfolio_subscribe c requested (cached u) h else reject c h

  -- `bindNotifyUser`.
  unfoldable pub bind_notify_user : Client → ℕ → Hub Q E → Hub Q E
  bind_notify_user c u h =
      send_json c (notification_subscribed u)
        (record h { clients = update_clients c.id (with_user u) h.clients })
