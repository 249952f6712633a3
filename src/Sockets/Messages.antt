-- ===== src/Sockets/Messages.antt =====
-- What happens to the sockets of src/websocket/server.ts, one event after the other: connections, the
-- messages of clients, prices, wallet events and the timers.
use nayft_backend.Common.{
  ℕ, ◌==◌, ◌&&◌, not, Bool, true, false, if◌then◌else◌, List, [], ◌∷◌, ◌++◌, Option, none, some,
}
use nayft_backend.Common.Int.{ℤ, negsuc}
use nayft_backend.Sockets.Hub.{
  Client, Realtime, news_subscribed_message, Hub, update_clients, find_client, send_json,
  symref_delta,
}
use nayft_backend.Sockets.Prices.{
  is_empty, symbol_set, replace_client_symbols, send_filtered_snapshot, apply_redis_prices_message,
  flush_price_updates, replace_symbols,
}
use nayft_backend.Sockets.Portfolio.{
  with_addresses, portfolio_subscribe, apply_subscription, bind_notify_user,
  broadcast_portfolio_realtime, send_portfolio_heartbeat, reject,
}

-- `auth` is `ws_auth` or `notification_subscribe` with a token that names a user; `owned_loaded` is
-- the end of a subscription that had to load the addresses of the user who asked.
pub data Event (Q E : Type 0) : Type 0 where
  connect : ℕ → Option ℕ → Event Q E
  auth : ℕ → ℕ → Event Q E
  notification_without_token : ℕ → Event Q E
  subscribe : ℕ → List (Option ℕ) → Event Q E
  subscribe_portfolio : ℕ → List ℕ → Event Q E
  owned_loaded : ℕ → ℕ → List ℕ → List ℕ → Event Q E
  unsubscribe_portfolio : ℕ → Event Q E
  subscribe_news : ℕ → Event Q E
  idle_timeout : ℕ → Event Q E
  close : ℕ → Event Q E
  prices : Option (List (Option ℕ × Q)) → Event Q E
  flush : Event Q E
  broadcast : Realtime E → Event Q E
  heartbeat : Event Q E

abbrev pub is_some : Option ℕ → Bool
is_some none = false
is_some (some x) = true

-- A socket that is new.
abbrev pub new_client : ℕ → Client
new_client i = record {
  id = i;
  is_open = true;
  symbols = [];
  addresses = [];
  notify_user = none;
  news_subscribed = false;
}

abbrev pub remove_client : ℕ → List Client → List Client
remove_client i [] = []
remove_client i (c ∷ cs) = let rest = remove_client i cs in if c.id == i then rest else c ∷ rest

-- The loop of the handler of `close`.
unfoldable pub release_symbols : List ℕ → (ℕ → ℤ) → ℕ → ℤ
release_symbols [] ref = ref
release_symbols (s ∷ symbols) ref = release_symbols symbols (symref_delta s (negsuc 0) ref)

-- The five seconds after a connection are over without a subscription.
abbrev pub is_idle : Client → Bool
is_idle c =
    is_empty c.symbols
    && is_empty c.addresses
    && not (is_some c.notify_user)
    && not c.news_subscribed

abbrev pub is_none_given : List (Option ℕ) → Bool
is_none_given [] = true
is_none_given (s ∷ raw) = false

module _ {Q E : Type 0} (verified : ℕ → Bool) (cached : ℕ → Option (List ℕ)) where
  abbrev pub on_client : Option Client → (Client → Hub Q E → Hub Q E) → Hub Q E → Hub Q E
  on_client none f h = h
  on_client (some c) f h = f c h

  -- A connection; the upgrade may have found a user in its query.
  abbrev pub connected : ℕ → Option ℕ → Hub Q E → Hub Q E
  connected i none h = record h { clients = h.clients ++ new_client i ∷ [] }
  connected i (some u) h =
      bind_notify_user (new_client i) u (record h { clients = h.clients ++ new_client i ∷ [] })

  -- The message `subscribe`.
  unfoldable pub subscribe_symbols : List (Option ℕ) → Client → Hub Q E → Hub Q E
  subscribe_symbols raw c h =
      let h' = replace_client_symbols c (symbol_set raw) h in
      if is_none_given raw
      then h'
      else send_filtered_snapshot c (replace_symbols c.symbols (symbol_set raw) h.symref).0 h'

  unfoldable pub authenticate : ℕ → Client → Hub Q E → Hub Q E
  authenticate u c h = if verified u then bind_notify_user c u h else reject c h

  unfoldable pub close_idle : Client → Hub Q E → Hub Q E
  close_idle c h = if is_idle c then reject c h else h

  unfoldable pub subscribe_to_news : Client → Hub Q E → Hub Q E
  subscribe_to_news c h = send_json c news_subscribed_message (record h {
    clients = update_clients c.id (λ d. record d { news_subscribed = true }) h.clients;
  })

  -- The handler of `close`.
  unfoldable pub closed : Client → Hub Q E → Hub Q E
  unfolding release_symbols
  closed c h = record h {
    clients = remove_client c.id h.clients;
    symref = release_symbols c.symbols h.symref;
  }

  unfoldable pub step : Event Q E → Hub Q E → Hub Q E
  step (connect i pending) h = connected i pending h
  step (auth i u) h = on_client (find_client i h.clients) (authenticate u) h
  step (notification_without_token i) h =
      on_client (find_client i h.clients) (λ c h. if is_some c.notify_user then h else reject c h) h
  step (subscribe i raw) h = on_client (find_client i h.clients) (subscribe_symbols raw) h
  step (subscribe_portfolio i requested) h =
      on_client (find_client i h.clients)
        (λ c. portfolio_subscribe c requested verified cached c.notify_user) h
  step (owned_loaded i u requested owned) h =
      on_client (find_client i h.clients) (λ c. apply_subscription c requested owned) h
  step (unsubscribe_portfolio i) h = record h {
    clients = update_clients i (with_addresses []) h.clients;
  }
  step (subscribe_news i) h = on_client (find_client i h.clients) subscribe_to_news h
  step (idle_timeout i) h = on_client (find_client i h.clients) close_idle h
  step (close i) h = on_client (find_client i h.clients) closed h
  step (prices updates) h = apply_redis_prices_message updates h
  step flush h = flush_price_updates h
  step (broadcast r) h = broadcast_portfolio_realtime r h
  step heartbeat h = send_portfolio_heartbeat h

  unfoldable pub run : List (Event Q E) → Hub Q E → Hub Q E
  unfolding step
  run [] h = h
  run (e ∷ events) h = run events (step e h)
