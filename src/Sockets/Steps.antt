-- ===== src/Sockets/Steps.antt =====
-- The steps of src/websocket/server.ts and the references of the symbols in Redis.
use nayft_backend.Common.{
  ℕ, ◌≡◌, sym, Bool, if◌then◌else◌, List, [], ◌∷◌, ◌++◌, Option, none, some, member, inl, inr,
  Option-cases, by_branches,
}
use nayft_backend.Sockets.Hub.{Client, Message, Hub, update_clients, find_client, send_json}
use nayft_backend.Sockets.Prices.{
  symbol_set, replace_client_symbols, send_filtered_snapshot, apply_updates,
  apply_redis_prices_message, flush_price_updates,
}
use nayft_backend.Sockets.Portfolio.{
  with_addresses, with_user, closing, portfolio_subscribe, handle_portfolio_subscribe,
  apply_subscription, bind_notify_user, broadcast_portfolio_realtime, send_portfolio_heartbeat,
  reject, send_lifecycle,
}
use nayft_backend.Sockets.Messages.{
  Event, connect, auth, notification_without_token, subscribe, subscribe_portfolio, owned_loaded,
  unsubscribe_portfolio, subscribe_news, idle_timeout, close, prices, flush, broadcast, heartbeat,
  new_client, on_client, subscribe_symbols, authenticate, close_idle, subscribe_to_news, closed,
  step, run, is_none_given,
}
use nayft_backend.Common.{filter_by}
use nayft_backend.Common.{add_all}
use nayft_backend.Sockets.Prices.{is_empty}
use nayft_backend.Sockets.Messages.{is_some, is_idle}
use nayft_backend.Sockets.Counting.{
  IsCounted, other-IsCounted, replace-IsCounted, closed-IsCounted, connected-IsCounted, IsPossible,
  addresses-IsOther, user-IsOther, closing-IsOther, news-IsOther,
}

module _ {Q E : Type 0} where
  abbrev pub Counts : Hub Q E → Type 0
  Counts h = IsCounted h.clients h.symref

  send_json-Counts :
      (c : Client) (m : Message Q E) (h : Hub Q E) → Counts h → Counts (send_json c m h)
  send_json-Counts c m h k = by_branches Counts c.is_open k k

  bind-Counts : (c : Client) (u : ℕ) (h : Hub Q E) → Counts h → Counts (bind_notify_user c u h)
  unfolding bind_notify_user
  bind-Counts c u h k =
      send_json-Counts c _ (record h { clients = update_clients c.id (with_user u) h.clients })
        (other-IsCounted c.id (with_user u) (user-IsOther u) k)

  reject-Counts : (c : Client) (h : Hub Q E) → Counts h → Counts (reject c h)
  reject-Counts c h k = other-IsCounted c.id closing closing-IsOther k

  lifecycle-Counts :
      (c : Client) (addresses : List ℕ) (h : Hub Q E)
      → Counts h
      → Counts (send_lifecycle c addresses h)
  lifecycle-Counts c addresses h k =
      by_branches Counts c.is_open (by_branches Counts c.is_open k k)
        (by_branches Counts c.is_open k k)

  apply-Counts :
      (c : Client) (requested owned : List ℕ) (h : Hub Q E)
      → Counts h
      → Counts (apply_subscription c requested owned h)
  unfolding apply_subscription
  apply-Counts c requested owned h k =
      let set = add_all (filter_by (λ a. member a owned) requested) c.addresses in
      let k' = other-IsCounted c.id (with_addresses set) (addresses-IsOther set) k in
      by_branches Counts (is_empty set) k' (
        lifecycle-Counts c set
          (record h { clients = update_clients c.id (with_addresses set) h.clients }) k')

  handle-Counts :
      (c : Client) (requested : List ℕ) (owned : Option (List ℕ)) (h : Hub Q E)
      → Counts h
      → Counts (handle_portfolio_subscribe c requested owned h)
  unfolding handle_portfolio_subscribe
  handle-Counts c requested none h k =
      other-IsCounted c.id (with_addresses []) (addresses-IsOther []) k
  handle-Counts c requested (some owned) h k =
      apply-Counts (with_addresses [] c) requested owned
        (record h { clients = update_clients c.id (with_addresses []) h.clients })
        (other-IsCounted c.id (with_addresses []) (addresses-IsOther []) k)

  portfolio-Counts :
      (verified : ℕ → Bool) (cached : ℕ → Option (List ℕ)) (c : Client) (requested : List ℕ)
      (user : Option ℕ) (h : Hub Q E)
      → Counts h
      → Counts (portfolio_subscribe c requested verified cached user h)
  unfolding portfolio_subscribe
  portfolio-Counts verified cached c requested none h k = reject-Counts c h k
  portfolio-Counts verified cached c requested (some u) h k =
      by_branches Counts (verified u) (handle-Counts c requested (cached u) h k)
        (reject-Counts c h k)

  updates-Counts :
      (updates : List (Option ℕ × Q)) (h : Hub Q E) → Counts h → Counts (apply_updates updates h)
  unfolding apply_updates
  updates-Counts [] h k = k
  updates-Counts ((none, q) ∷ updates) h k = updates-Counts updates h k
  updates-Counts ((some sym, q) ∷ updates) h k = updates-Counts updates _ k

  subscribe-Counts :
      (verified : ℕ → Bool) (cached : ℕ → Option (List ℕ)) (i : ℕ) (raw : List (Option ℕ))
      (c : Client) (h : Hub Q E)
      → find_client i h.clients ≡ some c
      → Counts h
      → Counts (subscribe_symbols verified cached raw c h)
  unfolding subscribe_symbols replace_client_symbols send_filtered_snapshot
  subscribe-Counts verified cached i raw c h e k =
      let k' = replace-IsCounted i c (symbol_set raw) e k in
      by_branches Counts (is_none_given raw) k' (by_branches Counts c.is_open k' k')

  module _ (verified : ℕ → Bool) (cached : ℕ → Option (List ℕ)) where
    on-Counts :
        (i : ℕ) (f : Client → Hub Q E → Hub Q E) (h : Hub Q E)
        → Counts h
        → ((c : Client) → find_client i h.clients ≡ some c → Counts (f c h))
        → Counts (on_client verified cached (find_client i h.clients) f h)
    on-Counts i f h k g = elim (Option-cases (find_client i h.clients)) [
      | inl e ↦ rw e k
      | inr (c, e) ↦ rw e (g c e)
    ]

    prices-Counts :
        (updates : Option (List (Option ℕ × Q))) (h : Hub Q E)
        → Counts h
        → Counts (apply_redis_prices_message updates h)
    unfolding apply_redis_prices_message
    prices-Counts none h k = k
    prices-Counts (some updates) h k = updates-Counts updates h k

    pub step-Counts :
        (e : Event Q E) (h : Hub Q E)
        → IsPossible e h.clients
        → Counts h
        → Counts (step verified cached e h)
    unfolding step authenticate close_idle subscribe_to_news closed flush_price_updates
        broadcast_portfolio_realtime send_portfolio_heartbeat
    step-Counts (connect i none) h p k = connected-IsCounted i p k
    step-Counts (connect i (some u)) h p k =
        bind-Counts (new_client i) u (record h { clients = h.clients ++ new_client i ∷ [] })
          (connected-IsCounted i p k)
    step-Counts (auth i u) h p k =
        on-Counts i (authenticate verified cached u) h k
          (λ c e. by_branches Counts (verified u) (bind-Counts c u h k) (reject-Counts c h k))
    step-Counts (notification_without_token i) h p k =
        on-Counts i (λ c h. if is_some c.notify_user then h else reject c h) h k
          (λ c e. by_branches Counts (is_some c.notify_user) k (reject-Counts c h k))
    step-Counts (subscribe i raw) h p k =
        on-Counts i (subscribe_symbols verified cached raw) h k
          (λ c e. subscribe-Counts verified cached i raw c h e k)
    step-Counts (subscribe_portfolio i requested) h p k =
        on-Counts i (λ c. portfolio_subscribe c requested verified cached c.notify_user) h k
          (λ c e. portfolio-Counts verified cached c requested c.notify_user h k)
    step-Counts (owned_loaded i u requested owned) h p k =
        on-Counts i (λ c. apply_subscription c requested owned) h k
          (λ c e. apply-Counts c requested owned h k)
    step-Counts (unsubscribe_portfolio i) h p k =
        other-IsCounted i (with_addresses []) (addresses-IsOther []) k
    step-Counts (subscribe_news i) h p k =
        on-Counts i (subscribe_to_news verified cached) h k
          (λ c e. send_json-Counts c _ _ (other-IsCounted c.id _ news-IsOther k))
    step-Counts (idle_timeout i) h p k =
        on-Counts i (close_idle verified cached) h k
          (λ c e. by_branches Counts (is_idle c) (reject-Counts c h k) k)
    step-Counts (close i) h p k =
        on-Counts i (closed verified cached) h k (λ c e. closed-IsCounted i c e k)
    step-Counts (prices updates) h p k = prices-Counts updates h k
    step-Counts flush h p k = by_branches Counts (is_empty h.dirty) k k
    step-Counts (broadcast r) h p k = k
    step-Counts heartbeat h p k = k

    -- A run in which no socket connects twice.
    abbrev pub ArePossible : List (Event Q E) → Hub Q E → Type 0
    ArePossible [] h = Unit
    ArePossible (e ∷ events) h =
        IsPossible e h.clients × ArePossible events (step verified cached e h)

    -- Whatever the events, as long as no number of a socket connects while it is connected: if Redis
    -- counts for each symbol the sockets that hold it before, the count is right after all of them,
    -- and still no socket holds a symbol twice and no two sockets have one number.
    pub run-IsCounted :
        (events : List (Event Q E)) (h : Hub Q E)
        → ArePossible events h
        → IsCounted h.clients h.symref
        → let h' = run verified cached events h in IsCounted h'.clients h'.symref
    unfolding run
    run-IsCounted [] h p k = k
    run-IsCounted (e ∷ events) h (p, ps) k =
        run-IsCounted events (step verified cached e h) ps (step-Counts e h p k)
