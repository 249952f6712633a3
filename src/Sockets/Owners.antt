-- ===== src/Sockets/Owners.antt =====
-- The steps of src/websocket/server.ts and the users who own the addresses of its sockets.
use nayft_backend.Common.{
  ℕ, ◌≡◌, refl, sym, Bool, true, if◌then◌else◌, List, [], ◌∷◌, Option, none, some, ◌⊎◌, inl, inr,
  filter_by, member, All, arith, Option-cases, by_branches,
}
use nayft_backend.Sockets.Hub.{Client, Message, Hub, update_clients, find_client, send_json}
use nayft_backend.Common.{add_all}
use nayft_backend.Sockets.Prices.{
  is_empty, symbol_set, replace_symbols, replace_client_symbols, send_filtered_snapshot,
  apply_updates, apply_redis_prices_message, flush_price_updates,
}
use nayft_backend.Sockets.Portfolio.{
  with_addresses, with_user, closing, broadcast_portfolio_realtime, send_portfolio_heartbeat,
  portfolio_subscribe, handle_portfolio_subscribe, apply_subscription, bind_notify_user, reject,
  send_lifecycle,
}
use nayft_backend.Sockets.Messages.{
  Event, connect, auth, notification_without_token, subscribe, subscribe_portfolio, owned_loaded,
  unsubscribe_portfolio, subscribe_news, idle_timeout, close, prices, flush, broadcast, heartbeat,
  new_client, is_some, is_idle, is_none_given, on_client, subscribe_symbols, authenticate,
  close_idle, subscribe_to_news, closed, step,
}
use nayft_backend.Sockets.Clients.{IsDistinct, update-IsDistinct, with_symbols}
use nayft_backend.Sockets.Counting.{IsPossible}
use nayft_backend.Sockets.Ownership.{
  found, update_last-All, find_client-updated, owned_by, IsOwned, AreOf, add_all-within,
  member-filter_by, update-All, remove-All, last-All, every-All,
}

-- A socket takes a user only if it has none or the same, and what is loaded for a subscription are
-- addresses of the user that the socket still has.
abbrev pub MayBind : ℕ → Option Client → Type 0
MayBind u none = Unit
MayBind u (some c) = (c.notify_user ≡ none) ⊎ (c.notify_user ≡ some u)

abbrev pub StillHas : ℕ → Option Client → Type 0
StillHas u none = Unit
StillHas u (some c) = c.notify_user ≡ some u

module _ (owns : ℕ → ℕ → Bool) where
  abbrev pub IsFaithful : {Q E : Type 0} → Event Q E → List Client → Type 0
  IsFaithful (auth i u) cs = MayBind u (find_client i cs)
  IsFaithful (owned_loaded i u requested owned) cs =
      StillHas u (find_client i cs) × AreOf owns u owned
  IsFaithful _ cs = Unit

  bound-IsOwned :
      (u : ℕ) (c : Client)
      → (c.notify_user ≡ none) ⊎ (c.notify_user ≡ some u)
      → IsOwned owns c
      → IsOwned owns (with_user u c)
  bound-IsOwned u c (inl e) h a m = ground (arith, rw e at h a m)
  bound-IsOwned u c (inr e) h a m = rw e at h a m

  granted-IsOwned :
      (u : ℕ) (requested owned : List ℕ) (c : Client)
      → c.notify_user ≡ some u
      → AreOf owns u owned
      → IsOwned owns c
      → IsOwned owns
          (with_addresses (add_all (filter_by (λ a. member a owned) requested) c.addresses) c)
  granted-IsOwned u requested owned c e mine h =
      add_all-within (λ a. owned_by owns c.notify_user a ≡ true)
        (filter_by (λ a. member a owned) requested) c.addresses
        (λ a m. rw e (mine a (member-filter_by (λ a. member a owned) a requested m))) h

  none-IsOwned : (c : Client) → IsOwned owns (with_addresses [] c)
  none-IsOwned c a m = ground (arith, m)

  module _ {Q E : Type 0} where
    abbrev pub Owned : Hub Q E → Type 0
    Owned h = All (IsOwned owns) h.clients

    send_json-Owned :
        (c : Client) (m : Message Q E) (h : Hub Q E) → Owned h → Owned (send_json c m h)
    send_json-Owned c m h k = by_branches Owned c.is_open k k

    lifecycle-Owned :
        (c : Client) (addresses : List ℕ) (h : Hub Q E)
        → Owned h
        → Owned (send_lifecycle c addresses h)
    lifecycle-Owned c addresses h k =
        by_branches Owned c.is_open (by_branches Owned c.is_open k k)
          (by_branches Owned c.is_open k k)

    reject-Owned : (c : Client) (h : Hub Q E) → Owned h → Owned (reject c h)
    reject-Owned c h k = every-All (IsOwned owns) c.id closing h.clients (λ d o. o) k

    -- A change of every socket with a number, and the messages that follow it.
    apply-Owned :
        (u : ℕ) (c : Client) (requested owned : List ℕ) (h : Hub Q E)
        → find_client c.id h.clients ≡ some c
        → IsDistinct h.clients
        → c.notify_user ≡ some u
        → AreOf owns u owned
        → Owned h
        → Owned (apply_subscription c requested owned h)
    unfolding apply_subscription
    apply-Owned u c requested owned h e distinct user mine k =
        let set = add_all (filter_by (λ a. member a owned) requested) c.addresses in
        let k' =
          update-All (IsOwned owns) c.id (with_addresses set) c h.clients e distinct
            (granted-IsOwned u requested owned c user mine) k in
        by_branches Owned (is_empty set) k' (
          lifecycle-Owned c set
            (record h { clients = update_clients c.id (with_addresses set) h.clients }) k')

    handle-Owned :
        (u : ℕ) (c : Client) (requested : List ℕ) (cached : Option (List ℕ)) (h : Hub Q E)
        → find_client c.id h.clients ≡ some c
        → IsDistinct h.clients
        → c.notify_user ≡ some u
        → ((owned : List ℕ) → cached ≡ some owned → AreOf owns u owned)
        → Owned h
        → Owned (handle_portfolio_subscribe c requested cached h)
    unfolding handle_portfolio_subscribe
    handle-Owned u c requested none h e distinct user mine k =
        every-All (IsOwned owns) c.id (with_addresses []) h.clients (λ d o. none-IsOwned d) k
    handle-Owned u c requested (some owned) h e distinct user mine k =
        apply-Owned u (with_addresses [] c) requested owned
          (record h { clients = update_clients c.id (with_addresses []) h.clients })
          (find_client-updated c.id (with_addresses []) c h.clients (λ d. refl) e)
          (update-IsDistinct c.id (with_addresses []) h.clients (λ d. refl) distinct) user
          (mine owned refl)
          (every-All (IsOwned owns) c.id (with_addresses []) h.clients (λ d o. none-IsOwned d) k)

    bind-Owned :
        (c : Client) (u : ℕ) (h : Hub Q E)
        → find_client c.id h.clients ≡ some c
        → IsDistinct h.clients
        → (c.notify_user ≡ none) ⊎ (c.notify_user ≡ some u)
        → Owned h
        → Owned (bind_notify_user c u h)
    unfolding bind_notify_user
    bind-Owned c u h e distinct may k =
        send_json-Owned c _ (record h { clients = update_clients c.id (with_user u) h.clients })
          (update-All (IsOwned owns) c.id (with_user u) c h.clients e distinct
            (bound-IsOwned u c may) k)

    updates-Owned :
        (updates : List (Option ℕ × Q)) (h : Hub Q E) → Owned h → Owned (apply_updates updates h)
    unfolding apply_updates
    updates-Owned [] h k = k
    updates-Owned ((none, q) ∷ updates) h k = updates-Owned updates h k
    updates-Owned ((some sym, q) ∷ updates) h k = updates-Owned updates _ k

    prices-Owned :
        (updates : Option (List (Option ℕ × Q))) (h : Hub Q E)
        → Owned h
        → Owned (apply_redis_prices_message updates h)
    unfolding apply_redis_prices_message
    prices-Owned none h k = k
    prices-Owned (some updates) h k = updates-Owned updates h k

    module _ (verified : ℕ → Bool) (cached : ℕ → Option (List ℕ)) where
      on-Owned :
          (i : ℕ) (f : Client → Hub Q E → Hub Q E) (h : Hub Q E)
          → Owned h
          → ((c : Client) → find_client i h.clients ≡ some c → Owned (f c h))
          → Owned (on_client verified cached (find_client i h.clients) f h)
      on-Owned i f h k g = elim (Option-cases (find_client i h.clients)) [
        | inl e ↦ rw e k
        | inr (c, e) ↦ rw e (g c e)
      ]

      subscribe-Owned :
          (raw : List (Option ℕ)) (c : Client) (h : Hub Q E)
          → Owned h
          → Owned (subscribe_symbols verified cached raw c h)
      unfolding subscribe_symbols replace_client_symbols send_filtered_snapshot
      subscribe-Owned raw c h k =
          let new = (replace_symbols c.symbols (symbol_set raw) h.symref).0 in
          let k' = every-All (IsOwned owns) c.id (with_symbols new) h.clients (λ d o. o) k in
          by_branches Owned (is_none_given raw) k' (by_branches Owned c.is_open k' k')

      portfolio-Owned :
          (c : Client) (requested : List ℕ) (user : Option ℕ) (h : Hub Q E)
          → find_client c.id h.clients ≡ some c
          → IsDistinct h.clients
          → c.notify_user ≡ user
          → ((u : ℕ) (owned : List ℕ) → cached u ≡ some owned → AreOf owns u owned)
          → Owned h
          → Owned (portfolio_subscribe c requested verified cached user h)
      unfolding portfolio_subscribe
      portfolio-Owned c requested none h e distinct user mine k = reject-Owned c h k
      portfolio-Owned c requested (some u) h e distinct user mine k =
          by_branches Owned (verified u)
            (handle-Owned u c requested (cached u) h e distinct user (mine u) k)
            (reject-Owned c h k)

      pub step-Owned :
          (e : Event Q E) (h : Hub Q E)
          → ((u : ℕ) (owned : List ℕ) → cached u ≡ some owned → AreOf owns u owned)
          → IsDistinct h.clients
          → IsPossible e h.clients
          → IsFaithful e h.clients
          → Owned h
          → Owned (step verified cached e h)
      unfolding step authenticate close_idle subscribe_to_news closed flush_price_updates
          broadcast_portfolio_realtime send_portfolio_heartbeat bind_notify_user
      step-Owned (connect i none) h mine distinct o p k =
          last-All (IsOwned owns) h.clients (new_client i) k (λ a m. ground (arith, m))
      step-Owned (connect i (some u)) h mine distinct o p k =
          update_last-All (IsOwned owns) i (with_user u) h.clients (new_client i) o k
            (λ a m. ground (arith, m)) (λ a m. ground (arith, m))
      step-Owned (auth i u) h mine distinct o p k =
          on-Owned i (authenticate verified cached u) h k (λ c e.
            by_branches Owned (verified u)
              (bind-Owned c u h (found i c h.clients e) distinct (rw e at p) k)
              (reject-Owned c h k))
      step-Owned (notification_without_token i) h mine distinct o p k =
          on-Owned i (λ c h. if is_some c.notify_user then h else reject c h) h k
            (λ c e. by_branches Owned (is_some c.notify_user) k (reject-Owned c h k))
      step-Owned (subscribe i raw) h mine distinct o p k =
          on-Owned i (subscribe_symbols verified cached raw) h k (λ c e. subscribe-Owned raw c h k)
      step-Owned (subscribe_portfolio i requested) h mine distinct o p k =
          on-Owned i (λ c. portfolio_subscribe c requested verified cached c.notify_user) h k
            (λ c e.
              portfolio-Owned c requested c.notify_user h (found i c h.clients e) distinct refl mine
                k)
      step-Owned (owned_loaded i u requested owned) h mine distinct o (p, q) k =
          on-Owned i (λ c. apply_subscription c requested owned) h k
            (λ c e.
              apply-Owned u c requested owned h (found i c h.clients e) distinct (rw e at p) q k)
      step-Owned (unsubscribe_portfolio i) h mine distinct o p k =
          every-All (IsOwned owns) i (with_addresses []) h.clients (λ d o. none-IsOwned d) k
      step-Owned (subscribe_news i) h mine distinct o p k =
          on-Owned i (subscribe_to_news verified cached) h k
            (λ c e. send_json-Owned c _ _ (every-All (IsOwned owns) c.id _ h.clients (λ d o. o) k))
      step-Owned (idle_timeout i) h mine distinct o p k =
          on-Owned i (close_idle verified cached) h k
            (λ c e. by_branches Owned (is_idle c) (reject-Owned c h k) k)
      step-Owned (close i) h mine distinct o p k =
          on-Owned i (closed verified cached) h k
            (λ c e. remove-All (IsOwned owns) c.id h.clients k)
      step-Owned (prices updates) h mine distinct o p k = prices-Owned updates h k
      step-Owned flush h mine distinct o p k = by_branches Owned (is_empty h.dirty) k k
      step-Owned (broadcast r) h mine distinct o p k = k
      step-Owned heartbeat h mine distinct o p k = k
