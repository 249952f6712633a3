-- ===== src/Sockets/Tests.antt =====
-- Concrete sockets for src/websocket/server.ts, and runs of its events.
use nayft_backend.Common.{
  ℕ, ◌+◌, ◌≡◌, ◌==◌, refl, Bool, true, false, List, [], ◌∷◌, ◌++◌, map, Option, none, some, inl,
  if◌then◌else◌, sym, ap, All, sum_by, arith,
}
use nayft_backend.Common.Int.{pos, ◌+ℤ◌}
use nayft_backend.Common.Sorting.{sort, insert}
use nayft_backend.Sockets.Hub.{Hub, Message, wallet_event}
use nayft_backend.Sockets.Prices.{
  drop_symbols, add_symbols, replace_symbols, replace_client_symbols, send_filtered_snapshot,
  flush_price_updates, group_clients, add_to_group, send_groups, updates_of, prices_of,
}
use nayft_backend.Sockets.Portfolio.{broadcast_portfolio_realtime, bind_notify_user}
use nayft_backend.Sockets.Messages.{
  Event, connect, auth, subscribe, subscribe_portfolio, close, new_client, step, run,
  subscribe_symbols, authenticate, closed, release_symbols,
}
use nayft_backend.Sockets.Counting.{IsCounted}
use nayft_backend.Sockets.Steps.{run-IsCounted}
use nayft_backend.Sockets.Flushing.{direct_flush, flush-direct}
use nayft_backend.Sockets.Ownership.{AreOf}
use nayft_backend.Sockets.Reach.{IsHeard, run-IsHeard}

abbrev empty_hub : Hub ℕ ℕ
empty_hub = record {
  clients = [];
  latest = λ s. none;
  dirty = [];
  is_flush_scheduled = false;
  portfolio_seq = 0;
  pieces = λ s. s ∷ [];
  symref = λ s. pos 0;
  sent = [];
}

abbrev everyone : ℕ → Bool
everyone u = true

-- User `u` owns the address with its own number.
abbrev cache : ℕ → Option (List ℕ)
cache u = some (u ∷ [])

-- Two sockets subscribe, one of them twice, and the other leaves.
abbrev visits : List (Event ℕ ℕ)
visits =
    connect 1 none
    ∷ connect 2 (some 7)
    ∷ subscribe 1 (some 4 ∷ none ∷ some 4 ∷ some 5 ∷ [])
    ∷ subscribe 2 (some 4 ∷ [])
    ∷ subscribe 1 (some 4 ∷ some 6 ∷ [])
    ∷ close 2
    ∷ []

run-IsCounted_example :
    let h' = run everyone cache visits empty_hub in IsCounted h'.clients h'.symref
unfolding run step subscribe_symbols closed release_symbols replace_client_symbols
    send_filtered_snapshot replace_symbols drop_symbols add_symbols bind_notify_user
run-IsCounted_example =
    run-IsCounted everyone cache visits empty_hub (refl, (refl, (tt, (tt, (tt, (tt, tt))))))
      (record { counted = λ s. refl; sets = tt; distinct = tt })

counts :
    map (run everyone cache visits empty_hub).symref (4 ∷ 5 ∷ 6 ∷ []) ≡ pos 1 ∷ pos 0 ∷ pos 1 ∷ []
unfolding run step subscribe_symbols closed release_symbols replace_client_symbols
    send_filtered_snapshot replace_symbols drop_symbols add_symbols bind_notify_user ◌+ℤ◌ prices_of
counts = refl

-- Three sockets, two of them with the same symbols, and two new prices.
abbrev crowd : Hub ℕ ℕ
crowd = record empty_hub {
  clients =
      record (new_client 1) { symbols = 4 ∷ 5 ∷ [] }
      ∷ record (new_client 2) { symbols = 6 ∷ [] }
      ∷ record (new_client 3) { symbols = 5 ∷ 4 ∷ [] }
      ∷ [];
  latest = λ s. some (10 + s);
  dirty = 5 ∷ 7 ∷ [];
  is_flush_scheduled = true;
}

abbrev to_third : ℕ × Message ℕ ℕ → ℕ
to_third (i, m) = if i == 3 then 1 else 0

flush-direct_example :
    let h' = flush_price_updates crowd in
    (sum_by to_third h'.sent
      ≡ 0 + sum_by to_third (direct_flush crowd.dirty crowd.latest crowd.clients))
    × (h'.dirty ≡ [])
    × (h'.is_flush_scheduled ≡ false)
    × (h'.clients ≡ crowd.clients)
    × (h'.latest ≡ crowd.latest)
flush-direct_example =
    flush-direct to_third crowd ((refl, (refl, tt)), ((refl, tt), ((refl, (refl, tt)), tt)))

-- A symbol 9 that is the text of 4, a NUL and the text of 5: its socket is put into the group of the
-- other two, and gets the price of 5, which it did not ask for.
abbrev forged : Hub ℕ ℕ
forged = record crowd {
  clients = record (new_client 9) { symbols = 9 ∷ [] } ∷ crowd.clients;
  pieces = λ s. if s == 9 then 4 ∷ 5 ∷ [] else s ∷ [];
}

forged_is_sent : map (λ m. m.0) (flush_price_updates forged).sent ≡ 9 ∷ 1 ∷ 3 ∷ []
unfolding flush_price_updates group_clients add_to_group send_groups updates_of sort insert
forged_is_sent = refl

third_is_sent : sum_by to_third (flush_price_updates crowd).sent ≡ 1
unfolding flush_price_updates group_clients add_to_group send_groups updates_of sort insert
third_is_sent = refl

-- Two users listen to their addresses, and ask for each other's.
abbrev listening : List (Event ℕ ℕ)
listening =
    connect 1 (some 7)
    ∷ connect 2 none
    ∷ auth 2 8
    ∷ subscribe_portfolio 1 (7 ∷ 8 ∷ [])
    ∷ subscribe_portfolio 2 (7 ∷ 8 ∷ [])
    ∷ []

abbrev own : ℕ → ℕ → Bool
own u a = a == u

abbrev owned_or : Option (List ℕ) → List ℕ
owned_or none = []
owned_or (some owned) = owned

cache-AreOf :
    (u : ℕ) (owned : List ℕ)
    → ◌≡◌ {A = Option (List ℕ)} (some (u ∷ [])) (some owned)
    → AreOf own u owned
cache-AreOf u owned e a m = ground (arith, rw (sym (ap owned_or e)) at m)

run-IsHeard_example :
    let h' = run everyone cache listening empty_hub in
    (new : List (ℕ × Message ℕ ℕ)) × ((broadcast_portfolio_realtime (wallet_event 8 0) h').sent
      ≡ h'.sent ++ new)
    × All (IsHeard own (8 ∷ []) h'.clients) new
unfolding step authenticate bind_notify_user
run-IsHeard_example =
    run-IsHeard own everyone cache listening empty_hub (wallet_event 8 0) cache-AreOf
      ((refl, tt), ((refl, tt), ((tt, inl refl), ((tt, tt), ((tt, tt), tt)))))
      (record { counted = λ s. refl; sets = tt; distinct = tt }) tt
