-- ===== src/Wallets/Tests.antt =====
-- Concrete raw events for src/services/walletEventAggregator.ts.
use nayft_backend.Wallets.Scheduling.{IsScheduled}
use nayft_backend.Wallets.Draining.{drain, drain_all}
use nayft_backend.Common.{◌++◌}
use nayft_backend.Common.{
  ℕ, ◌+◌, ◌≡◌, ◌==◌, if◌then◌else◌, refl, Bool, true, false, List, [], ◌∷◌, map, length, none, some,
  sum_by,
}
use nayft_backend.Wallets.Summaries.{
  WalletRawEvent, token_transfer, swap, add_to_transaction, by_transaction, transaction_summaries,
  build_event_summaries,
}
use nayft_backend.Wallets.Aggregator.{
  batch, Answers, no_receipt, Aggregator, Event, ingest, fire, finish, schedule_flush,
  ingest_wallet_event, fire_timer, end_flush, step, run,
}
use nayft_backend.Wallets.Scheduling.{run-raw_event_count}
use nayft_backend.Wallets.Attribution.{IsOwners, run-IsOwners}
use nayft_backend.Common.{All, arith, Option, ap, if◌then◌else◌, Bool-cases, inl, inr, ==_iff}
use nayft_backend.Common.Int.{pos}
use nayft_backend.Sockets.Hub.{Hub, Message, wallet_event}
use nayft_backend.Sockets.Portfolio.{broadcast_portfolio_realtime, bind_notify_user}
use nayft_backend.Sockets.Messages
use nayft_backend.Sockets.Ownership.{AreOf}
use nayft_backend.Wallets.Summaries.{pending, get_transaction_count}
use nayft_backend.Wallets.Aggregator.{WalletEvent, chains_with_activity}
use nayft_backend.Wallets.Delivery.{owns, IsToldTo, wallet_event-IsToldTo}

abbrev no_matic : ℕ → Bool
no_matic asset = false

abbrev same_value : ℕ → ℕ
same_value v = v

-- User 7 owns address 3.
abbrev transfer : ℕ → ℕ → ℕ → ℕ → WalletRawEvent
transfer chain hash asset from = record {
  user = 7;
  address = 3;
  chain = chain;
  tx_hash = hash;
  type = token_transfer;
  asset = asset;
  value = 5;
  from_address = from;
  to_address = if from == 3 then 4 else 3;
  activity_tx_hash = hash;
  tx_status = none;
}

abbrev nothing : Aggregator ℕ
nothing = record {
  buffer = [];
  flush_timers = [];
  in_flight = [];
  saved = [];
  failed_writes = [];
  emitted = [];
}

abbrev answers : Bool → Answers ℕ
answers written = record {
  zerion_enabled = true;
  alchemy_enabled = true;
  positions = some 1;
  holdings = some 2;
  transfers = none;
  receipt = no_receipt;
  is_written = written;
}

-- Two chains have events; one flush begins before the other's last event, and its write fails.
abbrev traffic : List (Event ℕ)
traffic =
    ingest (transfer 1 10 20 3)
    ∷ ingest (transfer 2 11 20 3)
    ∷ fire (3, 1)
    ∷ ingest (transfer 2 11 21 4)
    ∷ fire (3, 2)
    ∷ finish 1 (answers true)
    ∷ finish 0 (answers false)
    ∷ []

run-raw_event_count_example :
    let s' = run no_matic 0 same_value traffic nothing in
    (s'.buffer ≡ [])
    × (sum_by (λ d. d.raw_event_count) s'.saved + sum_by (λ f. length (batch f)) s'.failed_writes
        ≡ 3)
unfolding run step ingest_wallet_event schedule_flush fire_timer end_flush
run-raw_event_count_example =
    run-raw_event_count no_matic 0 same_value traffic nothing (λ k. refl) refl refl

abbrev owner : ℕ → ℕ
owner address = 7

run-IsOwners_example :
    IsOwners no_matic 0 same_value owner (run no_matic 0 same_value traffic nothing)
run-IsOwners_example =
    run-IsOwners no_matic 0 same_value owner traffic nothing (refl, (refl, (refl, tt)))
      (record { waiting = tt; flushing = tt; right = tt })

saved_one :
    map (λ d. d.event_summaries) (run no_matic 0 same_value traffic nothing).saved
    ≡ (swap 20 21 ∷ []) ∷ []
unfolding run step ingest_wallet_event schedule_flush fire_timer end_flush build_event_summaries
    transaction_summaries by_transaction add_to_transaction
saved_one = refl

-- Two buffers wait for their timers.
abbrev waiting_two : Aggregator ℕ
waiting_two = record nothing {
  buffer =
      ((3, 1), transfer 1 10 20 3 ∷ [])
      ∷ ((3, 2), transfer 2 11 20 3 ∷ transfer 2 11 21 4 ∷ [])
      ∷ [];
  flush_timers = (3, 2) ∷ (3, 1) ∷ [];
}

waiting_two-IsScheduled : IsScheduled waiting_two
waiting_two-IsScheduled k = omega arith

drain_all_example :
    let s' = drain no_matic 0 same_value (answers true) waiting_two in
    (s'.buffer ≡ [])
    × (s'.in_flight ≡ [])
    × (s'.failed_writes ≡ [])
    × (sum_by (λ d. d.raw_event_count) s'.saved + 0 ≡ 3)
drain_all_example =
    drain_all no_matic 0 same_value (answers true) waiting_two refl waiting_two-IsScheduled

-- The event that is stored.
abbrev second_chain : WalletEvent ℕ
second_chain = record {
  user = 7;
  address = 3;
  chain = 2;
  type = token_transfer;
  raw_event_count = 2;
  transaction_count = 1;
  event_summaries = swap 20 21 ∷ [];
  enriched_data = none;
  tx_status = some pending;
}

abbrev empty_hub : Hub ℕ (WalletEvent ℕ)
empty_hub = record {
  clients = [];
  latest = λ s. none;
  dirty = [];
  is_flush_scheduled = false;
  portfolio_seq = 0;
  pieces = λ s. s ∷ [];
  symref = λ s. pos 0;
  sent = [];
}

abbrev everyone : ℕ → Bool
everyone u = true

abbrev cache : ℕ → Option (List ℕ)
cache u = if u == 7 then some (3 ∷ []) else none

abbrev is_cached : Option (List ℕ) → Bool
is_cached none = false
is_cached (some l) = true

cache-AreOf : (u : ℕ) (mine : List ℕ) → cache u ≡ some mine → AreOf (owns owner) u mine
cache-AreOf u mine e a m = elim (Bool-cases (u == 7)) [
  | inl same ↦ rw ((==_iff u 7).0 same) refl
  | inr other ↦ ground (arith, ap is_cached (rw other at e))
]

-- The owner and someone else ask for the address.
abbrev listening : List (Messages.Event ℕ (WalletEvent ℕ))
listening =
    Messages.connect 1 (some 7)
    ∷ Messages.connect 2 (some 8)
    ∷ Messages.subscribe_portfolio 1 (3 ∷ [])
    ∷ Messages.subscribe_portfolio 2 (3 ∷ [])
    ∷ []

wallet_event-IsToldTo_example :
    let h' = Messages.run everyone cache listening empty_hub in
    (new : List (ℕ × Message ℕ (WalletEvent ℕ))) × ((broadcast_portfolio_realtime
        (wallet_event 3 second_chain)
        h').sent
      ≡ h'.sent ++ new)
    × All (IsToldTo 7 h'.clients) new
unfolding run step ingest_wallet_event schedule_flush chains_with_activity fire_timer end_flush
    build_event_summaries transaction_summaries by_transaction add_to_transaction
    get_transaction_count Messages.step bind_notify_user
wallet_event-IsToldTo_example =
    wallet_event-IsToldTo owner no_matic 0 same_value traffic nothing everyone cache listening
      empty_hub 0 second_chain (refl, (refl, (refl, tt)))
      (record { waiting = tt; flushing = tt; right = tt }) refl cache-AreOf
      ((refl, tt), ((refl, tt), ((tt, tt), ((tt, tt), tt))))
      (record { counted = λ s. refl; sets = tt; distinct = tt }) tt

-- A transaction that sends two assets and gets one of them back is told as a swap of it for itself.
swap_for_itself :
    build_event_summaries no_matic 0 same_value
      (transfer 1 10 20 3 ∷ transfer 1 10 21 3 ∷ transfer 1 10 20 4 ∷ [])
      3
    ≡ swap 20 20 ∷ []
unfolding build_event_summaries transaction_summaries by_transaction add_to_transaction
swap_for_itself = refl
