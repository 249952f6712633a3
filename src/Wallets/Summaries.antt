-- ===== src/Wallets/Summaries.antt =====
-- src/utils/eventSummaryBuilder.ts: what is said of the events of one batch. Texts are numbers, trimmed
-- and, for addresses, in lower case; 0 is the empty text, or one that is missing.
use nayft_backend.Common.{
  ℕ, ◌==◌, ◌||◌, not, Bool, true, false, if◌then◌else◌, List, [], ◌∷◌, ◌++◌, map, length, Option,
  none, some, filter_by, add_all,
}

pub data WalletEventType : Type 0 where
  token_transfer native_transfer contract_interaction multi_chain_activity exchange_trade :
      WalletEventType

pub data TxStatus : Type 0 where
  success failed pending : TxStatus

-- A raw event, with the parts of its activity that are read.
pub record WalletRawEvent : Type 0 where
  pub user : ℕ
  pub address : ℕ
  pub chain : ℕ
  pub tx_hash : ℕ
  pub type : WalletEventType
  pub asset : ℕ
  pub value : ℕ
  pub from_address : ℕ
  pub to_address : ℕ
  pub activity_tx_hash : ℕ
  pub tx_status : Option TxStatus

pub data Label : Type 0 where
  native_transfer_label transfer_label trade_label contract_interaction_label : Label

-- The text of one summary: a label with a value and an asset, with an asset, or alone.
pub data Summary : Type 0 where
  swap : ℕ → ℕ → Summary
  of_value : Label → ℕ → ℕ → Summary
  of_asset : Label → ℕ → Summary
  plain : Label → Summary

abbrev pub is_text : ℕ → Bool
is_text t = not (t == 0)

-- `getTransactionCount`.
unfoldable pub get_transaction_count : List WalletRawEvent → ℕ
get_transaction_count events = length (add_all (filter_by is_text (map (λ e. e.tx_hash) events)) [])

-- The events of one transaction.
abbrev pub Transaction : Type 0
Transaction = ℕ × List WalletRawEvent

-- `byTx.get(h)!.push(e)`, on a map in insertion order.
unfoldable pub add_to_transaction : WalletRawEvent → List Transaction → List Transaction
add_to_transaction e [] = (e.tx_hash, e ∷ []) ∷ []
add_to_transaction e (t ∷ ts) =
    let rest = add_to_transaction e ts in
    if e.tx_hash == t.0 then (t.0, t.1 ++ e ∷ []) ∷ ts else t ∷ rest

unfoldable pub by_transaction : List WalletRawEvent → List Transaction → List Transaction
unfolding add_to_transaction
by_transaction [] ts = ts
by_transaction (e ∷ events) ts = by_transaction events (add_to_transaction e ts)

-- `is_matic` and `pol` are for the texts MATIC, whatever its case, and POL; `format_value` is the text
-- of a floating-point number with some decimals, or the empty one.
module _ (is_matic : ℕ → Bool) (pol : ℕ) (format_value : ℕ → ℕ) where
  abbrev pub map_asset : ℕ → ℕ
  map_asset asset = if is_matic asset then pol else asset

  abbrev pub labelled : Label → ℕ → ℕ → Summary
  labelled label value asset =
      if is_text asset
      then (if is_text value then of_value label value asset else of_asset label asset)
      else plain label

  abbrev pub format_by_type : WalletEventType → ℕ → ℕ → Summary
  format_by_type native_transfer value asset = labelled native_transfer_label value asset
  format_by_type token_transfer value asset = labelled transfer_label value asset
  format_by_type contract_interaction value asset =
      if is_text asset then of_asset trade_label asset else plain contract_interaction_label
  format_by_type _ value asset =
      if is_text asset then of_asset transfer_label asset else plain contract_interaction_label

  unfoldable pub format_single_event : WalletRawEvent → Summary
  format_single_event e = format_by_type e.type (format_value e.value) (map_asset e.asset)

  -- `[...new Set(events.map(mapAsset).filter(Boolean))]`.
  abbrev pub assets_of : List WalletRawEvent → List ℕ
  assets_of events = add_all (filter_by is_text (map (λ e. map_asset e.asset) events)) []

  abbrev pub is_alone : List ℕ → Bool
  is_alone [] = true
  is_alone (x ∷ xs) = false

  -- The swap of a transaction, from the assets that are sent and received; there are events of either
  -- kind where there are assets.
  abbrev pub swap_of : List ℕ → List ℕ → Option Summary
  swap_of [] received = none
  swap_of (s ∷ sent) [] = none
  swap_of (s ∷ sent) (r ∷ received) =
      if not (is_alone sent) || (not (is_alone received) || not (s == r))
      then some (swap s r)
      else none

  abbrev pub swap_or_each : Option Summary → List WalletRawEvent → List Summary
  swap_or_each none events = map format_single_event events
  swap_or_each (some s) events = s ∷ []

  unfoldable pub transaction_summaries : ℕ → List WalletRawEvent → List Summary
  transaction_summaries addr events =
      swap_or_each
        (swap_of (assets_of (filter_by (λ e. e.from_address == addr) events))
          (assets_of (filter_by (λ e. e.to_address == addr) events)))
        events

  abbrev pub all_summaries : ℕ → List Transaction → List Summary
  all_summaries addr [] = []
  all_summaries addr (t ∷ ts) = transaction_summaries addr t.1 ++ all_summaries addr ts

  -- `buildEventSummaries`.
  unfoldable pub build_event_summaries : List WalletRawEvent → ℕ → List Summary
  unfolding by_transaction
  build_event_summaries events monitored = all_summaries monitored (by_transaction events [])
