-- ===== src/Sockets/Hub.antt =====
-- The state of src/websocket/server.ts: the open sockets with what its maps hold for each of them, and
-- the prices. Symbols, addresses and users are numbers, since they are only compared; symbols are
-- numbered in the order of their texts.
use nayft_backend.Common.{
  ℕ, ◌+◌, ◌==◌, Bool, if◌then◌else◌, List, [], ◌∷◌, ◌++◌, Option, none, some,
}
use nayft_backend.Common.Int.{ℤ, ◌+ℤ◌}

-- One socket; the entries of `clientSymbols`, `clientAddresses`, `wsNotifyUserId` and
-- `wsNewsSubscribed` are fields.
pub record Client : Type 0 where
  pub id : ℕ
  pub is_open : Bool
  pub symbols : List ℕ
  pub addresses : List ℕ
  pub notify_user : Option ℕ
  pub news_subscribed : Bool

-- A message of the portfolio channel, before it is numbered; `E` is what it carries.
pub data Realtime (E : Type 0) : Type 0 where
  wallet_event wallet_status : ℕ → E → Realtime E
  holdings_delta : List ℕ → E → Realtime E

-- What is sent to a socket; `Q` is a quote.
pub data Message (Q E : Type 0) : Type 0 where
  price : List (ℕ × Q) → Message Q E
  snapshot : List (ℕ × Q) → Message Q E
  realtime : ℕ → Realtime E → Message Q E
  portfolio_heartbeat : ℕ → Message Q E
  portfolio_subscribed portfolio_sync_ready : ℕ → List ℕ → Message Q E
  notification_subscribed : ℕ → Message Q E
  news_subscribed_message : Message Q E

-- A number of a symbol stands for its text, which may come from a client; `pieces` are the numbers of
-- the texts between the NULs of a text, in their order, and a text without a NUL is one piece.
-- `latest` is `latestPrices`, `symref` the hash in Redis, `sent` what each socket was sent so far.
pub record Hub (Q E : Type 0) : Type 0 where
  pub clients : List Client
  pub latest : ℕ → Option Q
  pub pieces : ℕ → List ℕ
  pub dirty : List ℕ
  pub is_flush_scheduled : Bool
  pub portfolio_seq : ℕ
  pub symref : ℕ → ℤ
  pub sent : List (ℕ × Message Q E)

abbrev pub update_clients : ℕ → (Client → Client) → List Client → List Client
update_clients i f [] = []
update_clients i f (c ∷ cs) = (if c.id == i then f c else c) ∷ update_clients i f cs

abbrev pub find_client : ℕ → List Client → Option Client
find_client i [] = none
find_client i (c ∷ cs) = if c.id == i then some c else find_client i cs

-- `symrefDelta`, where Redis takes the increment.
abbrev pub symref_delta : ℕ → ℤ → (ℕ → ℤ) → ℕ → ℤ
symref_delta symbol d ref s = if s == symbol then ref s +ℤ d else ref s

module _ {Q E : Type 0} where
  -- A send to one socket, which does nothing unless it is open (`sendJson`).
  abbrev pub send_json : Client → Message Q E → Hub Q E → Hub Q E
  send_json c m h = if c.is_open then record h { sent = h.sent ++ (c.id, m) ∷ [] } else h

  -- `nextPortfolioEnvelope`, which returns the number.
  abbrev pub next_portfolio_envelope : Hub Q E → Hub Q E × ℕ
  next_portfolio_envelope h =
      (record h { portfolio_seq = h.portfolio_seq + 1 }, h.portfolio_seq + 1)
