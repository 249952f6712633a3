-- ===== src/Sockets/Prices.antt =====
-- The prices of src/websocket/server.ts: the subscriptions to symbols, the snapshots and the flush of
-- what has changed.
use nayft_backend.Common.{
  ℕ, ◌==◌, ◌&&◌, not, leb, Bool, true, false, if◌then◌else◌, List, [], ◌∷◌, ◌++◌, Option, none,
  some, member,
}
use nayft_backend.Common.Int.{ℤ, pos, negsuc}
use nayft_backend.Common.Sorting.{sort}
use nayft_backend.Sockets.Hub.{
  Client, Message, price, snapshot, Hub, update_clients, send_json, symref_delta,
}
use nayft_backend.Common.{add, add_all}

-- The texts of a message after `trim`, `toUpperCase` and the drop of the empty ones, where `none`
-- stands for a text that is then empty.
abbrev pub given_symbols : List (Option ℕ) → List ℕ
given_symbols [] = []
given_symbols (none ∷ raw) = given_symbols raw
given_symbols (some s ∷ raw) = s ∷ given_symbols raw

-- `new Set(newSymbols.map(…).filter(Boolean))`.
abbrev pub symbol_set : List (Option ℕ) → List ℕ
symbol_set raw = add_all (given_symbols raw) []

-- The first loop of `replaceClientSymbols`: the symbols that stay, and the count without the others.
unfoldable pub drop_symbols : List ℕ → List ℕ → (ℕ → ℤ) → List ℕ × (ℕ → ℤ)
drop_symbols wanted [] ref = ([], ref)
drop_symbols wanted (s ∷ old) ref =
    let kept = drop_symbols wanted old ref in
    let dropped = drop_symbols wanted old (symref_delta s (negsuc 0) ref) in
    if member s wanted then (s ∷ kept.0, kept.1) else dropped

-- The second loop: the symbols that are new.
unfoldable pub add_symbols : List ℕ → List ℕ → (ℕ → ℤ) → List ℕ × (ℕ → ℤ)
add_symbols [] set ref = (set, ref)
add_symbols (s ∷ wanted) set ref =
    let present = add_symbols wanted set ref in
    let absent = add_symbols wanted (set ++ s ∷ []) (symref_delta s (pos 1) ref) in
    if member s set then present else absent

-- `replaceClientSymbols` on the set of one socket and the counts.
unfoldable pub replace_symbols : List ℕ → List ℕ → (ℕ → ℤ) → List ℕ × (ℕ → ℤ)
unfolding drop_symbols add_symbols
replace_symbols old wanted ref =
    let (kept, ref') = drop_symbols wanted old ref in add_symbols wanted kept ref'

-- The sockets of one group, which have the same key.
abbrev pub Group : Type 0
Group = List ℕ × List Client

abbrev pub same_symbols : List ℕ → List ℕ → Bool
same_symbols [] [] = true
same_symbols [] (y ∷ ys) = false
same_symbols (x ∷ xs) [] = false
same_symbols (x ∷ xs) (y ∷ ys) = (x == y) && same_symbols xs ys

-- What `split('\0')` makes of the symbols that `join('\0')` has put together.
abbrev pub split_symbols : (ℕ → List ℕ) → List ℕ → List ℕ
split_symbols pieces [] = []
split_symbols pieces (s ∷ symbols) = pieces s ++ split_symbols pieces symbols

-- The key of a group, the text of the sorted symbols, by the pieces between its NULs. Two texts are
-- the same key exactly when they have the same pieces.
abbrev pub group_key : (ℕ → List ℕ) → Client → List ℕ
group_key pieces c = split_symbols pieces (sort leb c.symbols)

-- `group.get(key)!.push(client)`, on a map in insertion order.
unfoldable pub add_to_group : (ℕ → List ℕ) → Client → List Group → List Group
add_to_group pieces c [] = (group_key pieces c, c ∷ []) ∷ []
add_to_group pieces c (g ∷ groups) =
    let rest = add_to_group pieces c groups in
    if same_symbols g.0 (group_key pieces c) then (g.0, g.1 ++ c ∷ []) ∷ groups else g ∷ rest

abbrev pub is_empty : List ℕ → Bool
is_empty [] = true
is_empty (s ∷ symbols) = false

-- The first loop of `flushPriceUpdates`.
unfoldable pub group_clients : (ℕ → List ℕ) → List Client → List Group → List Group
unfolding add_to_group
group_clients pieces [] groups = groups
group_clients pieces (c ∷ clients) groups =
    group_clients pieces clients
      (if c.is_open && not (is_empty c.symbols) then add_to_group pieces c groups else groups)

module _ {Q : Type 0} where
  abbrev pub with_price : ℕ → Option Q → List (ℕ × Q) → List (ℕ × Q)
  with_price s none rest = rest
  with_price s (some q) rest = (s, q) ∷ rest

  -- The quotes of `sendFilteredSnapshot`.
  unfoldable pub prices_of : (ℕ → Option Q) → List ℕ → List (ℕ × Q)
  prices_of latest [] = []
  prices_of latest (s ∷ symbols) = with_price s (latest s) (prices_of latest symbols)

  -- The updates of a group: the quotes of its symbols that have changed.
  unfoldable pub updates_of : List ℕ → (ℕ → Option Q) → List ℕ → List (ℕ × Q)
  updates_of affected latest [] = []
  updates_of affected latest (s ∷ symbols) =
      let rest = updates_of affected latest symbols in
      if member s affected then with_price s (latest s) rest else rest

module _ {Q E : Type 0} where
  unfoldable pub replace_client_symbols : Client → List ℕ → Hub Q E → Hub Q E
  unfolding replace_symbols
  replace_client_symbols c wanted h =
      let (symbols, ref) = replace_symbols c.symbols wanted h.symref in
      record h {
        clients = update_clients c.id (λ d. record d { symbols = symbols }) h.clients;
        symref = ref;
      }

  -- `sendFilteredSnapshot`; `symbols` is what the socket's set holds.
  unfoldable pub send_filtered_snapshot : Client → List ℕ → Hub Q E → Hub Q E
  unfolding prices_of
  send_filtered_snapshot c symbols h = send_json c (snapshot (prices_of h.latest symbols)) h

  -- The loop of `applyRedisPricesMessage`; an update without a symbol is `none`.
  unfoldable pub apply_updates : List (Option ℕ × Q) → Hub Q E → Hub Q E
  apply_updates [] h = h
  apply_updates ((none, q) ∷ updates) h = apply_updates updates h
  apply_updates ((some sym, q) ∷ updates) h =
      apply_updates updates (record h {
        latest = λ s. if s == sym then some q else h.latest s;
        dirty = add sym h.dirty;
      })

  -- `applyRedisPricesMessage` of a text that is parsed, or is not one.
  unfoldable pub apply_redis_prices_message : Option (List (Option ℕ × Q)) → Hub Q E → Hub Q E
  unfolding apply_updates
  apply_redis_prices_message none h = h
  apply_redis_prices_message (some updates) h = record (apply_updates updates h) {
    is_flush_scheduled = true;
  }

  abbrev pub send_each : List (ℕ × Q) → List Client → List (ℕ × Message Q E)
  send_each updates [] = []
  send_each updates (c ∷ clients) =
      let rest = send_each updates clients in
      if c.is_open then (c.id, price updates) ∷ rest else rest

  abbrev pub send_group : List Client → List (ℕ × Q) → List (ℕ × Message Q E)
  send_group clients [] = []
  send_group clients (u ∷ updates) = send_each (u ∷ updates) clients

  -- The second loop of `flushPriceUpdates`, which makes a set of the pieces of a key.
  unfoldable pub send_groups : List ℕ → (ℕ → Option Q) → List Group → List (ℕ × Message Q E)
  unfolding updates_of
  send_groups affected latest [] = []
  send_groups affected latest (g ∷ groups) =
      send_group g.1 (updates_of affected latest (add_all g.0 []))
      ++ send_groups affected latest groups

  -- `flushPriceUpdates`, with the timer that calls it.
  unfoldable pub flush_price_updates : Hub Q E → Hub Q E
  unfolding group_clients send_groups
  flush_price_updates h =
      if is_empty h.dirty then record h { is_flush_scheduled = false } else record h {
        is_flush_scheduled = false;
        dirty = [];
        sent = h.sent ++ send_groups h.dirty h.latest (group_clients h.pieces h.clients []);
      }
