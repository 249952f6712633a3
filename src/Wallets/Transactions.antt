-- ===== src/Wallets/Transactions.antt =====
-- How many summaries src/utils/eventSummaryBuilder.ts writes.
use nayft_backend.Common.{
  ℕ, suc, ◌+◌, ◌≤◌, ◌≡◌, ◌==◌, ◌||◌, refl, sym, ap, ◌∙◌, Bool, true, false, if◌then◌else◌, List, [],
  ◌∷◌, ◌++◌, map, length, length-append, Option, none, some, filter_by, member, add, add_all,
  sum_by, All, arith, inl, inr, Bool-cases, ==_iff,
}
use nayft_backend.Wallets.Summaries.{
  WalletRawEvent, is_text, get_transaction_count, Transaction, add_to_transaction, by_transaction,
  Summary, swap_or_each, format_single_event, transaction_summaries, all_summaries,
  build_event_summaries,
}

length-map : {A B : Type 0} (f : A → B) (xs : List A) → length (map f xs) ≡ length xs
length-map f [] = refl
length-map f (x ∷ xs) = ap suc (length-map f xs)

abbrev keys : List Transaction → List ℕ
keys ts = map (λ t. t.0) ts

first_stays :
    (x y : ℕ) (xs : List ℕ) (b : Bool)
    → ◌≡◌ {A = List ℕ}
        (x ∷ (if b then xs else xs ++ y ∷ []))
        (if b then x ∷ xs else x ∷ xs ++ y ∷ [])
first_stays x y xs true = refl
first_stays x y xs false = refl

keys-add :
    (e : WalletRawEvent) (ts : List Transaction)
    → keys (add_to_transaction e ts) ≡ add e.tx_hash (keys ts)
unfolding add_to_transaction
keys-add e [] = refl
keys-add e (t ∷ ts) = elim (Bool-cases (e.tx_hash == t.0)) [
  | inl same ↦ rw same refl
  | inr other ↦ rw other (
      ap (λ ks. t.0 ∷ ks) (keys-add e ts)
      ∙ first_stays t.0 e.tx_hash (keys ts) (member e.tx_hash (keys ts)))
]

keys-by_transaction :
    (events : List WalletRawEvent) (ts : List Transaction)
    → keys (by_transaction events ts) ≡ add_all (map (λ e. e.tx_hash) events) (keys ts)
unfolding by_transaction
keys-by_transaction [] ts = refl
keys-by_transaction (e ∷ events) ts =
    keys-by_transaction events (add_to_transaction e ts)
    ∙ ap (add_all (map (λ d. d.tx_hash) events)) (keys-add e ts)

module _ (p : ℕ → Bool) where
  member-filter_by : (x : ℕ) (xs : List ℕ) → p x ≡ true → member x (filter_by p xs) ≡ member x xs
  member-filter_by x [] e = refl
  member-filter_by x (y ∷ xs) e = elim (Bool-cases (p y)) [
    | inl keeps ↦ rw keeps (ap (λ b. (x == y) || b) (member-filter_by x xs e))
    | inr drops ↦ ground (arith, drops, member-filter_by x xs e, (==_iff x y).0)
  ]

  filter_by-last :
      (x : ℕ) (xs : List ℕ)
      → filter_by p (xs ++ x ∷ []) ≡ (if p x then filter_by p xs ++ x ∷ [] else filter_by p xs)
  filter_by-last x [] = refl
  filter_by-last x (y ∷ xs) = ground (arith, filter_by-last x xs)

  filter_by-add :
      (x : ℕ) (xs : List ℕ)
      → filter_by p (add x xs) ≡ (if p x then add x (filter_by p xs) else filter_by p xs)
  filter_by-add x xs = ground (arith, filter_by-last x xs, member-filter_by x xs)

  -- Dropping some elements first or last gives the same set.
  filter_by-add_all :
      (xs set : List ℕ) → filter_by p (add_all xs set) ≡ add_all (filter_by p xs) (filter_by p set)
  filter_by-add_all [] set = refl
  filter_by-add_all (x ∷ xs) set = elim (Bool-cases (p x)) [
    | inl keeps ↦ rw keeps (
        filter_by-add_all xs (add x set)
        ∙ ap (add_all (filter_by p xs)) (rw keeps at (filter_by-add x set)))
    | inr drops ↦ rw drops (
        filter_by-add_all xs (add x set)
        ∙ ap (add_all (filter_by p xs)) (rw drops at (filter_by-add x set)))
  ]

  length-filter_by : (xs : List ℕ) → length (filter_by p xs) ≤ length xs
  length-filter_by [] = omega arith
  length-filter_by (x ∷ xs) = ground (arith, length-filter_by xs)

size-add :
    (e : WalletRawEvent) (ts : List Transaction)
    → sum_by (λ t. length t.1) (add_to_transaction e ts) ≡ sum_by (λ t. length t.1) ts + 1
unfolding add_to_transaction
size-add e [] = refl
size-add e (t ∷ ts) = elim (Bool-cases (e.tx_hash == t.0)) [
  | inl same ↦ rw same (omega (arith, length-append t.1 (e ∷ [])))
  | inr other ↦ rw other (omega (arith, size-add e ts))
]

size-by_transaction :
    (events : List WalletRawEvent) (ts : List Transaction)
    → sum_by (λ t. length t.1) (by_transaction events ts)
      ≡ sum_by (λ t. length t.1) ts + length events
unfolding by_transaction
size-by_transaction [] ts = omega arith
size-by_transaction (e ∷ events) ts =
    omega (arith, size-by_transaction events (add_to_transaction e ts), size-add e ts)

abbrev Filled : List Transaction → Type 0
Filled ts = All (λ t. 1 ≤ length t.1) ts

fill-add :
    (e : WalletRawEvent) (ts : List Transaction) → Filled ts → Filled (add_to_transaction e ts)
unfolding add_to_transaction
fill-add e [] h = (omega arith, tt)
fill-add e (t ∷ ts) (one, h) = elim (Bool-cases (e.tx_hash == t.0)) [
  | inl same ↦ rw same (omega (arith, length-append t.1 (e ∷ [])), h)
  | inr other ↦ rw other (one, fill-add e ts h)
]

fill-by :
    (events : List WalletRawEvent) (ts : List Transaction)
    → Filled ts
    → Filled (by_transaction events ts)
unfolding by_transaction
fill-by [] ts h = h
fill-by (e ∷ events) ts h = fill-by events (add_to_transaction e ts) (fill-add e ts h)

module _ (is_matic : ℕ → Bool) (pol : ℕ) (format_value : ℕ → ℕ) where
  abbrev AreSome : List WalletRawEvent → List Summary → Type 0
  AreSome events summaries = (1 ≤ length summaries) × (length summaries ≤ length events)

  swap_or_each-AreSome :
      (o : Option Summary) (events : List WalletRawEvent)
      → 1 ≤ length events
      → AreSome events (swap_or_each is_matic pol format_value o events)
  swap_or_each-AreSome none events h =
      let same = length-map (format_single_event is_matic pol format_value) events in
      (omega (arith, same), omega (arith, same))
  swap_or_each-AreSome (some s) events h = (omega arith, omega arith)

  transaction-AreSome :
      (addr : ℕ) (events : List WalletRawEvent)
      → 1 ≤ length events
      → AreSome events (transaction_summaries is_matic pol format_value addr events)
  unfolding transaction_summaries
  transaction-AreSome addr events h = swap_or_each-AreSome _ events h

  all_summaries-count :
      (addr : ℕ) (ts : List Transaction)
      → Filled ts
      → (length ts ≤ length (all_summaries is_matic pol format_value addr ts))
        × (length (all_summaries is_matic pol format_value addr ts) ≤ sum_by (λ t. length t.1) ts)
  all_summaries-count addr [] h = (omega arith, omega arith)
  all_summaries-count addr (t ∷ ts) (one, h) =
      let here = transaction_summaries is_matic pol format_value addr t.1 in
      let rest = all_summaries is_matic pol format_value addr ts in
      let (low, high) = transaction-AreSome addr t.1 one in
      let (rest_low, rest_high) = all_summaries-count addr ts h in
      (
        omega (arith, length-append here rest, low, rest_low),
        omega (arith, length-append here rest, high, rest_high),
      )

  -- Whatever the events of a batch and the address that is watched: there are at least as many
  -- summaries as transactions are counted, and at most as many as events.
  pub build_event_summaries-count :
      (events : List WalletRawEvent) (monitored : ℕ)
      → let summaries = build_event_summaries is_matic pol format_value events monitored in
        (get_transaction_count events ≤ length summaries) × (length summaries ≤ length events)
  unfolding build_event_summaries get_transaction_count
  build_event_summaries-count events monitored =
      let ts = by_transaction events [] in
      let hashes = map (λ (e : WalletRawEvent). e.tx_hash) events in
      let (low, high) = all_summaries-count monitored ts (fill-by events [] tt) in
      (
        omega (
          arith,
          low,
          ap length (sym (filter_by-add_all is_text hashes [])),
          length-filter_by is_text (add_all hashes []),
          ap length (keys-by_transaction events []),
          length-map (λ (t : Transaction). t.0) ts,
        ),
        omega (arith, high, size-by_transaction events []),
      )
