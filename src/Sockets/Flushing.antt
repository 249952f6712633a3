-- ===== src/Sockets/Flushing.antt =====
-- The flush of src/websocket/server.ts, which builds each message once for all the sockets with the
-- same symbols, against a flush that builds it for every socket.
use nayft_backend.Common.{
  All, add_all, ℕ, ◌+◌, ◌≡◌, ◌==◌, ◌&&◌, refl, ap, ◌∙◌, not, leb, true, false, if◌then◌else◌, List,
  [], ◌∷◌, ◌++◌, Option, inl, inr, sum_by, sum_by-append, arith, Bool-cases, ==_iff,
}
use nayft_backend.Common.Sorting.{sort, sort-All}
use nayft_backend.Sockets.Hub.{Client, Message, price, Hub}
use nayft_backend.Sockets.Prices.{
  Group, same_symbols, split_symbols, group_key, add_to_group, is_empty, group_clients, updates_of,
  send_each, send_group, send_groups, flush_price_updates,
}

same_symbols-eq : (xs ys : List ℕ) → same_symbols xs ys ≡ true → xs ≡ ys
same_symbols-eq [] [] e = refl
same_symbols-eq [] (y ∷ ys) e = ground arith
same_symbols-eq (x ∷ xs) [] e = ground arith
same_symbols-eq (x ∷ xs) (y ∷ ys) e = elim (Bool-cases (x == y)) [
  | inl same ↦ rw ((==_iff x y).0 same) (ap (λ zs. y ∷ zs) (same_symbols-eq xs ys (rw same at e)))
  | inr other ↦ ground (arith, other)
]

-- Symbols without a NUL are one piece each.
split_symbols-plain :
    (pieces : ℕ → List ℕ) (symbols : List ℕ)
    → All (λ s. pieces s ≡ s ∷ []) symbols
    → split_symbols pieces symbols ≡ symbols
split_symbols-plain pieces [] h = refl
split_symbols-plain pieces (s ∷ symbols) h = rw (h.0, split_symbols-plain pieces symbols h.1) refl

module _ {Q : Type 0} where
  nothing_changed : (latest : ℕ → Option Q) (symbols : List ℕ) → updates_of [] latest symbols ≡ []
  unfolding updates_of
  nothing_changed latest [] = refl
  nothing_changed latest (s ∷ symbols) = nothing_changed latest symbols

module _ {Q E : Type 0} where
  -- The message to one socket: the changed quotes of its symbols, if there are any.
  abbrev pub direct_message : Client → List (ℕ × Q) → List (ℕ × Message Q E)
  direct_message c [] = []
  direct_message c (u ∷ updates) = if c.is_open then (c.id, price (u ∷ updates)) ∷ [] else []

  -- A flush that builds the message of every socket by itself, from the symbols that `key` gives.
  unfoldable pub keyed_flush :
      (Client → List ℕ) → List ℕ → (ℕ → Option Q) → List Client → List (ℕ × Message Q E)
  unfolding updates_of
  keyed_flush key affected latest [] = []
  keyed_flush key affected latest (c ∷ clients) =
      direct_message c (updates_of affected latest (add_all (key c) []))
      ++ keyed_flush key affected latest clients

  -- The same from the sorted symbols of the socket itself.
  abbrev pub direct_flush : List ℕ → (ℕ → Option Q) → List Client → List (ℕ × Message Q E)
  direct_flush affected latest clients =
      keyed_flush (λ c. sort leb c.symbols) affected latest clients

  module _ (f : ℕ × Message Q E → ℕ) where
    send_each-last :
        (updates : List (ℕ × Q)) (clients : List Client) (c : Client)
        → sum_by f (send_each updates (clients ++ c ∷ []))
          ≡ sum_by f (send_each updates clients)
            + sum_by f (if c.is_open then (c.id, price updates) ∷ [] else [])
    send_each-last updates [] c = ground arith
    send_each-last updates (d ∷ clients) c = ground (arith, send_each-last updates clients c)

    send_group-last :
        (updates : List (ℕ × Q)) (clients : List Client) (c : Client)
        → sum_by f (send_group (clients ++ c ∷ []) updates)
          ≡ sum_by f (send_group clients updates) + sum_by f (direct_message c updates)
    send_group-last [] clients c = omega arith
    send_group-last (u ∷ updates) clients c = send_each-last (u ∷ updates) clients c

    module _ (pieces : ℕ → List ℕ) (affected : List ℕ) (latest : ℕ → Option Q) where
      add_to_group-send :
          (c : Client) (groups : List Group)
          → sum_by f (send_groups affected latest (add_to_group pieces c groups))
            ≡ sum_by f (send_groups affected latest groups)
              + sum_by f
                  (direct_message c (updates_of affected latest (add_all (group_key pieces c) [])))
      unfolding send_groups add_to_group
      add_to_group-send c [] =
          sum_by-append f
            (send_group (c ∷ []) (updates_of affected latest (add_all (group_key pieces c) []))) []
          ∙ omega (
            arith,
            send_group-last (updates_of affected latest (add_all (group_key pieces c) [])) [] c,
          )
      add_to_group-send c (g ∷ groups) = elim (Bool-cases (same_symbols g.0 (group_key pieces c))) [
        | inl same ↦ rw same (
            omega (
              arith,
              sum_by-append f
                  (send_group (g.1 ++ c ∷ []) (updates_of affected latest (add_all g.0 [])))
                  (send_groups affected latest groups),
              sum_by-append f (send_group g.1 (updates_of affected latest (add_all g.0 [])))
                  (send_groups affected latest groups),
              send_group-last (updates_of affected latest (add_all g.0 [])) g.1 c,
              ap
                  (λ (key : List ℕ).
                    sum_by f (direct_message c (updates_of affected latest (add_all key []))))
                  (same_symbols-eq g.0 (group_key pieces c) same),
            ))
        | inr other ↦ rw other (
            omega (
              arith,
              sum_by-append f (send_group g.1 (updates_of affected latest (add_all g.0 [])))
                  (send_groups affected latest (add_to_group pieces c groups)),
              sum_by-append f (send_group g.1 (updates_of affected latest (add_all g.0 [])))
                  (send_groups affected latest groups),
              add_to_group-send c groups,
            ))
      ]

      closed_message :
          (c : Client) (updates : List (ℕ × Q))
          → c.is_open ≡ false
          → sum_by f (direct_message c updates) ≡ 0
      closed_message c [] e = refl
      closed_message c (u ∷ updates) e = rw e refl

      skipped_symbols :
          (c : Client) (symbols : List ℕ)
          → (c.is_open && not (is_empty symbols)) ≡ false
          → sum_by f (
              direct_message c
                (updates_of affected latest (add_all (split_symbols pieces (sort leb symbols)) [])))
            ≡ 0
      unfolding updates_of sort
      skipped_symbols c [] s = refl
      skipped_symbols c (x ∷ symbols) s =
          closed_message c
            (updates_of affected latest
              (add_all (split_symbols pieces (sort leb (x ∷ symbols))) []))
            (ground (arith, s))

      group_clients-send :
          (clients : List Client) (groups : List Group)
          → sum_by f (send_groups affected latest (group_clients pieces clients groups))
            ≡ sum_by f (send_groups affected latest groups)
              + sum_by f (keyed_flush (group_key pieces) affected latest clients)
      unfolding group_clients keyed_flush
      group_clients-send [] groups = omega arith
      group_clients-send (c ∷ clients) groups =
          elim (Bool-cases (c.is_open && not (is_empty c.symbols))) [
            | inl here ↦ rw here (
                omega (
                  arith,
                  group_clients-send clients (add_to_group pieces c groups),
                  add_to_group-send c groups,
                  sum_by-append f
                      (direct_message c
                        (updates_of affected latest (add_all (group_key pieces c) [])))
                      (keyed_flush (group_key pieces) affected latest clients),
                ))
            | inr skip ↦ rw skip (
                omega (
                  arith,
                  group_clients-send clients groups,
                  skipped_symbols c c.symbols skip,
                  sum_by-append f
                      (direct_message c
                        (updates_of affected latest (add_all (group_key pieces c) [])))
                      (keyed_flush (group_key pieces) affected latest clients),
                ))
          ]

  nothing_sent :
      (key : Client → List ℕ) (latest : ℕ → Option Q) (clients : List Client)
      → keyed_flush key [] latest clients ≡ []
  unfolding keyed_flush
  nothing_sent key latest [] = refl
  nothing_sent key latest (c ∷ clients) =
      rw (nothing_changed latest (add_all (key c) [])) (nothing_sent key latest clients)

  keyed_flush-plain :
      (pieces : ℕ → List ℕ) (affected : List ℕ) (latest : ℕ → Option Q) (clients : List Client)
      → All (λ c. All (λ s. pieces s ≡ s ∷ []) c.symbols) clients
      → keyed_flush (group_key pieces) affected latest clients
        ≡ direct_flush affected latest clients
  unfolding keyed_flush
  keyed_flush-plain pieces affected latest [] h = refl
  keyed_flush-plain pieces affected latest (c ∷ clients) h =
      rw
        (
          split_symbols-plain pieces (sort leb c.symbols)
              (sort-All leb (λ s. pieces s ≡ s ∷ []) c.symbols h.0),
          keyed_flush-plain pieces affected latest clients h.1,
        )
        refl

  abbrev Refines : (ℕ × Message Q E → ℕ) → Hub Q E → Hub Q E → Type 0
  Refines f h h' =
      (sum_by f h'.sent
        ≡ sum_by f h.sent + sum_by f (keyed_flush (group_key h.pieces) h.dirty h.latest h.clients))
      × (h'.dirty ≡ [])
      × (h'.is_flush_scheduled ≡ false)
      × (h'.clients ≡ h.clients)
      × (h'.latest ≡ h.latest)

  flush_dirty-keyed :
      (f : ℕ × Message Q E → ℕ) (dirty : List ℕ) (h : Hub Q E)
      → h.dirty ≡ dirty
      → Refines f h (flush_price_updates h)
  unfolding flush_price_updates
  flush_dirty-keyed f [] h e = rw e (
    omega (arith, ap (sum_by f) (nothing_sent (group_key h.pieces) h.latest h.clients)),
    refl,
    refl,
    refl,
    refl,
  )
  flush_dirty-keyed f (s ∷ dirty) h e = rw e (
    omega (
      arith,
      sum_by-append f h.sent
          (send_groups (s ∷ dirty) h.latest (group_clients h.pieces h.clients [])),
      group_clients-send f h.pieces (s ∷ dirty) h.latest h.clients [],
    ),
    refl,
    refl,
    refl,
    refl,
  )

  -- A flush leaves no symbol marked as changed and no timer set, and keeps the sockets and the prices.
  -- If no socket has a symbol that holds a NUL, then, whatever the groups, it sends every message as
  -- often as a flush that builds it for every open socket by itself: any sum over the messages has the
  -- same value.
  pub flush-direct :
      (f : ℕ × Message Q E → ℕ) (h : Hub Q E)
      → All (λ c. All (λ s. h.pieces s ≡ s ∷ []) c.symbols) h.clients
      → let h' = flush_price_updates h in
        (sum_by f h'.sent ≡ sum_by f h.sent + sum_by f (direct_flush h.dirty h.latest h.clients))
        × (h'.dirty ≡ [])
        × (h'.is_flush_scheduled ≡ false)
        × (h'.clients ≡ h.clients)
        × (h'.latest ≡ h.latest)
  flush-direct f h plain =
      let (sums, clean, timer, clients, latest) = flush_dirty-keyed f h.dirty h refl in
      (
        sums
            ∙ ap (λ sent. sum_by f h.sent + sum_by f sent)
                (keyed_flush-plain h.pieces h.dirty h.latest h.clients plain),
        clean,
        timer,
        clients,
        latest,
      )
