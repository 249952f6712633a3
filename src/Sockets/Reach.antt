-- ===== src/Sockets/Reach.antt =====
-- The broadcasts of src/websocket/server.ts after a run of its events.
use nayft_backend.Common.{
  ℕ, ◌+◌, ◌≡◌, ◌==◌, ◌&&◌, ◌||◌, refl, Bool, true, false, List, [], ◌∷◌, ◌++◌, Option, some, inl,
  inr, any, member, All, arith, Bool-cases, ==_refl,
}
use nayft_backend.Sockets.Hub.{Client, Realtime, Message, realtime, Hub}
use nayft_backend.Sockets.Portfolio.{
  has_address_intersection, target_addresses, broadcast_to, broadcast_portfolio_realtime,
}
use nayft_backend.Sockets.Messages.{Event, step, run}
use nayft_backend.Sockets.Counting.{IsCounted, IsPossible}
use nayft_backend.Sockets.Steps.{step-Counts}
use nayft_backend.Sockets.Ownership.{owned_by, IsOwned, AreOf}
use nayft_backend.Sockets.Owners.{IsFaithful, Owned, step-Owned}

module _ (owns : ℕ → ℕ → Bool) where
  module _ {Q E : Type 0} where
    module _ (verified : ℕ → Bool) (cached : ℕ → Option (List ℕ)) where
      -- A run in which no socket connects twice, changes its user, or is given what another user owns.
      abbrev pub AreFaithful : List (Event Q E) → Hub Q E → Type 0
      AreFaithful [] h = Unit
      AreFaithful (e ∷ events) h =
          (IsPossible e h.clients × IsFaithful owns e h.clients)
          × AreFaithful events (step verified cached e h)

      run-Owned :
          (events : List (Event Q E)) (h : Hub Q E)
          → ((u : ℕ) (owned : List ℕ) → cached u ≡ some owned → AreOf owns u owned)
          → AreFaithful events h
          → IsCounted h.clients h.symref
          → Owned owns h
          → Owned owns (run verified cached events h)
      unfolding run
      run-Owned [] h mine ps counts k = k
      run-Owned (e ∷ events) h mine ((o, p), ps) counts k =
          run-Owned events (step verified cached e h) mine ps
            (step-Counts verified cached e h o counts)
            (step-Owned owns verified cached e h mine counts.distinct o p k)

  -- Whether the user of a socket owns one of some addresses.
  abbrev pub owns_any : List ℕ → Client → Bool
  owns_any targets c = any (owned_by owns c.notify_user) targets

  -- What is sent goes to an open socket whose user owns one of the addresses.
  abbrev pub IsHeard : {M : Type 0} → List ℕ → List Client → ℕ × M → Type 0
  IsHeard targets clients (i, m) =
      any (λ c. (c.id == i) && (c.is_open && owns_any targets c)) clients ≡ true

  heard_first :
      (same live hit owned rest : Bool)
      → (live && hit) ≡ true
      → (hit ≡ true → owned ≡ true)
      → same ≡ true
      → (same && (live && owned) || rest) ≡ true
  heard_first true true true owned rest e f s = rw (f refl) refl
  heard_first true true false owned rest e f s = ground arith
  heard_first true false hit owned rest e f s = ground arith
  heard_first false live hit owned rest e f s = ground arith

  any-owned :
      (targets : List ℕ) (c : Client)
      → IsOwned owns c
      → has_address_intersection c.addresses targets ≡ true
      → owns_any targets c ≡ true
  any-owned [] c o h = h
  any-owned (a ∷ targets) c o h = elim (Bool-cases (member a c.addresses)) [
    | inl m ↦ ground (arith, o a m)
    | inr m ↦ ground (arith, any-owned targets c o (rw m at h))
  ]

  IsHeard-later :
      {M : Type 0} (targets : List ℕ) (d : Client) (clients : List Client) (sent : List (ℕ × M))
      → All (IsHeard targets clients) sent
      → All (IsHeard targets (d ∷ clients)) sent
  IsHeard-later targets d clients [] h = tt
  IsHeard-later targets d clients ((i, m) ∷ sent) (p, h) =
      (ground (arith, p), IsHeard-later targets d clients sent h)

  module _ {Q E : Type 0} where
    pub broadcast_to-IsHeard :
        (m : Message Q E) (targets : List ℕ) (clients : List Client)
        → All (IsOwned owns) clients
        → All (IsHeard targets clients) (broadcast_to m targets clients)
    unfolding broadcast_to
    broadcast_to-IsHeard m targets [] h = tt
    broadcast_to-IsHeard m targets (c ∷ clients) (o, h) =
        let rest =
          IsHeard-later targets c clients (broadcast_to m targets clients)
            (broadcast_to-IsHeard m targets clients h) in
        elim (Bool-cases (c.is_open && has_address_intersection c.addresses targets)) [
          | inl e ↦ rw e (
            heard_first (c.id == c.id) c.is_open _ _ _ e (any-owned targets c o) (==_refl c.id),
            rest,
          )
          | inr e ↦ rw e rest
        ]

    -- Some sockets of which Redis counts the symbols right, and each of which listens to addresses of
    -- its user only, go through any events in which no number connects twice, no socket changes from
    -- one user to another, and no addresses are loaded for a socket that its user does not own. Then a
    -- message of the portfolio channel adds to what is sent only messages to open sockets whose user
    -- owns an address of the message, as long as the cache holds for each user what it owns.
    pub run-IsHeard :
        (verified : ℕ → Bool) (cached : ℕ → Option (List ℕ)) (events : List (Event Q E))
        (h : Hub Q E) (r : Realtime E)
        → ((u : ℕ) (owned : List ℕ) → cached u ≡ some owned → AreOf owns u owned)
        → AreFaithful verified cached events h
        → IsCounted h.clients h.symref
        → All (IsOwned owns) h.clients
        → let h' = run verified cached events h in
          (new : List (ℕ × Message Q E)) × ((broadcast_portfolio_realtime r h').sent
            ≡ h'.sent ++ new)
          × All (IsHeard (target_addresses r) h'.clients) new
    unfolding broadcast_portfolio_realtime
    run-IsHeard verified cached events h r mine ps counts k =
        let h' = run verified cached events h in
        (
          broadcast_to (realtime (h'.portfolio_seq + 1) r) (target_addresses r) h'.clients,
          refl,
          broadcast_to-IsHeard (realtime (h'.portfolio_seq + 1) r) (target_addresses r) h'.clients
              (run-Owned verified cached events h mine ps counts k),
        )
