-- ===== src/Wallets/Delivery.antt =====
-- From src/services/walletEventAggregator.ts to src/websocket/server.ts: whom a stored wallet event is
-- told.
use nayft_backend.Common.{
  ℕ, zero, suc, ◌≡◌, ◌==◌, ◌&&◌, ◌||◌, refl, sym, ap, ◌∙◌, Bool, true, false, List, [], ◌∷◌, ◌++◌,
  any, get_elem?, All, Option, none, some, arith,
}
use nayft_backend.Sockets.Hub.{Client, Message, Hub, wallet_event}
use nayft_backend.Sockets.Portfolio.{broadcast_portfolio_realtime}
use nayft_backend.Sockets.Counting.{IsCounted}
use nayft_backend.Sockets.Ownership.{IsOwned, AreOf, owned_by}
use nayft_backend.Sockets.Reach.{AreFaithful, IsHeard, owns_any, run-IsHeard}
use nayft_backend.Sockets.Messages
use nayft_backend.Wallets.Aggregator.{WalletEvent, Aggregator, Event, run}
use nayft_backend.Wallets.Attribution.{AreForOwners, IsOwners, IsRight, run-IsOwners}

-- Each address has one owner.
abbrev pub owns : (ℕ → ℕ) → ℕ → ℕ → Bool
owns owner u a = owner a == u

abbrev pub is_user : ℕ → Option ℕ → Bool
is_user u none = false
is_user u (some v) = u == v

-- A message goes to an open socket of a user.
abbrev pub IsToldTo : {M : Type 0} → ℕ → List Client → ℕ × M → Type 0
IsToldTo u clients (i, m) =
    any (λ c. (c.id == i) && (c.is_open && is_user u c.notify_user)) clients ≡ true

abbrev or_other : {A : Type 0} → A → Option A → A
or_other x none = x
or_other x (some y) = y

elem-All :
    {A : Type 0} (P : A → Type 0) (xs : List A) (k : ℕ) (x : A)
    → All P xs
    → get_elem? xs k ≡ some x
    → P x
elem-All P [] k x h e = ground arith
elem-All P (y ∷ xs) zero x (p, h) e = rw (ap (or_other y) e) at p
elem-All P (y ∷ xs) (suc k) x (p, h) e = elem-All P xs k x h e

same_user :
    (owner : ℕ → ℕ) (a : ℕ) (o : Option ℕ)
    → (owned_by (owns owner) o a || false) ≡ is_user (owner a) o
same_user owner a none = refl
same_user owner a (some v) = ground arith

same_told :
    (owner : ℕ → ℕ) (a i : ℕ) (clients : List Client)
    → any (λ c. (c.id == i) && (c.is_open && owns_any (owns owner) (a ∷ []) c)) clients
      ≡ any (λ c. (c.id == i) && (c.is_open && is_user (owner a) c.notify_user)) clients
same_told owner a i [] = refl
same_told owner a i (c ∷ clients) =
    ap
      (λ b.
        ((c.id == i) && (c.is_open && b))
        || any (λ c. (c.id == i) && (c.is_open && owns_any (owns owner) (a ∷ []) c)) clients)
      (same_user owner a c.notify_user)
    ∙ ap (λ b. ((c.id == i) && (c.is_open && is_user (owner a) c.notify_user)) || b)
        (same_told owner a i clients)

told-All :
    {M : Type 0} (owner : ℕ → ℕ) (a u : ℕ) (clients : List Client) (new : List (ℕ × M))
    → u ≡ owner a
    → All (IsHeard (owns owner) (a ∷ []) clients) new
    → All (IsToldTo u clients) new
told-All owner a u clients [] e h = tt
told-All owner a u clients ((i, m) ∷ new) e (p, h) =
    (rw e (sym (same_told owner a i clients) ∙ p), told-All owner a u clients new e h)

module _ {Q E : Type 0} (owner : ℕ → ℕ) where
  -- Wallets: each raw event that comes is for the one owner of its address. Sockets: no number connects
  -- twice, no socket changes from one user to another, what is cached or loaded for a user are its
  -- addresses, and at the start the references are right and each socket listens to addresses of its
  -- user only. Then, whatever happens on both sides, telling a stored wallet event adds to what is
  -- sent only messages to open sockets of the user for whom the event is stored.
  pub wallet_event-IsToldTo :
      (is_matic : ℕ → Bool) (pol : ℕ) (format_value : ℕ → ℕ) (traffic : List (Event E))
      (s : Aggregator E) (verified : ℕ → Bool) (cached : ℕ → Option (List ℕ))
      (events : List (Messages.Event Q (WalletEvent E))) (h : Hub Q (WalletEvent E)) (k : ℕ)
      (d : WalletEvent E)
      → AreForOwners is_matic pol format_value owner traffic
      → IsOwners is_matic pol format_value owner s
      → get_elem? (run is_matic pol format_value traffic s).saved k ≡ some d
      → ((u : ℕ) (mine : List ℕ) → cached u ≡ some mine → AreOf (owns owner) u mine)
      → AreFaithful (owns owner) verified cached events h
      → IsCounted h.clients h.symref
      → All (IsOwned (owns owner)) h.clients
      → let h' = Messages.run verified cached events h in
        (new : List (ℕ × Message Q (WalletEvent E))) × ((broadcast_portfolio_realtime
            (wallet_event d.address d)
            h').sent
          ≡ h'.sent ++ new)
        × All (IsToldTo d.user h'.clients) new
  wallet_event-IsToldTo is_matic pol format_value traffic s verified cached events h k d own right
        stored mine faithful counted listening =
      let stored_right = run-IsOwners is_matic pol format_value owner traffic s own right in
      let event_right =
        elem-All (IsRight is_matic pol format_value owner)
          (run is_matic pol format_value traffic s).saved k d stored_right.right stored in
      let h' = Messages.run verified cached events h in
      let (new, sent, heard) =
        run-IsHeard (owns owner) verified cached events h (wallet_event d.address d) mine faithful
          counted listening in
      (new, sent, told-All owner d.address d.user h'.clients new event_right.0 heard)
