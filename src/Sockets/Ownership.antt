-- ===== src/Sockets/Ownership.antt =====
-- Who owns the addresses that the sockets of src/websocket/server.ts listen to, and whom the wallet
-- events reach.
use nayft_backend.Common.{
  ℕ, ◌≡◌, ◌==◌, ◌||◌, refl, sym, ap, ◌∙◌, Bool, true, false, if◌then◌else◌, List, [], ◌∷◌, ◌++◌,
  Option, none, some, inl, inr, filter_by, member, All, arith, Bool-cases, by_branches, ==_iff,
  ==_refl,
}
use nayft_backend.Sockets.Hub.{Client, update_clients, find_client}
use nayft_backend.Common.{add, add_all}
use nayft_backend.Sockets.Messages.{remove_client}
use nayft_backend.Sockets.Clients.{find-id, some_inj, is_found, IsDistinct}

-- Whether the user of a socket, if it has one, owns an address.
abbrev pub owned_by : (ℕ → ℕ → Bool) → Option ℕ → ℕ → Bool
owned_by owns none a = false
owned_by owns (some u) a = owns u a

-- A socket listens to addresses of its user only.
abbrev pub IsOwned : (ℕ → ℕ → Bool) → Client → Type 0
IsOwned owns c = (a : ℕ) → member a c.addresses ≡ true → owned_by owns c.notify_user a ≡ true

-- The addresses of a list are those of a user.
abbrev pub AreOf : (ℕ → ℕ → Bool) → ℕ → List ℕ → Type 0
AreOf owns u addresses = (a : ℕ) → member a addresses ≡ true → owns u a ≡ true

member_last :
    (a x : ℕ) (xs : List ℕ) → member a (xs ++ x ∷ []) ≡ true → (member a xs || (a == x)) ≡ true
member_last a x [] h = ground arith
member_last a x (y ∷ xs) h = ground (arith, member_last a x xs)

add-within :
    (P : ℕ → Type 0) (x : ℕ) (xs : List ℕ)
    → P x
    → ((a : ℕ) → member a xs ≡ true → P a)
    → (a : ℕ) → member a (add x xs) ≡ true
    → P a
add-within P x xs p h a m = elim (Bool-cases (member x xs)) [
  | inl present ↦ h a (rw present at m)
  | inr absent ↦ elim (Bool-cases (a == x)) [
    | inl same ↦ rw ((==_iff a x).0 same) p
    | inr other ↦ h a (ground (arith, member_last a x xs (rw absent at m), other))
  ]
]

-- What holds of the old elements and of the new ones holds of all.
pub add_all-within :
    (P : ℕ → Type 0) (xs set : List ℕ)
    → ((a : ℕ) → member a xs ≡ true → P a)
    → ((a : ℕ) → member a set ≡ true → P a)
    → (a : ℕ) → member a (add_all xs set) ≡ true
    → P a
add_all-within P [] set new old a m = old a m
add_all-within P (x ∷ xs) set new old a m =
    add_all-within P xs (add x set) (λ b k. new b (ground (arith, k)))
      (add-within P x set (new x (rw (==_refl x) refl)) old) a m

pub member-filter_by :
    (p : ℕ → Bool) (a : ℕ) (xs : List ℕ) → member a (filter_by p xs) ≡ true → p a ≡ true
member-filter_by p a [] h = ground arith
member-filter_by p a (x ∷ xs) h = elim (Bool-cases (p x)) [
  | inl keeps ↦ elim (Bool-cases (a == x)) [
    | inl same ↦ ap p ((==_iff a x).0 same) ∙ keeps
    | inr other ↦ member-filter_by p a xs (rw other at (rw keeps at h))
  ]
  | inr drops ↦ member-filter_by p a xs (rw drops at h)
]

missing-All :
    (P : Client → Type 0) (i : ℕ) (f : Client → Client) (cs : List Client)
    → find_client i cs ≡ none
    → All P cs
    → All P (update_clients i f cs)
missing-All P i f [] e h = tt
missing-All P i f (d ∷ cs) e (p, h) = elim (Bool-cases (d.id == i)) [
  | inl here ↦ ground (arith, ap is_found (rw here at e))
  | inr there ↦ rw there (p, missing-All P i f cs (rw there at e) h)
]

-- A change of the socket with a number, when only one socket has it.
pub update-All :
    (P : Client → Type 0) (i : ℕ) (f : Client → Client) (c : Client) (cs : List Client)
    → find_client i cs ≡ some c
    → IsDistinct cs
    → (P c → P (f c))
    → All P cs
    → All P (update_clients i f cs)
update-All P i f c [] e distinct g h = tt
update-All P i f c (d ∷ cs) e (fresh, distinct) g (p, h) = elim (Bool-cases (d.id == i)) [
  | inl here ↦
      let same = some_inj d c (rw here at e) in
      let rest = missing-All P i f cs (rw ((==_iff d.id i).0 here) at fresh) h in
      rw here (rw (sym same) at g p, rest)
  | inr there ↦ rw there (p, update-All P i f c cs (rw there at e) distinct g h)
]

pub find-All :
    (P : Client → Type 0) (i : ℕ) (c : Client) (cs : List Client)
    → find_client i cs ≡ some c
    → All P cs
    → P c
find-All P i c [] e h = ground arith
find-All P i c (d ∷ cs) e (p, h) = elim (Bool-cases (d.id == i)) [
  | inl here ↦ rw (some_inj d c (rw here at e)) at p
  | inr there ↦ find-All P i c cs (rw there at e) h
]

pub remove-All :
    (P : Client → Type 0) (i : ℕ) (cs : List Client) → All P cs → All P (remove_client i cs)
remove-All P i [] h = tt
remove-All P i (d ∷ cs) (p, h) =
    by_branches (All P) (d.id == i) (remove-All P i cs h) (p, remove-All P i cs h)

pub last-All :
    (P : Client → Type 0) (cs : List Client) (d : Client) → All P cs → P d → All P (cs ++ d ∷ [])
last-All P [] d h p = (p, tt)
last-All P (c ∷ cs) d (q, h) p = (q, last-All P cs d h p)

-- A change that never adds an address and keeps the user.
pub every-All :
    (P : Client → Type 0) (i : ℕ) (f : Client → Client) (cs : List Client)
    → ((c : Client) → P c → P (f c))
    → All P cs
    → All P (update_clients i f cs)
every-All P i f [] g h = tt
every-All P i f (d ∷ cs) g (p, h) = (by_branches P (d.id == i) (g d p) p, every-All P i f cs g h)

taken : {A : Type 0} (b : Bool) (y : A) {x z : A} → b ≡ true → x ≡ z → (if b then x else y) ≡ z
taken b y e g = rw e g

pub find_client-updated :
    (i : ℕ) (f : Client → Client) (c : Client) (cs : List Client)
    → ((d : Client) → (f d).id ≡ d.id)
    → find_client i cs ≡ some c
    → find_client i (update_clients i f cs) ≡ some (f c)
find_client-updated i f c [] same e = ground arith
find_client-updated i f c (d ∷ cs) same e = elim (Bool-cases (d.id == i)) [
  | inl here ↦ rw here (
      taken ((f d).id == i) _ (ap (λ j. j == i) (same d) ∙ here)
        (ap (λ x. some (f x)) (some_inj d c (rw here at e))))
  | inr there ↦ rw there (rw there (find_client-updated i f c cs same (rw there at e)))
]

pub found :
    (i : ℕ) (c : Client) (cs : List Client)
    → find_client i cs ≡ some c
    → find_client c.id cs ≡ some c
found i c cs e = ap (λ j. find_client j cs) (find-id i cs c e) ∙ e

-- A change of a socket that has just come.
pub update_last-All :
    (P : Client → Type 0) (i : ℕ) (f : Client → Client) (cs : List Client) (d : Client)
    → find_client i cs ≡ none
    → All P cs
    → P d
    → P (f d)
    → All P (update_clients i f (cs ++ d ∷ []))
update_last-All P i f [] d e h old new = (by_branches P (d.id == i) new old, tt)
update_last-All P i f (c ∷ cs) d e (p, h) old new = elim (Bool-cases (c.id == i)) [
  | inl here ↦ ground (arith, ap is_found (rw here at e))
  | inr there ↦ rw there (p, update_last-All P i f cs d (rw there at e) h old new)
]
