-- ===== src/Notifications/Taking.antt =====
-- Which unread notifications a write of src/modules/notifications/service.ts takes away.
use nayft_backend.Common.{
  ℕ, ◌+◌, ◌≤◌, ◌≡◌, ◌==◌, ◌&&◌, refl, Bool, true, false, if◌then◌else◌, List, [], ◌∷◌, map, any,
  sum_by, arith, inl, inr, Bool-cases, by_branches,
}
use nayft_backend.Notifications.Listing.{Status, unread, same_status, Notification}
use nayft_backend.Notifications.Unread.{with_status, id_count, is_unread_of, count_unread}

pub id_count-map :
    (i : ℕ) (p : Notification → Bool) (status : Status) (ns : List Notification)
    → id_count i (map (with_status p status) ns) ≡ id_count i ns
id_count-map i p status [] = refl
id_count-map i p status (n ∷ ns) =
    by_branches
      (λ (m : Notification).
        (if m.id == i then 1 else 0) + id_count i (map (with_status p status) ns)
        ≡ id_count i (n ∷ ns))
      (p n) (omega (arith, id_count-map i p status ns)) (omega (arith, id_count-map i p status ns))

-- The unread documents that a write takes away.
abbrev pub taken_by : ℕ → (Notification → Bool) → List Notification → ℕ
taken_by u p ns = sum_by (λ n. if p n && is_unread_of u n then 1 else 0) ns

pub count_unread-map :
    (u : ℕ) (p : Notification → Bool) (status : Status) (ns : List Notification)
    → same_status status unread ≡ false
    → count_unread u (map (with_status p status) ns) + taken_by u p ns ≡ count_unread u ns
count_unread-map u p status [] e = refl
count_unread-map u p status (n ∷ ns) e = elim (Bool-cases (p n)) [
  | inl hit ↦ rw hit (ground (arith, e, count_unread-map u p status ns e))
  | inr miss ↦ rw miss (omega (arith, count_unread-map u p status ns e))
]

no_id :
    (id : ℕ) (q : Notification → Bool) (ns : List Notification)
    → id_count id ns ≡ 0
    → any (λ n. (n.id == id) && q n) ns ≡ false
no_id id q [] e = refl
no_id id q (n ∷ ns) e = ground (arith, no_id id q ns)

none_taken :
    (u id : ℕ) (q : Notification → Bool) (ns : List Notification)
    → id_count id ns ≡ 0
    → taken_by u (λ n. (n.id == id) && q n) ns ≡ 0
none_taken u id q [] e = refl
none_taken u id q (n ∷ ns) e = ground (arith, none_taken u id q ns)

abbrev pub own : ℕ → ℕ → Notification → Bool
own user id n = (n.id == id) && is_unread_of user n

-- At most one document has an identity, so at most one is taken away, from its user.
pub own_taken :
    (u user id : ℕ) (ns : List Notification)
    → id_count id ns ≤ 1
    → taken_by u (own user id) ns ≡ (if (u == user) && any (own user id) ns then 1 else 0)
own_taken u user id [] e = ground arith
own_taken u user id (n ∷ ns) e = elim (Bool-cases (n.id == id)) [
  | inl here ↦
      let gone : id_count id ns ≡ 0 = ground (arith, e, here) in
      ground (
        arith,
        here,
        none_taken u id (is_unread_of user) ns gone,
        no_id id (is_unread_of user) ns gone,
      )
  | inr there ↦ ground (arith, there, own_taken u user id ns (ground (arith, e, there)))
]

no_id_taken :
    (u id : ℕ) (ns : List Notification) → id_count id ns ≡ 0 → taken_by u (λ n. n.id == id) ns ≡ 0
no_id_taken u id [] e = refl
no_id_taken u id (n ∷ ns) e = ground (arith, no_id_taken u id ns)

-- The same for a document that is found by its identity, when it is its user's.
pub id_taken :
    (u user id : ℕ) (ns : List Notification)
    → id_count id ns ≤ 1
    → any (λ n. (n.id == id) && (n.user == user)) ns ≡ true
    → taken_by u (λ n. n.id == id) ns ≡ (if (u == user) && any (own user id) ns then 1 else 0)
id_taken u user id [] e a = ground arith
id_taken u user id (n ∷ ns) e a = elim (Bool-cases (n.id == id)) [
  | inl here ↦
      let gone : id_count id ns ≡ 0 = ground (arith, e, here) in
      ground (
        arith,
        here,
        no_id_taken u id ns gone,
        no_id id (is_unread_of user) ns gone,
        no_id id (λ m. m.user == user) ns gone,
        a,
      )
  | inr there ↦
      ground
        (arith, there, id_taken u user id ns (ground (arith, e, there)) (ground (arith, a, there)))
]

-- Nothing of another user is taken.
pub others_taken :
    (u user : ℕ) (q : Notification → Bool) (ns : List Notification)
    → (u == user) ≡ false
    → taken_by u (λ n. is_unread_of user n && q n) ns ≡ 0
others_taken u user q [] e = refl
others_taken u user q (n ∷ ns) e = ground (arith, e, others_taken u user q ns e)
