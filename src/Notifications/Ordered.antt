-- ===== src/Notifications/Ordered.antt =====
-- Ordered lists of notifications, and what comes after one of them.
use nayft_backend.Common.{
  ℕ, zero, suc, ◌≤◌, ◌≡◌, ◌&&◌, ltb, refl, ap, Bool, true, false, List, [], ◌∷◌, ◌++◌, length, take,
  drop, filter_by, All, arith, inl, inr, Bool-cases,
}
use nayft_backend.Notifications.Listing.{Notification, is_before, Precedes, IsOrdered}

module _ {A : Type 0} where
  pub filter_by-and :
      (p q : A → Bool) (xs : List A) → filter_by (λ x. p x && q x) xs ≡ filter_by q (filter_by p xs)
  filter_by-and p q [] = refl
  filter_by-and p q (x ∷ xs) = ground (arith, filter_by-and p q xs)

  filter_by-every : (p : A → Bool) (xs : List A) → All (λ x. p x ≡ true) xs → filter_by p xs ≡ xs
  filter_by-every p [] h = refl
  filter_by-every p (x ∷ xs) (e, h) = rw e (ap (λ ys. x ∷ ys) (filter_by-every p xs h))

  filter_by-All : (P : A → Type 0) (p : A → Bool) (xs : List A) → All P xs → All P (filter_by p xs)
  filter_by-All P p [] h = tt
  filter_by-All P p (x ∷ xs) (e, h) = elim (Bool-cases (p x)) [
    | inl keeps ↦ rw keeps (e, filter_by-All P p xs h)
    | inr drops ↦ rw drops (filter_by-All P p xs h)
  ]

  middle :
      (P : A → Type 0) (front : List A) (d : A) (rest : List A) → All P (front ++ d ∷ rest) → P d
  middle P [] d rest (p, h) = p
  middle P (x ∷ front) d rest (p, h) = middle P front d rest h

  pub take-take : (n : ℕ) (xs : List A) → take n (take (suc n) xs) ≡ take n xs
  take-take zero xs = refl
  take-take (suc n) [] = refl
  take-take (suc n) (x ∷ xs) = ap (λ ys. x ∷ ys) (take-take n xs)

  pub more-take : (n : ℕ) (xs : List A) → ltb n (length (take (suc n) xs)) ≡ ltb n (length xs)
  more-take zero [] = refl
  more-take zero (x ∷ xs) = ground arith
  more-take (suc n) [] = refl
  more-take (suc n) (x ∷ xs) = ground (arith, more-take n xs)

  pub take_all : (n : ℕ) (xs : List A) → length xs ≤ n → take n xs ≡ xs
  take_all zero [] h = refl
  take_all zero (x ∷ xs) h = ground arith
  take_all (suc n) [] h = refl
  take_all (suc n) (x ∷ xs) h = ap (λ ys. x ∷ ys) (take_all n xs (omega (arith, h)))

  pub take-drop : (n : ℕ) (xs : List A) → take n xs ++ drop n xs ≡ xs
  take-drop zero xs = refl
  take-drop (suc n) [] = refl
  take-drop (suc n) (x ∷ xs) = ap (λ ys. x ∷ ys) (take-drop n xs)

  -- A list that is longer than a page splits at the last element of the page.
  pub record IsCut (n : ℕ) (xs : List A) (init : List A) (d : A) : Type 0 where
    pub page : take n xs ≡ init ++ d ∷ []
    pub whole : xs ≡ init ++ d ∷ drop n xs

  last_of_page :
      (n : ℕ) (xs : List A)
      → suc n ≤ length xs
      → (init : List A) × (d : A) × IsCut (suc n) xs init d
  last_of_page n [] h = ground arith
  last_of_page zero (x ∷ xs) h = ([], x, record { page = refl; whole = refl })
  last_of_page (suc n) (x ∷ xs) h =
      let (init, d, s) = last_of_page n xs (omega (arith, h)) in
      (x ∷ init, d, record { page = ap (λ ys. x ∷ ys) s.page; whole = ap (λ ys. x ∷ ys) s.whole })

  -- The same with a page of at least one.
  pub split_page :
      (n : ℕ) (xs : List A) → 1 ≤ n → n ≤ length xs → (init : List A) × (d : A) × IsCut n xs init d
  split_page zero xs one h = ground arith
  split_page (suc n) xs one h = last_of_page n xs h

  pub append_assoc : (xs ys zs : List A) → (xs ++ ys) ++ zs ≡ xs ++ (ys ++ zs)
  append_assoc [] ys zs = refl
  append_assoc (x ∷ xs) ys zs = ap (λ l. x ∷ l) (append_assoc xs ys zs)

pub filter_by-IsOrdered :
    (p : Notification → Bool) (ns : List Notification) → IsOrdered ns → IsOrdered (filter_by p ns)
filter_by-IsOrdered p [] h = tt
filter_by-IsOrdered p (n ∷ ns) (first, h) = elim (Bool-cases (p n)) [
  | inl keeps ↦ rw keeps (filter_by-All (Precedes n) p ns first, filter_by-IsOrdered p ns h)
  | inr drops ↦ rw drops (filter_by-IsOrdered p ns h)
]

behind : (n m : Notification) → Precedes n m → is_before n.created_at n.id m ≡ true
behind n m (inl e) = ground (arith, e)
behind n m (inr (e, f)) = ground (arith, e, f)

every_behind :
    (n : Notification) (ms : List Notification)
    → All (Precedes n) ms
    → All (λ m. is_before n.created_at n.id m ≡ true) ms
every_behind n [] h = tt
every_behind n (m ∷ ms) (p, h) = (behind n m p, every_behind n ms h)

asymmetric : (n m : Notification) → Precedes n m → is_before m.created_at m.id n ≡ false
asymmetric n m (inl e) = ground (arith, e)
asymmetric n m (inr (e, f)) = ground (arith, e, f)

irreflexive : (n : Notification) → is_before n.created_at n.id n ≡ false
irreflexive n = ground arith

-- In an ordered list, what comes after an element is what stands behind it.
pub after_element :
    (front : List Notification) (d : Notification) (rest : List Notification)
    → IsOrdered (front ++ d ∷ rest)
    → filter_by (is_before d.created_at d.id) (front ++ d ∷ rest) ≡ rest
after_element [] d rest (first, h) =
    rw (irreflexive d)
      (filter_by-every (is_before d.created_at d.id) rest (every_behind d rest first))
after_element (x ∷ front) d rest (first, h) =
    rw (asymmetric x d (middle (Precedes x) front d rest first)) (after_element front d rest h)
