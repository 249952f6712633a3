-- ===== src/Sockets/Counting.antt =====
-- What the changes of one socket in src/websocket/server.ts mean for the references of the symbols.
use nayft_backend.Common.{
  ℕ, ◌+◌, ◌≤◌, ◌≡◌, ◌==◌, refl, sym, ap, ◌∙◌, true, false, List, [], ◌∷◌, ◌++◌, none, some,
  sum_by-append, All, arith, inl, inr, Bool-cases,
}
use nayft_backend.Common.Int.{ℤ, pos, ◌+ℤ◌, eq_of_parts, +ℤ_parts, pos_part, neg_part}
use nayft_backend.Sockets.Hub.{Client, update_clients, find_client}
use nayft_backend.Sockets.Prices.{replace_symbols}
use nayft_backend.Sockets.Portfolio.{with_addresses, with_user, closing}
use nayft_backend.Sockets.Messages.{Event, connect, new_client, remove_client, release_symbols}
use nayft_backend.Sockets.References.{count, plus_zero, replace_symbols-count, replace_symbols-set}
use nayft_backend.Sockets.Clients.{
  is_found, holders, IsDistinct, IsOther, find-id, update-IsDistinct, holders-other, with_symbols,
  holders-replace, holders-remove, release-count, sets-update, find-set, sets-remove,
  remove-IsDistinct,
}

-- Every reference count is the number of sockets with the symbol, since each holds it at most once.
pub record IsCounted (clients : List Client) (ref : ℕ → ℤ) : Type 0 where
  pub counted : (s : ℕ) → ref s ≡ pos (holders s clients)
  pub sets : All (λ c. (s : ℕ) → count s c.symbols ≤ 1) clients
  pub distinct : IsDistinct clients

settle : (a b : ℤ) (h k m n : ℕ) → b +ℤ pos m ≡ a +ℤ pos n → a ≡ pos h → k + m ≡ h + n → b ≡ pos k
settle a b h k m n e f g = eq_of_parts b (pos k) (
    omega (
      arith,
      +ℤ_parts b (pos m),
      +ℤ_parts a (pos n),
      ap pos_part e,
      ap neg_part e,
      ap pos_part f,
      ap neg_part f,
    ))

pub other-IsCounted :
    (i : ℕ) (f : Client → Client) {cs : List Client} {ref : ℕ → ℤ}
    → IsOther f
    → IsCounted cs ref
    → IsCounted (update_clients i f cs) ref
other-IsCounted i f {cs} o h = record {
  counted = λ s. h.counted s ∙ ap pos (sym (holders-other i s f cs o));
  sets =
      sets-update i f cs (λ c one s. omega (arith, one s, ap (count s) (o.same_symbols c))) h.sets;
  distinct = update-IsDistinct i f cs o.same_id h.distinct;
}

pub replace-IsCounted :
    (i : ℕ) (c : Client) (wanted : List ℕ) {cs : List Client} {ref : ℕ → ℤ}
    → find_client i cs ≡ some c
    → IsCounted cs ref
    → let (new, ref') = replace_symbols c.symbols wanted ref in
      IsCounted (update_clients c.id (with_symbols new) cs) ref'
replace-IsCounted i c wanted {cs} {ref} e h =
    let (new, ref') = replace_symbols c.symbols wanted ref in
    let one = replace_symbols-set c.symbols wanted ref (find-set i cs c e h.sets) in
    rw (find-id i cs c e) (record {
      counted = λ s.
          settle (ref s) (ref' s) (holders s cs)
            (holders s (update_clients i (with_symbols new) cs)) (count s c.symbols) (count s new)
            (replace_symbols-count c.symbols wanted ref s) (h.counted s)
            (holders-replace s i new c cs e h.distinct);
      sets = sets-update i (with_symbols new) cs (λ d h. one) h.sets;
      distinct = update-IsDistinct i (with_symbols new) cs (λ d. refl) h.distinct;
    })

pub closed-IsCounted :
    (i : ℕ) (c : Client) {cs : List Client} {ref : ℕ → ℤ}
    → find_client i cs ≡ some c
    → IsCounted cs ref
    → IsCounted (remove_client c.id cs) (release_symbols c.symbols ref)
closed-IsCounted i c {cs} {ref} e h = rw (find-id i cs c e) (record {
  counted = λ s.
      settle (ref s) (release_symbols c.symbols ref s) (holders s cs)
        (holders s (remove_client i cs)) (count s c.symbols) 0
        (release-count c.symbols ref s ∙ sym (plus_zero (ref s))) (h.counted s)
        (omega (arith, holders-remove s i c cs e h.distinct));
  sets = sets-remove i cs h.sets;
  distinct = remove-IsDistinct i cs h.distinct;
})

sets-last :
    (cs : List Client) (d : Client)
    → All (λ c. (s : ℕ) → count s c.symbols ≤ 1) cs
    → ((s : ℕ) → count s d.symbols ≤ 1)
    → All (λ c. (s : ℕ) → count s c.symbols ≤ 1) (cs ++ d ∷ [])
sets-last [] d h one = (one, tt)
sets-last (c ∷ cs) d (k, h) one = (k, sets-last cs d h one)

find-last :
    (j : ℕ) (cs : List Client) (d : Client)
    → find_client j cs ≡ none
    → (d.id == j) ≡ false
    → find_client j (cs ++ d ∷ []) ≡ none
find-last j [] d e other = rw other refl
find-last j (c ∷ cs) d e other = ground (arith, find-last j cs d)

IsDistinct-last :
    (cs : List Client) (d : Client)
    → find_client d.id cs ≡ none
    → IsDistinct cs
    → IsDistinct (cs ++ d ∷ [])
IsDistinct-last [] d e h = (refl, tt)
IsDistinct-last (c ∷ cs) d e (fresh, h) = elim (Bool-cases (c.id == d.id)) [
  | inl same ↦ ground (arith, ap is_found (rw same at e))
  | inr other ↦
      (find-last c.id cs d fresh (ground (arith, other)), IsDistinct-last cs d (rw other at e) h)
]

pub connected-IsCounted :
    (i : ℕ) {cs : List Client} {ref : ℕ → ℤ}
    → find_client i cs ≡ none
    → IsCounted cs ref
    → IsCounted (cs ++ new_client i ∷ []) ref
connected-IsCounted i {cs} e h = record {
  counted = λ s.
      h.counted s
      ∙ ap pos (omega (arith, sum_by-append (λ c. count s c.symbols) cs (new_client i ∷ [])));
  sets = sets-last cs (new_client i) h.sets (λ s. omega arith);
  distinct = IsDistinct-last cs (new_client i) e h.distinct;
}

-- A socket that connects is none of those that are there.
abbrev pub IsPossible : {Q E : Type 0} → Event Q E → List Client → Type 0
IsPossible (connect i pending) cs = find_client i cs ≡ none
IsPossible _ cs = Unit

pub addresses-IsOther : (addresses : List ℕ) → IsOther (with_addresses addresses)
addresses-IsOther addresses = record { same_id = λ c. refl; same_symbols = λ c. refl }

pub user-IsOther : (u : ℕ) → IsOther (with_user u)
user-IsOther u = record { same_id = λ c. refl; same_symbols = λ c. refl }

pub closing-IsOther : IsOther closing
closing-IsOther = record { same_id = λ c. refl; same_symbols = λ c. refl }

pub news-IsOther : IsOther (λ d. record d { news_subscribed = true })
news-IsOther = record { same_id = λ c. refl; same_symbols = λ c. refl }
