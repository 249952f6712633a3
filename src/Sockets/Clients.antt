-- ===== src/Sockets/Clients.antt =====
-- The list of the sockets of src/websocket/server.ts under the changes that the server makes to it.
use nayft_backend.Common.{
  ℕ, ◌+◌, ◌≤◌, ◌≡◌, ◌==◌, refl, sym, ap, ◌∙◌, Bool, true, false, if◌then◌else◌, List, [], ◌∷◌,
  Option, none, some, sum_by, All, arith, inl, inr, Bool-cases, by_branches, ==_iff,
}
use nayft_backend.Common.Int.{ℤ, pos, negsuc, ◌+ℤ◌}
use nayft_backend.Sockets.Hub.{Client, update_clients, find_client, symref_delta}
use nayft_backend.Sockets.Messages.{remove_client, release_symbols}
use nayft_backend.Sockets.References.{count, plus_zero, one_less}

-- How many subscriptions to a symbol there are.
abbrev pub holders : ℕ → List Client → ℕ
holders s clients = sum_by (λ c. count s c.symbols) clients

abbrev pub IsDistinct : List Client → Type 0
IsDistinct [] = Unit
IsDistinct (c ∷ cs) = (find_client c.id cs ≡ none) × IsDistinct cs

-- A change of a socket that leaves its number and its symbols alone.
pub record IsOther (f : Client → Client) : Type 0 where
  pub same_id : (c : Client) → (f c).id ≡ c.id
  pub same_symbols : (c : Client) → (f c).symbols ≡ c.symbols

abbrev pub client_or : Client → Option Client → Client
client_or c none = c
client_or c (some d) = d

pub some_inj : (c d : Client) → ◌≡◌ {A = Option Client} (some c) (some d) → c ≡ d
some_inj c d e = ap (client_or c) e

abbrev pub is_found : Option Client → Bool
is_found none = false
is_found (some c) = true

pub find-id : (i : ℕ) (cs : List Client) (c : Client) → find_client i cs ≡ some c → c.id ≡ i
find-id i [] c e = ground arith
find-id i (d ∷ cs) c e = elim (Bool-cases (d.id == i)) [
  | inl here ↦
      (let same : d ≡ c = some_inj d c (rw here at e) in
        ap (λ x. x.id) (sym same) ∙ (==_iff d.id i).0 here)
  | inr there ↦ find-id i cs c (rw there at e)
]

id_if :
    (f : Client → Client) (b : Bool) (c : Client)
    → ((c : Client) → (f c).id ≡ c.id)
    → (if b then f c else c).id ≡ c.id
id_if f true c same = same c
id_if f false c same = refl

pub find-update :
    (i j : ℕ) (f : Client → Client) (cs : List Client)
    → ((c : Client) → (f c).id ≡ c.id)
    → find_client j cs ≡ none
    → find_client j (update_clients i f cs) ≡ none
find-update i j f [] same e = refl
find-update i j f (d ∷ cs) same e = ground (arith, same d, find-update i j f cs same)

pub update-IsDistinct :
    (i : ℕ) (f : Client → Client) (cs : List Client)
    → ((c : Client) → (f c).id ≡ c.id)
    → IsDistinct cs
    → IsDistinct (update_clients i f cs)
update-IsDistinct i f [] same h = tt
update-IsDistinct i f (d ∷ cs) same (fresh, h) = (
  ap (λ x. find_client x (update_clients i f cs)) (id_if f (d.id == i) d same)
      ∙ find-update i d.id f cs same fresh,
  update-IsDistinct i f cs same h,
)

pub holders-other :
    (i s : ℕ) (f : Client → Client) (cs : List Client)
    → IsOther f
    → holders s (update_clients i f cs) ≡ holders s cs
holders-other i s f [] o = refl
holders-other i s f (d ∷ cs) o =
    by_branches
      (λ (x : Client). count s x.symbols + holders s (update_clients i f cs) ≡ holders s (d ∷ cs))
      (d.id == i) (omega (arith, holders-other i s f cs o, ap (count s) (o.same_symbols d)))
      (omega (arith, holders-other i s f cs o))

update-missing :
    (i s : ℕ) (f : Client → Client) (cs : List Client)
    → find_client i cs ≡ none
    → holders s (update_clients i f cs) ≡ holders s cs
update-missing i s f [] e = refl
update-missing i s f (d ∷ cs) e = ground (arith, update-missing i s f cs)

abbrev pub with_symbols : List ℕ → Client → Client
with_symbols symbols d = record d { symbols = symbols }

pub holders-replace :
    (s i : ℕ) (new : List ℕ) (c : Client) (cs : List Client)
    → find_client i cs ≡ some c
    → IsDistinct cs
    → holders s (update_clients i (with_symbols new) cs) + count s c.symbols
      ≡ holders s cs + count s new
holders-replace s i new c [] e h = ground arith
holders-replace s i new c (d ∷ cs) e (fresh, h) = elim (Bool-cases (d.id == i)) [
  | inl here ↦
      let same = some_inj d c (rw here at e) in
      let gone = update-missing i s (with_symbols new) cs (rw ((==_iff d.id i).0 here) at fresh) in
      rw here (omega (arith, ap (λ x. count s x.symbols) same, gone))
  | inr there ↦ rw there (omega (arith, holders-replace s i new c cs (rw there at e) h))
]

remove-missing : (i : ℕ) (cs : List Client) → find_client i cs ≡ none → remove_client i cs ≡ cs
remove-missing i [] e = refl
remove-missing i (d ∷ cs) e = elim (Bool-cases (d.id == i)) [
  | inl here ↦ ground (arith, ap is_found (rw here at e))
  | inr there ↦ rw there (ap (λ l. d ∷ l) (remove-missing i cs (rw there at e)))
]

pub holders-remove :
    (s i : ℕ) (c : Client) (cs : List Client)
    → find_client i cs ≡ some c
    → IsDistinct cs
    → holders s (remove_client i cs) + count s c.symbols ≡ holders s cs
holders-remove s i c [] e h = ground arith
holders-remove s i c (d ∷ cs) e (fresh, h) = elim (Bool-cases (d.id == i)) [
  | inl here ↦
      let same = some_inj d c (rw here at e) in
      let gone = remove-missing i cs (rw ((==_iff d.id i).0 here) at fresh) in
      rw here (omega (arith, ap (λ x. count s x.symbols) same, ap (holders s) gone))
  | inr there ↦ rw there (omega (arith, holders-remove s i c cs (rw there at e) h))
]

pub release-count :
    (symbols : List ℕ) (ref : ℕ → ℤ) (s : ℕ)
    → release_symbols symbols ref s +ℤ pos (count s symbols) ≡ ref s
unfolding release_symbols
release-count [] ref s = plus_zero (ref s)
release-count (x ∷ symbols) ref s =
    one_less (s == x) (count s symbols) 0
      (release_symbols symbols (symref_delta x (negsuc 0) ref) s) (ref s)
      (release-count symbols (symref_delta x (negsuc 0) ref) s
        ∙ sym (plus_zero (symref_delta x (negsuc 0) ref s)))
    ∙ plus_zero (ref s)

pub sets-update :
    (i : ℕ) (f : Client → Client) (cs : List Client)
    → ((c : Client) → ((s : ℕ) → count s c.symbols ≤ 1) → (s : ℕ) → count s (f c).symbols ≤ 1)
    → All (λ c. (s : ℕ) → count s c.symbols ≤ 1) cs
    → All (λ c. (s : ℕ) → count s c.symbols ≤ 1) (update_clients i f cs)
sets-update i f [] keep h = tt
sets-update i f (d ∷ cs) keep (one, h) = (
  by_branches (λ (x : Client). (s : ℕ) → count s x.symbols ≤ 1) (d.id == i) (keep d one) one,
  sets-update i f cs keep h,
)

pub find-set :
    (i : ℕ) (cs : List Client) (c : Client)
    → find_client i cs ≡ some c
    → All (λ c. (s : ℕ) → count s c.symbols ≤ 1) cs
    → (s : ℕ) → count s c.symbols ≤ 1
find-set i [] c e h s = ground arith
find-set i (d ∷ cs) c e (one, h) s = elim (Bool-cases (d.id == i)) [
  | inl here ↦ omega (arith, one s, ap (λ x. count s x.symbols) (some_inj d c (rw here at e)))
  | inr there ↦ find-set i cs c (rw there at e) h s
]

pub sets-remove :
    (i : ℕ) (cs : List Client)
    → All (λ c. (s : ℕ) → count s c.symbols ≤ 1) cs
    → All (λ c. (s : ℕ) → count s c.symbols ≤ 1) (remove_client i cs)
sets-remove i [] h = tt
sets-remove i (d ∷ cs) (one, h) =
    by_branches (All (λ c. (s : ℕ) → count s c.symbols ≤ 1)) (d.id == i) (sets-remove i cs h)
      (one, sets-remove i cs h)

pub find-remove :
    (i j : ℕ) (cs : List Client)
    → find_client j cs ≡ none
    → find_client j (remove_client i cs) ≡ none
find-remove i j [] e = refl
find-remove i j (d ∷ cs) e = ground (arith, find-remove i j cs)

pub remove-IsDistinct : (i : ℕ) (cs : List Client) → IsDistinct cs → IsDistinct (remove_client i cs)
remove-IsDistinct i [] h = tt
remove-IsDistinct i (d ∷ cs) (fresh, h) =
    by_branches IsDistinct (d.id == i) (remove-IsDistinct i cs h)
      (find-remove i d.id cs fresh, remove-IsDistinct i cs h)
