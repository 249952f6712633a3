-- ===== src/Sockets/References.antt =====
-- The counts of subscribers that src/websocket/server.ts keeps in Redis, under the changes of one set
-- of symbols.
use nayft_backend.Common.{
  ℕ, ◌+◌, ◌≤◌, ◌≡◌, ◌==◌, refl, sym, ap, ◌∙◌, Bool, true, false, if◌then◌else◌, List, [], ◌∷◌, ◌++◌,
  member, arith, inl, inr, Bool-cases,
}
use nayft_backend.Common.Int.{ℤ, pos, negsuc, ◌+ℤ◌, +ℤ_parts, pos_part, neg_part, eq_of_parts}
use nayft_backend.Sockets.Hub.{symref_delta}
use nayft_backend.Sockets.Prices.{drop_symbols, add_symbols, replace_symbols}

-- How often a symbol stands in a list.
abbrev pub count : ℕ → List ℕ → ℕ
count s [] = 0
count s (x ∷ xs) = (if s == x then 1 else 0) + count s xs

more : (k m n : ℕ) (a b : ℤ) → a +ℤ pos m ≡ b +ℤ pos n → a +ℤ pos (k + m) ≡ b +ℤ pos (k + n)
unfolding ◌+ℤ◌
more k m n a b e = ground arith

pub plus_zero : (a : ℤ) → a +ℤ pos 0 ≡ a
unfolding ◌+ℤ◌
plus_zero (pos n) = ground arith
plus_zero (negsuc n) = ground arith

pub one_less :
    (e : Bool) (m n : ℕ) (r a : ℤ)
    → r +ℤ pos m ≡ (if e then a +ℤ negsuc 0 else a) +ℤ pos n
    → r +ℤ pos ((if e then 1 else 0) + m) ≡ a +ℤ pos n
unfolding ◌+ℤ◌
one_less true m n r a h = ground arith
one_less false m n r a h = ground arith

one_more :
    (e : Bool) (m n : ℕ) (r a : ℤ)
    → r +ℤ pos (m + (if e then 1 else 0)) ≡ (if e then a +ℤ pos 1 else a) +ℤ pos n
    → r +ℤ pos m ≡ a +ℤ pos n
unfolding ◌+ℤ◌
one_more true m n r a h = ground arith
one_more false m n r a h = ground arith

pub count-append : (s : ℕ) (xs ys : List ℕ) → count s (xs ++ ys) ≡ count s xs + count s ys
count-append s [] ys = omega arith
count-append s (x ∷ xs) ys = omega (arith, count-append s xs ys)

count-last :
    (s : ℕ) (xs : List ℕ) (x : ℕ) → count s (xs ++ x ∷ []) ≡ count s xs + (if s == x then 1 else 0)
count-last s xs x = count-append s xs (x ∷ []) ∙ omega arith

join :
    (m n k : ℕ) (a b c : ℤ)
    → b +ℤ pos m ≡ a +ℤ pos n
    → c +ℤ pos n ≡ b +ℤ pos k
    → c +ℤ pos m ≡ a +ℤ pos k
join m n k a b c e f = eq_of_parts (c +ℤ pos m) (a +ℤ pos k) (
    omega (
      arith,
      +ℤ_parts b (pos m),
      +ℤ_parts a (pos n),
      +ℤ_parts c (pos n),
      +ℤ_parts b (pos k),
      +ℤ_parts c (pos m),
      +ℤ_parts a (pos k),
      ap pos_part e,
      ap neg_part e,
      ap pos_part f,
      ap neg_part f,
    ))

-- Both loops change the references of a symbol by as much as its number in the set.
drop_symbols-count :
    (wanted old : List ℕ) (ref : ℕ → ℤ) (s : ℕ)
    → let (kept, ref') = drop_symbols wanted old ref in
      ref' s +ℤ pos (count s old) ≡ ref s +ℤ pos (count s kept)
unfolding drop_symbols
drop_symbols-count wanted [] ref s = refl
drop_symbols-count wanted (x ∷ old) ref s = elim (Bool-cases (member x wanted)) [
  | inl stays ↦ rw stays (
      more (if s == x then 1 else 0) (count s old) (count s (drop_symbols wanted old ref).0)
        ((drop_symbols wanted old ref).1 s) (ref s) (drop_symbols-count wanted old ref s))
  | inr goes ↦
      let (kept, ref') = drop_symbols wanted old (symref_delta x (negsuc 0) ref) in
      rw goes (
        one_less (s == x) (count s old) (count s kept) (ref' s) (ref s)
          (drop_symbols-count wanted old (symref_delta x (negsuc 0) ref) s))
]

add_symbols-count :
    (wanted set : List ℕ) (ref : ℕ → ℤ) (s : ℕ)
    → let (set', ref') = add_symbols wanted set ref in
      ref' s +ℤ pos (count s set) ≡ ref s +ℤ pos (count s set')
unfolding add_symbols
add_symbols-count [] set ref s = refl
add_symbols-count (x ∷ wanted) set ref s = elim (Bool-cases (member x set)) [
  | inl present ↦ rw present (add_symbols-count wanted set ref s)
  | inr absent ↦
      let (set', ref') = add_symbols wanted (set ++ x ∷ []) (symref_delta x (pos 1) ref) in
      rw absent (
        one_more (s == x) (count s set) (count s set') (ref' s) (ref s) (
          ap (λ m. ref' s +ℤ pos m) (sym (count-last s set x))
          ∙ add_symbols-count wanted (set ++ x ∷ []) (symref_delta x (pos 1) ref) s))
]

pub replace_symbols-count :
    (old wanted : List ℕ) (ref : ℕ → ℤ) (s : ℕ)
    → let (new, ref') = replace_symbols old wanted ref in
      ref' s +ℤ pos (count s old) ≡ ref s +ℤ pos (count s new)
unfolding replace_symbols
replace_symbols-count old wanted ref s =
    let (kept, mid) = drop_symbols wanted old ref in
    let (new, ref') = add_symbols wanted kept mid in
    join (count s old) (count s kept) (count s new) (ref s) (mid s) (ref' s)
      (drop_symbols-count wanted old ref s) (add_symbols-count wanted kept mid s)

pub member-count : (s : ℕ) (xs : List ℕ) → member s xs ≡ false → count s xs ≡ 0
member-count s [] e = refl
member-count s (x ∷ xs) e = ground (arith, member-count s xs)

drop_symbols-le :
    (wanted old : List ℕ) (ref : ℕ → ℤ) (s : ℕ)
    → count s (drop_symbols wanted old ref).0 ≤ count s old
unfolding drop_symbols
drop_symbols-le wanted [] ref s = omega arith
drop_symbols-le wanted (x ∷ old) ref s = ground (
  arith,
  drop_symbols-le wanted old ref s,
  drop_symbols-le wanted old (symref_delta x (negsuc 0) ref) s,
)

add_symbols-set :
    (wanted set : List ℕ) (ref : ℕ → ℤ)
    → ((s : ℕ) → count s set ≤ 1)
    → (s : ℕ) → count s (add_symbols wanted set ref).0 ≤ 1
unfolding add_symbols
add_symbols-set [] set ref h s = h s
add_symbols-set (x ∷ wanted) set ref h s = elim (Bool-cases (member x set)) [
  | inl present ↦ rw present (add_symbols-set wanted set ref h s)
  | inr absent ↦ rw absent (
      add_symbols-set wanted (set ++ x ∷ []) (symref_delta x (pos 1) ref)
        (λ t. ground (arith, h t, count-last t set x, member-count x set absent)) s)
]

pub replace_symbols-set :
    (old wanted : List ℕ) (ref : ℕ → ℤ)
    → ((s : ℕ) → count s old ≤ 1)
    → (s : ℕ) → count s (replace_symbols old wanted ref).0 ≤ 1
unfolding replace_symbols
replace_symbols-set old wanted ref h =
    let (kept, mid) = drop_symbols wanted old ref in
    add_symbols-set wanted kept mid (λ t. omega (arith, h t, drop_symbols-le wanted old ref t))
