-- ===== src/Session/Rows.antt =====
-- internal/session/store.go: the queries on the `events` table, where a session's rows stand in rising
-- order of their numbers.
use mathlib.Core.List.{reverse_aux, reverse-cons, reverse-append}
use capd.Prelude.{
  ℕ, zero, suc, ◌+◌, ◌-◌, ◌≤◌, ◌<◌, ◌≡◌, refl, sym, ap, ◌∙◌, String, true, false, List, [], ◌∷◌,
  ◌++◌, map, reverse, append_assoc, append-nil, arith, length, take, drop, keep, any, All, last_n,
  All-map, place, sort_by, str_eq, leb, ◌==◌, inl, inr, Bool-cases, take-append-drop, length-drop,
  last_n-short, leb→le, All-append,
}
use capd.Session.Store.{EventRow, has_key, by_seq, by_seq_desc, insert_event, next_after}

-- The numbers rise strictly, from `n` at least.
abbrev pub Rising : ℕ → List EventRow → Type 0
Rising n [] = Unit
Rising n (r ∷ rs) = (n ≤ r.seq) × Rising (suc r.seq) rs

abbrev pub Below : ℕ → List EventRow → Type 0
Below n = All (λ r. r.seq < n)

pub Rising-weaken : (m n : ℕ) (rs : List EventRow) → m ≤ n → Rising n rs → Rising m rs
Rising-weaken m n [] h r = tt
Rising-weaken m n (x ∷ rs) h r = (omega arith, r.1)

pub Below-weaken : (m n : ℕ) (rs : List EventRow) → m ≤ n → Below m rs → Below n rs
Below-weaken m n rs h = All-map (λ r k. omega arith) rs

pub Rising-append :
    (n : ℕ) (rs : List EventRow) (r : EventRow)
    → n ≤ r.seq
    → Rising n rs
    → Below r.seq rs
    → Rising n (rs ++ r ∷ [])
Rising-append n [] r h k b = (h, tt)
Rising-append n (x ∷ rs) r h k b = (k.0, Rising-append (suc x.seq) rs r b.0 k.1 b.1)

-- ORDER BY seq leaves such rows as they stand.
place-Rising :
    (r : EventRow) (rs : List EventRow) → Rising (suc r.seq) rs → place by_seq r rs ≡ r ∷ rs
unfolding place
place-Rising r [] h = refl
place-Rising r (x ∷ rs) h = ground arith

pub sort_Rising : (n : ℕ) (rs : List EventRow) → Rising n rs → sort_by by_seq rs ≡ rs
unfolding sort_by
sort_Rising n [] h = refl
sort_Rising n (r ∷ rs) h =
    ap (place by_seq r) (sort_Rising (suc r.seq) rs h.1) ∙ place-Rising r rs h.1

-- ORDER BY seq DESC turns them round.
place_desc_last :
    (r : EventRow) (rs : List EventRow)
    → All (λ x. r.seq < x.seq) rs
    → place by_seq_desc r rs ≡ rs ++ r ∷ []
unfolding place
place_desc_last r [] h = refl
place_desc_last r (x ∷ rs) h = ground (arith, place_desc_last r rs h.1)

Rising-above : (n : ℕ) (rs : List EventRow) → Rising (suc n) rs → All (λ x. n < x.seq) rs
Rising-above n [] h = tt
Rising-above n (x ∷ rs) h =
    (h.0, Rising-above n rs (Rising-weaken (suc n) (suc x.seq) rs (omega arith) h.1))

All-reverse_aux {κ} :
    (P : EventRow → Type κ) (rs acc : List EventRow)
    → All P rs
    → All P acc
    → All P (reverse_aux rs acc)
All-reverse_aux P [] acc h k = k
All-reverse_aux P (r ∷ rs) acc h k = All-reverse_aux P rs (r ∷ acc) h.1 (h.0, k)

sort_desc_Rising : (n : ℕ) (rs : List EventRow) → Rising n rs → sort_by by_seq_desc rs ≡ reverse rs
unfolding sort_by
sort_desc_Rising n [] h = refl
sort_desc_Rising n (r ∷ rs) h =
    ap (place by_seq_desc r) (sort_desc_Rising (suc r.seq) rs h.1)
    ∙ place_desc_last r (reverse rs)
        (All-reverse_aux (λ x. r.seq < x.seq) rs [] (Rising-above r.seq rs h.1) tt)
    ∙ sym (reverse-cons r rs)

place_last : (r : EventRow) (rs : List EventRow) → Below r.seq rs → place by_seq r rs ≡ rs ++ r ∷ []
unfolding place
place_last r [] h = refl
place_last r (x ∷ rs) h = ground (arith, place_last r rs h.1)

sort-reverse_aux :
    (n : ℕ) (rs acc sorted : List EventRow)
    → sort_by by_seq acc ≡ sorted
    → Below n sorted
    → Rising n rs
    → sort_by by_seq (reverse_aux rs acc) ≡ sorted ++ rs
unfolding sort_by
sort-reverse_aux n [] acc sorted e b h = e ∙ sym (append-nil sorted)
sort-reverse_aux n (r ∷ rs) acc sorted e b h =
    sort-reverse_aux (suc r.seq) rs (r ∷ acc) (sorted ++ r ∷ [])
      (ap (place by_seq r) e ∙ place_last r sorted (Below-weaken n r.seq sorted h.0 b))
      (All-append (λ x. x.seq < suc r.seq) sorted (r ∷ [])
        (Below-weaken n (suc r.seq) sorted (omega arith) b) (omega arith, tt))
      h.1
    ∙ append_assoc sorted (r ∷ []) rs

take_all {ℓ} : {A : Type ℓ} (n : ℕ) (xs : List A) → length xs ≤ n → take n xs ≡ xs
take_all zero [] h = refl
take_all (suc n) [] h = refl
take_all zero (x ∷ xs) h = elim h [ ]
take_all (suc n) (x ∷ xs) h = ap (◌∷◌ x) (take_all n xs (omega arith))

take_exact {ℓ} : {A : Type ℓ} (xs ys : List A) → take (length xs) (xs ++ ys) ≡ xs
take_exact [] ys = refl
take_exact (x ∷ xs) ys = ap (◌∷◌ x) (take_exact xs ys)

length-reverse_aux : (rs acc : List EventRow) → length (reverse_aux rs acc) ≡ length rs + length acc
length-reverse_aux [] acc = omega arith
length-reverse_aux (r ∷ rs) acc = omega (arith, length-reverse_aux rs (r ∷ acc))

take-reverse : (n : ℕ) (rs : List EventRow) → take n (reverse rs) ≡ reverse (last_n n rs)
take-reverse n rs = elim (Bool-cases (leb n (length rs))) [
  | inl long ↦
      ap (take n) turned
      ∙ ap (λ m. take m (reverse (drop k rs) ++ reverse (take k rs))) (size long)
      ∙ take_exact (reverse (drop k rs)) (reverse (take k rs))
  | inr short ↦
      take_all n (reverse rs) (omega (arith, length-reverse_aux rs [], below short))
      ∙ ap reverse (sym (last_n-short n rs (below short)))
]
  where
    k : ℕ
    k = length rs - n

    below : leb n (length rs) ≡ false → length rs ≤ n
    below h = ground arith

    size : leb n (length rs) ≡ true → n ≡ length (reverse (drop k rs))
    size h =
        omega (arith, length-reverse_aux (drop k rs) [], length-drop k rs, leb→le n (length rs) h)

    turned : reverse rs ≡ reverse (drop k rs) ++ reverse (take k rs)
    turned = ap reverse (sym (take-append-drop k rs)) ∙ reverse-append (take k rs) (drop k rs)

pub Rising-drop : (m n : ℕ) (rs : List EventRow) → Rising m rs → Rising m (drop n rs)
Rising-drop m zero rs h = h
Rising-drop m (suc n) [] h = tt
Rising-drop m (suc n) (r ∷ rs) h =
    Rising-drop m n rs (Rising-weaken m (suc r.seq) rs (omega arith) h.1)

-- The newest `n` rows, asked for in falling order and put back in rising order, are the last `n`.
pub recent_rows :
    (m n : ℕ) (rs : List EventRow)
    → Rising m rs
    → sort_by by_seq (take n (sort_by by_seq_desc rs)) ≡ last_n n rs
unfolding sort_by
recent_rows m n rs h =
    ap (λ l. sort_by by_seq (take n l)) (sort_desc_Rising m rs h)
    ∙ ap (sort_by by_seq) (take-reverse n rs)
    ∙ sort-reverse_aux m (last_n n rs) [] [] refl tt (Rising-drop m (length rs - n) rs h)

-- MAX(seq) + 1 over rows in rising order is one past the last.
pub next_after-append :
    (rs : List EventRow) (r : EventRow) → Below r.seq rs → next_after (rs ++ r ∷ []) ≡ r.seq + 1
unfolding next_after
next_after-append [] r h = ground arith
next_after-append (x ∷ rs) r h = ground (arith, next_after-append rs r h.1)

map-drop {ℓ} :
    {B : Type ℓ} (f : EventRow → B) (n : ℕ) (rs : List EventRow)
    → map f (drop n rs) ≡ drop n (map f rs)
map-drop f zero rs = refl
map-drop f (suc n) [] = refl
map-drop f (suc n) (r ∷ rs) = map-drop f n rs

length-map {ℓ} :
    {B : Type ℓ} (f : EventRow → B) (rs : List EventRow) → length (map f rs) ≡ length rs
length-map f [] = refl
length-map f (r ∷ rs) = ap suc (length-map f rs)

-- A fresh number is inserted, and only into its own session.
any-has_key :
    (id : String) (n : ℕ) (rows : List EventRow)
    → any (has_key id n) rows ≡ any (λ r. r.seq == n) (keep (λ r. str_eq r.session_id id) rows)
any-has_key id n [] = refl
any-has_key id n (r ∷ rows) = ground (arith, any-has_key id n rows)

any-Below : (n : ℕ) (rs : List EventRow) → Below n rs → any (λ r. r.seq == n) rs ≡ false
any-Below n [] h = refl
any-Below n (r ∷ rs) h = ground (arith, any-Below n rs h.1)

pub insert_fresh :
    (r : EventRow) (rows : List EventRow)
    → Below r.seq (keep (λ x. str_eq x.session_id r.session_id) rows)
    → insert_event r rows ≡ rows ++ r ∷ []
unfolding insert_event
insert_fresh r rows h = rw (any-has_key r.session_id r.seq rows ∙ any-Below r.seq _ h)

pub map-last_n {ℓ} :
    {B : Type ℓ} (f : EventRow → B) (n : ℕ) (rs : List EventRow)
    → map f (last_n n rs) ≡ last_n n (map f rs)
map-last_n f n rs =
    map-drop f (length rs - n) rs ∙ ap (λ k. drop (k - n) (map f rs)) (sym (length-map f rs))
