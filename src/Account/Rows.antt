-- ===== src/Account/Rows.antt =====
-- internal/account/store.go: what insertions, deletions and orders do to the rows of a table.
use capd.Prelude.{
  ℕ, String, Bool, true, false, not, ◌&&◌, Option, none, some, List, [], ◌∷◌, ◌++◌, lookup, insert,
  remove, sort_by, place, any, first, keep, str_eq, if◌then◌else◌, ◌≡◌, All, All-append,
  lookup-insert, lookup-remove, arith, eq_iff, eq_refl, Bool-cases, inl, inr, ap,
}
use capd.Account.Store.{Profile, Membership}
use capd.Account.Profiles.{is_profile, upsert_row}
use capd.Account.Delete.{values}

abbrev pub is_some : {A : Type 0} → Option A → Bool
is_some none = false
is_some (some a) = true

-- The account is in the store.
abbrev pub known : {V : Type 0} → List (String × V) → String → Bool
known rows id = is_some (lookup id rows)

abbrev pub has_profile : List Profile → Membership → Bool
has_profile profiles m = any (is_profile m.provider m.name) profiles

module _ {A : Type 0} (P Q : A → Type 0) (p : A → Bool) where
  pub All-keep_if :
      (xs : List A) → All P xs → ((x : A) → P x → p x ≡ true → Q x) → All Q (keep p xs)
  All-keep_if [] h f = tt
  All-keep_if (x ∷ xs) h f = elim (Bool-cases (p x)) [
    | inl e ↦ ground (arith, e, h.0, f x h.0 e, All-keep_if xs h.1 f)
    | inr e ↦ ground (arith, e, All-keep_if xs h.1 f)
  ]

pub known-insert :
    {V : Type 0} (key id : String) (v : V) (rows : List (String × V))
    → known rows id ≡ true
    → known (insert key v rows) id ≡ true
known-insert key id v rows h = ground (arith, lookup-insert key id v rows)

pub known-inserted :
    {V : Type 0} (key : String) (v : V) (rows : List (String × V))
    → known (insert key v rows) key ≡ true
known-inserted key v rows = ground (arith, lookup-insert key key v rows, eq_refl key)

pub known-remove :
    {V : Type 0} (key id : String) (rows : List (String × V))
    → known rows id ≡ true
    → not (str_eq id key) ≡ true
    → known (remove key rows) id ≡ true
known-remove key id rows h n =
    ground (arith, lookup-remove key id rows, eq_iff key id, eq_iff id key)

pub All-remove :
    {V : Type 0} (P Q : String × V → Type 0) (key : String) (rows : List (String × V))
    → All P rows
    → ((row : String × V) → P row → not (str_eq row.0 key) ≡ true → Q row)
    → All Q (remove key rows)
unfolding remove
All-remove P Q key [] h f = tt
All-remove P Q key ((k, v) ∷ rows) h f = elim (Bool-cases (str_eq k key)) [
  | inl e ↦ ground (arith, e, All-remove P Q key rows h.1 f)
  | inr e ↦ ground (arith, e, f (k, v) h.0 (ap not e), All-remove P Q key rows h.1 f)
]

-- The rows of the profiles after one of them was written, or deleted.
pub any-upsert_row :
    (a b : String) (now : ℕ) (profile : Profile) (rows : List Profile)
    → any (is_profile a b) rows ≡ true
    → any (is_profile a b) (upsert_row now profile rows) ≡ true
unfolding upsert_row
any-upsert_row a b now profile [] h = absurd (ground (arith, h))
any-upsert_row a b now profile (p ∷ ps) h = ground (arith, h, any-upsert_row a b now profile ps)

pub any-keep :
    (a b provider name : String) (rows : List Profile)
    → any (is_profile a b) rows ≡ true
    → not (str_eq a provider && str_eq b name) ≡ true
    → any (is_profile a b) (keep (λ p. not (is_profile provider name p)) rows) ≡ true
any-keep a b provider name [] h n = absurd (ground (arith, h))
any-keep a b provider name (p ∷ ps) h n = ground (
  arith,
  h,
  n,
  any-keep a b provider name ps,
  eq_iff p.provider a,
  eq_iff p.name b,
  eq_iff p.provider provider,
  eq_iff p.name name,
  eq_iff a provider,
  eq_iff b name,
)

pub any-first :
    {A : Type 0} (p : A → Bool) (xs : List A) (x : A) → first p xs ≡ some x → any p xs ≡ true
any-first p [] x h = absurd (ground (arith, h))
any-first p (y ∷ ys) x h = ground (arith, h, any-first p ys x)

-- A row that is added behind the others, unless it is there.
pub All-added :
    {A : Type 0} (P : A → Type 0) (b : Bool) (xs : List A) (x : A)
    → All P xs
    → P x
    → All P (if b then xs else xs ++ x ∷ [])
All-added P true xs x h k = h
All-added P false xs x h k = All-append P xs (x ∷ []) h (k, tt)

pub All-place :
    {A : Type 0} (P : A → Type 0) (before : A → A → Bool) (x : A) (xs : List A)
    → P x
    → All P xs
    → All P (place before x xs)
unfolding place
All-place P before x [] h k = (h, tt)
All-place P before x (y ∷ ys) h k = ground (arith, h, k.0, k.1, All-place P before x ys h k.1)

pub All-sort_by :
    {A : Type 0} (P : A → Type 0) (before : A → A → Bool) (xs : List A)
    → All P xs
    → All P (sort_by before xs)
unfolding sort_by
All-sort_by P before [] h = tt
All-sort_by P before (x ∷ xs) h =
    All-place P before x (sort_by before xs) h.0 (All-sort_by P before xs h.1)

pub All-values :
    {V : Type 0} (P : V → Type 0) (rows : List (String × V))
    → All (λ row. P row.1) rows
    → All P (values rows)
All-values P [] h = tt
All-values P (row ∷ rows) h = (h.0, All-values P rows h.1)
