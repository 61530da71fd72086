-- ===== src/Account/Answers.antt =====
-- internal/account/store.go: what a check, a read or a statement that did not fail leaves behind.
use capd.Prelude.{
  ℕ, suc, ◌+◌, String, Bool, true, false, Option, none, some, List, [], ◌∷◌, Result, ok, err, ◌>>=◌,
  ◌>>◌, lookup, str_eq, if◌then◌else◌, ◌≡◌, refl, arith, ap, ◌∙◌,
}
use capd.Session.Store.{Io}
use capd.Account.Store.{
  AccountError, Account, Store, exec, executed, answered, query, found_or, after_checks,
  load_account,
}
use capd.Account.Profiles.{statement, read, committed, run_statements, succeed, conclude}

-- A write that passes its checks.
pub ok->>= :
    {E A B : Type 0} (m : Result E A) (f : A → Result E B) (b : B)
    → (m >>= f) ≡ ok b
    → (a : A) × (m ≡ ok a) × (f a ≡ ok b)
ok->>= (ok a) f b h = (a, refl, h)
ok->>= (err e) f b h = absurd (ground (arith, h))

pub ok->> :
    {E B : Type 0} (m : Result E (Unit {0})) (k : Result E B) (b : B) → (m >> k) ≡ ok b → k ≡ ok b
ok->> (ok _) k b h = h
ok->> (err e) k b h = absurd (ground (arith, h))

pub ok-found_or : {A : Type 0} (o : Option A) (a : A) → found_or o ≡ ok a → o ≡ some a
ok-found_or none a h = absurd (ground (arith, h))
ok-found_or (some b) a h = ground (arith, h)

pub ok-query :
    {A : Type 0} (io : Io) (answer : Result AccountError A) (a : A)
    → query io answer ≡ ok a
    → answer ≡ ok a
ok-query io answer a h = go io.fault h
  where
    go : (o : Option String) → answered answer o ≡ ok a → answer ≡ ok a
    go none h = h
    go (some e) h = absurd (ground (arith, h))

module _ {F : Type 0} where
  pub exec-keeps :
      (P : Store F → Type 0) (checks : Result AccountError (Unit {0})) (io : Io)
      (change : Store F → Store F) (st : Store F)
      → P st
      → (checks ≡ ok tt → P (change st))
      → P (after_checks checks (exec io change) st).1
  unfolding exec
  exec-keeps P (err e) io change st h f = h
  exec-keeps P (ok _) io change st h f = go io.fault
    where
      go : (o : Option String) → P (executed io change st o).1
      go none = f refl
      go (some e) = h

  pub load_account-known :
      (io : Io) (id : String) (st : Store F) (acc : Account)
      → load_account io id st ≡ ok acc
      → lookup id st.accounts ≡ some acc
  unfolding load_account
  load_account-known io id st acc h = ok-found_or _ acc (ok-query io _ acc h)

  pub committed-keeps :
      (P : Store F → Type 0) (io : Io) (st : Store F) (r : Result AccountError (Store F))
      → P st
      → ((t : Store F) → r ≡ ok t → P t)
      → P (committed io st r).1
  committed-keeps P io st (ok t) h f = f t refl
  committed-keeps P io st (err e) h f = h

-- What a statement or a read of a transaction that did not end it leaves.
pub ok-statement :
    {S : Type 0} (fault : Option String) (change : S → S) (s t : S)
    → statement fault change s ≡ ok t
    → change s ≡ t
ok-statement none change s t h = ground (arith, h)
ok-statement (some e) change s t h = absurd (ground (arith, h))

pub ok-read : {A : Type 0} (fault : Option String) (a b : A) → read fault a ≡ ok b → a ≡ b
ok-read none a b h = ground (arith, h)
ok-read (some e) a b h = absurd (ground (arith, h))

abbrev pub applied : {S : Type 0} → List (S → S) → S → S
applied [] s = s
applied (change ∷ changes) s = applied changes (change s)

pub ok-run_statements :
    {S : Type 0} (tx : ℕ → Option String) (n : ℕ) (changes : List (S → S)) (s t : S)
    → run_statements tx n changes s ≡ ok t
    → applied changes s ≡ t
unfolding run_statements
ok-run_statements tx n [] s t h = ground (arith, h)
ok-run_statements tx n (change ∷ changes) s t h =
    let step = ok->>= (statement (tx n) change s) (λ u. run_statements tx (suc n) changes u) t h in
    ap (applied changes) (ok-statement (tx n) change s step.0 step.1)
    ∙ ok-run_statements tx (suc n) changes step.0 t step.2

pub ok-succeed :
    {S : Type 0} (tx : ℕ → Option String) (n : ℕ) (move : S → S) (s t : S) (b : Bool)
    → succeed tx n move s b ≡ ok t
    → (if b then move s else s) ≡ t
ok-succeed tx n move s t true h =
    let step = ok->>= (read (tx n) s) (λ u. statement (tx (n + 1)) move u) t h in
    ap move (ok-read (tx n) s step.0 step.1) ∙ ok-statement (tx (n + 1)) move step.0 t step.2
ok-succeed tx n move s t false h = ground (arith, h)

pub ok-conclude :
    {S : Type 0} (tx : ℕ → Option String) (n : ℕ) (current deleted : String) (move : S → S)
    (s t : S)
    → conclude tx n current deleted move s ≡ ok t
    → (if str_eq current deleted then move s else s) ≡ t
ok-conclude tx n current deleted move s t h =
    let last =
      ok->>= (read (tx n) current >>= (λ c. succeed tx (n + 1) move s (str_eq c deleted)))
        (λ u. read (tx (n + 3)) u) t h in
    let first =
      ok->>= (read (tx n) current) (λ c. succeed tx (n + 1) move s (str_eq c deleted)) last.0
        last.1 in
    ap (λ c. if str_eq c deleted then move s else s) (ok-read (tx n) current first.0 first.1)
    ∙ ok-succeed tx (n + 1) move s last.0 (str_eq first.0 deleted) first.2
    ∙ ok-read (tx (n + 3)) last.0 t last.2

-- What a transaction that deletes a row and was committed leaves.
pub ok-transaction :
    {S : Type 0} (tx : ℕ → Option String) (changes : List (S → S)) (n : ℕ) (current : S → String)
    (deleted : String) (move : S → S) (s t : S)
    → (read (tx 0) s >>= (λ u. run_statements tx 1 changes u) >>= λ u.
        conclude tx n (current u) deleted move u)
      ≡ ok t
    → (if str_eq (current (applied changes s)) deleted
        then move (applied changes s)
        else applied changes s)
      ≡ t
ok-transaction tx changes n current deleted move s t h =
    let last =
      ok->>= (read (tx 0) s >>= λ u. run_statements tx 1 changes u)
        (λ u. conclude tx n (current u) deleted move u) t h in
    let first = ok->>= (read (tx 0) s) (λ u. run_statements tx 1 changes u) last.0 last.1 in
    ap (λ u. if str_eq (current u) deleted then move u else u)
      (ap (applied changes) (ok-read (tx 0) s first.0 first.1)
        ∙ ok-run_statements tx 1 changes first.0 last.0 first.2)
    ∙ ok-conclude tx n (current last.0) deleted move last.0 t last.2
