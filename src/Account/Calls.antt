-- ===== src/Account/Calls.antt =====
-- internal/account/store.go: which calls of the engine have to run for a deletion to be committed.
use capd.Prelude.{
  ℕ, zero, suc, ◌+◌, String, Bool, true, false, ◌&&◌, Option, none, some, List, [], ◌∷◌, Result, ok,
  err, ◌>>=◌, str_eq, if◌then◌else◌, ◌≡◌, refl, subst, sym, ap,
}
use capd.Account.Profiles.{statement, read, run_statements, succeed, conclude}
use capd.Account.Answers.{applied}

-- A call that was not answered with an error.
abbrev pub ran : Option String → Bool
ran none = true
ran (some e) = false

abbrev pub all_ran : (ℕ → Option String) → ℕ → ℕ → Bool
all_ran tx n zero = true
all_ran tx n (suc k) = ran (tx n) && all_ran tx (suc n) k

-- Begin and five statements, the read of the current account, its successor where the deleted account
-- is the current one, and Commit.
abbrev pub deletion_ran : (ℕ → Option String) → Bool → Bool
deletion_ran tx current =
    all_ran tx 0 6
    && ((ran (tx 6) && (if current then ran (tx 7) && ran (tx 8) else true)) && ran (tx 9))

-- An answer that is `a` where the calls behind it ran, and an error where one did not.
abbrev pub Runs : {E A : Type 0} → Result E A → A → Bool → Type 0
Runs {E = E} r a true = r ≡ ok a
Runs {E = E} r a false = (e : E) × (r ≡ err e)

pub Runs->>= :
    {E A B : Type 0} (r : Result E A) (a : A) (b : Bool) (f : A → Result E B) (c : B) (d : Bool)
    → Runs r a b
    → Runs (f a) c d
    → Runs (r >>= f) c (b && d)
Runs->>= r a true f c d h k = subst (λ x. Runs (x >>= f) c d) (sym h) k
Runs->>= r a false f c d (e, h) k = (e, ap (λ x. x >>= f) h)

pub Runs-read : {A : Type 0} (fault : Option String) (a : A) → Runs (read fault a) a (ran fault)
Runs-read none a = refl
Runs-read (some e) a = (_, refl)

Runs-statement :
    {S : Type 0} (fault : Option String) (change : S → S) (s : S)
    → Runs (statement fault change s) (change s) (ran fault)
Runs-statement none change s = refl
Runs-statement (some e) change s = (_, refl)

abbrev pub count : {A : Type 0} → List A → ℕ
count [] = 0
count (x ∷ xs) = suc (count xs)

Runs-run_statements :
    {S : Type 0} (tx : ℕ → Option String) (n : ℕ) (changes : List (S → S)) (s : S)
    → Runs (run_statements tx n changes s) (applied changes s) (all_ran tx n (count changes))
unfolding run_statements
Runs-run_statements tx n [] s = refl
Runs-run_statements tx n (change ∷ changes) s =
    Runs->>= (statement (tx n) change s) (change s) (ran (tx n)) _ _ _
      (Runs-statement (tx n) change s) (Runs-run_statements tx (suc n) changes (change s))

Runs-succeed :
    {S : Type 0} (tx : ℕ → Option String) (n : ℕ) (move : S → S) (s : S) (b : Bool)
    → Runs
        (succeed tx n move s b)
        (if b then move s else s)
        (if b then ran (tx n) && ran (tx (n + 1)) else true)
Runs-succeed tx n move s true =
    Runs->>= (read (tx n) s) s (ran (tx n)) _ _ _ (Runs-read (tx n) s)
      (Runs-statement (tx (n + 1)) move s)
Runs-succeed tx n move s false = refl

Runs-conclude :
    {S : Type 0} (tx : ℕ → Option String) (n : ℕ) (current deleted : String) (move : S → S) (s : S)
    → Runs (conclude tx n current deleted move s) (if str_eq current deleted then move s else s) (
        (ran (tx n)
          && (if str_eq current deleted then ran (tx (n + 1)) && ran (tx (n + 1 + 1)) else true))
        && ran (tx (n + 3)))
Runs-conclude tx n current deleted move s =
    let last = if str_eq current deleted then move s else s in
    Runs->>= (read (tx n) current >>= λ c. succeed tx (n + 1) move s (str_eq c deleted)) last _ _ _
      _
      (Runs->>= (read (tx n) current) current (ran (tx n)) _ _ _ (Runs-read (tx n) current)
        (Runs-succeed tx (n + 1) move s (str_eq current deleted)))
      (Runs-read (tx (n + 3)) last)

-- The transaction of DeleteAccount, for any five statements.
pub Runs-transaction :
    {S : Type 0} (tx : ℕ → Option String) (a b c d e : S → S) (current : S → String)
    (deleted : String) (move : S → S) (s : S)
    → let t = applied (a ∷ b ∷ c ∷ d ∷ e ∷ []) s in
      Runs
        (read (tx 0) s >>= (λ u. run_statements tx 1 (a ∷ b ∷ c ∷ d ∷ e ∷ []) u) >>= λ u.
          conclude tx 6 (current u) deleted move u)
        (if str_eq (current t) deleted then move t else t)
        (deletion_ran tx (str_eq (current t) deleted))
Runs-transaction tx a b c d e current deleted move s =
    let changes = a ∷ b ∷ c ∷ d ∷ e ∷ [] in
    let t = applied changes s in
    Runs->>= (read (tx 0) s >>= λ u. run_statements tx 1 changes u) t _ _ _ _
      (Runs->>= (read (tx 0) s) s (ran (tx 0)) _ _ _ (Runs-read (tx 0) s)
        (Runs-run_statements tx 1 changes s))
      (Runs-conclude tx 6 (current t) deleted move t)
