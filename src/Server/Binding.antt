-- ===== src/Server/Binding.antt =====
-- internal/server/router.go and internal/account/store.go: a session and the account that it is bound to.
use capd.Prelude.{
  String, Bool, true, false, Option, none, some, List, Result, ok, err, insert, lookup, str_eq,
  if◌then◌else◌, ◌≡◌, lookup-insert, eq_refl, arith,
}
use capd.Session.Store.{Io}
use capd.Session.Pump.{Inner, Session}
use capd.Session.Manager.{Manager}
use capd.Account.Store.{
  AccountError, Store, Answer, bind_session_account, after_checks, exec, executed,
}
use capd.Server.Creating.{CreateError, bind}

-- A session is registered under the id, on the adapter session that was started.
abbrev pub Registered : String → Option Inner → Manager → Type 0
Registered id start m =
    (s : Session) × (lookup id m.sessions ≡ some s) × (s.id ≡ id) × (start ≡ some s.inner)

-- The session is bound to the account, where there is one and a store of accounts.
abbrev pub BoundTo : {F : Type 0} → String → String → Option (Store F) → Type 0
BoundTo id account none = Unit
BoundTo id account (some st) =
    if str_eq account "" then Unit else lookup id st.session_accounts ≡ some account

abbrev pub is_bind : {F : Type 0} → CreateError F → Bool
is_bind (bind e) = true
is_bind _ = false

abbrev pub Stored : {F : Type 0} → String → String → Answer F → Type 0
Stored id account (ok _, st) = lookup id st.session_accounts ≡ some account
Stored id account (err e, st) = Unit

pub lookup-insert_same :
    {V : Type 0} (id : String) (v : V) (rows : List (String × V))
    → lookup id (insert id v rows) ≡ some v
lookup-insert_same id v rows = ground (arith, lookup-insert id id v rows, eq_refl id)

pub bind_session_account-Stored :
    {F : Type 0} (read io : Io) (id account : String) (st : Store F)
    → Stored id account (bind_session_account read io id account st)
unfolding bind_session_account exec
bind_session_account-Stored {F = F} read io id account st = checked _
  where
    bind_row : Store F → Store F
    bind_row t = record t { session_accounts = insert id account t.session_accounts }

    tightened : (r : Result AccountError (Unit {0})) → Stored id account (r, bind_row st)
    tightened (ok u) = lookup-insert_same id account st.session_accounts
    tightened (err e) = tt

    ran : (fault : Option String) → Stored id account (executed io bind_row st fault)
    ran none = tightened _
    ran (some e) = tt

    checked :
        (r : Result AccountError (Unit {0}))
        → Stored id account (after_checks r (exec io bind_row) st)
    checked (ok u) = ran io.fault
    checked (err e) = tt

abbrev pub Unbinding : {F A : Type 0} → Result (CreateError F) A → Type 0
Unbinding (ok a) = Unit
Unbinding (err e) = is_bind e ≡ false
