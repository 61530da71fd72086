-- ===== src/Account/Choice.antt =====
-- internal/account/routing.go: which account the selection returns.
use capd.Prelude.{
  String, Bool, true, false, not, ◌&&◌, ◌||◌, some, List, [], ◌∷◌, Result, ok, err, ◌>>=◌, ◌≡◌,
  refl, sym, subst, ◌⊎◌, inl, inr, Bool-cases, All, All-map, str_eq, if◌then◌else◌, arith,
}
use capd.Account.Store.{AccountError, unknown_account, Account, Store, current_account}
use capd.Account.Delete.{list_accounts}
use capd.Account.Routing.{
  Floats, RoutePolicy, Reads, text_of, route_tie_beats, normalized, quota_route_score_at, choose,
  select_from, select_quota_route_account_with_policy,
}

-- IEEE 754 comparisons, of which these hold for NaN too.
pub record FloatOrder {F : Type 0} (fl : Floats F) : Type 0 where
  pub lt_irrefl : (x : F) → fl.lt x x ≡ false
  pub lt_trans : (x y z : F) → fl.lt x y ≡ true → fl.lt y z ≡ true → fl.lt x z ≡ true
  pub lt_eq : (x y z : F) → fl.lt x y ≡ true → fl.eq y z ≡ true → fl.lt x z ≡ true
  pub eq_lt : (x y z : F) → fl.eq x y ≡ true → fl.lt y z ≡ true → fl.lt x z ≡ true
  pub eq_trans : (x y z : F) → fl.eq x y ≡ true → fl.eq y z ≡ true → fl.eq x z ≡ true

abbrev pub OneOf : Account → List Account → Type 0
OneOf acc [] = ⊥
OneOf acc (x ∷ xs) = (acc ≡ x) ⊎ OneOf acc xs

module _ {F : Type 0} (fl : Floats F) (fold : String → String) (score : Account → F)
    (current : String) where
  -- The account does not score lower, and where it is the current one at the same score so is `best`.
  pub record Settled (best acc : Account) : Type 0 where
    pub not_lower : fl.lt (score acc) (score best) ≡ false
    pub current_first :
        (str_eq acc.id current && (fl.eq (score acc) (score best) && not (str_eq best.id current)))
        ≡ false

  abbrev beats : Account → Account → Bool
  beats acc best =
      fl.lt (score acc) (score best)
      || (fl.eq (score acc) (score best) && route_tie_beats acc best current)

  self-Settled : (acc : Account) → FloatOrder fl → Settled acc acc
  self-Settled acc laws = record {
    not_lower = laws.lt_irrefl (score acc);
    current_first = ground arith;
  }

  beaten-Settled : (best acc : Account) → beats acc best ≡ false → Settled best acc
  unfolding route_tie_beats
  beaten-Settled best acc h = record {
    not_lower = ground (arith, h);
    current_first = ground (arith, h);
  }

  moved-Settled :
      (best acc y : Account)
      → FloatOrder fl
      → Settled best y
      → beats acc best ≡ true
      → Settled acc y
  unfolding route_tie_beats
  moved-Settled best acc y laws s h = record {
    not_lower = ground (
      arith,
      h,
      s.not_lower,
      laws.lt_trans (score y) (score acc) (score best),
      laws.lt_eq (score y) (score acc) (score best),
    );
    current_first = ground (
      arith,
      h,
      s.not_lower,
      s.current_first,
      laws.eq_lt (score y) (score acc) (score best),
      laws.eq_trans (score y) (score acc) (score best),
    );
  }

  -- What the loop returns, of the accounts that it has `seen` and of those to come.
  record Chosen (seen accs : List Account) (start best : Account) : Type 0 where
    before : All (Settled best) seen
    after : All (Settled best) accs
    source : (best ≡ start) ⊎ OneOf best accs

  later_taken :
      (seen : List Account) (acc : Account) (accs : List Account) (start best : Account)
      → Chosen (acc ∷ seen) accs acc best
      → Chosen seen (acc ∷ accs) start best
  later_taken seen acc accs start best c = record {
    before = c.before.1;
    after = (c.before.0, c.after);
    source = inr c.source;
  }

  later_kept :
      (seen : List Account) (acc : Account) (accs : List Account) (start best : Account)
      → Chosen (acc ∷ seen) accs start best
      → Chosen seen (acc ∷ accs) start best
  later_kept seen acc accs start best c = record {
    before = c.before.1;
    after = (c.before.0, c.after);
    source = elim (c.source) [ inl k ↦ inl k | inr k ↦ inr (inr k) ];
  }

  choose-Chosen :
      (start : Account) (seen accs : List Account)
      → FloatOrder fl
      → Settled start start
      → All (Settled start) seen
      → Chosen seen accs start (choose fl fold score current start accs)
  unfolding choose
  choose-Chosen start seen [] laws own h = record { before = h; after = tt; source = inl refl }
  choose-Chosen start seen (acc ∷ accs) laws own h = elim (Bool-cases (beats acc start)) [
    | inl e ↦
        subst
          (λ b.
            Chosen seen (acc ∷ accs) start
              (choose fl fold score current (if b then acc else start) accs))
          (sym e)
          (later_taken seen acc accs start _ (
            choose-Chosen acc (acc ∷ seen) accs laws (self-Settled acc laws)
              (self-Settled acc laws, All-map (λ y s. moved-Settled start acc y laws s e) seen h)))
    | inr e ↦
        subst
          (λ b.
            Chosen seen (acc ∷ accs) start
              (choose fl fold score current (if b then acc else start) accs))
          (sym e)
          (later_kept seen acc accs start _
            (choose-Chosen start (acc ∷ seen) accs laws own (beaten-Settled start acc e, h)))
  ]

  -- The answer to a list of accounts.
  abbrev pub RouteChoice : List Account → Result AccountError Account → Type 0
  RouteChoice [] r = r ≡ err unknown_account
  RouteChoice (acc ∷ accs) r =
      (best : Account) × (r ≡ ok best) × OneOf best (acc ∷ accs) × All (Settled best) (acc ∷ accs)

  select_from-RouteChoice :
      (accs : List Account)
      → FloatOrder fl
      → RouteChoice accs (select_from fl fold score current accs)
  select_from-RouteChoice [] laws = refl
  select_from-RouteChoice (acc ∷ accs) laws =
      let chosen =
        choose-Chosen acc (acc ∷ []) accs laws (self-Settled acc laws)
          (self-Settled acc laws, tt) in
      (choose fl fold score current acc accs, refl, chosen.source, (chosen.before.0, chosen.after))

-- Where the accounts of the provider can be listed, the selection finds none if there is none, and else
-- returns one of them such that none has a lower score, and which is the current account if that has
-- the same score. The order of float64 is taken to be that of IEEE 754.
pub select_quota_route_account_with_policy-RouteChoice :
    {F : Type 0} (fl : Floats F) (fold : String → String) (policy : RoutePolicy F) (reads : Reads)
    (provider : String) (st : Store F) (accounts : List Account)
    → FloatOrder fl
    → list_accounts reads.accounts provider st ≡ ok accounts
    → RouteChoice fl fold
        (quota_route_score_at fl fold
          (normalized fl fold policy)
          reads
          st
          (text_of (current_account reads.current provider st)))
        (text_of (current_account reads.current provider st))
        accounts
        (select_quota_route_account_with_policy fl fold policy reads provider (some st))
unfolding select_quota_route_account_with_policy
select_quota_route_account_with_policy-RouteChoice {F = F} fl fold policy reads provider st accounts
      laws listed =
    subst
      (λ r. RouteChoice fl fold score current accounts (r >>= select_from fl fold score current))
      (sym listed) (select_from-RouteChoice fl fold score current accounts laws)
  where
    current : String
    current = text_of (current_account reads.current provider st)

    score : Account → F
    score = quota_route_score_at fl fold (normalized fl fold policy) reads st current
