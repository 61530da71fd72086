-- ===== src/Account/Percents.antt =====
-- internal/account/quota.go: every snapshot that is read has usable percentages.
use capd.Prelude.{ℕ, String, true, false, ◌||◌, Option, none, some, List, [], ◌∷◌, ◌≡◌, arith}
use capd.Protocol.{Members, get_field}
use capd.Account.Routing.{Floats, quota_percent_usable, quota_usable}
use capd.Account.Quota.{
  UsageText, members_of, conservative_percent, percent_or, read_window, read_code_review,
  read_windows, read_code_reviews, Windows, no_windows, read_rate_limits, read_rate_limit,
  quota_from_usage,
}

-- Of float64: two numbers that are not NaN compare, and 0 and 100 are such numbers, in that order.
pub record FloatPercents {F : Type 0} (fl : Floats F) : Type 0 where
  pub total :
      (x y : F)
      → fl.is_nan x ≡ false
      → fl.is_nan y ≡ false
      → (fl.lt x y || (fl.eq x y || fl.lt y x)) ≡ true
  pub eq_refl : (x : F) → fl.is_nan x ≡ false → fl.eq x x ≡ true
  pub zero_number : fl.is_nan (fl.from_nat 0) ≡ false
  pub zero_finite : fl.is_inf (fl.from_nat 0) ≡ false
  pub hundred_number : fl.is_nan (fl.from_nat 100) ≡ false
  pub hundred_finite : fl.is_inf (fl.from_nat 100) ≡ false
  pub zero_lt_hundred : fl.lt (fl.from_nat 0) (fl.from_nat 100) ≡ true

module _ {F : Type 0} (fl : Floats F) (fold : String → String) where
  abbrev Usable : F → Type 0
  Usable n = quota_percent_usable fl fold n ≡ true

  zero-Usable : FloatPercents fl → Usable (fl.from_nat 0)
  unfolding quota_percent_usable
  zero-Usable laws = ground (
    arith,
    laws.zero_number,
    laws.zero_finite,
    laws.zero_lt_hundred,
    laws.eq_refl (fl.from_nat 0) laws.zero_number,
  )

  hundred-Usable : FloatPercents fl → Usable (fl.from_nat 100)
  unfolding quota_percent_usable
  hundred-Usable laws = ground (
    arith,
    laws.hundred_number,
    laws.hundred_finite,
    laws.zero_lt_hundred,
    laws.eq_refl (fl.from_nat 100) laws.hundred_number,
  )

  module _ (go : UsageText F) where
    conservative_percent-Usable : (n : F) → FloatPercents fl → Usable (conservative_percent fl go n)
    unfolding conservative_percent quota_percent_usable
    conservative_percent-Usable n laws = ground (
      arith,
      hundred-Usable laws,
      laws.total n (fl.from_nat 0),
      laws.total n (fl.from_nat 100),
      laws.zero_number,
      laws.hundred_number,
    )

    percent_or-Usable :
        (n : Option F) (old : F) → FloatPercents fl → Usable old → Usable (percent_or fl go n old)
    percent_or-Usable none old laws h = h
    percent_or-Usable (some n) old laws h = conservative_percent-Usable n laws

    read_window-Usable :
        (fields : Option Members) (w : F × String)
        → FloatPercents fl
        → Usable w.0
        → Usable (read_window fl go fields w).0
    unfolding read_window
    read_window-Usable none w laws h = h
    read_window-Usable (some fields) w laws h = percent_or-Usable _ w.0 laws h

    read_code_review-Usable :
        (fields : Option Members) (used : F)
        → FloatPercents fl
        → Usable used
        → Usable (read_code_review fl go fields used)
    unfolding read_code_review
    read_code_review-Usable none used laws h = h
    read_code_review-Usable (some fields) used laws h = percent_or-Usable _ used laws h

    read_windows-Usable :
        (fields : Members) (keys : List String) (w : F × String)
        → FloatPercents fl
        → Usable w.0
        → Usable (read_windows fl go fields keys w).0
    unfolding read_windows
    read_windows-Usable fields [] w laws h = h
    read_windows-Usable fields (key ∷ keys) w laws h =
        read_windows-Usable fields keys _ laws
          (read_window-Usable (members_of (get_field key fields)) w laws h)

    read_code_reviews-Usable :
        (fields : Members) (keys : List String) (used : F)
        → FloatPercents fl
        → Usable used
        → Usable (read_code_reviews fl go fields keys used)
    unfolding read_code_reviews
    read_code_reviews-Usable fields [] used laws h = h
    read_code_reviews-Usable fields (key ∷ keys) used laws h =
        read_code_reviews-Usable fields keys _ laws
          (read_code_review-Usable (members_of (get_field key fields)) used laws h)

    record UsableWindows (w : Windows fl go) : Type 0 where
      primary : Usable w.primary.0
      secondary : Usable w.secondary.0
      code_review : Usable w.code_review

    read_rate_limits-UsableWindows :
        (rl : Option Members) (w : Windows fl go)
        → FloatPercents fl
        → UsableWindows w
        → UsableWindows (read_rate_limits fl go rl w)
    unfolding read_rate_limits
    read_rate_limits-UsableWindows none w laws h = h
    read_rate_limits-UsableWindows (some rl) w laws h = record {
      primary = read_windows-Usable rl _ w.primary laws h.primary;
      secondary = read_windows-Usable rl _ w.secondary laws h.secondary;
      code_review = read_code_reviews-Usable rl _ w.code_review laws h.code_review;
    }

    read_rate_limit-UsableWindows :
        (rl : Option Members) (w : Windows fl go)
        → FloatPercents fl
        → UsableWindows w
        → UsableWindows (read_rate_limit fl go rl w)
    unfolding read_rate_limit
    read_rate_limit-UsableWindows none w laws h = h
    read_rate_limit-UsableWindows (some rl) w laws h = record {
      primary = read_windows-Usable rl _ w.primary laws h.primary;
      secondary = read_windows-Usable rl _ w.secondary laws h.secondary;
      code_review = read_code_reviews-Usable rl _ w.code_review laws h.code_review;
    }

    -- Whatever an adapter reports, the three percentages of the snapshot are numbers from 0 to 100, so
    -- the snapshot can be routed by while it is fresh. Of float64 only facts on 0, 100 and NaN are used.
    pub quota_usable-quota_from_usage :
        (account_id : String) (usage : Members) (now : ℕ)
        → FloatPercents fl
        → quota_usable fl fold (quota_from_usage fl go account_id usage now) ≡ true
    unfolding quota_from_usage quota_usable
    quota_usable-quota_from_usage account_id usage now laws =
        ground (arith, read.primary, read.secondary, read.code_review)
      where
        read : UsableWindows (
            read_rate_limit fl go (members_of (get_field "rate_limit" usage)) (
              read_rate_limits fl go
                (members_of (get_field "rateLimits" usage))
                (no_windows fl go)))
        read = read_rate_limit-UsableWindows (members_of (get_field "rate_limit" usage)) _ laws (
            read_rate_limits-UsableWindows (members_of (get_field "rateLimits" usage))
              (no_windows fl go) laws
              (record {
                primary = zero-Usable laws;
                secondary = zero-Usable laws;
                code_review = zero-Usable laws;
              }))
