-- ===== src/Prelude/Texts.antt =====
-- The functions of Go's package strings that the program calls, on texts of code points.
use Prim.Native.Char.{Char, code}
use Prim.Native.String.{String, ◌++◌ as append}
use mathlib.Core.Bool.{Bool, true, false, ◌&&◌, ◌||◌}
use mathlib.Core.List.{List, [], ◌∷◌}
use mathlib.Core.Option.{Option, none, some}
use capd.Prelude.Tests.{if◌then◌else◌, leb, ◌==◌}

-- unicode.IsSpace
unfoldable pub is_space : Char → Bool
is_space c =
    let n = code c in
    (leb 9 n && leb n 13)
    || ((n == 32)
        || ((n == 133)
            || ((n == 160)
                || ((n == 5760)
                    || ((leb 8192 n && leb n 8202)
                        || ((n == 8232)
                            || ((n == 8233) || ((n == 8239) || ((n == 8287) || (n == 12288))))))))))

unfoldable pub trim_left : String → String
unfolding is_space
trim_left String.[] = String.[]
trim_left (String.◌∷◌ c s) = let rest = trim_left s in if is_space c then rest else String.◌∷◌ c s

abbrev pub is_blank : String → Bool
is_blank String.[] = true
is_blank (String.◌∷◌ c s) = false

abbrev pub cons_trimmed : Char → String → String
cons_trimmed c s = if is_blank s && is_space c then String.[] else String.◌∷◌ c s

unfoldable pub trim_right : String → String
unfolding is_space
trim_right String.[] = String.[]
trim_right (String.◌∷◌ c s) = cons_trimmed c (trim_right s)

-- strings.TrimSpace(s)
unfoldable pub trim_space : String → String
unfolding trim_left trim_right
trim_space s = trim_right (trim_left s)

-- strings.HasPrefix(s, prefix), and what stands behind the prefix.
unfoldable pub after_prefix : String → String → Option String
after_prefix String.[] s = some s
after_prefix (String.◌∷◌ p prefix) String.[] = none
after_prefix (String.◌∷◌ p prefix) (String.◌∷◌ c s) =
    let rest = after_prefix prefix s in if code p == code c then rest else none

abbrev pub is_found : Option String → Bool
is_found none = false
is_found (some s) = true

abbrev pub has_prefix : String → String → Bool
has_prefix s prefix = is_found (after_prefix prefix s)

-- strings.Contains(s, part)
unfoldable pub contains : String → String → Bool
unfolding after_prefix
contains String.[] part = is_blank part
contains (String.◌∷◌ c s) part =
    let rest = contains s part in if has_prefix (String.◌∷◌ c s) part then true else rest

abbrev pub end_field : String → List String → List String
end_field cur rest = if is_blank cur then rest else cur ∷ rest

-- strings.Fields behind what was read of a field.
unfoldable pub fields_from : String → String → List String
unfolding is_space
fields_from cur String.[] = end_field cur []
fields_from cur (String.◌∷◌ c s) =
    let apart = fields_from "" s in
    let longer = fields_from (append cur (String.◌∷◌ c String.[])) s in
    if is_space c then end_field cur apart else longer

abbrev pub fields : String → List String
fields s = fields_from "" s
