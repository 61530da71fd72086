-- ===== src/Repair/Output.antt =====
-- internal/repairrunner/runner.go: the output that a report keeps of a command.
use Prim.Native.Char.{Char, len_utf8}
use Prim.Native.String.{len}
use Prim.Native.String.len.{cons as len-cons}
use capd.Prelude.{
  ℕ, ◌+◌, ◌-◌, ◌≤◌, ◌<◌, String, append, Bool, true, false, ◌&&◌, leb, ◌≡◌, refl, sym, ap, ◌∙◌,
  arith, ◌⊎◌, inl, inr, Bool-cases, leb→le, trim_left, trim_right, trim_space, cons_trimmed,
  is_blank, is_space,
}
use text.Mathlib.TextLemmas.{nil-append, cons-append}
use native.Mathlib.Nat.{le_trans}
use capd.Repair.Runner.{take_bytes, bounded_output}

len-take_bytes : (room : ℕ) (s : String) → len (take_bytes room s) ≤ room
unfolding take_bytes
len-take_bytes room String.[] = omega arith
len-take_bytes room (String.◌∷◌ c s) = elim (Bool-cases (leb (len_utf8 c) room)) [
  | inl e ↦ rw e (
      omega (
        arith,
        leb→le _ _ e,
        len-cons c (take_bytes (room - len_utf8 c) s),
        len-take_bytes (room - len_utf8 c) s,
      ))
  | inr e ↦ rw e (omega arith)
]

len-trim_left : (s : String) → len (trim_left s) ≤ len s
unfolding trim_left
len-trim_left String.[] = omega arith
len-trim_left (String.◌∷◌ c s) = ground (arith, len-cons c s, len-trim_left s)

len-cons_trimmed :
    (c : Char) (r s : String) → len r ≤ len s → len (cons_trimmed c r) ≤ len (String.◌∷◌ c s)
len-cons_trimmed c r s h = elim (Bool-cases (is_blank r && is_space c)) [
  | inl e ↦ rw e (omega arith)
  | inr e ↦ rw e (omega (arith, len-cons c r, len-cons c s))
]

len-trim_right : (s : String) → len (trim_right s) ≤ len s
unfolding trim_right
len-trim_right String.[] = omega arith
len-trim_right (String.◌∷◌ c s) = len-cons_trimmed c (trim_right s) s (len-trim_right s)

len-trim_space : (s : String) → len (trim_space s) ≤ len s
unfolding trim_space
len-trim_space s = omega (arith, len-trim_right (trim_left s), len-trim_left s)

-- What the longest initial part of whole characters within a number of bytes is.
pub record Longest (room : ℕ) (kept s : String) : Type 0 where
  pub next : Char
  pub rest : String
  pub splits : s ≡ append kept (String.◌∷◌ next rest)
  pub fits : len kept ≤ room
  pub longest : room < len kept + len_utf8 next

take_bytes-Longest : (room : ℕ) (s : String) → room < len s → Longest room (take_bytes room s) s
unfolding take_bytes
take_bytes-Longest room String.[] h = absurd (omega (arith, h))
take_bytes-Longest room (String.◌∷◌ c s) h = elim (Bool-cases (leb (len_utf8 c) room)) [
  | inl e ↦
      let later =
        take_bytes-Longest (room - len_utf8 c) s (omega (arith, h, leb→le _ _ e, len-cons c s)) in
      rw e (record {
        next = later.next;
        rest = later.rest;
        splits = ap (String.◌∷◌ c) later.splits ∙ sym (cons-append c _ _);
        fits =
            omega (arith, len-cons c (take_bytes (room - len_utf8 c) s), leb→le _ _ e, later.fits);
        longest =
            omega
              (arith, len-cons c (take_bytes (room - len_utf8 c) s), leb→le _ _ e, later.longest);
      })
  | inr e ↦ rw e (record {
    next = c;
    rest = s;
    splits = sym (nil-append _);
    fits = omega arith;
    longest = ground (arith, e);
  })
]

-- What is kept of an output without the spaces around it.
abbrev pub Bounded : String → String × Bool → Type 0
Bounded trimmed (text, cut) =
    ((len trimmed ≤ 8192) × (cut ≡ false) × (text ≡ trimmed))
    ⊎ ((8192 < len trimmed)
        × (cut ≡ true)
        × ((kept : String) × Longest 8192 kept trimmed × (text ≡ trim_space kept)))

-- Whatever a command prints, its report keeps at most 8192 bytes of it: the output without the spaces
-- around it, where that is not longer; and otherwise, and only then marked as cut, the longest initial
-- part of that in whole characters within 8192 bytes, without the spaces around it.
pub bounded_output-le :
    (output : String)
    → (len (bounded_output output).0 ≤ 8192) × Bounded (trim_space output) (bounded_output output)
unfolding bounded_output
bounded_output-le output =
    let trimmed = trim_space output in
    elim (Bool-cases (leb (len trimmed) 8192)) [
      | inl e ↦ rw e (leb→le _ _ e, inl (leb→le _ _ e, refl, refl))
      | inr e ↦
          let long : 8192 < len trimmed = ground (arith, e) in
          rw e (
            le_trans (len-trim_space (take_bytes 8192 trimmed)) (len-take_bytes 8192 trimmed),
            inr (long, refl, (take_bytes 8192 trimmed, take_bytes-Longest 8192 trimmed long, refl)),
          )
    ]
