-- ===== src/Prelude/Fields.antt =====
-- Operations of Rust's `str` on the fields of a header: `split` at a character, `trim`,
-- `to_ascii_lowercase`, and the decimal digits of a number.
use Prim.Native.Nat.{ℕ, zero, suc, ◌+◌, ◌/◌, ◌%◌}
use mathlib.Core.Path.{◌≡◌, refl}
use mathlib.Core.Logic.{inl, inr}
use mathlib.Core.Bool.{Bool, true, not, ◌&&◌}
use mathlib.Core.List.{List, [], ◌∷◌, ◌++◌}
use native.Mathlib.Omega.{arith}
use zun_rust_server.Prelude.Tests.{ltb, leb, ◌==◌, if◌then◌else◌, Bool-cases}
use zun_rust_server.Prelude.Lists.{all}
use zun_rust_server.Prelude.Text.{Text, is_whitespace}

abbrev pub cons_first : ℕ → List Text → List Text
cons_first c [] = (c ∷ []) ∷ []
cons_first c (field ∷ fields) = (c ∷ field) ∷ fields

unfoldable pub split_on : ℕ → Text → List Text
split_on sep [] = [] ∷ []
split_on sep (c ∷ s) =
    let rest = split_on sep s in if c == sep then [] ∷ rest else cons_first c rest

unfoldable pub trim_start : Text → Text
trim_start [] = []
trim_start (c ∷ s) = let rest = trim_start s in if is_whitespace c then rest else c ∷ s

abbrev pub cons_trimmed : ℕ → Text → Text
cons_trimmed c [] = if is_whitespace c then [] else c ∷ []
cons_trimmed c (d ∷ s) = c ∷ d ∷ s

unfoldable pub trim_end : Text → Text
trim_end [] = []
trim_end (c ∷ s) = cons_trimmed c (trim_end s)

unfoldable pub trim : Text → Text
unfolding trim_start trim_end
trim s = trim_end (trim_start s)

unfoldable pub to_ascii_lowercase : Text → Text
to_ascii_lowercase [] = []
to_ascii_lowercase (c ∷ s) = (if leb b'A' c && leb c b'Z' then c + 32 else c) ∷ to_ascii_lowercase s

-- The digits of `n`, the last first; `fuel` above `n` is enough.
unfoldable pub digits_rev : ℕ → ℕ → Text
digits_rev zero n = []
digits_rev (suc fuel) n =
    let rest = digits_rev fuel (n / 10) in
    if ltb n 10 then (b'0' + n) ∷ [] else (b'0' + n % 10) ∷ rest

unfoldable pub onto : Text → Text → Text
onto [] acc = acc
onto (c ∷ s) acc = onto s (c ∷ acc)

unfoldable pub decimal : ℕ → Text
unfolding digits_rev onto
decimal n = onto (digits_rev (suc n) n) []

abbrev pub is_digit : ℕ → Bool
is_digit c = leb b'0' c && leb c b'9'

digits_rev-digits : (fuel n : ℕ) → all is_digit (digits_rev fuel n) ≡ true
unfolding digits_rev
digits_rev-digits zero n = refl
digits_rev-digits (suc fuel) n = elim (Bool-cases (ltb n 10)) [
  | inl last ↦ rw last (ground arith)
  | inr more ↦ rw (more, digits_rev-digits fuel (n / 10)) (ground arith)
]

all-onto :
    (p : ℕ → Bool) (s acc : Text) → all p s ≡ true → all p acc ≡ true → all p (onto s acc) ≡ true
unfolding onto
all-onto p [] acc h k = k
all-onto p (c ∷ s) acc h k = elim (Bool-cases (p c)) [
  | inl holds ↦ all-onto p s (c ∷ acc) (rw holds at h) (rw holds k)
  | inr fails ↦ absurd (let q = rw fails at h in cc)
]

pub decimal_digits : (n : ℕ) → all is_digit (decimal n) ≡ true
unfolding decimal
decimal_digits n = all-onto is_digit (digits_rev (suc n) n) [] (digits_rev-digits (suc n) n) refl

-- A text without the separator is its only field.
pub split_on_one :
    (sep : ℕ) (s : Text) → all (λ c. not (c == sep)) s ≡ true → split_on sep s ≡ s ∷ []
unfolding split_on
split_on_one sep [] h = refl
split_on_one sep (c ∷ s) h = elim (Bool-cases (c == sep)) [
  | inl hit ↦ absurd (let q = rw hit at h in cc)
  | inr miss ↦ rw (miss, split_on_one sep s (rw miss at h)) refl
]

-- A last character that stays keeps the text before it.
pub trim_end-append :
    (s : Text) (c : ℕ) (t : Text) → trim_end (c ∷ t) ≡ c ∷ t → trim_end (s ++ c ∷ t) ≡ s ++ c ∷ t
unfolding trim_end
trim_end-append [] c t h = h
trim_end-append (d ∷ []) c t h = rw h refl
trim_end-append (d ∷ e ∷ s) c t h = rw (trim_end-append (e ∷ s) c t h) refl
