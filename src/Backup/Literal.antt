-- ===== src/Backup/Literal.antt =====
-- The SQL text of src/backup.rs: an independent reader of SQLite's string literals reads the path
-- back.
use zun_rust_server.Prelude.{
  ℕ, ◌≡◌, refl, Bool, true, false, [], ◌∷◌, ◌++◌, Option, none, some, if◌then◌else◌, ◌==◌,
  Bool-cases, inl, inr, arith,
}
use zun_rust_server.Prelude.Text.{Text, text, strip_prefix}
use zun_rust_server.Backup.{escape_quotes, vacuum_sql}

abbrev with_char : ℕ → Option (Text × Text) → Option (Text × Text)
with_char c none = none
with_char c (some (s, rest)) = some (c ∷ s, rest)

-- The text of a literal behind its opening quote, and what follows its closing quote: two quotes
-- stand for one. The flag says that the character before was a quote.
unfoldable pub read_literal : Bool → Text → Option (Text × Text)
read_literal false [] = none
read_literal true [] = some ([], [])
read_literal false (c ∷ s) =
    let rest = read_literal (c == b'\'') s in if c == b'\'' then rest else with_char c rest
read_literal true (c ∷ s) =
    let rest = read_literal false s in if c == b'\'' then with_char c rest else some ([], c ∷ s)

abbrev whole_literal : Option (Text × Text) → Option Text
whole_literal (some (path, [])) = some path
whole_literal (some (path, c ∷ rest)) = none
whole_literal none = none

abbrev literal_behind : Option Text → Option Text
literal_behind none = none
literal_behind (some s) = whole_literal (read_literal false s)

-- The path of a VACUUM INTO that ends with its literal.
unfoldable pub vacuum_target : Text → Option Text
unfolding read_literal strip_prefix
vacuum_target sql = literal_behind (strip_prefix sql (text "VACUUM INTO '"))

read_literal-escape_quotes :
    (s : Text) → read_literal false (escape_quotes s ++ text "'") ≡ some (s, [])
unfolding read_literal escape_quotes
read_literal-escape_quotes [] = refl
read_literal-escape_quotes (c ∷ s) = elim (Bool-cases (c == b'\'')) [
  | inl quote ↦
      let same : c ≡ b'\'' = ground arith in rw same (rw (read_literal-escape_quotes s) refl)
  | inr plain ↦ rw plain (rw (plain, read_literal-escape_quotes s) refl)
]

-- Whatever characters the path has, SQLite reads the statement as a VACUUM INTO of exactly this
-- path, with nothing behind it.
pub vacuum_target-vacuum_sql : (path : Text) → vacuum_target (vacuum_sql path) ≡ some path
unfolding vacuum_target vacuum_sql strip_prefix
vacuum_target-vacuum_sql path = rw (read_literal-escape_quotes path) refl
