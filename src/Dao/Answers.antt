-- ===== src/Dao/Answers.antt =====
-- What PostgreSQL answers to a statement, and how internal/dao/common.go reads it.
use service_genai.Prelude.{String, Bool, false, ◌||◌, List, [], ◌∷◌, if◌then◌else◌}
use service_genai.Errors.{Err, refused, no_rows, sentinel, plain, prefixed, join}
use service_genai.Action.{Res, ok, err}
use text.Mathlib.Text.{starts_with}

-- A row, no row, or an error with its SQLSTATE.
pub data Answer (A : Type 0) : Type 0 where
  row : A → Answer A
  empty : Answer A
  raised : String → Answer A

-- `refusedClasses`: a data exception, an integrity constraint violation and an exceeded limit.
abbrev refused_classes : List String
refused_classes = "22" ∷ "23" ∷ "54" ∷ []

abbrev in_classes : String → List String → Bool
in_classes code [] = false
in_classes code (c ∷ cs) = starts_with c code || in_classes code cs

-- `refused`, on an error that PostgreSQL raised with this code.
unfoldable pub refused_err : String → Err → Err
refused_err code e =
    if in_classes code refused_classes
    then join "\n" e (sentinel "values refused by the database" refused)
    else e

-- The error of a statement that raised.
abbrev pub pg_error : String → Err
pg_error code = plain code

-- The end of an Exec: a missing row becomes `missing`, and every error is wrapped. `judge` is
-- `refused` where the function calls it.
abbrev pub scan : {A : Type 0} → (String → Err → Err) → Err → Answer A → Res A
scan judge missing (row a) = ok a
scan judge missing empty =
    err (
      prefixed "execute query: "
        (join "\n" (sentinel "sql: no rows in result set" no_rows) missing))
scan judge missing (raised code) = err (prefixed "execute query: " (judge code (pg_error code)))

-- An Exec that does not call `refused`.
abbrev pub unjudged : String → Err → Err
unjudged code e = e

-- The codes of the errors that the tables raise.
abbrev pub check_violation : String
check_violation = "23514"

abbrev pub unique_violation : String
unique_violation = "23505"

abbrev pub foreign_key_violation : String
foreign_key_violation = "23503"
