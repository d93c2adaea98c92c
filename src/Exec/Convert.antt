-- ===== src/Exec/Convert.antt =====
-- Python's conversions of JSON values: `str_of` is str(value) of a value that is no string, and
-- `int_of` is int(text).
use agentic_engineering_cont.Prelude.{
  zero, String, Bool, true, false, not, Option, none, some, ◌==◌,
}
use agentic_engineering_cont.Prelude.Platform.{
  ℤ, pos, Json, null, bool, int, str, arr, obj, nil, cons, end, field, Fields, get_field,
  type_error,
}
use agentic_engineering_cont.Exec.{Result, ok, err}

-- str(value)
abbrev pub text_of : (Json → String) → Json → String
text_of str_of (str s) = s
text_of str_of j = str_of j

-- str(payload.get(key, default))
abbrev pub text_field : (Json → String) → String → String → Fields → String
text_field str_of key default fs = elim (get_field key fs) [
  | none ↦ default
  | some j ↦ text_of str_of j
]

-- int(value)
abbrev pub integer_of : (String → Result ℤ) → Option Json → Result ℤ
integer_of int_of none = ok (pos 0)
integer_of int_of (some (int n)) = ok n
integer_of int_of (some (bool true)) = ok (pos 1)
integer_of int_of (some (bool false)) = ok (pos 0)
integer_of int_of (some (str s)) = int_of s
integer_of int_of (some j) = err (type_error "int() argument must be a string or a real number")

-- bool(value)
abbrev pub is_truthy : Json → Bool
is_truthy null = false
is_truthy (bool b) = b
is_truthy (int (pos zero)) = false
is_truthy (int n) = true
is_truthy (str s) = not (s == "")
is_truthy (arr nil) = false
is_truthy (arr (cons j js)) = true
is_truthy (obj end) = false
is_truthy (obj (field k v fs)) = true
