-- ===== src/Prelude/Platform.antt =====
-- What the program takes from Python's standard library and the operating system, as data: JSON
-- values, exceptions, and the functions of hashlib, json, datetime and pathlib as one record.
use Prim.Native.Nat.{ℕ}
use Prim.Native.String.{String}
use mathlib.Core.Bool.{Bool}
use mathlib.Core.Option.{Option, none, some}
use mathlib.Core.List.{List, [], ◌∷◌}
use text.Mathlib.Text.{◌==◌}
use agentic_engineering_cont.Prelude.Tests.{if◌then◌else◌}
use agentic_engineering_cont.Prelude.Text.{concat}

-- `negsuc n` is -(n + 1); a process ended by a signal has a negative return code.
pub data ℤ : Type 0 where
  pos : ℕ → ℤ
  negsuc : ℕ → ℤ

mutual
  pub data Json : Type 0 where
    null : Json
    bool : Bool → Json
    int : ℤ → Json
    str : String → Json
    arr : Items → Json
    obj : Fields → Json

  pub data Items : Type 0 where
    nil : Items
    cons : Json → Items → Items

  pub data Fields : Type 0 where
    end : Fields
    field : String → Json → Fields → Fields

abbrev pub strs : List String → Items
strs [] = nil
strs (s ∷ ss) = cons (str s) (strs ss)

abbrev pub list : List String → Json
list ss = arr (strs ss)

abbrev pub num : ℕ → Json
num n = int (pos n)

abbrev pub opt : Option String → Json
opt none = null
opt (some s) = str s

-- payload.get(key), of an object
unfoldable pub get_field : String → Fields → Option Json
get_field k end = none
get_field k (field j v fs) = if j == k then some v else get_field k fs

-- The exceptions that the program raises or catches, each with its message.
pub data Error : Type 0 where
  value_error permission_error key_error runtime_error type_error : String → Error
  file_not_found_error file_exists_error integrity_error timeout_error attribute_error os_error :
      String → Error

pub record Platform : Type 0 where
  -- hashlib.sha256(text.encode("utf-8")).hexdigest()
  pub sha256 : String → String
  -- json.dumps(value, sort_keys=True, separators=(",", ":"))
  pub canonical_json : Json → String
  -- json.dumps(value, indent=2, sort_keys=True)
  pub dumps : Json → String
  -- json.loads(text); `none` is JSONDecodeError
  pub loads : String → Option Json
  -- The n-th reading of datetime.now(timezone.utc), in microseconds, and its isoformat().
  pub clock : ℕ → ℕ
  pub isoformat : ℕ → String
  -- str(n), repr(text), str(Path(text).resolve())
  pub show : ℕ → String
  pub repr : String → String
  pub resolve : String → String

-- type(error).__name__
error_name : Error → String
error_name (value_error m) = "ValueError"
error_name (permission_error m) = "PermissionError"
error_name (key_error m) = "KeyError"
error_name (runtime_error m) = "RuntimeError"
error_name (type_error m) = "TypeError"
error_name (file_not_found_error m) = "FileNotFoundError"
error_name (file_exists_error m) = "FileExistsError"
error_name (integrity_error m) = "IntegrityError"
error_name (timeout_error m) = "TimeoutError"
error_name (attribute_error m) = "AttributeError"
error_name (os_error m) = "OSError"

-- str(error); a KeyError shows the repr of its argument
error_text : Platform → Error → String
error_text p (key_error m) = p.repr m
error_text p (value_error m) = m
error_text p (permission_error m) = m
error_text p (runtime_error m) = m
error_text p (type_error m) = m
error_text p (file_not_found_error m) = m
error_text p (file_exists_error m) = m
error_text p (integrity_error m) = m
error_text p (timeout_error m) = m
error_text p (attribute_error m) = m
error_text p (os_error m) = m

-- f"{type(error).__name__}: {error}"
unfoldable pub describe : Platform → Error → String
unfolding error_name error_text
describe p e = concat (error_name e ∷ ": " ∷ error_text p e ∷ [])
