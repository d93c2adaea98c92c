-- ===== src/Isolation/Config.antt =====
-- IsolationConfig and its reading from the policy file.
use Prim.Native.Char.{Char, code}
use agentic_engineering_cont.Prelude.{
  ℕ, String, Bool, true, false, ◌&&◌, ◌||◌, Option, none, some, List, [], ◌∷◌, ◌==◌, all_chars,
  hex_run, contains, leb, eqb, if◌then◌else◌,
}
use agentic_engineering_cont.Prelude.Platform.{
  ℤ, pos, negsuc, Json, bool, obj, Fields, get_field, value_error,
}
use agentic_engineering_cont.Exec.Convert.{text_field, integer_of}
use agentic_engineering_cont.Exec.{Result, ok, err, Exec, pure, raise, lift, guard, ◌>>=◌, ◌>>◌}
use agentic_engineering_cont.Development.Workspace.{executable_of}

pub record IsolationConfig : Type 0 where
  pub mode : String
  pub trusted_host_execution : Bool
  pub docker_executable : String
  pub image : String
  pub user : String
  pub memory : String
  pub cpus : String
  pub pids_limit : ℕ
  pub tmpfs_size : String

-- The defaults of the data class.
abbrev pub host_config : IsolationConfig
host_config = record {
  mode = "host";
  trusted_host_execution = true;
  docker_executable = "docker";
  image = "";
  user = "65532:65532";
  memory = "1g";
  cpus = "1.0";
  pids_limit = 128;
  tmpfs_size = "128m";
}

abbrev pub is_digit : Char → Bool
is_digit c = leb 48 (code c) && leb (code c) 57

abbrev pub is_lower : Char → Bool
is_lower c = leb 97 (code c) && leb (code c) 122

-- [a-z0-9._/-]
abbrev pub is_name_char : Char → Bool
is_name_char c =
    is_lower c
    || is_digit c
    || eqb (code c) 46
    || eqb (code c) 95
    || eqb (code c) 47
    || eqb (code c) 45

unfoldable pub after_text : List String → String → Bool
after_text [] s = hex_run 64 s
after_text (c ∷ cs) String.[] = false
after_text (c ∷ cs) (String.◌∷◌ d s) =
    let rest = after_text cs s in if String.◌∷◌ d "" == c then rest else false

-- [a-z0-9._/-]*@sha256:[0-9a-f]{64}
unfoldable pub image_rest : String → Bool
unfolding after_text
image_rest String.[] = false
image_rest (String.◌∷◌ c s) =
    let rest = image_rest s in
    if eqb (code c) 64
    then after_text ("s" ∷ "h" ∷ "a" ∷ "2" ∷ "5" ∷ "6" ∷ ":" ∷ []) s
    else if is_name_char c
    then rest
    else false

-- PINNED_IMAGE.fullmatch(image)
unfoldable pub is_pinned_image : String → Bool
unfolding image_rest
is_pinned_image String.[] = false
is_pinned_image (String.◌∷◌ c s) = (is_lower c || is_digit c) && image_rest s

abbrev pub is_positive_digit : Char → Bool
is_positive_digit c = leb 49 (code c) && leb (code c) 57

-- [1-9][0-9]*
abbrev pub is_positive : String → Bool
is_positive String.[] = false
is_positive (String.◌∷◌ c s) = is_positive_digit c && all_chars is_digit s

-- [0-9]*:[1-9][0-9]*
unfoldable pub user_rest : String → Bool
user_rest String.[] = false
user_rest (String.◌∷◌ c s) =
    let rest = user_rest s in
    if eqb (code c) 58 then is_positive s else if is_digit c then rest else false

-- [1-9][0-9]*:[1-9][0-9]*
unfoldable pub is_non_root : String → Bool
unfolding user_rest
is_non_root String.[] = false
is_non_root (String.◌∷◌ c s) = is_positive_digit c && user_rest s

-- [0-9]*[kmg]
unfoldable pub size_rest : String → Bool
size_rest String.[] = false
size_rest (String.◌∷◌ c s) =
    let rest = size_rest s in
    if eqb (code c) 107 || eqb (code c) 109 || eqb (code c) 103
    then s == ""
    else if is_digit c
    then rest
    else false

-- [1-9][0-9]*[kmg]
unfoldable pub is_size : String → Bool
unfolding size_rest
is_size String.[] = false
is_size (String.◌∷◌ c s) = is_positive_digit c && size_rest s

abbrev is_digits : String → Bool
is_digits String.[] = false
is_digits (String.◌∷◌ c s) = is_digit c && all_chars is_digit s

unfoldable pub decimal_rest : String → Bool
decimal_rest String.[] = true
decimal_rest (String.◌∷◌ c s) =
    let rest = decimal_rest s in
    if eqb (code c) 46 then is_digits s else if is_digit c then rest else false

-- [0-9]+(?:\.[0-9]+)?
unfoldable pub is_decimal : String → Bool
unfolding decimal_rest
is_decimal String.[] = false
is_decimal (String.◌∷◌ c s) = is_digit c && decimal_rest s

-- float(cpus) > 0, of such a text: a digit that is not 0. (The model reads a decimal exactly; a text
-- of over 300 zeros behind the point, which a double rounds to 0, is not told apart.)
unfoldable pub is_above_zero : String → Bool
is_above_zero String.[] = false
is_above_zero (String.◌∷◌ c s) = is_positive_digit c || is_above_zero s

abbrev fields_or : String → Json → Result Fields
fields_or message (obj fs) = ok fs
fields_or message j = err (value_error message)

abbrev docker_fields : Option Json → Result Fields
docker_fields none = err (value_error "docker isolation settings are required")
docker_fields (some j) = fields_or "docker isolation settings are required" j

abbrev is_true : Option Json → Bool
is_true (some (bool b)) = b
is_true _ = false

abbrev natural_of : ℤ → ℕ
natural_of (pos n) = n
natural_of (negsuc n) = 0

-- `str_of` is str(value) of a value that is no string, and `int_of` is int(text).
module _ (str_of : Json → String) (int_of : String → Result ℤ) where
  module _ {S : Type 0} where
    unfoldable pub host_mode : Fields → Exec S IsolationConfig
    host_mode fs = do
      guard (is_true (get_field "trusted_host_execution" fs))
          (value_error "host tests require explicit trusted_host_execution")
      pure host_config

    unfoldable pub docker_mode : Fields → Exec S IsolationConfig
    docker_mode fs = do
      docker ← lift (docker_fields (get_field "docker" fs))
      let executable = text_field str_of "executable" "docker" docker
      guard (contains ("docker" ∷ "docker.exe" ∷ []) (executable_of executable))
          (value_error "docker executable must be docker or docker.exe")
      let image = text_field str_of "image" "" docker
      guard (is_pinned_image image) (value_error "docker image must use an immutable sha256 digest")
      let user = text_field str_of "user" "" docker
      guard (is_non_root user) (value_error "docker user must be a non-root numeric uid:gid")
      let memory = text_field str_of "memory" "" docker
      let cpus = text_field str_of "cpus" "" docker
      let tmpfs_size = text_field str_of "tmpfs_size" "" docker
      guard (is_size memory) (value_error "docker memory limit is invalid")
      guard (is_decimal cpus && is_above_zero cpus) (value_error "docker CPU limit is invalid")
      guard (is_size tmpfs_size) (value_error "docker tmpfs limit is invalid")
      pids_limit ← lift (integer_of int_of (get_field "pids_limit" docker))
      guard (leb 16 (natural_of pids_limit) && leb (natural_of pids_limit) 4096)
          (value_error "docker PID limit must be between 16 and 4096")
      pure (record {
        mode = "docker";
        trusted_host_execution = false;
        docker_executable = executable;
        image = image;
        user = user;
        memory = memory;
        cpus = cpus;
        pids_limit = natural_of pids_limit;
        tmpfs_size = tmpfs_size;
      })

    unfoldable pub in_mode : String → Fields → Exec S IsolationConfig
    in_mode mode fs =
        if mode == "host"
        then host_mode fs
        else if mode == "docker"
        then docker_mode fs
        else raise (value_error "test execution mode must be host or docker")

    -- IsolationConfig.from_dict
    unfoldable pub from_dict : Json → Exec S IsolationConfig
    from_dict payload = do
      fs ← lift (fields_or "test_execution policy is required" payload)
      in_mode (text_field str_of "mode" "" fs) fs

-- All that a run computes with here, under one name.
unfoldable pub config_code : Unit {0}
unfolding after_text image_rest is_pinned_image user_rest is_non_root size_rest is_size decimal_rest
    is_decimal is_above_zero host_mode docker_mode in_mode from_dict
config_code = tt
