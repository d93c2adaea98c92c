-- ===== src/Isolation/Confined.antt =====
-- What stands in the command that build_command returns.
use agentic_engineering_cont.Prelude.{concat, String, ◌≡◌, false, List, [], ◌∷◌, ◌++◌, ◌==◌, tail}
use agentic_engineering_cont.Exec.Keeps.{Keeps}
use agentic_engineering_cont.Isolation.Config.{IsolationConfig}
use agentic_engineering_cont.Isolation.Docker.{Machine, is_unsafe_path}

-- An option stands in a list with this value behind it, and a flag stands in it.
pub data HasOption (name value : String) : List String → Type 0 where
  here_option : (rest : List String) → HasOption name value (name ∷ value ∷ rest)
  there_option :
      (x : String) {rest : List String}
      → HasOption name value rest
      → HasOption name value (x ∷ rest)

pub data HasFlag (name : String) : List String → Type 0 where
  here_flag : (rest : List String) → HasFlag name (name ∷ rest)
  there_flag : (x : String) {rest : List String} → HasFlag name rest → HasFlag name (x ∷ rest)

module _ {W : Type 0} (m : Machine W) (config : IsolationConfig) where
  -- Two directories that may be mounted.
  pub record AreMounts (source output : String) : Type 0 where
    pub apart : (output == source) ≡ false
    pub outside : m.is_parent source output ≡ false
    pub safe_source : is_unsafe_path source ≡ false
    pub safe_output : is_unsafe_path output ≡ false

  -- What docker reads before the image: no network, no capability, no new privilege, a root that is
  -- read-only, the configured user and limits, and two mounts, that of the source read-only.
  pub record IsConfining (source output name : String) (options : List String) : Type 0 where
    pub starts : (rest : List String) × (options ≡ config.docker_executable ∷ "run" ∷ rest)
    pub named : HasOption "--name" name options
    pub network : HasOption "--network" "none" options
    pub capabilities : HasOption "--cap-drop" "ALL" options
    pub privileges : HasOption "--security-opt" "no-new-privileges:true" options
    pub interprocess : HasOption "--ipc" "none" options
    pub root : HasFlag "--read-only" options
    pub user : HasOption "--user" config.user options
    pub processes : HasOption "--pids-limit" (m.show config.pids_limit) options
    pub memory : HasOption "--memory" config.memory options
    pub source_mount :
        HasOption "--mount"
          (concat ("type=bind,src=" ∷ source ∷ ",dst=/workspace,readonly" ∷ []))
          options
    pub output_mount :
        HasOption "--mount" (concat ("type=bind,src=" ∷ output ∷ ",dst=/output" ∷ [])) options

  -- Confining options, the configured image, and behind it python with the arguments asked for.
  pub record IsConfined (argv : List String) (container_name : String) (command : List String)
      : Type 0 where
    pub source : String
    pub output : String
    pub options : List String
    pub mounts : AreMounts source output
    pub confining : IsConfining source output container_name options
    pub shape : command ≡ options ++ config.image ∷ "python" ∷ tail argv
