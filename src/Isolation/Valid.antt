-- ===== src/Isolation/Valid.antt =====
-- What a configuration that from_dict accepts holds to.
use agentic_engineering_cont.Prelude.{
  ◌≤◌, String, ◌≡◌, refl, false, ◌⊎◌, inl, inr, ◌==◌, leb→le, and_left, and_right,
}
use agentic_engineering_cont.Prelude.Platform.{ℤ, Json}
use agentic_engineering_cont.Exec.{Result, ok}
use agentic_engineering_cont.Exec.Keeps.{
  Keeps, Any, Keeps-bind, Keeps-pure, Keeps-raise, Keeps-lift, Keeps-guard, Keeps-if,
}
use agentic_engineering_cont.Development.Workspace.{text_size}
use agentic_engineering_cont.Isolation.Numbers.{
  leading, behind, uid-number, gid-number, size-number, digest-size,
}
use agentic_engineering_cont.Isolation.Config.{
  IsolationConfig, host_config, host_mode, docker_mode, in_mode, from_dict,
}

-- The numbers and the length that docker is given.
pub record IsContained (c : IsolationConfig) : Type 0 where
  pub uid : 1 ≤ leading 0 c.user
  pub gid : 1 ≤ leading 0 (behind 58 c.user)
  pub memory : 1 ≤ leading 0 c.memory
  pub tmpfs : 1 ≤ leading 0 c.tmpfs_size
  pub digest : text_size (behind 64 c.image) ≡ 71
  pub pids_lower : 16 ≤ c.pids_limit
  pub pids_upper : c.pids_limit ≤ 4096

abbrev pub IsValid : IsolationConfig → Type 0
IsValid c =
    (c ≡ host_config) ⊎ (IsContained c × (c.mode ≡ "docker") × (c.trusted_host_execution ≡ false))

module _ (str_of : Json → String) (int_of : String → Result ℤ) {S : Type 0} where
  Valid-host : (fs : _) → Keeps {S = S} Any (host_mode str_of int_of fs) IsValid
  unfolding host_mode
  Valid-host fs = Keeps-bind _ _ (Keeps-guard _ _) λ _ _. Keeps-pure host_config (inl refl)

  Valid-docker : (fs : _) → Keeps {S = S} Any (docker_mode str_of int_of fs) IsValid
  unfolding docker_mode
  Valid-docker fs = Keeps-bind _ _ (Keeps-lift {Q = Any} _ λ a k. tt) λ docker _.
      Keeps-bind _ _ (Keeps-guard _ _) λ _ executable. Keeps-bind _ _ (Keeps-guard _ _) λ _ image.
        Keeps-bind _ _ (Keeps-guard _ _) λ _ user. Keeps-bind _ _ (Keeps-guard _ _) λ _ memory.
          Keeps-bind _ _ (Keeps-guard _ _) λ _ cpus. Keeps-bind _ _ (Keeps-guard _ _) λ _ tmpfs.
            Keeps-bind _ _ (Keeps-lift {Q = Any} _ λ a k. tt) λ n _.
              Keeps-bind _ _ (Keeps-guard _ _) λ _ pids. Keeps-pure _ (
                inr (
                  record {
                    uid = uid-number _ user;
                    gid = gid-number _ user;
                    memory = size-number _ memory;
                    tmpfs = size-number _ tmpfs;
                    digest = digest-size _ image;
                    pids_lower = leb→le 16 _ (and_left _ _ pids);
                    pids_upper = leb→le _ 4096 (and_right _ _ pids);
                  },
                  refl,
                  refl,
                ))

  Valid-mode : (mode : String) (fs : _) → Keeps {S = S} Any (in_mode str_of int_of mode fs) IsValid
  unfolding in_mode
  Valid-mode mode fs =
      Keeps-if (mode == "host") _ _ (λ _. Valid-host fs)
        λ _. Keeps-if (mode == "docker") _ _ (λ _. Valid-docker fs) λ _. Keeps-raise _

  Valid-from_dict : (j : Json) → Keeps {S = S} Any (from_dict str_of int_of j) IsValid
  unfolding from_dict
  Valid-from_dict j = Keeps-bind _ _ (Keeps-lift {Q = Any} _ λ a k. tt) λ fs _. Valid-mode _ fs

  -- A configuration that from_dict returns is the trusted host one, or a docker one in which the
  -- user's numbers before and behind the colon are at least 1, so neither is root's, the memory and
  -- the temporary file system are limited to a number of at least 1, what stands behind the image's
  -- at-sign is as long as "sha256:" with 64 digits, and from 16 to 4096 processes are allowed.
  pub from_dict-IsValid :
      (payload : Json) (s : S) (c : IsolationConfig)
      → (from_dict str_of int_of payload s).0 ≡ ok c
      → IsValid c
  from_dict-IsValid payload s c e = (Valid-from_dict payload).gives s tt c e
