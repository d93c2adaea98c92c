-- ===== src/Development/Evidence/Verified.antt =====
-- What build_evidence packs passes verify_evidence_manifest.
use agentic_engineering_cont.Prelude.{◌≡◌, some, All}
use agentic_engineering_cont.Exec.{ok, Exec}
use agentic_engineering_cont.Exec.Keeps.{Keeps}
use agentic_engineering_cont.Development.Task.{Task}
use agentic_engineering_cont.Development.Host.{Host}
use agentic_engineering_cont.Development.Store.{Manifest, Package, State}
use agentic_engineering_cont.Development.Evidence.{verify_evidence_manifest}

module _ {W : Type 0} (h : Host W) where
  -- A directory that has its manifest passes.
  abbrev pub Verified : Package → Type 0
  Verified k = (m : Manifest) → k.manifest ≡ some m → verify_evidence_manifest h k ≡ ok m

  abbrev pub AllVerified : State W → Type 0
  AllVerified s = All Verified s.packages

  abbrev Packed : {A : Type 0} → Exec (State W) A → (A → Type 0) → Type 0
  Packed m Q = Keeps AllVerified m Q
