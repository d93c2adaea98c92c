-- ===== src/Audit/Roundtrip.antt =====
-- The dictionary of a descriptor, read back.
use agentic_engineering_cont.Prelude.{String, ◌≡◌, refl, true, none, some, lower}
use agentic_engineering_cont.Prelude.Platform.{ℤ, Json, get_field}
use agentic_engineering_cont.Exec.{Result, ok}
use agentic_engineering_cont.Audit.Inventory.{
  RepositoryDescriptor, is_visibility, from_dict, descriptor_of, to_dict,
}

-- A descriptor whose visibility is in lower case and one of the three that from_dict knows is read
-- back from its dictionary to_dict as the same descriptor, whatever str and int do of other values.
pub descriptor_of-to_dict :
    (str_of : Json → String) (int_of : String → Result ℤ) (d : RepositoryDescriptor)
    → lower d.visibility ≡ d.visibility
    → is_visibility d.visibility ≡ true
    → descriptor_of str_of int_of (to_dict d) ≡ ok d
unfolding from_dict to_dict get_field
descriptor_of-to_dict str_of int_of d lowered known =
    elim d.commit_sha
      as (λ o.
        descriptor_of str_of int_of (to_dict (record d { commit_sha = o }))
        ≡ ok (record d { commit_sha = o })) [
          | none ↦ rw (lowered, known) refl
          | some sha ↦ rw (lowered, known) refl
        ]
