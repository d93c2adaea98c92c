-- ===== src/Workflow/Event.antt =====
-- The rows of the events table of ae_control_plane/store.py, their hashes, and the test of the
-- chain (WorkflowStore.verify_event_chain).
pub mod Chain
use agentic_engineering_cont.Prelude.{
  ℕ, String, Bool, true, false, Option, none, some, List, [], ◌∷◌, ◌==◌, ◌&&◌, last, if◌then◌else◌,
}
use agentic_engineering_cont.Prelude.Platform.{Platform, Json, Fields, end, field, str, obj, opt}

pub record Event : Type 0 where
  pub work_item_id : Option String
  pub event_type : String
  pub actor : String
  pub payload : Json
  pub previous_hash : String
  pub event_hash : String
  pub created_at : ℕ

abbrev pub genesis : String
genesis = "GENESIS"

-- `previous["event_hash"] if previous else "GENESIS"`, of the row with the highest sequence
abbrev pub previous_of : Option Event → String
previous_of none = genesis
previous_of (some e) = e.event_hash

module _ (p : Platform) where
  -- The JSON object under the hash; `previous_hash` is the verifier's own.
  unfoldable pub material : Event → String → Json
  material e previous_hash = obj (
      field "work_item_id" (opt e.work_item_id) (
        field "event_type" (str e.event_type) (
          field "actor" (str e.actor) (
            field "payload" e.payload (
              field "previous_hash" (str previous_hash)
                (field "created_at" (str (p.isoformat e.created_at)) end))))))

  -- sha256(canonical_json(material))
  unfoldable pub digest : Event → String → String
  unfolding material
  digest e previous_hash = p.sha256 (p.canonical_json (material e previous_hash))

  verify_from : String → List Event → Bool
  verify_from previous_hash [] = true
  verify_from previous_hash (e ∷ es) =
      let rest = verify_from e.event_hash es in
      if (e.previous_hash == previous_hash) && (e.event_hash == digest e previous_hash)
      then rest
      else false

  -- WorkflowStore.verify_event_chain, on the rows in the order of their sequence
  unfoldable pub verify_event_chain : List Event → Bool
  unfolding verify_from
  verify_event_chain events = verify_from genesis events

-- All that a run computes with here, under one name.
unfoldable pub event_code : Unit {0}
unfolding material digest verify_from verify_event_chain
event_code = tt
