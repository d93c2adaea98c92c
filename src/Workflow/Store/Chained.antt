-- ===== src/Workflow/Store/Chained.antt =====
-- Every write of the store keeps the hash chain of the events table.
use agentic_engineering_cont.Prelude.{
  ℕ, String, ◌≡◌, refl, subst, Bool, true, Option, none, some, List, last, if◌then◌else◌,
}
use agentic_engineering_cont.Prelude.Platform.{Platform, Json, Error}
use agentic_engineering_cont.Exec.{
  Result, Exec, pure, raise, lift, gets, modify, guard, ◌>>=◌, ◌>>◌,
}
use agentic_engineering_cont.Exec.Keeps.{
  Keeps, Any, Keeps-bind, Keeps-gets, Keeps-lift, Keeps-pure, Keeps-raise, Keeps-guard, Keeps-if,
  Keeps-modify, Keeps-transaction, Keeps-weaken,
}
use agentic_engineering_cont.Exec.Triple.{
  Triple-bind, Triple-after, Triple-start, Triple-modify, Triple-pure, Keeps-Triple,
}
use agentic_engineering_cont.Workflow.Lifecycle.{
  WorkState, WorkItem, RemediationPlan, Approval, ExecutionResult,
}
use agentic_engineering_cont.Workflow.Event.{Event, previous_of, digest, verify_event_chain}
use agentic_engineering_cont.Workflow.Event.Chain.{verify_event_chain-append}
use agentic_engineering_cont.Workflow.Store.{
  State, put_db, Update, utc_now, insert_event, new_event, append_event, in_transaction,
  get_work_item, update_rows, write_transition, transition, insert_plan, save_plan, get_plan,
  created, insert_item, existing_or_raise, insert_approval, add_approval, approvals_of,
  insert_execution, add_execution, latest_execution, create_work_item, add_event,
}

abbrev pub IsChained : Platform → State → Type 0
IsChained p s = verify_event_chain p s.db.events ≡ true

module _ (p : Platform) where
  abbrev pub Chained : {A : Type 0} → Exec State A → Type 0
  Chained m = Keeps (IsChained p) m Any

  pub Chained-bind :
      {A B : Type 0} (m : Exec State A) (f : A → Exec State B)
      → Chained m
      → ((a : A) → Chained (f a))
      → Chained (m >>= f)
  Chained-bind m f km kf = Keeps-bind m f km (λ a _. kf a)

  new_event-links :
      (id : Option String) (type actor : String) (payload : Json) (now : ℕ) (events : List Event)
      → ((new_event p id type actor payload now events).previous_hash ≡ previous_of (last events))
        × ((new_event p id type actor payload now events).event_hash
            ≡ digest p
                (new_event p id type actor payload now events)
                (new_event p id type actor payload now events).previous_hash)
  unfolding new_event digest
  new_event-links id type actor payload now events = (refl, refl)

  pub Chained-utc_now : Chained (utc_now p)
  unfolding utc_now
  Chained-utc_now = record { at = λ s h. h; gives = λ s h a e. tt }

  -- The rows that the transaction sees do not change between the SELECT and the INSERT.
  pub Chained-append_event :
      (id : Option String) (type actor : String) (payload : Json)
      → Chained (append_event p id type actor payload)
  unfolding append_event insert_event
  Chained-append_event id type actor payload = Keeps-bind _ _ Chained-utc_now λ now _.
      Keeps-Triple _ (
        Triple-start (λ s. s.db.events) _
          λ events.
            Triple-after {X = λ e. e ≡ new_event p id type actor payload now events} _ _
              (Keeps-gets _ λ s h.
                subst
                  (λ es.
                    new_event p id type actor payload now s.db.events
                    ≡ new_event p id type actor payload now es)
                  h.1 refl)
              (λ s h. h.0)
              λ e is_new.
                Triple-after {X = Any} _ _ (Keeps-gets _ λ s h. tt) (λ s h. h.0)
                  λ taken _.
                    Triple-after _ _ (Keeps-guard _ _) (λ s h. h.0)
                      λ _ _.
                        Triple-bind {Q = λ _ s. IsChained p s} _ _
                          (Triple-modify _ λ s h. linked now events e is_new s h)
                          λ _. Triple-pure _ λ s h. (h, tt))
    where
      linked :
          (now : ℕ) (events : List Event) (e : Event)
          → e ≡ new_event p id type actor payload now events
          → (s : State) → IsChained p s × (s.db.events ≡ events)
          → IsChained p (add_event e s)
      linked now events e is_new s h =
          let links = new_event-links id type actor payload now events in
          verify_event_chain-append p s.db.events e h.0 (rw (is_new, h.1) links.0)
            (rw is_new links.1)

  pub Chained-transaction :
      {A : Type 0} (m : Exec State A) → Chained m → Chained (in_transaction p m)
  unfolding in_transaction
  Chained-transaction m k = Keeps-transaction (λ s. s.db) put_db m (λ s s' h h'. h) k

  pub Chained-gets : {A : Type 0} (f : State → A) → Chained (gets f)
  Chained-gets f = Keeps-gets f λ s h. tt

  pub Chained-lift : {A : Type 0} (r : Result A) → Chained (lift r)
  Chained-lift r = Keeps-lift r λ a e. tt

  pub Chained-guard : (b : Bool) (e : Error) → Chained (guard b e)
  Chained-guard b e = Keeps-weaken _ (Keeps-guard b e) λ a h. tt

  pub Chained-pure : {A : Type 0} (a : A) → Chained (pure a)
  Chained-pure a = Keeps-pure a tt

  pub Chained-raise : {A : Type 0} (e : Error) → Chained (raise {A = A} e)
  Chained-raise e = Keeps-raise e

  pub Chained-if :
      {A : Type 0} (b : Bool) (m n : Exec State A)
      → Chained m
      → Chained n
      → Chained (if b then m else n)
  Chained-if b m n km kn = Keeps-if b m n (λ e. km) (λ e. kn)

  -- A change of the other tables or of the files.
  Chained-modify :
      (f : State → State) → ((s : State) → (f s).db.events ≡ s.db.events) → Chained (modify f)
  Chained-modify f same = Keeps-modify f λ s h. rw (same s) h

pub ruleset chained_rules = (
  Chained-bind, Chained-utc_now, Chained-append_event, Chained-transaction, Chained-gets,
  Chained-lift, Chained-guard, Chained-pure, Chained-raise, Chained-if,
)

module _ (p : Platform) where
  pub Chained-get_work_item : (id : String) → Chained p (get_work_item p id)
  unfolding get_work_item
  Chained-get_work_item id = search chained_rules

  -- A write and its event, in one transaction.
  Chained-write :
      {A : Type 0} (m : Exec State A) (id : Option String) (type actor : String) (payload : Json)
      → Chained p m
      → Chained p (in_transaction p (do m; append_event p id type actor payload))
  Chained-write m id type actor payload k =
      Chained-transaction p _
        (Chained-bind p m _ k λ _. Chained-append_event p id type actor payload)

  Chained-write_transition :
      (item : WorkItem) (target : WorkState) (actor reason : String) (us : List Update) (now : ℕ)
      → Chained p (write_transition p item target actor reason us now)
  unfolding write_transition update_rows
  Chained-write_transition item target actor reason us now =
      Chained-write _ _ _ _ _ (Chained-modify p _ λ s. refl)

  pub Chained-transition :
      (id : String) (target : WorkState) (actor reason : String) (us : List Update)
      → Chained p (transition p id target actor reason us)
  unfolding transition
  Chained-transition id target actor reason us =
      search (chained_rules, Chained-get_work_item, Chained-write_transition) depth 8

  pub Chained-get_plan : (id : String) → Chained p (get_plan p id)
  unfolding get_plan
  Chained-get_plan id = search chained_rules

  pub Chained-approvals_of : (id : String) → Chained p (approvals_of p id)
  unfolding approvals_of
  Chained-approvals_of id = search chained_rules

  pub Chained-latest_execution : (id : String) → Chained p (latest_execution p id)
  unfolding latest_execution
  Chained-latest_execution id = search chained_rules

  pub Chained-save_plan : (plan : RemediationPlan) → Chained p (save_plan p plan)
  unfolding save_plan insert_plan
  Chained-save_plan plan = Chained-write _ _ _ _ _ (
      Chained-bind p _ _ (search chained_rules) λ taken.
        Chained-bind p _ _ (search chained_rules) λ _.
          Chained-bind p _ _ (search chained_rules)
            λ known. Chained-bind p _ _ (search chained_rules) λ _. Chained-modify p _ λ s. refl)

  pub Chained-add_approval : (a : Approval) → Chained p (add_approval p a)
  unfolding add_approval insert_approval
  Chained-add_approval a = Chained-write _ _ _ _ _ (
      Chained-bind p _ _ (search chained_rules)
        λ known. Chained-bind p _ _ (search chained_rules) λ _. Chained-modify p _ λ s. refl)

  pub Chained-add_execution : (x : ExecutionResult) → Chained p (add_execution p x)
  unfolding add_execution insert_execution
  Chained-add_execution x = Chained-write _ _ _ _ _ (
      Chained-bind p _ _ (search chained_rules) λ taken.
        Chained-bind p _ _ (search chained_rules) λ _.
          Chained-bind p _ _ (search chained_rules)
            λ known. Chained-bind p _ _ (search chained_rules) λ _. Chained-modify p _ λ s. refl)

  existing-Chained : (o : Option WorkItem) → Chained p (existing_or_raise p o)
  unfolding existing_or_raise
  existing-Chained none = search chained_rules
  existing-Chained (some item) = search chained_rules

  created-Chained : (item : WorkItem) → Chained p (created p item)
  unfolding created insert_item
  created-Chained item = Chained-bind p _ _ (Chained-modify p _ λ s. refl) λ _. search chained_rules

  pub Chained-create_work_item : (item : WorkItem) → Chained p (create_work_item p item)
  unfolding create_work_item
  Chained-create_work_item item = search (chained_rules, existing-Chained, created-Chained) depth 9

pub ruleset chained_store = (
  chained_rules, Chained-get_work_item, Chained-transition, Chained-get_plan, Chained-approvals_of,
  Chained-latest_execution, Chained-save_plan, Chained-add_approval, Chained-add_execution,
  Chained-create_work_item,
)
