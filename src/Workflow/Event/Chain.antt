-- ===== src/Workflow/Event/Chain.antt =====
-- What the hash chain of the events table shows.
use mathlib.Core.List.{reverse, reverse_aux, reverse-reverse}
use agentic_engineering_cont.Prelude.{
  String, ◌≡◌, ◌≢◌, ◌⊎◌, inl, inr, refl, sym, ap, ◌∙◌, true, false, ◌&&◌, List, [], ◌∷◌, ◌++◌, map,
  ◌==◌, eq_iff, arith, last, and_left, and_right, and_intro, Bool-cases,
}
use agentic_engineering_cont.Prelude.Platform.{Platform}
use agentic_engineering_cont.Workflow.Event.{
  Event, genesis, previous_of, material, digest, verify_from, verify_event_chain,
}

String-discrete : Discrete String
String-discrete a b = elim (Bool-cases (a == b)) [
  | inl same ↦ yes ((eq_iff a b).0 same)
  | inr other ↦ no (λ e. ground (arith, eq_iff a b))
]

-- A row stands in a log.
pub data Among (e : Event) : List Event → Type 0 where
  first : (es : List Event) → Among e (e ∷ es)
  later : (x : Event) {es : List Event} → Among e es → Among e (x ∷ es)

Among-cons :
    (e x : Event) (es older : List Event) → Among e (x ∷ older) → Among e (x ∷ es) ⊎ Among e older
Among-cons e x es older (first xs) = inl (first es)
Among-cons e x es older (later y a) = inr a

Among-reverse_aux :
    (e : Event) (es older : List Event)
    → Among e (reverse_aux es older)
    → Among e es ⊎ Among e older
Among-reverse_aux e [] older a = inr a
Among-reverse_aux e (x ∷ es) older a = elim (Among-reverse_aux e es (x ∷ older) a) [
  | inl b ↦ inl (later x b)
  | inr b ↦ Among-cons e x es older b
]

Among-reverse : (e : Event) (es : List Event) → Among e (reverse es) → Among e es
Among-reverse e es a = elim (Among-reverse_aux e es [] a) [ inl b ↦ b | inr b ↦ nowhere b ]
  where
    nowhere : {A : Type 0} → Among e [] → A
    nowhere b = elim b [ ]

module _ (p : Platform) where
  -- The text under the hash of a row, which covers all its columns but the hash.
  unfoldable pub hashed_text : Event → String
  hashed_text e = p.canonical_json (material p e e.previous_hash)

  -- A row of each log, of different texts and one hash.
  pub record Clash (es fs : List Event) : Type 0 where
    pub one : Event
    pub other : Event
    pub in_one : Among one es
    pub in_other : Among other fs
    pub differ : hashed_text one ≢ hashed_text other
    pub same_hash : p.sha256 (hashed_text one) ≡ p.sha256 (hashed_text other)

  abbrev pub columns : Event → String × String
  columns e = (hashed_text e, e.event_hash)

  -- A chain from its newest row back to the beginning.
  abbrev hash_of : List Event → String
  hash_of [] = genesis
  hash_of (e ∷ es) = e.event_hash

  abbrev Linked : List Event → Type 0
  Linked [] = Unit
  Linked (e ∷ es) =
      (e.previous_hash ≡ hash_of es) × (e.event_hash ≡ digest p e e.previous_hash) × Linked es

  -- What the loop has passed, newest first.
  verify_from-Linked :
      (older es : List Event)
      → Linked older
      → verify_from p (hash_of older) es ≡ true
      → Linked (reverse_aux es older)
  unfolding verify_from digest
  verify_from-Linked older [] h v = h
  verify_from-Linked older (e ∷ es) h v =
      elim (Bool-cases
        ((e.previous_hash == hash_of older) && (e.event_hash == digest p e (hash_of older)))) [
          | inl holds ↦
              let before = (eq_iff e.previous_hash (hash_of older)).0 (and_left _ _ holds) in
              let hashed =
                (eq_iff e.event_hash (digest p e (hash_of older))).0 (and_right _ _ holds) in
              verify_from-Linked (e ∷ older) es (before, rw before hashed, h) (rw holds at v)
          | inr fails ↦ absurd_false (rw fails at v)
        ]
    where
      absurd_false : {A : Type 0} → false ≡ true → A
      absurd_false x = cc

  module _ (no_genesis : (text : String) → p.sha256 text ≢ genesis)
      (reads : (x y : Event)
        → hashed_text x ≡ hashed_text y
        → x.previous_hash ≡ y.previous_hash) where
    Linked-unique :
        (es fs : List Event)
        → Linked es
        → Linked fs
        → hash_of es ≡ hash_of fs
        → Clash es fs ⊎ (map columns es ≡ map columns fs)
    unfolding digest hashed_text
    Linked-unique [] [] h k e = inr refl
    Linked-unique [] (f ∷ fs) h k e = absurd (no_genesis _ (sym (e ∙ k.1)))
    Linked-unique (x ∷ es) [] h k e = absurd (no_genesis _ (sym h.1 ∙ e))
    Linked-unique (x ∷ es) (f ∷ fs) h k e = elim (String-discrete (hashed_text x) (hashed_text f)) [
      | yes same ↦ elim (Linked-unique es fs h.2 k.2 (sym h.0 ∙ reads x f same ∙ k.0)) [
        | inl c ↦ inl (record {
          one = c.one;
          other = c.other;
          in_one = later x c.in_one;
          in_other = later f c.in_other;
          differ = c.differ;
          same_hash = c.same_hash;
        })
        | inr rest ↦ inr (cc (same, e, rest))
      ]
      | no differ ↦ inl (record {
        one = x;
        other = f;
        in_one = first es;
        in_other = first fs;
        differ = differ;
        same_hash = sym h.1 ∙ e ∙ k.1;
      })
    ]

  map-reverse_aux :
      (es older : List Event)
      → map columns (reverse_aux es older) ≡ reverse_aux (map columns es) (map columns older)
  map-reverse_aux [] older = refl
  map-reverse_aux (e ∷ es) older = map-reverse_aux es (e ∷ older)

  last_hash : String → List Event → String
  last_hash previous [] = previous
  last_hash previous (e ∷ es) = last_hash e.event_hash es

  hash_of-reverse_aux :
      (es older : List Event) → hash_of (reverse_aux es older) ≡ last_hash (hash_of older) es
  unfolding last_hash
  hash_of-reverse_aux [] older = refl
  hash_of-reverse_aux (e ∷ es) older = hash_of-reverse_aux es (e ∷ older)

  last_hash-last :
      (es : List Event) (e : Event) → last_hash e.event_hash es ≡ previous_of (last (e ∷ es))
  unfolding last_hash
  last_hash-last [] e = refl
  last_hash-last (f ∷ es) e = last_hash-last es f

  last_hash-genesis : (es : List Event) → last_hash genesis es ≡ previous_of (last es)
  unfolding last_hash
  last_hash-genesis [] = refl
  last_hash-genesis (e ∷ es) = last_hash-last es e

  -- Two logs that both pass verify_event_chain and end in the same hash (or are both empty) hold row by
  -- row the same hash and the same text under it, or else a row of the one and a row of the other
  -- have different texts with one sha256. No sha256 is the word GENESIS, and the text of a row shows
  -- its previous_hash.
  pub verify_event_chain_unique :
      ((text : String) → p.sha256 text ≢ genesis)
      → ((x y : Event) → hashed_text x ≡ hashed_text y → x.previous_hash ≡ y.previous_hash)
      → (es fs : List Event) → verify_event_chain p es ≡ true
      → verify_event_chain p fs ≡ true
      → previous_of (last es) ≡ previous_of (last fs)
      → Clash es fs ⊎ (map columns es ≡ map columns fs)
  unfolding verify_event_chain
  verify_event_chain_unique no_genesis reads es fs h k e =
      elim (Linked-unique no_genesis reads (reverse es) (reverse fs) (verify_from-Linked [] es tt h)
        (verify_from-Linked [] fs tt k) ends) [
          | inl c ↦ inl (record {
            one = c.one;
            other = c.other;
            in_one = Among-reverse c.one es c.in_one;
            in_other = Among-reverse c.other fs c.in_other;
            differ = c.differ;
            same_hash = c.same_hash;
          })
          | inr same ↦ inr (
              sym (reverse-reverse (map columns es))
              ∙ ap reverse (sym (map-reverse_aux es []) ∙ same ∙ map-reverse_aux fs [])
              ∙ reverse-reverse (map columns fs))
        ]
    where
      ends : hash_of (reverse es) ≡ hash_of (reverse fs)
      ends =
          hash_of-reverse_aux es []
          ∙ last_hash-genesis es
          ∙ e
          ∙ sym (last_hash-genesis fs)
          ∙ sym (hash_of-reverse_aux fs [])

  verify_from-append :
      (previous : String) (es : List Event) (e : Event)
      → verify_from p previous es ≡ true
      → e.previous_hash ≡ last_hash previous es
      → e.event_hash ≡ digest p e e.previous_hash
      → verify_from p previous (es ++ e ∷ []) ≡ true
  unfolding verify_from last_hash digest
  verify_from-append previous [] e v h k =
      rw
        (and_intro _ _ ((eq_iff e.previous_hash previous).1 h)
          ((eq_iff e.event_hash (digest p e previous)).1 (rw h at k)))
        refl
  verify_from-append previous (x ∷ es) e v h k =
      ground (arith, verify_from-append x.event_hash es e)

  -- A row with the hash of the last row and with its own hash keeps the chain.
  pub verify_event_chain-append :
      (es : List Event) (e : Event)
      → verify_event_chain p es ≡ true
      → e.previous_hash ≡ previous_of (last es)
      → e.event_hash ≡ digest p e e.previous_hash
      → verify_event_chain p (es ++ e ∷ []) ≡ true
  unfolding verify_event_chain
  verify_event_chain-append es e v h k =
      verify_from-append genesis es e v (h ∙ sym (last_hash-genesis es)) k
