-- ===== src/Approval/Fresh.antt =====
-- The identifiers that Create generates are new, so that a created request replaces none.
use text.Mathlib.TextLemmas.{append_cancel_left}
use mathlib.Core.Path.{subst₂}
use agent_secyrity.Prelude.{
  ℕ, ◌+◌, ◌^◌, ◌≤◌, ◌<◌, String, ◌≡◌, ◌≢◌, refl, sym, ap, ◌∙◌, inl, inr, none, some, arith, eq_iff,
  Option-cases,
}
use agent_secyrity.Decimal.{decimal_injective}
use agent_secyrity.Maps.{
  HasDistinctKeys, lookup, insert, insert_cases, lookup-empty, lookup-insert_self, lookup-insert_ne,
  insert-HasDistinctKeys,
}
use agent_secyrity.Keys.{key, HasNoNul, key_injective}
use agent_secyrity.Domain.{Time, ApprovalRequest}
use agent_secyrity.Domain.Errors.{ok, Context}
use agent_secyrity.Approval.{
  MemoryStore, new_memory_store, DecisionInput, approval_id, next_counter, completed, create, get,
  decide,
}
use agent_secyrity.Approval.Life.{
  Transition, verdict, expire, Effect, none_written, step_written, decide-Effect,
}

pub approval_id_injective :
    (n m : ℕ) → n < 2 ^ 64 → m < 2 ^ 64 → approval_id n ≡ approval_id m → n ≡ m
unfolding approval_id
approval_id_injective n m h k e = decimal_injective n m h k (append_cancel_left _ _ _ e)

-- A request stands at its own key, under a generated identifier up to the counter.
pub record IsGenerated (counter : ℕ) (k : String) (r : ApprovalRequest) : Type 0 where
  pub at_key : k ≡ key r.tenant_id r.id
  pub tenant_id : r.tenant_id ≢ ""
  pub no_nul : HasNoNul r.tenant_id
  pub number : ℕ
  pub positive : 0 < number
  pub number_le : number ≤ counter
  pub id : r.id ≡ approval_id number

-- A store that holds only requests whose identifiers Create generated.
pub record IsValid (s : MemoryStore) : Type 0 where
  pub keys : HasDistinctKeys s.requests
  pub in_range : s.counter < 2 ^ 64
  pub stored :
      (k : String) (r : ApprovalRequest) → lookup k s.requests ≡ some r → IsGenerated s.counter k r

pub IsValid-new : IsValid new_memory_store
IsValid-new = record {
  keys = record { distinct = tt };
  in_range = omega arith;
  stored = λ k r h. absurd (cc (lookup-empty {V = ApprovalRequest} k));
}

IsGenerated-later :
    (n : ℕ) (k : String) (r : ApprovalRequest) → IsGenerated n k r → IsGenerated (n + 1) k r
IsGenerated-later n k r g = record {
  at_key = g.at_key;
  tenant_id = g.tenant_id;
  no_nul = g.no_nul;
  number = g.number;
  positive = g.positive;
  number_le = omega (arith, g.number_le);
  id = g.id;
}

module _ (now : Time) (r : ApprovalRequest) (s : MemoryStore) (blank : r.id ≡ "") (v : IsValid s)
    (room : s.counter + 1 < 2 ^ 64) (named : HasNoNul r.tenant_id) (tenant : r.tenant_id ≢ "") where
  completed_id : (completed now s r).id ≡ approval_id (s.counter + 1)
  unfolding completed
  completed_id =
      let counted : approval_id (next_counter s) ≡ approval_id (s.counter + 1) =
        ap approval_id (omega arith) in
      ground (arith, counted, eq_iff r.id "")

  completed_tenant : (completed now s r).tenant_id ≡ r.tenant_id
  unfolding completed
  completed_tenant = refl

  -- A request that Create stores under a generated identifier stands at a key that was free.
  pub create_fresh : lookup (key r.tenant_id (completed now s r).id) s.requests ≡ none
  create_fresh = elim (Option-cases (lookup (key r.tenant_id (completed now s r).id) s.requests)) [
    | inl free ↦ free
    | inr (q, found) ↦
        let g = v.stored _ q found in
        let ids = (key_injective r.tenant_id q.tenant_id _ q.id named g.no_nul g.at_key).1 in
        let numbers : s.counter + 1 ≡ g.number =
          approval_id_injective (s.counter + 1) g.number room
            (omega (arith, v.in_range, g.number_le)) (sym completed_id ∙ ids ∙ g.id) in
        absurd (omega (arith, g.number_le))
  ]

  -- the store after Create
  create_store : (create none now r s).0 ≡ record {
    requests = insert (key r.tenant_id (completed now s r).id) (completed now s r) s.requests;
    counter = s.counter + 1;
  }
  unfolding create
  create_store =
      let counted : next_counter s ≡ s.counter + 1 = omega arith in
      ground (arith, counted, eq_iff r.id "", eq_iff r.tenant_id "")

  completed-IsGenerated :
      IsGenerated (s.counter + 1) (key r.tenant_id (completed now s r).id) (completed now s r)
  unfolding completed
  completed-IsGenerated = record {
    at_key = refl;
    tenant_id = tenant;
    no_nul = named;
    number = s.counter + 1;
    positive = omega arith;
    number_le = omega arith;
    id = completed_id;
  }

  pub create-IsValid : IsValid (create none now r s).0
  create-IsValid = rw create_store (record {
    keys = insert-HasDistinctKeys _ _ s.requests v.keys;
    in_range = room;
    stored = λ k q h. elim (insert_cases _ k _ q s.requests h) [
      | inl written_now ↦
          subst₂ (IsGenerated (s.counter + 1)) written_now.0 written_now.1 completed-IsGenerated
      | inr before ↦ IsGenerated-later s.counter k q (v.stored k q before)
    ];
  })

  pub create_counter : (create none now r s).0.counter ≡ s.counter + 1
  create_counter = rw create_store refl

  -- Create returns the request under a new identifier, Get finds it, and every request that was
  -- stored before is still stored as it was.
  pub create_adds :
      ((create none now r s).1 ≡ ok (completed now s r))
      × (get none r.tenant_id (completed now s r).id (create none now r s).0
          ≡ ok (completed now s r))
      × ((k : String) (q : ApprovalRequest)
          → lookup k s.requests ≡ some q
          → lookup k (create none now r s).0.requests ≡ some q)
  create_adds =
      (created, rw create_store (unfold get in rw lookup-insert_self), rw create_store kept)
    where
      created : (create none now r s).1 ≡ ok (completed now s r)
      created = unfold create in ground (arith, eq_iff r.tenant_id "")

      kept :
          (k : String) (q : ApprovalRequest)
          → lookup k s.requests ≡ some q
          → lookup k
              (insert (key r.tenant_id (completed now s r).id) (completed now s r) s.requests)
            ≡ some q
      kept k q h = lookup-insert_ne _ k _ s.requests (λ e. absurd (cc (create_fresh, e))) ∙ h

-- The tenant and the identifier of a request stay the same over a step.
pub Transition-id :
    (input : DecisionInput) (now : Time) (q q' : ApprovalRequest)
    → Transition input now q q'
    → (q'.id ≡ q.id) × (q'.tenant_id ≡ q.tenant_id)
Transition-id input now q q' (verdict p o v e) = (ap (λ x. x.id) e, ap (λ x. x.tenant_id) e)
Transition-id input now q q' (expire p o e) = (ap (λ x. x.id) e, ap (λ x. x.tenant_id) e)

Transition-IsGenerated :
    (input : DecisionInput) (now : Time) (n : ℕ) (k : String) (q q' : ApprovalRequest)
    → Transition input now q q'
    → IsGenerated n k q
    → IsGenerated n k q'
Transition-IsGenerated input now n k q q' step g =
    let (id, tenant) = Transition-id input now q q' step in
    record {
      at_key = rw (id, tenant) g.at_key;
      tenant_id = rw tenant g.tenant_id;
      no_nul = rw tenant g.no_nul;
      number = g.number;
      positive = g.positive;
      number_le = g.number_le;
      id = rw id g.id;
    }

Effect-IsValid :
    (input : DecisionInput) (now : Time) (map_key : String) (s s' : MemoryStore)
    → Effect input now map_key s s'
    → IsValid s
    → IsValid s'
Effect-IsValid input now map_key s s' (none_written e) v = rw e v
Effect-IsValid input now map_key s s' (step_written q q' found step e) v = rw e (record {
  keys = insert-HasDistinctKeys map_key q' s.requests v.keys;
  in_range = v.in_range;
  stored = λ k r h. elim (insert_cases map_key k q' r s.requests h) [
    | inl over ↦
        subst₂ (IsGenerated s.counter) over.0 over.1
          (Transition-IsGenerated input now s.counter map_key q q' step (v.stored map_key q found))
    | inr before ↦ v.stored k r before
  ];
})

-- Decide keeps a store of generated identifiers valid.
pub decide-IsValid :
    (ctx : Context) (clock : Time) (t p : String) (input : DecisionInput) (s : MemoryStore)
    → IsValid s
    → IsValid (decide ctx clock t p input s).0
decide-IsValid ctx clock t p input s v =
    Effect-IsValid _ _ (key t p) s _ (decide-Effect ctx clock t p input s) v

pub decide_counter :
    (ctx : Context) (clock : Time) (t p : String) (input : DecisionInput) (s : MemoryStore)
    → (decide ctx clock t p input s).0.counter ≡ s.counter
decide_counter ctx clock t p input s = elim (decide-Effect ctx clock t p input s) [
  | none_written e ↦ ap (λ x. x.counter) e
  | step_written q q' found step e ↦ ap (λ x. x.counter) e
]
