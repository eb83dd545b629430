-- ===== src/Postgres/Query.antt =====
-- The numbered placeholders of the audit query.
use Prim.Native.String as Text
use agent_secyrity.Prelude.{
  ℕ, suc, ◌+◌, ◌≡◌, refl, sym, ap, ◌∙◌, inl, inr, String, List, [], ◌∷◌, ◌++◌, map, length, ◌==◌,
  arith, Bool-cases, if◌then◌else◌,
}
use agent_secyrity.Decimal.{decimal}
use agent_secyrity.Audit.{ListOptions}
use agent_secyrity.Postgres.{word}
use agent_secyrity.Postgres.Audits.{Filters, add_condition, filters}

-- A column and the value that is asked of it.
abbrev pub Question : Type 0
Question = String × String

-- The conditions on the questions, the first with the placeholder $n.
abbrev pub numbered : ℕ → List Question → List String
numbered n [] = []
numbered n ((sql, value) ∷ qs) = Text.◌++◌ sql (Text.◌++◌ "$" (decimal n)) ∷ numbered (n + 1) qs

abbrev pub filters_of : List Question → Filters
filters_of qs = record { conditions = numbered 1 qs; args = map (λ q. word q.1) qs }

-- A question, unless its value is blank.
abbrev pub asked : String → String → List Question
asked sql value = if value == "" then [] else (sql, value) ∷ []

numbered-append :
    (n : ℕ) (qs : List Question) (sql value : String)
    → numbered n (qs ++ (sql, value) ∷ [])
      ≡ numbered n qs ++ Text.◌++◌ sql (Text.◌++◌ "$" (decimal (length qs + n))) ∷ []
numbered-append n [] sql value =
    ap (λ k. Text.◌++◌ sql (Text.◌++◌ "$" (decimal k)) ∷ []) (omega arith)
numbered-append n (q ∷ qs) sql value =
    ap (λ cs. Text.◌++◌ q.0 (Text.◌++◌ "$" (decimal n)) ∷ cs)
      (numbered-append (n + 1) qs sql value
        ∙ ap (λ k. numbered (n + 1) qs ++ Text.◌++◌ sql (Text.◌++◌ "$" (decimal k)) ∷ [])
            (omega arith))

map-append :
    {A B : Type 0} (f : A → B) (xs : List A) (x : A) → map f (xs ++ x ∷ []) ≡ map f xs ++ f x ∷ []
map-append f [] x = refl
map-append f (y ∷ ys) x = ap (λ zs. f y ∷ zs) (map-append f ys x)

length-map : {A B : Type 0} (f : A → B) (xs : List A) → length (map f xs) ≡ length xs
length-map f [] = refl
length-map f (x ∷ xs) = ap suc (length-map f xs)

append_none : {A : Type 0} (xs : List A) → xs ++ [] ≡ xs
append_none [] = refl
append_none (x ∷ xs) = ap (λ ys. x ∷ ys) (append_none xs)

add_condition-filters_of :
    (sql value : String) (qs : List Question)
    → add_condition sql value (filters_of qs) ≡ filters_of (qs ++ asked sql value)
unfolding add_condition
add_condition-filters_of sql value qs = elim (Bool-cases (value == "")) [
  | inl blank ↦ rw blank (ap filters_of (sym (append_none qs)))
  | inr filled ↦
      rw
        (
          filled,
          numbered-append 1 qs sql value,
          map-append (λ q. word q.1) qs (sql, value),
          length-map (λ q. word q.1) qs,
        )
        refl
]

-- What the options ask for, in the order of the source.
abbrev pub questions : ListOptions → List Question
questions o =
    ((((asked "tenant_id = " o.tenant_id ++ asked "record->'event'->>'agent_id' = " o.agent_id)
          ++ asked "record->'event'->>'user_id' = " o.user_id)
        ++ asked "record->'event'->>'task_id' = " o.task_id)
      ++ asked "decision = " o.decision)
    ++ asked "event_type = " o.event_type

-- The conditions of the audit query are those of the options that are not blank, in order, and the
-- n-th has the placeholder $n and its value as the n-th argument.
pub filters_eq : (o : ListOptions) → filters o ≡ filters_of (questions o)
unfolding filters
filters_eq o =
    let step = λ (sql value : String) (qs : List Question) (f : Filters) (e : f ≡ filters_of qs).
      ap (add_condition sql value) e ∙ add_condition-filters_of sql value qs in
    step "event_type = " o.event_type _ _ (
      step "decision = " o.decision _ _ (
        step "record->'event'->>'task_id' = " o.task_id _ _ (
          step "record->'event'->>'user_id' = " o.user_id _ _ (
            step "record->'event'->>'agent_id' = " o.agent_id _ _
              (add_condition-filters_of "tenant_id = " o.tenant_id [])))))
