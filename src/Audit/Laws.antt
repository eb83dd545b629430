-- ===== src/Audit/Laws.antt =====
-- What Normalize, Append and List promise of the audit store.
use mathlib.Core.List.{Memᴰ, Perm, append-nil}
use mathlib.Core.List.Perm
use agent_secyrity.Prelude.{
  ℕ, zero, suc, ◌≤◌, ◌≡◌, ◌↔◌, ◌⊎◌, inl, inr, refl, sym, ◌∙◌, ap, Bool, true, false, String, List,
  [], ◌∷◌, ◌++◌, arith, filter, length, take, drop, All, Bool-cases, if◌then◌else◌, eq_iff,
}
use agent_secyrity.Prelude.Int.{pos, pos_part, ◌≤ℤ◌, leb_ℤ, ltb_ℤ, pos_part-le}
use agent_secyrity.Prelude.Slices.{length-take, All-take, All-drop}
use agent_secyrity.Domain.{Time, AuditRecord}
use agent_secyrity.Domain.Errors.{ok, background}
use agent_secyrity.Audit.{
  ListOptions, MemoryStore, normalize, completed, append, passes, record_matches, sort_newest, page,
  list,
}
use agent_secyrity.Audit.Sorting.{IsNewestFirst, sort-perm, sort-IsNewestFirst, All-sort}
use agent_secyrity.Audit.Pages.{page_eq, matches-normalize, selected}

-- Options that the stores work with.
abbrev pub IsNormal : ListOptions → Type 0
IsNormal o = (pos 1 ≤ℤ o.limit) × (o.limit ≤ℤ pos 1000) × (pos 0 ≤ℤ o.offset)

IsNormal-normalize : (o : ListOptions) → IsNormal (normalize o)
unfolding normalize
IsNormal-normalize o = elim (Bool-cases (leb_ℤ o.limit (pos 0))) [
  | inl h ↦ elim (Bool-cases (ltb_ℤ o.offset (pos 0))) [
    | inl k ↦ rw (h, k) (omega arith, omega arith, omega arith)
    | inr k ↦ rw (h, k) (omega arith, omega arith, ground arith)
  ]
  | inr h ↦ elim (Bool-cases (ltb_ℤ (pos 1000) o.limit)) [
    | inl big ↦ elim (Bool-cases (ltb_ℤ o.offset (pos 0))) [
      | inl k ↦ rw (h, big, k) (omega arith, omega arith, omega arith)
      | inr k ↦ rw (h, big, k) (omega arith, omega arith, ground arith)
    ]
    | inr small ↦ elim (Bool-cases (ltb_ℤ o.offset (pos 0))) [
      | inl k ↦ rw (h, small, k) (ground arith, ground arith, omega arith)
      | inr k ↦ rw (h, small, k) (ground arith, ground arith, ground arith)
    ]
  ]
]

normalize_of_normal : (o : ListOptions) → IsNormal o → normalize o ≡ o
unfolding normalize
normalize_of_normal o (a, b, c) =
    let positive : leb_ℤ o.limit (pos 0) ≡ false = ground arith in
    let small : ltb_ℤ (pos 1000) o.limit ≡ false = ground arith in
    let not_negative : ltb_ℤ o.offset (pos 0) ≡ false = ground arith in
    rw (positive, small, not_negative) refl

-- Normalize gives a limit from 1 to 1000 and an offset that is not negative, and leaves options
-- that have these as they are; a second Normalize changes nothing.
pub normalize_lem :
    (o : ListOptions)
    → IsNormal (normalize o)
      × (IsNormal o → normalize o ≡ o)
      × (normalize (normalize o) ≡ normalize o)
normalize_lem o = (
  IsNormal-normalize o,
  normalize_of_normal o,
  normalize_of_normal (normalize o) (IsNormal-normalize o),
)

-- A blank filter, or the value itself.
abbrev pub Fits : String → String → Type 0
Fits wanted actual = (wanted ≡ "") ⊎ (actual ≡ wanted)

abbrev pub MatchesFilters : ListOptions → AuditRecord → Type 0
MatchesFilters o r =
    Fits o.tenant_id r.event.tenant_id
    × Fits o.agent_id r.event.agent_id
    × Fits o.user_id r.event.user_id
    × Fits o.task_id r.event.task_id
    × Fits o.decision r.result.decision
    × Fits o.event_type r.event.event_type

passes_iff : (wanted actual : String) → (passes wanted actual ≡ true) ↔ Fits wanted actual
passes_iff wanted actual = ground (arith, eq_iff wanted "", eq_iff actual wanted)

-- A record matches exactly when each of the six filters is blank or is the record's value.
pub record_matches_iff :
    (o : ListOptions) (r : AuditRecord) → (record_matches o r ≡ true) ↔ MatchesFilters o r
unfolding record_matches
record_matches_iff o r = ground (
  arith,
  passes_iff o.tenant_id r.event.tenant_id,
  passes_iff o.agent_id r.event.agent_id,
  passes_iff o.user_id r.event.user_id,
  passes_iff o.task_id r.event.task_id,
  passes_iff o.decision r.result.decision,
  passes_iff o.event_type r.event.event_type,
)

IsNewestFirst-take : (n : ℕ) (rs : List AuditRecord) → IsNewestFirst rs → IsNewestFirst (take n rs)
unfolding take
IsNewestFirst-take n [] h = tt
IsNewestFirst-take zero (r ∷ rs) h = tt
IsNewestFirst-take (suc n) (r ∷ rs) (h, hs) = (All-take _ n rs h, IsNewestFirst-take n rs hs)

IsNewestFirst-drop : (n : ℕ) (rs : List AuditRecord) → IsNewestFirst rs → IsNewestFirst (drop n rs)
unfolding drop
IsNewestFirst-drop n [] h = tt
IsNewestFirst-drop zero (r ∷ rs) h = h
IsNewestFirst-drop (suc n) (r ∷ rs) (h, hs) = IsNewestFirst-drop n rs hs

-- A record of the store that the filters of a query let through.
abbrev pub IsHit : ListOptions → MemoryStore → AuditRecord → Type 0
IsHit o s r = Memᴰ r s.records × MatchesFilters o r

All-filter :
    {P : AuditRecord → Type 0} (p : AuditRecord → Bool) (rs : List AuditRecord)
    → ((r : AuditRecord) → Memᴰ r rs → p r ≡ true → P r)
    → All P (filter p rs)
All-filter p [] f = tt
All-filter p (r ∷ rs) f = elim (Bool-cases (p r)) [
  | inl hit ↦ rw hit (f r (Memᴰ.head refl) hit, All-filter p rs (λ q m h. f q (Memᴰ.tail m) h))
  | inr miss ↦ rw miss (All-filter p rs (λ q m h. f q (Memᴰ.tail m) h))
]

length-page : (o : ListOptions) (rs : List AuditRecord) → length (page o rs) ≤ pos_part o.limit
length-page o rs = rw (page_eq o rs) (length-take (pos_part o.limit) (drop (pos_part o.offset) rs))

limit-normalize :
    (o : ListOptions) → pos 1 ≤ℤ o.limit → pos_part (normalize o).limit ≤ pos_part o.limit
unfolding normalize
limit-normalize o asked =
    let positive : leb_ℤ o.limit (pos 0) ≡ false = ground arith in
    elim (Bool-cases (ltb_ℤ (pos 1000) o.limit)) [
      | inl big ↦ elim (Bool-cases (ltb_ℤ o.offset (pos 0))) [
        | inl k ↦ rw (positive, big, k) (ground arith)
        | inr k ↦ rw (positive, big, k) (ground arith)
      ]
      | inr small ↦ elim (Bool-cases (ltb_ℤ o.offset (pos 0))) [
        | inl k ↦ rw (positive, small, k) (omega arith)
        | inr k ↦ rw (positive, small, k) (omega arith)
      ]
    ]

-- List, with any options, returns stored records alone, each of which the filters let through,
-- newest first, and never more than 1000, nor more than a positive limit asks for.
pub list_sound :
    (o : ListOptions) (s : MemoryStore)
    → (rs : List AuditRecord) × (list background o s ≡ ok rs)
      × All (IsHit o s) rs
      × IsNewestFirst rs
      × (length rs ≤ 1000)
      × (pos 1 ≤ℤ o.limit → length rs ≤ pos_part o.limit)
unfolding list
list_sound o s =
    let hits = filter (record_matches (normalize o)) s.records in
    let sorted = sort_newest hits in
    let n = pos_part (normalize o).limit in
    let m = pos_part (normalize o).offset in
    (
      page (normalize o) sorted,
      refl,
      rw (page_eq (normalize o) sorted) (
          All-take _ n (drop m sorted) (
            All-drop _ m sorted (
              All-sort _ hits (
                All-filter (record_matches (normalize o)) s.records
                  λ r m h. (m, (record_matches_iff o r).0 (sym (matches-normalize o r) ∙ h)))))),
      rw (page_eq (normalize o) sorted) (
          IsNewestFirst-take n (drop m sorted)
            (IsNewestFirst-drop m sorted (sort-IsNewestFirst hits))),
      (let few = length-page (normalize o) sorted in
          let bound = pos_part-le (normalize o).limit 1000 (IsNormal-normalize o).1 in omega arith),
      λ asked.
          (let few = length-page (normalize o) sorted in
            let less = limit-normalize o asked in omega arith),
    )

filter_snoc :
    (p : AuditRecord → Bool) (rs : List AuditRecord) (r : AuditRecord)
    → filter p (rs ++ r ∷ []) ≡ filter p rs ++ (if p r then r ∷ [] else [])
filter_snoc p [] r = refl
filter_snoc p (q ∷ qs) r = ground (arith, filter_snoc p qs r)

perm_snoc : (rs : List AuditRecord) (r : AuditRecord) → Perm (rs ++ r ∷ []) (r ∷ rs)
perm_snoc [] r = Perm.refl (r ∷ [])
perm_snoc (q ∷ qs) r = Perm.trans (Perm.cons q (perm_snoc qs r)) (Perm.swap r q qs)

-- Append of a record that a query lets through adds that record, once, to the selected of the query;
-- Append of another record leaves the answer as it is.
append_extends_answer :
    (o : ListOptions) (now : Time) (r : AuditRecord) (s : MemoryStore)
    → (record_matches o r ≡ true
        → Perm (selected o (append background now r s).0) (completed now s r ∷ selected o s))
      × (record_matches o r ≡ false → selected o (append background now r s).0 ≡ selected o s)
unfolding append record_matches completed
append_extends_answer o now r s = (
  λ hit.
      rw (filter_snoc (record_matches o) s.records (completed now s r), hit)
        (Perm.trans (sort-perm (filter (record_matches o) s.records ++ completed now s r ∷ [])) (
          Perm.trans (perm_snoc (filter (record_matches o) s.records) (completed now s r)) (
            Perm.cons (completed now s r)
              (Perm.symm (sort-perm (filter (record_matches o) s.records)))))),
  λ miss.
      rw (filter_snoc (record_matches o) s.records (completed now s r), miss)
        (ap sort_newest (append-nil (filter (record_matches o) s.records))),
)
