-- ===== src/Audit/Sorting.antt =====
-- The order of audit queries: newest first, a rearrangement, and stable.
use mathlib.Core.List.{Perm}
use mathlib.Core.List.Perm
use agent_secyrity.Prelude.{
  suc, ◌≡◌, refl, ap, ◌∙◌, length, true, false, List, [], ◌∷◌, arith, filter, All, Bool-cases, inl,
  inr,
}
use agent_secyrity.Prelude.Int.{pos, negsuc, ◌≤ℤ◌, eq_ℤ}
use agent_secyrity.Prelude.Members.{All-map}
use agent_secyrity.Domain.{Time, AuditRecord, after}
use agent_secyrity.Audit.{insert_newest, sort_newest}

-- Each record is at least as new as all that follow it.
abbrev pub IsNewestFirst : List AuditRecord → Type 0
IsNewestFirst [] = Unit
IsNewestFirst (r ∷ rs) = All (λ q. q.recorded_at ≤ℤ r.recorded_at) rs × IsNewestFirst rs

All-insert :
    (P : AuditRecord → Type 0) (r : AuditRecord) (qs : List AuditRecord)
    → P r
    → All P qs
    → All P (insert_newest r qs)
unfolding insert_newest
All-insert P r [] p h = (p, tt)
All-insert P r (q ∷ qs) p (h, hs) = elim (Bool-cases (after q.recorded_at r.recorded_at)) [
  | inl newer ↦ rw newer (h, All-insert P r qs p hs)
  | inr older ↦ rw older (p, (h, hs))
]

insert-IsNewestFirst :
    (r : AuditRecord) (qs : List AuditRecord)
    → IsNewestFirst qs
    → IsNewestFirst (insert_newest r qs)
unfolding insert_newest
insert-IsNewestFirst r [] h = (tt, tt)
insert-IsNewestFirst r (q ∷ qs) (h, hs) = elim (Bool-cases (after q.recorded_at r.recorded_at)) [
  | inl newer ↦ rw newer (
    All-insert (λ x. x.recorded_at ≤ℤ q.recorded_at) r qs (ground arith) h,
    insert-IsNewestFirst r qs hs,
  )
  | inr older ↦
      let first : q.recorded_at ≤ℤ r.recorded_at = ground arith in
      rw older ((first, All-map qs (λ x below. omega arith) h), (h, hs))
]

pub sort-IsNewestFirst : (rs : List AuditRecord) → IsNewestFirst (sort_newest rs)
unfolding sort_newest
sort-IsNewestFirst [] = tt
sort-IsNewestFirst (r ∷ rs) = insert-IsNewestFirst r (sort_newest rs) (sort-IsNewestFirst rs)

insert-perm : (r : AuditRecord) (qs : List AuditRecord) → Perm (insert_newest r qs) (r ∷ qs)
unfolding insert_newest
insert-perm r [] = Perm.refl (r ∷ [])
insert-perm r (q ∷ qs) = elim (Bool-cases (after q.recorded_at r.recorded_at)) [
  | inl newer ↦ rw newer (Perm.trans (Perm.cons q (insert-perm r qs)) (Perm.swap r q qs))
  | inr older ↦ rw older (Perm.refl (r ∷ q ∷ qs))
]

pub All-sort :
    (P : AuditRecord → Type 0) (rs : List AuditRecord) → All P rs → All P (sort_newest rs)
unfolding sort_newest
All-sort P [] h = tt
All-sort P (r ∷ rs) (h, hs) = All-insert P r (sort_newest rs) h (All-sort P rs hs)

pub sort-perm : (rs : List AuditRecord) → Perm (sort_newest rs) rs
unfolding sort_newest
sort-perm [] = Perm.refl []
sort-perm (r ∷ rs) = Perm.trans (insert-perm r (sort_newest rs)) (Perm.cons r (sort-perm rs))

length-insert :
    (r : AuditRecord) (qs : List AuditRecord) → length (insert_newest r qs) ≡ length (r ∷ qs)
unfolding insert_newest
length-insert r [] = refl
length-insert r (q ∷ qs) = elim (Bool-cases (after q.recorded_at r.recorded_at)) [
  | inl newer ↦ rw newer (ap suc (length-insert r qs))
  | inr older ↦ rw older refl
]

pub length-sort : (rs : List AuditRecord) → length (sort_newest rs) ≡ length rs
unfolding sort_newest
length-sort [] = refl
length-sort (r ∷ rs) = length-insert r (sort_newest rs) ∙ ap suc (length-sort rs)

-- The records of one time, in order.
abbrev pub at_time : Time → List AuditRecord → List AuditRecord
at_time t rs = filter (λ r. eq_ℤ r.recorded_at t) rs

eq_ℤ-of-after : (t a b : Time) → after a b ≡ true → eq_ℤ a t ≡ true → eq_ℤ b t ≡ false
eq_ℤ-of-after (pos t) (pos a) (pos b) h k = ground arith
eq_ℤ-of-after (pos t) (pos a) (negsuc b) h k = refl
eq_ℤ-of-after (pos t) (negsuc a) b h k = ground arith
eq_ℤ-of-after (negsuc t) (pos a) b h k = ground arith
eq_ℤ-of-after (negsuc t) (negsuc a) (pos b) h k = refl
eq_ℤ-of-after (negsuc t) (negsuc a) (negsuc b) h k = ground arith

at_time-insert :
    (t : Time) (r : AuditRecord) (qs : List AuditRecord)
    → at_time t (insert_newest r qs) ≡ at_time t (r ∷ qs)
unfolding insert_newest
at_time-insert t r [] = refl
at_time-insert t r (q ∷ qs) = elim (Bool-cases (after q.recorded_at r.recorded_at)) [
  | inl newer ↦ rw newer (elim (Bool-cases (eq_ℤ q.recorded_at t)) [
    | inl same ↦
        rw (same, at_time-insert t r qs, eq_ℤ-of-after t q.recorded_at r.recorded_at newer same)
          refl
    | inr other ↦ rw (other, at_time-insert t r qs) refl
  ])
  | inr older ↦ rw older refl
]

at_time-sort : (t : Time) (rs : List AuditRecord) → at_time t (sort_newest rs) ≡ at_time t rs
unfolding sort_newest
at_time-sort t [] = refl
at_time-sort t (r ∷ rs) = ground (arith, at_time-insert t r (sort_newest rs), at_time-sort t rs)

-- The sort of List puts newer records first, keeps every record, and keeps the order of the records
-- of one time.
pub sort_newest_lem :
    (rs : List AuditRecord)
    → IsNewestFirst (sort_newest rs)
      × Perm (sort_newest rs) rs
      × ((t : Time) → at_time t (sort_newest rs) ≡ at_time t rs)
sort_newest_lem rs = (sort-IsNewestFirst rs, sort-perm rs, λ t. at_time-sort t rs)
