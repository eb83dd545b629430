-- ===== src/Audit/Pages.antt =====
-- The slice of List and the paging of a query: pages that follow each other give the whole answer.

use mathlib.Core.List.{Perm}
use agent_secyrity.Prelude.{
  ℕ, zero, suc, ◌+◌, ◌-◌, ◌*◌, ◌≤◌, ◌≡◌, refl, sym, ◌∙◌, ap, false, List, [], ◌++◌, arith, filter,
  length, take, drop, ltb, leb, Bool-cases, inl, inr,
}
use agent_secyrity.Prelude.Int.{pos, pos_part, leb_ℤ, ltb_ℤ}
use agent_secyrity.Prelude.Slices.{
  drop_all, take_all, length-drop, take-take, drop-drop, take_none, drop_zero,
}
use agent_secyrity.Domain.{AuditRecord}
use agent_secyrity.Domain.Errors.{Result, ok, ◌>>=◌, background}
use agent_secyrity.Audit.{
  ListOptions, MemoryStore, normalize, record_matches, sort_newest, page, list, limited, capped,
  from_start,
}
use agent_secyrity.Audit.Sorting.{IsNewestFirst, sort-perm, sort-IsNewestFirst, length-sort}

-- The bounded slice of the source is `take` of `drop`.
pub page_eq :
    (o : ListOptions) (rs : List AuditRecord)
    → page o rs ≡ take (pos_part o.limit) (drop (pos_part o.offset) rs)
unfolding page take
page_eq o rs = elim (Bool-cases (leb (length rs) (pos_part o.offset))) [
  | inl past ↦
      rw past (sym (ap (take (pos_part o.limit)) (drop_all (pos_part o.offset) rs (ground arith))))
  | inr within ↦ elim (Bool-cases (ltb (length rs) (pos_part o.offset + pos_part o.limit))) [
    | inl short ↦
        rw (within, short)
          (take_all (length rs - pos_part o.offset) (drop (pos_part o.offset) rs)
              (omega (arith, length-drop (pos_part o.offset) rs))
            ∙ sym (
                take_all (pos_part o.limit) (drop (pos_part o.offset) rs)
                  (ground (arith, length-drop (pos_part o.offset) rs, short))))
    | inr full ↦ rw (within, full) (ap (λ k. take k (drop (pos_part o.offset) rs)) (omega arith))
  ]
]

-- The options of a page.
abbrev pub at_page : ListOptions → ℕ → ℕ → ListOptions
at_page o size from = record o { limit = pos size; offset = pos from }

matches-limited :
    (o : ListOptions) (r : AuditRecord) → record_matches (limited o) r ≡ record_matches o r
unfolding record_matches
matches-limited o r = elim (Bool-cases (leb_ℤ o.limit (pos 0))) [
  | inl h ↦ rw h refl
  | inr h ↦ rw h refl
]

matches-capped :
    (o : ListOptions) (r : AuditRecord) → record_matches (capped o) r ≡ record_matches o r
unfolding record_matches
matches-capped o r = elim (Bool-cases (ltb_ℤ (pos 1000) o.limit)) [
  | inl h ↦ rw h refl
  | inr h ↦ rw h refl
]

matches-from_start :
    (o : ListOptions) (r : AuditRecord) → record_matches (from_start o) r ≡ record_matches o r
unfolding record_matches
matches-from_start o r = elim (Bool-cases (ltb_ℤ o.offset (pos 0))) [
  | inl h ↦ rw h refl
  | inr h ↦ rw h refl
]

pub matches-normalize :
    (o : ListOptions) (r : AuditRecord) → record_matches (normalize o) r ≡ record_matches o r
unfolding normalize
matches-normalize o r =
    matches-from_start (capped (limited o)) r ∙ matches-capped (limited o) r ∙ matches-limited o r

pub normalize-at_page :
    (o : ListOptions) (size from : ℕ)
    → 1 ≤ size
    → size ≤ 1000
    → normalize (at_page o size from) ≡ at_page o size from
unfolding normalize
normalize-at_page o size from h k =
    let positive : leb_ℤ (pos size) (pos 0) ≡ false = ground arith in
    let small : ltb_ℤ (pos 1000) (pos size) ≡ false = ground arith in
    let not_negative : ltb_ℤ (pos from) (pos 0) ≡ false = ground arith in
    rw (positive, small, not_negative) refl

-- The matching records, newest first.
abbrev pub selected : ListOptions → MemoryStore → List AuditRecord
selected o s = sort_newest (filter (record_matches o) s.records)

-- A client that asks for page after page.
unfoldable pub walk : ListOptions → ℕ → ℕ → ℕ → MemoryStore → Result (List AuditRecord)
walk o size zero from s = ok []
walk o size (suc count) from s = list background (at_page o size from) s >>= λ first.
    walk o size count (from + size) s >>= λ rest. ok (first ++ rest)

-- One page, for options that are normal.
pub list-at_page :
    (o : ListOptions) (size from : ℕ) (s : MemoryStore)
    → 1 ≤ size
    → size ≤ 1000
    → list background (at_page o size from) s ≡ ok (take size (drop from (selected o s)))
unfolding list record_matches
list-at_page o size from s h k =
    rw (normalize-at_page o size from h k) (ap ok (page_eq (at_page o size from) (selected o s)))

walk-take :
    (o : ListOptions) (size count from : ℕ) (s : MemoryStore)
    → 1 ≤ size
    → size ≤ 1000
    → walk o size count from s ≡ ok (take (count * size) (drop from (selected o s)))
unfolding walk
walk-take o size zero from s h k =
    ap ok (sym (take_none (0 * size) (drop from (selected o s)) (omega arith)))
walk-take o size (suc count) from s h k =
    rw (list-at_page o size from s h k, walk-take o size count (from + size) s h k)
      (ap ok (
        ap (λ rest. take size (drop from (selected o s)) ++ take (count * size) rest)
          (sym (drop-drop from size (selected o s)))
        ∙ take-take size (count * size) (drop from (selected o s))
        ∙ ap (λ n. take n (drop from (selected o s))) (grind arith)))

-- Pages of one size, asked for until they reach the number of matching records, hold each of these
-- records once, in the order of the whole answer.
pub walk_reaches_all :
    (o : ListOptions) (size count : ℕ) (s : MemoryStore)
    → 1 ≤ size
    → size ≤ 1000
    → length (filter (record_matches o) s.records) ≤ count * size
    → (walk o size count 0 s ≡ ok (selected o s))
      × IsNewestFirst (selected o s)
      × Perm (selected o s) (filter (record_matches o) s.records)
walk_reaches_all o size count s h k enough =
    let matching = filter (record_matches o) s.records in
    let same : length (selected o s) ≡ length matching = length-sort matching in
    (
      walk-take o size count 0 s h k
          ∙ ap ok (
              ap (take (count * size)) (drop_zero (selected o s))
              ∙ take_all (count * size) (selected o s) (omega arith)),
      sort-IsNewestFirst matching,
      sort-perm matching,
    )
