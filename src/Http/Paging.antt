-- ===== src/Http/Paging.antt =====
-- The paging of GET /v1/audit/events over the in-memory stores.
use mathlib.Core.Path.{subst}
use agent_secyrity.Prelude.{
  ℕ, zero, suc, ◌+◌, ◌-◌, ◌^◌, ◌%◌, ◌<◌, ◌≤◌, ◌≡◌, ◌≢◌, ◌⊎◌, inl, inr, refl, sym, ap, ◌∙◌, true,
  false, not, ◌==◌, Option, none, List, [], ◌∷◌, ltb, take, drop, length, is_empty, arith, eq_iff,
  Bool-cases, filter, if◌then◌else◌,
}
use agent_secyrity.Prelude.Int.{ℤ, pos, negsuc, pos_part, pos_part-le, ◌+ℤ◌, ◌≤ℤ◌, wrap64}
use agent_secyrity.Maps.{Iteration}
use agent_secyrity.Domain.Errors.{ok}
use agent_secyrity.Audit.{
  ListOptions, MemoryStore, normalize, record_matches, sort_newest, page, list,
}
use agent_secyrity.Audit.Pages.{at_page, normalize-at_page, list-at_page, selected}
use agent_secyrity.Audit.Laws.{IsNormal, normalize_lem}
use agent_secyrity.Auth.{ApiKey, ApiKeyConfig, is_enabled}
use agent_secyrity.Runtime.Memory.{Stores}
use agent_secyrity.Http.{
  Request, Codec, Moments, audit_events, Response, write_json, authorize_tenant,
}
use agent_secyrity.Http.Options.{parse_audit_list_options-IsReadable}
use agent_secyrity.Http.Query.{parse_audit_list_options}
use agent_secyrity.Http.Events.{next_page, audit_page, listed, list_audit_events}
use agent_secyrity.Http.Memory.{memory_handler}

normalize-le :
    (o : ListOptions) → o.offset ≤ℤ pos (2 ^ 63 - 1) → (normalize o).offset ≤ℤ pos (2 ^ 63 - 1)
unfolding normalize
normalize-le o h = ground arith

pos-pos_part : (z : ℤ) → pos 0 ≤ℤ z → pos (pos_part z) ≡ z
pos-pos_part (pos n) h = refl
pos-pos_part (negsuc n) h = absurd (omega arith)

-- Options that are normal are those of a page.
at_page_eq : (n : ListOptions) → IsNormal n → at_page n (pos_part n.limit) (pos_part n.offset) ≡ n
at_page_eq n (low, high, start) =
    ap (λ size. record n { limit = size; offset = pos (pos_part n.offset) })
      (pos-pos_part n.limit (omega arith))
    ∙ ap (λ from. record n { offset = from }) (pos-pos_part n.offset start)

-- Where the list starts that the handler asks for the next page: the sum wraps around in int, and
-- Normalize puts a negative offset to 0.
abbrev pub next_start : ListOptions → ℕ
next_start n = let end = pos_part n.offset + pos_part n.limit in if ltb end (2 ^ 63) then end else 0

wrap64-fits :
    (from size : ℕ) → from + size < 2 ^ 63 → wrap64 (pos from +ℤ pos size) ≡ pos (from + size)
unfolding ◌+ℤ◌
wrap64-fits from size h =
    let small : (from + size) % 2 ^ 64 ≡ from + size = omega arith in ground arith

wrap64-wraps :
    (from size : ℕ)
    → 2 ^ 63 ≤ from + size
    → from + size < 2 ^ 64
    → wrap64 (pos from +ℤ pos size) ≡ negsuc (2 ^ 64 - (from + size) - 1)
unfolding ◌+ℤ◌
wrap64-wraps from size h k =
    let small : (from + size) % 2 ^ 64 ≡ from + size = omega arith in ground arith

-- The options of the next page, after Normalize.
normalize-next_page :
    (size from : ℕ) (n : ListOptions)
    → 1 ≤ size
    → size ≤ 1000
    → from < 2 ^ 63
    → normalize (next_page (at_page n size from)) ≡ at_page n 1 (next_start (at_page n size from))
unfolding normalize next_page
normalize-next_page size from n h k small = elim (Bool-cases (ltb (from + size) (2 ^ 63))) [
  | inl fits ↦ rw (wrap64-fits from size (ground arith), fits) (ground arith)
  | inr wraps ↦ rw (wrap64-wraps from size (ground arith) (omega arith), wraps) (ground arith)
]

next-list :
    (size from : ℕ) (n : ListOptions) (s : MemoryStore)
    → 1 ≤ size
    → size ≤ 1000
    → from < 2 ^ 63
    → list none (next_page (at_page n size from)) s
      ≡ ok (take 1 (drop (next_start (at_page n size from)) (selected n s)))
unfolding list
next-list size from n s h k small =
    let start = next_start (at_page n size from) in
    let same =
      normalize-next_page size from n h k small
      ∙ sym (normalize-at_page n 1 start (omega arith) (omega arith)) in
    ap (λ q. ok (page q (sort_newest (filter (record_matches q) s.records)))) same
    ∙ list-at_page n 1 start s (omega arith) (omega arith)

more_than :
    {A : Type 0} (k : ℕ) (xs : List A) → not (is_empty (take 1 (drop k xs))) ≡ ltb k (length xs)
unfolding take drop
more_than zero [] = refl
more_than zero (x ∷ xs) = ground arith
more_than (suc k) [] = ground arith
more_than (suc k) (x ∷ xs) = more_than k xs ∙ ground arith

-- The answer to a query with normal options: the records of its page, newest first, and whether the
-- next page has one.
abbrev pub page_answer : ListOptions → MemoryStore → Response
page_answer n s =
    let events = take (pos_part n.limit) (drop (pos_part n.offset) (selected n s)) in
    write_json 200 (
      audit_events (record {
        events = events;
        pagination = record {
          limit = n.limit;
          offset = n.offset;
          count = length events;
          has_more = ltb (next_start n) (length (selected n s));
        };
      }))

answer-at_page :
    (size from : ℕ) (n : ListOptions) (s : MemoryStore)
    → 1 ≤ size
    → size ≤ 1000
    → from < 2 ^ 63
    → let o = at_page n size from in
      audit_page o (list none o s) (list none (next_page o) s) ≡ page_answer o s
unfolding audit_page record_matches
answer-at_page size from n s h k small =
    rw
      (
        list-at_page n size from s h k,
        next-list size from n s h k small,
        more_than (next_start (at_page n size from)) (selected n s),
      )
      refl

answer_of_normal :
    (n : ListOptions) (s : MemoryStore)
    → IsNormal n
    → n.offset ≤ℤ pos (2 ^ 63 - 1)
    → audit_page n (list none n s) (list none (next_page n) s) ≡ page_answer n s
answer_of_normal n s (low, high, start) small =
    subst (λ o. audit_page o (list none o s) (list none (next_page o) s) ≡ page_answer o s)
      (at_page_eq n (low, high, start))
      (answer-at_page (pos_part n.limit) (pos_part n.offset) n s (omega arith)
        (pos_part-le n.limit 1000 high) (omega (arith, pos_part-le n.offset (2 ^ 63 - 1) small)))

module _ {B : Type 0} (codec : Codec B) ⦃order : Iteration⦄ (keys : ApiKeyConfig) (ttl : ℤ)
    (key : Option ApiKey) (at : Moments) where
  -- The caller may query with these options: without keys, or for a tenant that the key may use.
  abbrev pub MayQuery : ListOptions → Type 0
  MayQuery o =
      (is_enabled keys ≡ false)
      ⊎ ((o.tenant_id ≢ "") × (authorize_tenant keys key o.tenant_id ≡ true))

  listed-answer :
      (o : ListOptions) (s : Stores)
      → o.offset ≤ℤ pos (2 ^ 63 - 1)
      → at.first ≡ none
      → at.second ≡ none
      → listed codec (memory_handler keys ttl) key at o s ≡ page_answer (normalize o) s.audits
  listed-answer o s small first second =
      rw (first, second)
        (answer_of_normal (normalize o) s.audits (normalize_lem o).0 (normalize-le o small))

  -- The answer to GET /v1/audit/events, where the query can be read, the caller may make it and no
  -- call is cancelled: the page of the matching records, newest first, with the number of records in
  -- it, and has_more says whether a matching record is left after it, as long as the sum of offset
  -- and limit fits an int; beyond that, whether there is any matching record.
  pub audit_events-answer :
      (r : Request B) (s : Stores) (o : ListOptions)
      → parse_audit_list_options r.query ≡ ok o
      → MayQuery o
      → at.first ≡ none
      → at.second ≡ none
      → list_audit_events codec (memory_handler keys ttl) key at r s
        ≡ (s, page_answer (normalize o) s.audits)
  unfolding list_audit_events
  audit_events-answer r s o parsed may first second =
      let same : (s, listed codec (memory_handler keys ttl) key at o s)
          ≡ (s, page_answer (normalize o) s.audits) =
        ap (λ a. (s, a))
          (listed-answer o s (parse_audit_list_options-IsReadable r.query o parsed).0.offset.1 first
            second) in
      elim (Bool-cases (is_enabled keys)) [
        | inr off ↦ rw (parsed, off) same
        | inl on ↦ elim may [
          | inl off ↦ absurd (cc (on, off))
          | inr (named, allowed) ↦ elim (Bool-cases (o.tenant_id == "")) [
            | inl blank ↦ absurd (named ((eq_iff o.tenant_id "").0 blank))
            | inr filled ↦ rw (parsed, on, filled, allowed) same
          ]
        ]
      ]
