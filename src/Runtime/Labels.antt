-- ===== src/Runtime/Labels.antt =====
-- sameStringSet of internal/runtime/service.go: two lists of data labels, each sorted, compared.
-- sort.Strings compares bytes, which for UTF-8 is the order of the code points.
use Prim.Native.Char.{code}
use Prim.Native.String.{[], ◌∷◌}
use text.Mathlib.TextEquality.{Char-path}
use mathlib.Core.Path.{ap₂}
use mathlib.Core.List.{[], ◌∷◌, Perm, Permᴰ}
use mathlib.Core.List.Perm
use mathlib.Core.Logic.{∥∥₁_elim}
use agent_secyrity.Prelude.{
  ◌≡◌, ◌↔◌, refl, sym, ap, ◌∙◌, inl, inr, String, Bool, true, false, ◌&&◌, ◌||◌, List, ◌==◌, arith,
  eq_iff, ltb, nat_eq, Bool-cases, if◌then◌else◌,
}

-- s <= t
unfoldable pub text_le : String → String → Bool
text_le [] t = true
text_le (c ∷ s) [] = false
text_le (c ∷ s) (d ∷ t) = ltb (code c) (code d) || nat_eq (code c) (code d) && text_le s t

text_le_total : (s t : String) → text_le s t ≡ false → text_le t s ≡ true
unfolding text_le
text_le_total [] t h = ground arith
text_le_total (c ∷ s) [] h = refl
text_le_total (c ∷ s) (d ∷ t) h = ground (arith, text_le_total s t)

text_le_antisymm : (s t : String) → text_le s t ≡ true → text_le t s ≡ true → s ≡ t
unfolding text_le
text_le_antisymm [] [] h k = refl
text_le_antisymm [] (d ∷ t) h k = ground arith
text_le_antisymm (c ∷ s) [] h k = ground arith
text_le_antisymm (c ∷ s) (d ∷ t) h k =
    ap₂ ◌∷◌ (Char-path c d (ground arith)) (text_le_antisymm s t (ground arith) (ground arith))

text_le_trans : (s t u : String) → text_le s t ≡ true → text_le t u ≡ true → text_le s u ≡ true
unfolding text_le
text_le_trans [] t u h k = refl
text_le_trans (c ∷ s) [] u h k = ground arith
text_le_trans (c ∷ s) (d ∷ t) [] h k = ground arith
text_le_trans (c ∷ s) (d ∷ t) (e ∷ u) h k = ground (arith, text_le_trans s t u)

unfoldable pub insert_text : String → List String → List String
insert_text s [] = s ∷ []
insert_text s (t ∷ ts) = let rest = insert_text s ts in if text_le s t then s ∷ t ∷ ts else t ∷ rest

-- sort.Strings
unfoldable pub sort_strings : List String → List String
unfolding insert_text
sort_strings [] = []
sort_strings (s ∷ ss) = insert_text s (sort_strings ss)

-- reflect.DeepEqual on string slices of which neither is nil, or both are
unfoldable pub same_texts : List String → List String → Bool
same_texts [] [] = true
same_texts [] (t ∷ ts) = false
same_texts (s ∷ ss) [] = false
same_texts (s ∷ ss) (t ∷ ts) = s == t && same_texts ss ts

unfoldable pub same_string_set : List String → List String → Bool
unfolding sort_strings same_texts
same_string_set a b = same_texts (sort_strings a) (sort_strings b)

-- how two texts compare
data Compared (s t : String) : Type 0 where
  same : s ≡ t → Compared s t
  before : text_le s t ≡ true → text_le t s ≡ false → Compared s t
  after : text_le s t ≡ false → text_le t s ≡ true → Compared s t

compared : (s t : String) → Compared s t
compared s t = elim (Bool-cases (text_le s t)) [
  | inl h ↦ elim (Bool-cases (text_le t s)) [
    | inl k ↦ same (text_le_antisymm s t h k)
    | inr k ↦ before h k
  ]
  | inr h ↦ after h (text_le_total s t h)
]

insert_insert :
    (s t : String) (l : List String)
    → insert_text s (insert_text t l) ≡ insert_text t (insert_text s l)
unfolding insert_text
insert_insert s t [] = elim (compared s t) [
  | same e ↦ rw e refl
  | before h k ↦ rw (h, k) refl
  | after h k ↦ rw (h, k) refl
]
insert_insert s t (u ∷ us) = elim (Bool-cases (text_le s u)) [
  | inl s_u ↦ elim (Bool-cases (text_le t u)) [
    | inl t_u ↦ elim (compared s t) [
      | same e ↦
          ap (λ x. insert_text x (insert_text t (u ∷ us))) e
          ∙ ap (λ x. insert_text t (insert_text x (u ∷ us))) (sym e)
      | before h k ↦ rw (s_u, t_u, h, k) refl
      | after h k ↦ rw (s_u, t_u, h, k, s_u) refl
    ]
    | inr u_t ↦
        let t_s : text_le t s ≡ false = ground (arith, text_le_trans t s u) in
        rw (s_u, u_t, t_s, s_u) refl
  ]
  | inr u_s ↦ elim (Bool-cases (text_le t u)) [
    | inl t_u ↦
        let s_t : text_le s t ≡ false = ground (arith, text_le_trans s t u) in
        rw (u_s, t_u, s_t, u_s) refl
    | inr u_t ↦ rw (u_s, u_t, u_s) (ap (λ l. u ∷ l) (insert_insert s t us))
  ]
]

same_texts_refl : (ss : List String) → same_texts ss ss ≡ true
unfolding same_texts
same_texts_refl [] = refl
same_texts_refl (s ∷ ss) = ground (arith, eq_iff s s, same_texts_refl ss)

same_texts_eq : (ss ts : List String) → same_texts ss ts ≡ true → ss ≡ ts
unfolding same_texts
same_texts_eq [] [] h = refl
same_texts_eq [] (t ∷ ts) h = ground arith
same_texts_eq (s ∷ ss) [] h = ground arith
same_texts_eq (s ∷ ss) (t ∷ ts) h =
    ap₂ ◌∷◌ (ground (arith, eq_iff s t)) (same_texts_eq ss ts (ground arith))

insert_text-perm : (s : String) (l : List String) → Perm (insert_text s l) (s ∷ l)
unfolding insert_text
insert_text-perm s [] = Perm.refl (s ∷ [])
insert_text-perm s (t ∷ ts) = elim (Bool-cases (text_le s t)) [
  | inl h ↦ rw h (Perm.refl (s ∷ t ∷ ts))
  | inr h ↦ rw h (Perm.trans (Perm.cons t (insert_text-perm s ts)) (Perm.swap s t ts))
]

sort_strings-perm : (ss : List String) → Perm (sort_strings ss) ss
unfolding sort_strings
sort_strings-perm [] = Perm.refl []
sort_strings-perm (s ∷ ss) =
    Perm.trans (insert_text-perm s (sort_strings ss)) (Perm.cons s (sort_strings-perm ss))

sorts_equal : {ss ts : List String} → Permᴰ ss ts → sort_strings ss ≡ sort_strings ts
unfolding sort_strings
sorts_equal Permᴰ.nil = refl
sorts_equal (Permᴰ.cons e p) = ap₂ insert_text e (sorts_equal p)
sorts_equal (Permᴰ.swap {a} {b} {l = l} e f) =
    ap₂ (λ x y. insert_text x (insert_text y (sort_strings l))) e f
    ∙ insert_insert _ _ (sort_strings l)
sorts_equal (Permᴰ.trans p q) = sorts_equal p ∙ sorts_equal q

Bool_set : IsSet Bool
Bool_set = hlevel

-- Two lists of labels pass the test exactly when one is a rearrangement of the other.
pub same_string_set_iff : (a b : List String) → (same_string_set a b ≡ true) ↔ Perm a b
unfolding same_string_set
same_string_set_iff a b = (
  λ h.
      let e = same_texts_eq (sort_strings a) (sort_strings b) h in
      Perm.trans (Perm.symm (sort_strings-perm a)) (rw e (sort_strings-perm b)),
  λ p. ∥∥₁_elim p (Bool_set _ _) λ d. rw (sorts_equal d) (same_texts_refl (sort_strings b)),
)
