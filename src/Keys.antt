-- ===== src/Keys.antt =====
-- The map keys of the in-memory stores, `tenantID + "\x00" + id` (`key` of
-- internal/policypack/store.go and of internal/approval/store.go).
use Prim.Native.Char.{Char, code}
use Prim.Native.String.{[], ◌∷◌, ◌++◌}
use text.Mathlib.TextLemmas.{
  nil-append, append_assoc, cons-append, head-eq_of_cons-eq, tail-eq_of_cons-eq,
}
use mathlib.Core.Path.{ap₂}
use agent_secyrity.Prelude.{String, ◌≡◌, ◌≢◌, refl, ap, sym, ◌∙◌}

unfoldable pub key : String → String → String
key tenant_id id = tenant_id ++ ("\0" ++ id)

-- No code point of the text is 0.
abbrev pub HasNoNul : String → Type 0
HasNoNul [] = Unit
HasNoNul (c ∷ s) = (code c ≢ 0) × HasNoNul s

key-nil : (id : String) → key "" id ≡ "\0" ∷ id
unfolding key
key-nil id = nil-append _ ∙ cons-append "\0" "" id ∙ ap (◌∷◌ "\0") (nil-append id)

key-cons : (c : Char) (t id : String) → key (c ∷ t) id ≡ c ∷ key t id
unfolding key
key-cons c t id = cons-append c t _

-- Keys of tenants without a NUL character are equal only for the same tenant and identifier.
pub key_injective :
    (t u p q : String) → HasNoNul t → HasNoNul u → key t p ≡ key u q → (t ≡ u) × (p ≡ q)
key_injective [] [] p q h k e = (refl, tail-eq_of_cons-eq (sym (key-nil p) ∙ e ∙ key-nil q))
key_injective [] (d ∷ u) p q h k e =
    absurd (k.0 (sym (ap code (head-eq_of_cons-eq (sym (key-nil p) ∙ e ∙ key-cons d u q)))))
key_injective (c ∷ t) [] p q h k e =
    absurd (h.0 (ap code (head-eq_of_cons-eq (sym (key-cons c t p) ∙ e ∙ key-nil q))))
key_injective (c ∷ t) (d ∷ u) p q h k e =
    let both = sym (key-cons c t p) ∙ e ∙ key-cons d u q in
    let (tenants, ids) = key_injective t u p q h.1 k.1 (tail-eq_of_cons-eq both) in
    (ap₂ ◌∷◌ (head-eq_of_cons-eq both) tenants, ids)

-- With a NUL in a tenant, one key belongs to two pairs.
pub key_nested : (t u p : String) → key (t ++ ("\0" ++ u)) p ≡ key t (u ++ ("\0" ++ p))
unfolding key
key_nested t u p = rw append_assoc (ap (λ r. t ++ r) (append_assoc "\0" u ("\0" ++ p)))
