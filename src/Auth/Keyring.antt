-- ===== src/Auth/Keyring.antt =====
-- What ParseAPIKeys yields: complete keys, with different secrets.
use mathlib.Core.Path.{subst}
use agent_secyrity.Prelude.{
  String, ◌≡◌, ◌≢◌, refl, sym, ◌∙◌, ◌⊎◌, inl, inr, true, false, Option, none, some, List, [], ◌∷◌,
  ◌==◌, arith, eq_iff, is_empty, All, Bool-cases, if◌then◌else◌,
}
use agent_secyrity.Prelude.Members.{All-map}
use agent_secyrity.Strings.{is_blank, trim_space}
use agent_secyrity.Maps.{
  Map, empty, lookup, insert, lookup-insert_self, lookup-insert_ne, lookup-empty,
}
use agent_secyrity.Domain.Errors.{Result, ok, err, ◌>>=◌, failed}
use agent_secyrity.Auth.{
  ApiKey, ApiKeyConfig, is_found, add_tenants, checked_tenants, parse_parts, three_parts,
  allows_tenant, parse_api_key, parse_entries, parse_api_keys,
}

-- A key may use some tenant, and none of its tenants is the blank one.
abbrev pub IsUsable : ApiKey → Type 0
IsUsable k = ((t : String) × (allows_tenant k t ≡ true)) × (lookup "" k.allowed_tenants ≡ none)

-- A key with an identifier and a secret that may use some tenant, none of them blank.
abbrev pub IsComplete : ApiKey → Type 0
IsComplete k = (k.id ≢ "") × (k.secret ≢ "") × IsUsable k

-- No two keys have one secret.
abbrev pub HasDistinctSecrets : List ApiKey → Type 0
HasDistinctSecrets [] = Unit
HasDistinctSecrets (k ∷ ks) = All (λ other. other.secret ≢ k.secret) ks × HasDistinctSecrets ks

-- The tenants have names, and there are none or one that AllowsTenant finds.
abbrev HasNames : Map (Unit {0}) → Type 0
HasNames m =
    (lookup "" m ≡ none)
    × ((m.entries ≡ [])
        ⊎ ((t : String) × (is_blank t ≡ false) × (lookup (trim_space t) m ≡ some tt)))

insert-HasNames :
    (part : String) (m : Map (Unit {0}))
    → is_blank part ≡ false
    → HasNames m
    → HasNames (insert (trim_space part) tt m)
unfolding is_blank
insert-HasNames part m filled (no_blank, found) = (
  lookup-insert_ne (trim_space part) "" tt m (λ e. ground (arith, eq_iff (trim_space part) ""))
      ∙ no_blank,
  inr (part, filled, lookup-insert_self (trim_space part) tt m),
)

-- The identifier and the secret are kept, and the tenants have names.
abbrev Keeps : ApiKey → Result ApiKey → Type 0
Keeps k (err e) = Unit
Keeps k (ok k') = (k'.id ≡ k.id) × (k'.secret ≡ k.secret) × HasNames k'.allowed_tenants

add_tenants-Keeps :
    (parts : List String) (k : ApiKey) → HasNames k.allowed_tenants → Keeps k (add_tenants parts k)
unfolding add_tenants
add_tenants-Keeps [] k names = (refl, refl, names)
add_tenants-Keeps (part ∷ parts) k names = elim (Bool-cases (is_blank part)) [
  | inl blank ↦ rw blank tt
  | inr filled ↦ elim (Bool-cases (trim_space part == "*")) [
    | inl star ↦
        rw (filled, star) (add_tenants-Keeps parts (record k { allow_all_tenants = true }) names)
    | inr name ↦
        rw (filled, name)
          (add_tenants-Keeps parts
            (record k { allowed_tenants = insert (trim_space part) tt k.allowed_tenants })
            (insert-HasNames part k.allowed_tenants filled names))
  ]
]

-- A result that is complete, if it is one.
abbrev Completes : Result ApiKey → Type 0
Completes (err e) = Unit
Completes (ok k) = IsComplete k

IsUsable-all : (k : ApiKey) → k.allow_all_tenants ≡ true → HasNames k.allowed_tenants → IsUsable k
unfolding allows_tenant is_blank trim_space
IsUsable-all k all (no_blank, found) = (("any", rw all refl), no_blank)

IsUsable-named :
    (k : ApiKey)
    → is_empty k.allowed_tenants.entries ≡ false
    → HasNames k.allowed_tenants
    → IsUsable k
unfolding allows_tenant
IsUsable-named k filled (no_blank, inl nil) = absurd (cc (rw nil at filled))
IsUsable-named k filled (no_blank, inr (t, named, found)) =
    ((t, ground (arith, named, found)), no_blank)

checked-Completes :
    (k : ApiKey) (r : Result ApiKey)
    → k.id ≢ ""
    → k.secret ≢ ""
    → Keeps k r
    → Completes (r >>= checked_tenants)
checked-Completes k (err e) i s h = tt
checked-Completes k (ok k') i s (same_id, same_secret, names) =
    let with_tenants : IsUsable k' → IsComplete k' =
      λ usable. (λ e. i (sym same_id ∙ e), λ e. s (sym same_secret ∙ e), usable) in
    elim (Bool-cases k'.allow_all_tenants) [
      | inl all ↦
          let passes : checked_tenants k' ≡ ok k' = rw all refl in
          subst Completes (sym passes) (with_tenants (IsUsable-all k' all names))
      | inr some_only ↦ elim (Bool-cases (is_empty k'.allowed_tenants.entries)) [
        | inl nil ↦ rw (some_only, nil) tt
        | inr filled ↦
            let passes : checked_tenants k' ≡ ok k' = rw (some_only, filled) refl in
            subst Completes (sym passes) (with_tenants (IsUsable-named k' filled names))
      ]
    ]

parse_parts-Completes :
    (id secret tenant_list : String) → Completes (parse_parts id secret tenant_list)
unfolding parse_parts
parse_parts-Completes id secret tenant_list = elim (Bool-cases (id == "")) [
  | inl h ↦ rw h tt
  | inr i ↦ elim (Bool-cases (secret == "")) [
    | inl h ↦ rw (i, h) tt
    | inr s ↦ elim (Bool-cases (tenant_list == "")) [
      | inl h ↦ rw (i, s, h) tt
      | inr t ↦
          rw (i, s, t)
            (checked-Completes
              (record {
                id = id;
                secret = secret;
                allowed_tenants = empty;
                allow_all_tenants = false;
              })
              _ (ground (arith, eq_iff id "")) (ground (arith, eq_iff secret ""))
              (add_tenants-Keeps _ _ (lookup-empty "", inl refl)))
    ]
  ]
]

three_parts-Completes : (parts : List String) → Completes (three_parts parts)
three_parts-Completes (id ∷ secret ∷ tenants ∷ []) = parse_parts-Completes _ _ _
three_parts-Completes [] = tt
three_parts-Completes (id ∷ []) = tt
three_parts-Completes (id ∷ secret ∷ []) = tt
three_parts-Completes (id ∷ secret ∷ tenants ∷ more ∷ parts) = tt

parse_api_key-Completes : (entry : String) → Completes (parse_api_key entry)
unfolding parse_api_key
parse_api_key-Completes entry = three_parts-Completes _

-- What the loop yields after the secrets of `seen`.
abbrev IsKeyring : Map (Unit {0}) → Result (List ApiKey) → Type 0
IsKeyring seen (err e) = Unit
IsKeyring seen (ok ks) =
    All (λ k. lookup k.secret seen ≡ none) ks × All IsComplete ks × HasDistinctSecrets ks

cons-IsKeyring :
    (seen : Map (Unit {0})) (k : ApiKey) (rest : Result (List ApiKey))
    → lookup k.secret seen ≡ none
    → IsComplete k
    → IsKeyring (insert k.secret tt seen) rest
    → IsKeyring seen (rest >>= λ ks. ok (k ∷ ks))
cons-IsKeyring seen k (err e) fresh complete h = tt
cons-IsKeyring seen k (ok ks) fresh complete (unseen, completes, distinct) =
    let other : (x : ApiKey)
        → lookup x.secret (insert k.secret tt seen) ≡ none
        → k.secret ≢ x.secret =
      λ x h e. absurd (cc (lookup-insert_self k.secret tt seen, e, h)) in
    (
      (
        fresh,
        All-map ks (λ x h. sym (lookup-insert_ne k.secret x.secret tt seen (other x h)) ∙ h) unseen,
      ),
      (complete, completes),
      (All-map ks (λ x h e. other x h (sym e)) unseen, distinct),
    )

found-cases : (o : Option (Unit {0})) → is_found o ≡ false → o ≡ none
found-cases none h = refl
found-cases (some u) h = absurd (cc h)

step-IsKeyring :
    (seen : Map (Unit {0})) (r : Result ApiKey) (rest : ApiKey → Result (List ApiKey))
    → Completes r
    → ((k : ApiKey) → IsKeyring (insert k.secret tt seen) (rest k))
    → IsKeyring seen (
        r >>= λ k.
        if is_found (lookup k.secret seen)
        then err (failed "duplicate API key secret")
        else rest k >>= λ ks. ok (k ∷ ks))
step-IsKeyring seen (err e) rest h later = tt
step-IsKeyring seen (ok k) rest h later = elim (Bool-cases (is_found (lookup k.secret seen))) [
  | inl twice ↦ rw twice tt
  | inr once ↦ rw once (cons-IsKeyring seen k (rest k) (found-cases _ once) h (later k))
]

parse_entries-IsKeyring :
    (entries : List String) (seen : Map (Unit {0})) → IsKeyring seen (parse_entries entries seen)
unfolding parse_entries
parse_entries-IsKeyring [] seen = (tt, tt, tt)
parse_entries-IsKeyring (entry ∷ entries) seen =
    step-IsKeyring seen (parse_api_key entry) (λ k. parse_entries entries (insert k.secret tt seen))
      (parse_api_key-Completes entry)
      (λ k. parse_entries-IsKeyring entries (insert k.secret tt seen))

-- A configuration that ParseAPIKeys may return.
abbrev pub IsConfig : Result ApiKeyConfig → Type 0
IsConfig (err e) = Unit
IsConfig (ok c) = All IsComplete c.keys × HasDistinctSecrets c.keys

IsConfig-of_keys :
    (r : Result (List ApiKey))
    → IsKeyring empty r
    → IsConfig (r >>= λ ks. ok (record { keys = ks }))
IsConfig-of_keys (err e) h = tt
IsConfig-of_keys (ok ks) (unseen, completes, distinct) = (completes, distinct)

-- Where ParseAPIKeys succeeds, every key has an identifier and a secret, there is a tenant that
-- AllowsTenant lets it use, it has no blank tenant, and no two keys have the same secret.
pub parse_api_keys-IsConfig : (raw : String) → IsConfig (parse_api_keys raw)
unfolding parse_api_keys
parse_api_keys-IsConfig raw = elim (Bool-cases (is_blank raw)) [
  | inl blank ↦ rw blank (tt, tt)
  | inr filled ↦ rw filled (IsConfig-of_keys _ (parse_entries-IsKeyring _ empty))
]
