-- ===== src/Maps/Alike.antt =====
-- Two maps with the same keys in the same order, and related values.
use mathlib.Core.List.{Permᴰ}
use mathlib.Core.Path.{subst}
use agent_secyrity.Prelude.{
  String, ◌≡◌, refl, sym, ap, ◌∙◌, Bool, Option, none, some, List, [], ◌∷◌, map, inl, inr,
  Bool-cases, ◌==◌, filter,
}
use agent_secyrity.Maps.Basic.{Map, empty, lookup, insert, values, find, put}

module _ {V W : Type 0} (R : V → W → Type 0) where
  abbrev pub AllAlike : List V → List W → Type 0
  AllAlike [] [] = Unit
  AllAlike [] (w ∷ ws) = ⊥
  AllAlike (v ∷ vs) [] = ⊥
  AllAlike (v ∷ vs) (w ∷ ws) = R v w × AllAlike vs ws

  abbrev EntriesAlike : List (String × V) → List (String × W) → Type 0
  EntriesAlike [] [] = Unit
  EntriesAlike [] (w ∷ ws) = ⊥
  EntriesAlike (v ∷ vs) [] = ⊥
  EntriesAlike ((k, v) ∷ vs) ((j, w) ∷ ws) = (k ≡ j) × R v w × EntriesAlike vs ws

  pub record Alike (m : Map V) (n : Map W) : Type 0 where
    pub entries : EntriesAlike m.entries n.entries

  pub Alike-empty : Alike empty empty
  Alike-empty = record { entries = tt }

  put-Alike :
      (k : String) (v : V) (w : W) (vs : List (String × V)) (ws : List (String × W))
      → R v w
      → EntriesAlike vs ws
      → EntriesAlike (put k v vs) (put k w ws)
  unfolding put
  put-Alike k v w [] [] r h = (refl, r, tt)
  put-Alike k v w [] (y ∷ ys) r h = absurd h
  put-Alike k v w (x ∷ xs) [] r h = absurd h
  put-Alike k v w ((i, x) ∷ xs) ((j, y) ∷ ys) r (e, s, h) = elim (Bool-cases (i == k)) [
    | inl hit ↦ rw (hit, ap (λ u. u == k) (sym e) ∙ hit) (e, r, h)
    | inr miss ↦ rw (miss, ap (λ u. u == k) (sym e) ∙ miss) (e, s, put-Alike k v w xs ys r h)
  ]

  pub insert-Alike :
      (k : String) (v : V) (w : W) (m : Map V) (n : Map W)
      → R v w
      → Alike m n
      → Alike (insert k v m) (insert k w n)
  unfolding insert
  insert-Alike k v w m n r h = record { entries = put-Alike k v w m.entries n.entries r h.entries }

  -- What the two lookups of a key find.
  abbrev pub BothFind : Option V → Option W → Type 0
  BothFind none none = Unit
  BothFind none (some w) = ⊥
  BothFind (some v) none = ⊥
  BothFind (some v) (some w) = R v w

  find-Alike :
      (k : String) (vs : List (String × V)) (ws : List (String × W))
      → EntriesAlike vs ws
      → BothFind (find k vs) (find k ws)
  unfolding find
  find-Alike k [] [] h = tt
  find-Alike k [] (y ∷ ys) h = absurd h
  find-Alike k (x ∷ xs) [] h = absurd h
  find-Alike k ((i, x) ∷ xs) ((j, y) ∷ ys) (e, s, h) = elim (Bool-cases (i == k)) [
    | inl hit ↦ rw (hit, ap (λ u. u == k) (sym e) ∙ hit) s
    | inr miss ↦ rw (miss, ap (λ u. u == k) (sym e) ∙ miss) (find-Alike k xs ys h)
  ]

  pub lookup-Alike :
      (k : String) (m : Map V) (n : Map W) → Alike m n → BothFind (lookup k m) (lookup k n)
  unfolding lookup
  lookup-Alike k m n h = find-Alike k m.entries n.entries h.entries

  values_alike :
      (vs : List (String × V)) (ws : List (String × W))
      → EntriesAlike vs ws
      → AllAlike (map (λ e. e.1) vs) (map (λ e. e.1) ws)
  values_alike [] [] h = tt
  values_alike [] (y ∷ ys) h = absurd h
  values_alike (x ∷ xs) [] h = absurd h
  values_alike ((i, x) ∷ xs) ((j, y) ∷ ys) (e, s, h) = (s, values_alike xs ys h)

  pub values-Alike : (m : Map V) (n : Map W) → Alike m n → AllAlike (values m) (values n)
  unfolding values
  values-Alike m n h = values_alike m.entries n.entries h.entries

  -- Filters that agree on related elements.
  pub filter-AllAlike :
      (p : V → Bool) (q : W → Bool)
      → ((v : V) (w : W) → R v w → p v ≡ q w)
      → (vs : List V) (ws : List W) → AllAlike vs ws
      → AllAlike (filter p vs) (filter q ws)
  filter-AllAlike p q same [] [] h = tt
  filter-AllAlike p q same [] (w ∷ ws) h = absurd h
  filter-AllAlike p q same (v ∷ vs) [] h = absurd h
  filter-AllAlike p q same (v ∷ vs) (w ∷ ws) (r, h) = elim (Bool-cases (p v)) [
    | inl hit ↦ rw (hit, sym (same v w r) ∙ hit) (r, filter-AllAlike p q same vs ws h)
    | inr miss ↦ rw (miss, sym (same v w r) ∙ miss) (filter-AllAlike p q same vs ws h)
  ]

  -- A rearrangement on the left is one on the right.
  pub alike_moved :
      (us vs : List V) (ws : List W)
      → Permᴰ us vs
      → AllAlike vs ws
      → (xs : List W) × AllAlike us xs × Permᴰ xs ws
  alike_moved _ _ [] Permᴰ.nil h = ([], tt, Permᴰ.nil)
  alike_moved _ _ (w ∷ ws) Permᴰ.nil h = absurd h
  alike_moved _ _ [] (Permᴰ.cons e d) h = absurd h
  alike_moved _ _ (w ∷ ws) (Permᴰ.cons {a} {b} {l₁} {l₂} e d) (r, h) =
      let (xs, moved, back) = alike_moved l₁ l₂ ws d h in
      (w ∷ xs, (subst (λ v. R v w) (sym e) r, moved), Permᴰ.cons refl back)
  alike_moved _ _ [] (Permᴰ.swap e f) h = absurd h
  alike_moved _ _ (w ∷ []) (Permᴰ.swap e f) (r, h) = absurd h
  alike_moved _ _ (w ∷ x ∷ ws) (Permᴰ.swap {a} {b} {a'} {b'} {l} e f) (r, (s, h)) = (
    x ∷ w ∷ ws,
    (subst (λ v. R v x) (sym e) s, (subst (λ v. R v w) (sym f) r, h)),
    Permᴰ.swap refl refl,
  )
  alike_moved _ _ ws (Permᴰ.trans {l₁} {l₂} {l₃} d d') h =
      let (ys, middle, last) = alike_moved l₂ l₃ ws d' h in
      let (xs, moved, first) = alike_moved l₁ l₂ ys d middle in (xs, moved, Permᴰ.trans first last)
