-- ===== src/Postgres/Enabled.antt =====
-- ListEnabled on PostgreSQL, beside the in-memory store.
use mathlib.Core.Logic.{∥∥₁_elim}
use mathlib.Core.List.{Perm}
use mathlib.Core.List.Perm
use mathlib.Core.Path.{subst, ap₂}
use agent_secyrity.Prelude.{
  ◌≡◌, refl, sym, ap, ◌∙◌, inl, inr, String, Bool, ◌&&◌, none, List, [], ◌∷◌, map, ◌==◌, filter,
}
use agent_secyrity.Prelude.Rearranged.{filter-perm, filter-filter}
use agent_secyrity.Maps.{Iteration, values}
use agent_secyrity.Maps.Alike.{AllAlike, values-Alike, filter-AllAlike, alike_moved}
use agent_secyrity.Domain.{PolicyPack}
use agent_secyrity.Domain.Errors.{ok, ◌>>=◌, Result-cases}
use agent_secyrity.PolicyPack as Memory
use agent_secyrity.PolicyPack.{MemoryStore}
use agent_secyrity.PolicyPack.Listing.{packs_of}
use agent_secyrity.Postgres.{Json, Database, PackRow, scan}
use agent_secyrity.Postgres.Packs.{unmarshal_pack, list_enabled}
use agent_secyrity.Postgres.Tables.{IsTable, IsRowOf, Holds, column_pack, unmarshalled}

module _ ⦃order : Iteration⦄ where
  -- the enabled packs of a tenant, among the packs of the map
  abbrev wanted : String → PolicyPack → Bool
  wanted tenant_id pack = pack.tenant_id == tenant_id && pack.enabled

  memory_enabled :
      (tenant_id : String) (m : MemoryStore)
      → Perm
          (filter (wanted tenant_id) (values m.packs))
          (packs_of (Memory.list_enabled none tenant_id m))
  unfolding Memory.list_enabled Memory.list
  memory_enabled tenant_id m =
      rw
        (filter-filter (λ pack. pack.tenant_id == tenant_id) (λ pack. pack.enabled)
          (order.arrange PolicyPack (values m.packs)))
        (filter-perm (wanted tenant_id)
          (Perm.symm (order.arrange_perm PolicyPack (values m.packs))))

  module _ {D J : Type 0} (json : Json J) (db : Database D J) (table : IsTable json db) where
    scan_rows :
        (rows : List (PackRow J)) (packs : List PolicyPack)
        → AllAlike (IsRowOf json db) rows packs
        → scan (unmarshal_pack json db) (map column_pack rows) ≡ ok packs
    unfolding scan
    scan_rows [] [] h = refl
    scan_rows [] (p ∷ ps) h = absurd h
    scan_rows (r ∷ rs) [] h = absurd h
    scan_rows (r ∷ rs) (p ∷ ps) (fits, h) =
        rw (unmarshalled json db table r p fits, scan_rows rs ps h) refl

    same_test :
        (tenant_id : String) (row : PackRow J) (pack : PolicyPack)
        → IsRowOf json db row pack
        → (row.tenant_id == tenant_id && row.enabled) ≡ wanted tenant_id pack
    same_test tenant_id row pack fits = ap₂ (λ t b. t == tenant_id && b) fits.tenant_id fits.enabled

    -- Where the table holds the packs of the in-memory store, and the listing on the database
    -- succeeds, it is that of the in-memory store in another order.
    pub list_enabled-Holds :
        (m : MemoryStore) (d : D) (tenant_id : String) (packs : List PolicyPack)
        → Holds json db table m d
        → list_enabled json db none tenant_id d ≡ ok packs
        → Perm packs (packs_of (Memory.list_enabled none tenant_id m))
    unfolding list_enabled
    list_enabled-Holds m d tenant_id packs holds listed =
        let kept = λ (row : PackRow J). row.tenant_id == tenant_id && row.enabled in
        let rows = filter kept (values (table.rows d)) in
        let same =
          filter-AllAlike (IsRowOf json db) kept (wanted tenant_id) (same_test tenant_id)
            (values (table.rows d)) (values m.packs)
            (values-Alike (IsRowOf json db) (table.rows d) m.packs holds.packs) in
        elim (Result-cases (db.select_enabled_packs none tenant_id d)) [
          | inr (e, failing) ↦ absurd (cc (rw failing at listed))
          | inl (found, answered) ↦
              let columns = table.selected_enabled none tenant_id d found answered in
              Perm.trans
                (∥∥₁_elim (table.by_id_perm rows) squash₁ λ moved.
                  let (read, fits, back) = alike_moved (IsRowOf json db) _ _ _ moved same in
                  let listed_as =
                    sym (scan_rows (table.by_id rows) read fits)
                    ∙ ap (scan (unmarshal_pack json db)) (sym columns)
                    ∙ ap (λ r. r >>= scan (unmarshal_pack json db)) (sym answered)
                    ∙ listed in
                  subst (λ ps. Perm ps (filter (wanted tenant_id) (values m.packs)))
                    (ap (λ r. packs_of r) listed_as) ∣ back ∣₁)
                (memory_enabled tenant_id m)
        ]
