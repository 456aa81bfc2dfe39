-- ===== src/Core/Collection/Tenants.antt =====
-- What a tenant sees of a collection, whatever others do.
use adam_os.Base.{
  ◌≡◌, refl, true, false, inl, inr, Option, none, some, arith, Str, str_eq, str_eq_iff, lookup,
  lookup-insert, lookup-remove, is_some, Option-cases,
}
use adam_os.Core.Collection.{
  Row, Rows, visible, insert_row, patch_row, update_row, get_row, delete_seen, delete_row,
}

-- A write: of a row, of a patch, or a deletion by a tenant.
pub data Write (B : Type 0) : Type 0 where
  inserted : Row B → Write B
  patched : Str → (B → B) → Write B
  deleted : Str → Str → Write B

module _ {B : Type 0} where
  unfoldable pub write : Write B → Rows B → Rows B
  write (inserted r) rows = insert_row r rows
  write (patched id patch) rows = (update_row id patch rows).1
  write (deleted tenant id) rows = (delete_row tenant id rows).1

  -- A write that a tenant makes: its own row under an id that no other tenant has, a patch of a row
  -- that it sees, or a deletion in its name.
  abbrev pub IsOwn : Str → Rows B → Write B → Type 0
  IsOwn tenant rows (inserted r) =
      (r.tenant_id ≡ tenant) × (visible tenant (lookup r.id rows) ≡ lookup r.id rows)
  IsOwn tenant rows (patched id patch) = is_some (get_row tenant id rows) ≡ true
  IsOwn tenant rows (deleted t id) = t ≡ tenant

  patch_row-other :
      (tenant other id j : Str) (patch : B → B) (o : Option (Row B)) (rows : Rows B)
      → str_eq other tenant ≡ false
      → lookup id rows ≡ o
      → is_some (visible tenant o) ≡ true
      → get_row other j (patch_row id patch o rows).1 ≡ get_row other j rows
  unfolding patch_row get_row
  patch_row-other tenant other id j patch none rows apart found own = refl
  patch_row-other tenant other id j patch (some r) rows apart found own = ground (
    arith,
    found,
    own,
    str_eq_iff r.tenant_id tenant,
    str_eq_iff r.tenant_id other,
    str_eq_iff other tenant,
    str_eq_iff id j,
    lookup-insert id j (record r { body = patch r.body }) rows,
  )

  delete_seen-other :
      (tenant other id j : Str) (o : Option (Row B)) (rows : Rows B)
      → str_eq other tenant ≡ false
      → lookup id rows ≡ o
      → get_row other j (delete_seen id (visible tenant o) rows).1 ≡ get_row other j rows
  unfolding get_row
  delete_seen-other tenant other id j none rows apart found = refl
  delete_seen-other tenant other id j (some r) rows apart found = ground (
    arith,
    found,
    str_eq_iff r.tenant_id tenant,
    str_eq_iff r.tenant_id other,
    str_eq_iff other tenant,
    str_eq_iff id j,
    lookup-remove id j rows,
  )

  insert_row-other :
      (tenant other j : Str) (r : Row B) (rows : Rows B)
      → str_eq other tenant ≡ false
      → r.tenant_id ≡ tenant
      → visible tenant (lookup r.id rows) ≡ lookup r.id rows
      → get_row other j (insert_row r rows) ≡ get_row other j rows
  unfolding insert_row get_row
  insert_row-other tenant other j r rows apart mine free = elim (Option-cases (lookup r.id rows)) [
    | inl absent ↦ ground (
      arith,
      absent,
      mine,
      str_eq_iff r.tenant_id other,
      str_eq_iff other tenant,
      str_eq_iff r.id j,
      lookup-insert r.id j r rows,
    )
    | inr (old, found) ↦ ground (
      arith,
      found,
      free,
      mine,
      str_eq_iff r.tenant_id other,
      str_eq_iff other tenant,
      str_eq_iff r.id j,
      str_eq_iff old.tenant_id tenant,
      str_eq_iff old.tenant_id other,
      lookup-insert r.id j r rows,
    )
  ]

  -- A write that a tenant makes changes nothing that another tenant gets.
  pub write-isolated :
      (tenant other j : Str) (w : Write B) (rows : Rows B)
      → str_eq other tenant ≡ false
      → IsOwn tenant rows w
      → get_row other j (write w rows) ≡ get_row other j rows
  unfolding write update_row delete_row get_row
  write-isolated tenant other j (inserted r) rows apart own =
      insert_row-other tenant other j r rows apart own.0 own.1
  write-isolated tenant other j (patched id patch) rows apart own =
      patch_row-other tenant other id j patch (lookup id rows) rows apart refl own
  write-isolated tenant other j (deleted t id) rows apart own =
      rw own (delete_seen-other tenant other id j (lookup id rows) rows apart refl)
