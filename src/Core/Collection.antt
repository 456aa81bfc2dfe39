-- ===== src/Core/Collection.antt =====
-- lib/lawrence-core/db/collection.ts: MemoryCollection, a Map of rows by their id. A row has its
-- tenant and the rest of its fields; a patch changes the rest.
pub mod Tenants
use adam_os.Base.{
  Bool, true, false, ◌&&◌, Option, none, some, List, [], ◌∷◌, Str, str_eq, lookup, insert, remove,
  filter, map, Result, ok, err, if◌then◌else◌,
}

pub record Row (B : Type 0) : Type 0 where
  pub id : Str
  pub tenant_id : Str
  pub body : B

abbrev pub Rows : Type 0 → Type 0
Rows B = List (Str × Row B)

pub data CollectionError : Type 0 where
  row_not_found : Str → CollectionError

module _ {B : Type 0} where
  abbrev pub is_of : Str → Row B → Bool
  is_of tenant r = str_eq r.tenant_id tenant

  -- A row that a tenant may see
  abbrev pub visible : Str → Option (Row B) → Option (Row B)
  visible tenant none = none
  visible tenant (some r) = if is_of tenant r then some r else none

  unfoldable pub insert_row : Row B → Rows B → Rows B
  unfolding insert
  insert_row r rows = insert r.id r rows

  unfoldable pub patch_row :
      Str → (B → B) → Option (Row B) → Rows B → Result CollectionError (Row B) × Rows B
  unfolding insert
  patch_row id patch none rows = (err (row_not_found id), rows)
  patch_row id patch (some r) rows =
      let next : Row B = record r { body = patch r.body } in (ok next, insert id next rows)

  unfoldable pub update_row : Str → (B → B) → Rows B → Result CollectionError (Row B) × Rows B
  unfolding patch_row lookup
  update_row id patch rows = patch_row id patch (lookup id rows) rows

  unfoldable pub get_row : Str → Str → Rows B → Option (Row B)
  unfolding lookup
  get_row tenant id rows = visible tenant (lookup id rows)

  unfoldable pub list_rows : Str → (Row B → Bool) → Rows B → List (Row B)
  list_rows tenant p rows = filter (λ r. is_of tenant r && p r) (map (λ e. e.1) rows)

  abbrev pub first : List (Row B) → Option (Row B)
  first [] = none
  first (r ∷ rs) = some r

  unfoldable pub find_row : Str → (Row B → Bool) → Rows B → Option (Row B)
  unfolding list_rows
  find_row tenant p rows = first (list_rows tenant p rows)

  abbrev pub delete_seen : Str → Option (Row B) → Rows B → Bool × Rows B
  delete_seen id none rows = (false, rows)
  delete_seen id (some r) rows = (true, remove id rows)

  unfoldable pub delete_row : Str → Str → Rows B → Bool × Rows B
  unfolding lookup remove
  delete_row tenant id rows = delete_seen id (visible tenant (lookup id rows)) rows
