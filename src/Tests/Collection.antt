-- ===== src/Tests/Collection.antt =====
-- lib/lawrence-core/db/collection.ts: rows of two tenants.
use adam_os.Base.{ℕ, suc, ◌≡◌, refl, none, [], ◌∷◌, Str, str, str_eq, lookup, insert}
use adam_os.Core.Collection.{Row, Rows, insert_row, get_row}
use adam_os.Core.Collection.Tenants.{patched, write, write-isolated}

abbrev row : Str → Str → ℕ → Row ℕ
row id tenant n = record { id = id; tenant_id = tenant; body = n }

abbrev rows : Rows ℕ
rows = (str "1", row (str "1") (str "t") 5) ∷ (str "2", row (str "2") (str "u") 7) ∷ []

-- A row written under the id of another tenant's row replaces it.
overwrites : get_row (str "u") (str "2") (insert_row (row (str "2") (str "t") 0) rows) ≡ none
unfolding get_row insert_row lookup insert str_eq
overwrites = refl

write-isolated_example :
    get_row (str "u") (str "2") (write (patched (str "1") (λ n. suc n)) rows)
    ≡ get_row (str "u") (str "2") rows
unfolding get_row lookup str_eq
write-isolated_example =
    write-isolated (str "t") (str "u") (str "2") (patched (str "1") (λ n. suc n)) rows refl refl
