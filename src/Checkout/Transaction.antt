-- ===== src/Checkout/Transaction.antt =====
-- `dataSource.transaction`: a body that throws leaves the database as it was.
use one_marketplace.Base.{Outcome, ok, err}
use one_marketplace.Entities.{Db}

-- What a transaction's body does to the database, until it throws.
abbrev pub Tx : Type 0 → Type 0 → Type 0
Tx E A = Db → Outcome E (A × Db)

infixl 5 ◌>>=◌ ◌>>◌
abbrev pub ◌>>=◌ : {E A B : Type 0} → Tx E A → (A → Tx E B) → Tx E B
◌>>=◌ m f db = elim (m db) [ ok (a, db') ↦ f a db' | err e ↦ err e ]

abbrev pub ◌>>◌ : {E A B : Type 0} → Tx E A → Tx E B → Tx E B
m >> k = m >>= λ _. k

abbrev pub pure : {E A : Type 0} → A → Tx E A
pure a db = ok (a, db)

abbrev pub raise : {E A : Type 0} → E → Tx E A
raise e db = err e

abbrev pub settle : {E A : Type 0} → Outcome E (A × Db) → Db → Outcome E A × Db
settle (ok (a, db')) db = (ok a, db')
settle (err e) db = (err e, db)

unfoldable pub transaction : {E A : Type 0} → Tx E A → Db → Outcome E A × Db
transaction body db = settle (body db) db
