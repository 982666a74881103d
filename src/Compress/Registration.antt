-- ===== src/Compress/Registration.antt =====
-- Loading the extension.
use letarette.Base.{◌≡◌, ◌↔◌, [], ◌∷◌, arith}
use letarette.Sqlite.{Rc, ok, until_failure}
use letarette.Compress.{SqlFunction, compress, uncompress, iscompressed, compress_init}

-- Loading answers SQLITE_OK exactly if all three functions were registered, in the order compress,
-- uncompress, iscompressed; whichever it answers, nothing is registered behind a failure.
pub compress_init-ok :
    (create : SqlFunction → Rc)
    → ((compress_init create).0 ≡ ok
        ↔ ((create compress ≡ ok) × (create uncompress ≡ ok) × (create iscompressed ≡ ok)))
      × ((compress_init create).1
          ≡ until_failure create (compress ∷ uncompress ∷ iscompressed ∷ []))
unfolding compress_init until_failure
compress_init-ok create = ground arith
