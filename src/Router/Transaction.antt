-- ===== src/Router/Transaction.antt =====
-- One flush is one transaction.
use aegis_edr.Prelude.{string_eq}
