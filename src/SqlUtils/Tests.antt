-- ===== src/SqlUtils/Tests.antt =====
-- Runs of the identifier and condition checks.
use sql_rpa.Base.{◌≡◌, refl, some, ◌++◌, codes, arith}
use sql_rpa.SqlUtils.{mysql, accepted, quote_identifier}
use sql_rpa.SqlUtils.Quoting.{read_identifier, read_identifier-quote_identifier}

quote_doubles : quote_identifier (codes "a`b") mysql ≡ accepted (codes "`a``b`")
unfolding quote_identifier
quote_doubles = refl

read_identifier-quote_identifier_example :
    read_identifier mysql (codes "`a``b`" ++ codes " WHERE") ≡ some (codes "a`b", codes " WHERE")
read_identifier-quote_identifier_example =
    read_identifier-quote_identifier (codes "a`b") (codes "`a``b`") (codes " WHERE") mysql
      quote_doubles (ground arith)
