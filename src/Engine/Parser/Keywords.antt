-- ===== src/Engine/Parser/Keywords.antt =====
-- internal/engine/parser/lexer.go: the map `keywords`, its entries in the source's order. No word
-- stands in it twice.
use sqlgo.Base.{List, [], ◌∷◌, ◌++◌, Option, none, some, bytes_eq, if◌then◌else◌}
use sqlgo.Engine.Parser.Token.{
  Runes, codes, TokenType, kw_abort, kw_action, kw_add, kw_after, kw_all, kw_alter, kw_always,
  kw_and, kw_as, kw_asc, kw_autoincrement, kw_avg, kw_before, kw_begin, kw_between, kw_blob, kw_by,
  kw_cascade, kw_case, kw_cast, kw_check, kw_column, kw_commit, kw_conflict, kw_constraint,
  kw_count, kw_create, kw_cross, kw_current, kw_default, kw_deferrable, kw_deferred, kw_delete,
  kw_desc, kw_distinct, kw_do, kw_drop, kw_each, kw_else, kw_end, kw_except, kw_exclude,
  kw_exclusive, kw_exists, kw_explain, kw_fail, kw_false, kw_filter, kw_first, kw_following, kw_for,
  kw_foreign, kw_from, kw_full, kw_generated, kw_glob, kw_group, kw_groups, kw_having, kw_if,
  kw_ignore, kw_immediate, kw_in, kw_index, kw_indexes, kw_initially, kw_inner, kw_insert,
  kw_instead, kw_integer, kw_intersect, kw_into, kw_is, kw_join, kw_key, kw_last, kw_left, kw_like,
  kw_limit, kw_match, kw_max, kw_min, kw_natural, kw_no, kw_not, kw_nothing, kw_null, kw_nulls,
  kw_of, kw_offset, kw_on, kw_or, kw_order, kw_others, kw_outer, kw_over, kw_partition, kw_pragma,
  kw_preceding, kw_primary, kw_range, kw_real, kw_recursive, kw_references, kw_release, kw_rename,
  kw_replace, kw_restrict, kw_returning, kw_right, kw_rollback, kw_row, kw_rowid, kw_rows,
  kw_savepoint, kw_select, kw_set, kw_show, kw_statement, kw_stored, kw_sum, kw_table, kw_tables,
  kw_temp, kw_temporary, kw_text, kw_then, kw_ties, kw_to, kw_transaction, kw_trigger, kw_true,
  kw_unbounded, kw_union, kw_unique, kw_update, kw_using, kw_vacuum, kw_values, kw_view, kw_virtual,
  kw_when, kw_where, kw_window, kw_with,
}

unfoldable pub statement_keywords : List (Runes × TokenType)
statement_keywords =
    (codes "SELECT", kw_select)
    ∷ (codes "FROM", kw_from)
    ∷ (codes "WHERE", kw_where)
    ∷ (codes "INSERT", kw_insert)
    ∷ (codes "INTO", kw_into)
    ∷ (codes "VALUES", kw_values)
    ∷ (codes "UPDATE", kw_update)
    ∷ (codes "SET", kw_set)
    ∷ (codes "DELETE", kw_delete)
    ∷ (codes "CREATE", kw_create)
    ∷ (codes "DROP", kw_drop)
    ∷ (codes "TABLE", kw_table)
    ∷ (codes "INDEX", kw_index)
    ∷ (codes "ON", kw_on)
    ∷ (codes "UNIQUE", kw_unique)
    ∷ (codes "PRIMARY", kw_primary)
    ∷ (codes "KEY", kw_key)
    ∷ (codes "NULL", kw_null)
    ∷ (codes "NOT", kw_not)
    ∷ (codes "DEFAULT", kw_default)
    ∷ (codes "AND", kw_and)
    ∷ (codes "OR", kw_or)
    ∷ (codes "IS", kw_is)
    ∷ (codes "IN", kw_in)
    ∷ (codes "LIKE", kw_like)
    ∷ (codes "GLOB", kw_glob)
    ∷ (codes "BETWEEN", kw_between)
    ∷ (codes "ORDER", kw_order)
    ∷ (codes "BY", kw_by)
    ∷ (codes "ASC", kw_asc)
    ∷ (codes "DESC", kw_desc)
    ∷ (codes "LIMIT", kw_limit)
    ∷ (codes "OFFSET", kw_offset)
    ∷ (codes "AS", kw_as)
    ∷ (codes "INNER", kw_inner)
    ∷ (codes "LEFT", kw_left)
    ∷ (codes "RIGHT", kw_right)
    ∷ (codes "FULL", kw_full)
    ∷ (codes "OUTER", kw_outer)
    ∷ (codes "CROSS", kw_cross)
    ∷ (codes "NATURAL", kw_natural)
    ∷ (codes "JOIN", kw_join)
    ∷ (codes "USING", kw_using)
    ∷ (codes "GROUP", kw_group)
    ∷ (codes "HAVING", kw_having)
    ∷ (codes "DISTINCT", kw_distinct)
    ∷ (codes "ALL", kw_all)
    ∷ (codes "EXISTS", kw_exists)
    ∷ (codes "BEGIN", kw_begin)
    ∷ (codes "COMMIT", kw_commit)
    ∷ (codes "ROLLBACK", kw_rollback)
    ∷ (codes "TRANSACTION", kw_transaction)
    ∷ (codes "SAVEPOINT", kw_savepoint)
    ∷ (codes "RELEASE", kw_release)
    ∷ (codes "TO", kw_to)
    ∷ (codes "IF", kw_if)
    ∷ (codes "SHOW", kw_show)
    ∷ (codes "TABLES", kw_tables)
    ∷ (codes "INDEXES", kw_indexes)
    ∷ (codes "EXPLAIN", kw_explain)
    ∷ (codes "COUNT", kw_count)
    ∷ (codes "SUM", kw_sum)
    ∷ (codes "AVG", kw_avg)
    ∷ (codes "MIN", kw_min)
    ∷ (codes "MAX", kw_max)
    ∷ (codes "INTEGER", kw_integer)
    ∷ (codes "INT", kw_integer)
    ∷ (codes "TEXT", kw_text)
    ∷ (codes "VARCHAR", kw_text)
    ∷ (codes "REAL", kw_real)
    ∷ (codes "FLOAT", kw_real)
    ∷ (codes "DOUBLE", kw_real)
    ∷ (codes "BLOB", kw_blob)
    ∷ (codes "AUTOINCREMENT", kw_autoincrement)
    ∷ (codes "CASE", kw_case)
    ∷ (codes "WHEN", kw_when)
    ∷ (codes "THEN", kw_then)
    ∷ (codes "ELSE", kw_else)
    ∷ (codes "END", kw_end)
    ∷ (codes "CAST", kw_cast)
    ∷ (codes "ALTER", kw_alter)
    ∷ (codes "ADD", kw_add)
    ∷ (codes "RENAME", kw_rename)
    ∷ (codes "COLUMN", kw_column)
    ∷ (codes "VIEW", kw_view)
    ∷ (codes "TEMP", kw_temp)
    ∷ (codes "TEMPORARY", kw_temporary)
    ∷ (codes "UNION", kw_union)
    ∷ (codes "INTERSECT", kw_intersect)
    ∷ (codes "EXCEPT", kw_except)
    ∷ []

unfoldable pub clause_keywords : List (Runes × TokenType)
clause_keywords =
    (codes "WITH", kw_with)
    ∷ (codes "RECURSIVE", kw_recursive)
    ∷ (codes "REPLACE", kw_replace)
    ∷ (codes "IGNORE", kw_ignore)
    ∷ (codes "ABORT", kw_abort)
    ∷ (codes "FAIL", kw_fail)
    ∷ (codes "CONFLICT", kw_conflict)
    ∷ (codes "ROWID", kw_rowid)
    ∷ (codes "PRAGMA", kw_pragma)
    ∷ (codes "VACUUM", kw_vacuum)
    ∷ (codes "DEFERRED", kw_deferred)
    ∷ (codes "IMMEDIATE", kw_immediate)
    ∷ (codes "EXCLUSIVE", kw_exclusive)
    ∷ (codes "TRIGGER", kw_trigger)
    ∷ (codes "BEFORE", kw_before)
    ∷ (codes "AFTER", kw_after)
    ∷ (codes "INSTEAD", kw_instead)
    ∷ (codes "OF", kw_of)
    ∷ (codes "FOR", kw_for)
    ∷ (codes "EACH", kw_each)
    ∷ (codes "ROW", kw_row)
    ∷ (codes "STATEMENT", kw_statement)
    ∷ (codes "MATCH", kw_match)
    ∷ (codes "NO", kw_no)
    ∷ (codes "ACTION", kw_action)
    ∷ (codes "RESTRICT", kw_restrict)
    ∷ (codes "CASCADE", kw_cascade)
    ∷ (codes "DEFERRABLE", kw_deferrable)
    ∷ (codes "INITIALLY", kw_initially)
    ∷ (codes "REFERENCES", kw_references)
    ∷ (codes "FOREIGN", kw_foreign)
    ∷ (codes "CHECK", kw_check)
    ∷ (codes "CONSTRAINT", kw_constraint)
    ∷ (codes "GENERATED", kw_generated)
    ∷ (codes "ALWAYS", kw_always)
    ∷ (codes "STORED", kw_stored)
    ∷ (codes "VIRTUAL", kw_virtual)
    ∷ (codes "NOTHING", kw_nothing)
    ∷ (codes "DO", kw_do)
    ∷ (codes "RETURNING", kw_returning)
    ∷ (codes "WINDOW", kw_window)
    ∷ (codes "OVER", kw_over)
    ∷ (codes "PARTITION", kw_partition)
    ∷ (codes "FILTER", kw_filter)
    ∷ (codes "NULLS", kw_nulls)
    ∷ (codes "FIRST", kw_first)
    ∷ (codes "LAST", kw_last)
    ∷ (codes "RANGE", kw_range)
    ∷ (codes "ROWS", kw_rows)
    ∷ (codes "GROUPS", kw_groups)
    ∷ (codes "CURRENT", kw_current)
    ∷ (codes "PRECEDING", kw_preceding)
    ∷ (codes "FOLLOWING", kw_following)
    ∷ (codes "UNBOUNDED", kw_unbounded)
    ∷ (codes "TIES", kw_ties)
    ∷ (codes "EXCLUDE", kw_exclude)
    ∷ (codes "OTHERS", kw_others)
    ∷ (codes "TRUE", kw_true)
    ∷ (codes "FALSE", kw_false)
    ∷ (codes "BOOLEAN", kw_integer)
    ∷ (codes "BOOL", kw_integer)
    ∷ (codes "NUMERIC", kw_real)
    ∷ (codes "DECIMAL", kw_real)
    ∷ (codes "CHAR", kw_text)
    ∷ (codes "NCHAR", kw_text)
    ∷ (codes "NVARCHAR", kw_text)
    ∷ (codes "CLOB", kw_text)
    ∷ (codes "TINYINT", kw_integer)
    ∷ (codes "SMALLINT", kw_integer)
    ∷ (codes "MEDIUMINT", kw_integer)
    ∷ (codes "BIGINT", kw_integer)
    ∷ (codes "UNSIGNED", kw_integer)
    ∷ (codes "DATE", kw_text)
    ∷ (codes "DATETIME", kw_text)
    ∷ (codes "TIMESTAMP", kw_text)
    ∷ []

unfoldable pub keywords : List (Runes × TokenType)
keywords = statement_keywords ++ clause_keywords

-- `keywords[word]`, with the test that it is there.
unfoldable pub lookup : Runes → List (Runes × TokenType) → Option TokenType
lookup word [] = none
lookup word ((w, t) ∷ rest) = if bytes_eq word w then some t else lookup word rest
