-- ===== src/Engine/Parser/Token.antt =====
-- internal/engine/parser/lexer.go: the kinds of tokens, `Token`, and the runes they are made of.
use Prim.Native.Char.{code}
use Prim.Native.String.{String}
use sqlgo.Base.{ℕ, List, [], ◌∷◌}

-- `[]rune`, and a Go string read as its runes.
abbrev pub Runes : Type 0
Runes = List ℕ

-- The runes of a literal.
abbrev pub codes : String → Runes
codes String.[] = []
codes (String.◌∷◌ c s) = code c ∷ codes s

pub data TokenType : Type 0 where
  token_eof token_illegal token_ident token_number token_string token_comma token_semicolon
        token_lparen token_rparen token_dot token_star token_eq token_neq token_lt token_lte
        token_gt token_gte token_plus token_minus token_slash token_percent token_pipe_pipe
        token_ampersand token_pipe token_tilde token_lshift token_rshift token_and token_or
        token_not kw_select kw_from kw_where kw_insert kw_into kw_values kw_update kw_set kw_delete
        kw_create kw_drop kw_table kw_index kw_on kw_unique kw_primary kw_key kw_null kw_not
        kw_default kw_and kw_or kw_is kw_in kw_like kw_glob kw_between kw_order kw_by kw_asc kw_desc
        kw_limit kw_offset kw_as kw_inner kw_left kw_right kw_full kw_outer kw_cross kw_natural
        kw_join kw_using kw_group kw_having kw_distinct kw_all kw_exists kw_begin kw_commit
        kw_rollback kw_transaction kw_savepoint kw_release kw_to kw_if kw_show kw_tables kw_indexes
        kw_explain kw_count kw_sum kw_avg kw_min kw_max kw_integer kw_text kw_real kw_blob
        kw_autoincrement kw_case kw_when kw_then kw_else kw_end kw_cast kw_alter kw_add kw_rename
        kw_column kw_view kw_temp kw_temporary kw_union kw_intersect kw_except kw_with kw_recursive
        kw_replace kw_ignore kw_abort kw_fail kw_conflict kw_or_replace kw_rowid kw_pragma kw_vacuum
        kw_deferred kw_immediate kw_exclusive kw_trigger kw_before kw_after kw_instead kw_of kw_for
        kw_each kw_row kw_statement kw_match kw_no kw_action kw_restrict kw_cascade kw_set_null
        kw_set_default kw_deferrable kw_initially kw_references kw_foreign kw_check kw_constraint
        kw_generated kw_always kw_stored kw_virtual kw_nothing kw_do kw_returning kw_window kw_over
        kw_partition kw_filter kw_nulls kw_first kw_last kw_range kw_rows kw_groups kw_current
        kw_preceding kw_following kw_unbounded kw_ties kw_exclude kw_others kw_true kw_false :
      TokenType

-- The `line` and `col` of the lexer and of a token.
pub record Place : Type 0 where
  pub line : ℕ
  pub col : ℕ

pub record Token : Type 0 where
  pub type : TokenType
  pub value : Runes
  pub place : Place
