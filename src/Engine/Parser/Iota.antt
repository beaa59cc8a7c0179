-- ===== src/Engine/Parser/Iota.antt =====
-- internal/engine/parser/lexer.go: the number that each token type stands for, by which types are
-- compared.
use sqlgo.Base.{ℕ, Bool, ◌==◌, ◌<◌, ◌≡◌, refl, arith}
use sqlgo.Engine.Parser.Token.{
  TokenType, token_eof, token_illegal, token_ident, token_number, token_string, token_comma,
  token_semicolon, token_lparen, token_rparen, token_dot, token_star, token_eq, token_neq, token_lt,
  token_lte, token_gt, token_gte, token_plus, token_minus, token_slash, token_percent,
  token_pipe_pipe, token_ampersand, token_pipe, token_tilde, token_lshift, token_rshift, token_and,
  token_or, token_not, kw_select, kw_from, kw_where, kw_insert, kw_into, kw_values, kw_update,
  kw_set, kw_delete, kw_create, kw_drop, kw_table, kw_index, kw_on, kw_unique, kw_primary, kw_key,
  kw_null, kw_not, kw_default, kw_and, kw_or, kw_is, kw_in, kw_like, kw_glob, kw_between, kw_order,
  kw_by, kw_asc, kw_desc, kw_limit, kw_offset, kw_as, kw_inner, kw_left, kw_right, kw_full,
  kw_outer, kw_cross, kw_natural, kw_join, kw_using, kw_group, kw_having, kw_distinct, kw_all,
  kw_exists, kw_begin, kw_commit, kw_rollback, kw_transaction, kw_savepoint, kw_release, kw_to,
  kw_if, kw_show, kw_tables, kw_indexes, kw_explain, kw_count, kw_sum, kw_avg, kw_min, kw_max,
  kw_integer, kw_text, kw_real, kw_blob, kw_autoincrement, kw_case, kw_when, kw_then, kw_else,
  kw_end, kw_cast, kw_alter, kw_add, kw_rename, kw_column, kw_view, kw_temp, kw_temporary, kw_union,
  kw_intersect, kw_except, kw_with, kw_recursive, kw_replace, kw_ignore, kw_abort, kw_fail,
  kw_conflict, kw_or_replace, kw_rowid, kw_pragma, kw_vacuum, kw_deferred, kw_immediate,
  kw_exclusive, kw_trigger, kw_before, kw_after, kw_instead, kw_of, kw_for, kw_each, kw_row,
  kw_statement, kw_match, kw_no, kw_action, kw_restrict, kw_cascade, kw_set_null, kw_set_default,
  kw_deferrable, kw_initially, kw_references, kw_foreign, kw_check, kw_constraint, kw_generated,
  kw_always, kw_stored, kw_virtual, kw_nothing, kw_do, kw_returning, kw_window, kw_over,
  kw_partition, kw_filter, kw_nulls, kw_first, kw_last, kw_range, kw_rows, kw_groups, kw_current,
  kw_preceding, kw_following, kw_unbounded, kw_ties, kw_exclude, kw_others, kw_true, kw_false,
}

-- `iota`.
unfoldable pub index : TokenType → ℕ
index token_eof = 0
index token_illegal = 1
index token_ident = 2
index token_number = 3
index token_string = 4
index token_comma = 5
index token_semicolon = 6
index token_lparen = 7
index token_rparen = 8
index token_dot = 9
index token_star = 10
index token_eq = 11
index token_neq = 12
index token_lt = 13
index token_lte = 14
index token_gt = 15
index token_gte = 16
index token_plus = 17
index token_minus = 18
index token_slash = 19
index token_percent = 20
index token_pipe_pipe = 21
index token_ampersand = 22
index token_pipe = 23
index token_tilde = 24
index token_lshift = 25
index token_rshift = 26
index token_and = 27
index token_or = 28
index token_not = 29
index kw_select = 30
index kw_from = 31
index kw_where = 32
index kw_insert = 33
index kw_into = 34
index kw_values = 35
index kw_update = 36
index kw_set = 37
index kw_delete = 38
index kw_create = 39
index kw_drop = 40
index kw_table = 41
index kw_index = 42
index kw_on = 43
index kw_unique = 44
index kw_primary = 45
index kw_key = 46
index kw_null = 47
index kw_not = 48
index kw_default = 49
index kw_and = 50
index kw_or = 51
index kw_is = 52
index kw_in = 53
index kw_like = 54
index kw_glob = 55
index kw_between = 56
index kw_order = 57
index kw_by = 58
index kw_asc = 59
index kw_desc = 60
index kw_limit = 61
index kw_offset = 62
index kw_as = 63
index kw_inner = 64
index kw_left = 65
index kw_right = 66
index kw_full = 67
index kw_outer = 68
index kw_cross = 69
index kw_natural = 70
index kw_join = 71
index kw_using = 72
index kw_group = 73
index kw_having = 74
index kw_distinct = 75
index kw_all = 76
index kw_exists = 77
index kw_begin = 78
index kw_commit = 79
index kw_rollback = 80
index kw_transaction = 81
index kw_savepoint = 82
index kw_release = 83
index kw_to = 84
index kw_if = 85
index kw_show = 86
index kw_tables = 87
index kw_indexes = 88
index kw_explain = 89
index kw_count = 90
index kw_sum = 91
index kw_avg = 92
index kw_min = 93
index kw_max = 94
index kw_integer = 95
index kw_text = 96
index kw_real = 97
index kw_blob = 98
index kw_autoincrement = 99
index kw_case = 100
index kw_when = 101
index kw_then = 102
index kw_else = 103
index kw_end = 104
index kw_cast = 105
index kw_alter = 106
index kw_add = 107
index kw_rename = 108
index kw_column = 109
index kw_view = 110
index kw_temp = 111
index kw_temporary = 112
index kw_union = 113
index kw_intersect = 114
index kw_except = 115
index kw_with = 116
index kw_recursive = 117
index kw_replace = 118
index kw_ignore = 119
index kw_abort = 120
index kw_fail = 121
index kw_conflict = 122
index kw_or_replace = 123
index kw_rowid = 124
index kw_pragma = 125
index kw_vacuum = 126
index kw_deferred = 127
index kw_immediate = 128
index kw_exclusive = 129
index kw_trigger = 130
index kw_before = 131
index kw_after = 132
index kw_instead = 133
index kw_of = 134
index kw_for = 135
index kw_each = 136
index kw_row = 137
index kw_statement = 138
index kw_match = 139
index kw_no = 140
index kw_action = 141
index kw_restrict = 142
index kw_cascade = 143
index kw_set_null = 144
index kw_set_default = 145
index kw_deferrable = 146
index kw_initially = 147
index kw_references = 148
index kw_foreign = 149
index kw_check = 150
index kw_constraint = 151
index kw_generated = 152
index kw_always = 153
index kw_stored = 154
index kw_virtual = 155
index kw_nothing = 156
index kw_do = 157
index kw_returning = 158
index kw_window = 159
index kw_over = 160
index kw_partition = 161
index kw_filter = 162
index kw_nulls = 163
index kw_first = 164
index kw_last = 165
index kw_range = 166
index kw_rows = 167
index kw_groups = 168
index kw_current = 169
index kw_preceding = 170
index kw_following = 171
index kw_unbounded = 172
index kw_ties = 173
index kw_exclude = 174
index kw_others = 175
index kw_true = 176
index kw_false = 177

-- `==` on token types.
unfoldable pub same_type : TokenType → TokenType → Bool
same_type a b = index a == index b

pub index-token_eof : index token_eof ≡ 0
unfolding index
index-token_eof = refl

-- Every type but the end of the file.
abbrev pub IsProper : TokenType → Type 0
IsProper token_eof = ⊥
IsProper _ = Unit {0}

pub index-IsProper : (t : TokenType) → IsProper t → 0 < index t
unfolding index
index-IsProper token_eof h = absurd h
index-IsProper _ h = omega arith

pub token_eof-of_index : (t : TokenType) → index t ≡ 0 → t ≡ token_eof
unfolding index
token_eof-of_index token_eof h = refl
token_eof-of_index _ h = absurd (omega arith)
