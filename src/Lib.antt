-- ===== src/Lib.antt =====
-- sqlgo: a SQL database in one file, with a B-tree of pages, a page cache, transactions, a
-- lexer and parser, an executor for parsed statements and a server for clients.
--
-- How the parts work together. A row (internal/storage/row.go) is encoded into bytes and stored as
-- the value of a cell (internal/storage/btree.go) on a page. The pager (internal/storage/pager.go)
-- reads pages from the file into a cache with a fixed capacity, and writes dirty ones when they are
-- evicted or flushed. A transaction (internal/storage/transaction.go) keeps the contents that pages
-- had, to give them back. The lexer (internal/engine/parser/lexer.go) cuts a statement into tokens,
-- from which the parser (internal/engine/parser/parser.go) makes a tree
-- (internal/engine/parser/abstract.go). The executor (internal/engine/executor) runs statements on
-- the store, and the connector (internal/connector) lets clients in.
--
-- Files.
--   Base, with Base/Tests, Base/Lists, Base/Results and Base/Word: Boolean tests, lists over the
--   native numbers, results with an error, big-endian words.
--   Storage/Value, Storage/Row: values, EncodeRow, DecodeRow. Row/RoundTrip and Row/Truncation.
--   Storage/Cell: EncodeCell, DecodeCell, keyCmp with their C code (internal/storage/ops.c).
--   Cell/Codec and Cell/KeyOrder.
--   Storage/Header: the header of the file. Header/Codec.
--   Storage/Buffer: reads and writes of a fixed array of bytes.
--   Storage/Page: a page's fields and the routines on its cells, the binary search and the shifts
--   from internal/storage/ops.c included. Page/Layout says which page holds which cells; Page/Insert,
--   Page/Search, Page/Remove, Page/Rewrite, Page/Clear and Page/Copy are about one routine each, Page/Slots
--   about slots, and Insert/Writes about the writes of an insertion, Page/Overflow
--   about cells longer than a page.
--   Storage/Lru: lruCache. Lru/Entries and Lru/Eviction.
--   Storage/Pager: GetPage, AllocatePage, FreePage, FlushAll. Pager/Open:
--   initDB and loadHeader. Pager/Coherence and Pager/Flush.
--   Storage/Transaction: the operations of Transaction. Transaction/Restore, Transaction/Savepoints.
--   Storage/BTree: search of internal/storage/btree.go. BTree/Shape says what a tree of pages is;
--   BTree/Lookup and BTree/Separator are about the search. BTree/Leaf: insertLeaf, splitLeaf and
--   insertSorted, with Leaf/Fill, Leaf/Order, Leaf/Split and Leaf/Insert. BTree/Sample:
--   pages for the tests.
--   Engine/Session: the statements on transactions of internal/engine/executor/executor.go, and
--   Session/Reachable the states they lead to.
--   Engine/Like, Engine/Glob: sqlLikeMatch, globMatchRunes of internal/engine/executor/eval.go, and
--   Engine/Pattern what they share. Like/Matching, Glob/Matching.
--   Engine/Eval: the evaluation of expressions, internal/engine/executor/eval.go. Eval/Machine: int64.
--   Eval/Values: the methods of Value in internal/storage/row.go. Eval/Operators, Eval/Predicates and
--   Eval/Expr: evalUnary and evalBinary, the tests such as evalBetween, and EvalExpr. Eval/Logic,
--   Eval/Comparisons, Eval/Membership, Eval/Ranges, Eval/Quotient, Eval/Division: what they compute.
--   Engine/Rows: dedup and applyLimitOffset of internal/engine/executor/executor.go, with
--   Rows/Distinct and Rows/Window.
--   Engine/Parser/Token, Parser/Keywords, Parser/Iota: the kinds of tokens and their numbers.
--   Engine/Parser/Lexer: the lexer. Lexer/Cursor and Lexer/Readers are its loops; Lexer/Walk,
--   Lexer/Progress, Lexer/Gaps, Lexer/Positions, Lexer/Steps and Lexer/Total say what it takes and
--   that it ends; Lexer/Printed
--   prints lexemes, and Lexer/RoundTrip, Lexer/Lexemes and Lexer/Inverse read them back.
--   Engine/Parser/Syntax: the tree of internal/engine/parser/abstract.go. Parser/Stream: the walk
--   over the tokens. Parser/Grammar: expressions, types and SELECT, a module per group of functions,
--   from Grammar/Loops and Grammar/Number over Grammar/Types, Grammar/Primary, Grammar/Levels and
--   Grammar/Comparison up to Grammar/Query. Parser/Progress follows the same groups and ends in
--   Progress/Total. Parser/Precedence: a grammar of operators and what the parser makes of it, with
--   Precedence/Operands, Precedence/Operators and Precedence/Conditions.
--   Connector/Credential: internal/connector/authorization.go. Credential/Checks.
--   The modules called Tests apply the theorems at concrete inputs.
--
-- How the code is modelled. Names are the source's, in snake case. An integer of the source is a
-- natural number with its wrap-around written out. A byte array is a list of numbers, and a string
-- that is matched a list of runes. A page that the cache holds is the object that callers share: an
-- assignment to it is an update of the cache. A function that returns an error returns a result, and
-- a step of the pager also the state, since what was changed before an error stays changed. Writes
-- of the C code behind a page, and panics of Go, are results of their own. A length that is handed to C
-- as an int is cut to 32 bits where a text or a blob is copied. The comparisons of keys take it as it
-- is, which is what they do with keys shorter than 2 ^ 31 bytes.
--
-- Five kinds of loop run on fuel, which their theorems show to be enough: the binary search of a
-- page, one round more than the page has cells; the search of a tree, one round more than there are
-- levels above the leaves; globMatchRunes, the length of the pattern; Tokenize, one round more than
-- there are runes; and the loops of the parser, one round more than there are tokens left, where the
-- calls that close a circle of its functions may be nested as deep as there are tokens. Every other
-- loop is structural.
--
-- What is a parameter. The operating system's file is a map from page numbers to bytes, together
-- with the page numbers at which reads and writes fail. SHA-256 and the random generator are
-- arguments, and so are the page that AllocatePage returns to splitLeaf and whether a message can
-- be sent. The classes of runes and the upper case of Go's package unicode are the record Unicode,
-- and whether strconv.ParseFloat accepts a text is an argument; a float literal is kept as its text.
-- The evaluation of expressions takes as the record Library what it uses of Go's floats, strings,
-- regular expressions and conversions, and as the record Functions what the functions of evalFunc and
-- CoerceValue make of the results of their arguments. So a call of RANDOM, UUID or the clock is one
-- result, the same for the same arguments: what an evaluation does with it, not how it varies.
--
-- Not modelled: the statements other than SELECT and the clause WITH of the parser, the recursion of
-- insertion, deletion and the cursor of the B-tree, the schema, the table engine, the rest of queries,
-- and the functions that expressions call. Left out: sockets, terminal and file handling, JSON,
-- statistics, the text of an error, what the lexer prints for debugging, and mutexes, under each of
-- which an operation runs as a whole.
pub mod Base
pub mod Storage
pub mod Engine
pub mod Connector
