-- ===== src/Lib.antt =====
-- MyPL, a PL/SQL-like language: its compiler and virtual machine, and the storage of its own SQL
-- engine. This library models the storage engine's pages and B+ tree index, the conditions of its
-- SQL, the scanner, the recognition of trigger statements, the compiled chunk, and the values'
-- comparisons and maps, as functions that a term can evaluate, with the state passed from call to call.
--
-- The parts, and the files that model them:
--   Pager/      src/pager.c: pages of a database file and the bitmap of the pages in use. `Pager` is
--               the struct with the file as an array of pages; `allocate_page`, `free_page`,
--               `read_page`, `write_page`, `pager_open` and `pager_close` are the functions named so,
--               some with the prefix pager_ in C. Reads and writes of src/os.c are taken to complete.
--   BTree/      src/btree.c over the pager. BTree/Key.antt is encode_key, BTree/Node.antt is
--               node_load and node_store, BTree/Insert.antt btree_create, btree_open, insert_rec and
--               btree_insert, BTree/Delete.antt the borrowing, merging, delete_rec and btree_delete,
--               BTree/Scan.antt find_leaf and the scans, BTree/Shape.antt free_pages_rec and
--               btree_stats. BTree/Tree.antt says what a whole search tree on the pages is; the
--               files below it prove what creation, insertion and the scans do to one.
--   Trigger/    src/trigger.c: sql_trigger_info, sql_drop_trigger_name and trigger_name_equals.
--   Lexer/      src/lexer.c and include/lexer.h: Lexer/Token.antt has the token types,
--               Lexer/Keyword.antt identifier_type, Lexer/Scan.antt the scanner up to
--               lexer_next_token.
--   Chunk/      src/chunk.c and include/compiler.h: the code, lines, columns, constants and triggers
--               of a compiled program, with the growth of their arrays.
--   Value/      src/value.c: value_eq, value_lt, value_gt, and the map of the language.
--   Sql/        src/sql_engine.c: Sql/Token.antt the scanner of SQL texts up to sql_next_token,
--               Sql/Like.antt like_match, Sql/Cells.antt cell_compare, Sql/Literal.antt
--               sql_parse_literal_cell, Sql/Parse.antt where_parse_or and what it calls,
--               Sql/Where.antt WhereNode, resolve_field and where_eval, Sql/Rows.antt the records of
--               rows, Sql/RowPages.antt row pages and read_all_rows, Sql/RowPages/Append.antt
--               row_page_append up to its writing of the catalog page; the files
--               beside it prove what it does to a later scan.
--   Prelude/    Boolean tests, lists and integers over the native numbers, and byte strings.
-- The tree and the row pages use the pager through its pages, the conditions and the rows use the
-- cells of the tree, and the chunk uses the names of triggers; the other parts stand alone.
--
-- Numbers: an `int` of the pager and the tree is its 32 bits, with the signed order by
-- Prelude.Int.ltb_int; integers of the values and the lines are whole numbers taken to fit, since
-- an overflow has no meaning in C, but for the difference of two keys of a map, which wraps around. Texts are the bytes before the NUL. Doubles are their 64 bits in
-- keys, and parameters with their tests in Value and in the conditions.
--
-- Fuel: the recursions over the pages of a tree take fuel, since nothing bounds a tree on a
-- corrupt file; running out is a result of its own (`no_fuel`, `none`). On a search
-- tree more fuel than its height is enough to insert. The parser of conditions takes fuel for its
-- calls, which the derivation of a text bounds. The scan of a table and a scan of a chain of leaves
-- need one unit for each page, as the theorems on them prove. The loops over texts, entries and bits
-- are recursions on what is left and need none.
--
-- Not modelled: failed allocations of memory, NULL arguments, reference counts and the cycle
-- collector, and the parser, the type checker, the code generator, the virtual machine, the
-- parsing of other SQL, the execution of statements, the catalog, the drivers and the command line.
pub mod Prelude
pub mod Pager
pub mod BTree
pub mod Trigger
pub mod Lexer
pub mod Chunk
pub mod Value
pub mod Sql
