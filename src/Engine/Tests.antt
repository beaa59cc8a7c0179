-- ===== src/Engine/Tests.antt =====
-- The theorems on sessions and patterns at concrete inputs.
use sqlgo.Base.{ℕ, ◌≡◌, ◌↔◌, Bytes, List, [], ◌∷◌, none, true, false, err}
use sqlgo.Storage.Pager.{Pager}
use sqlgo.Engine.Session.{
  Session, exec, begin_, savepoint_, rollback_, new_session, nil_transaction,
}
use sqlgo.Engine.Session.Reachable.{
  Runs, done, then_command, then_statement, IsConsistent, Runs-no_panic, Runs-rollback_pager,
}
use sqlgo.Base.{length}
use sqlgo.Engine.Glob.{glob_match}
use sqlgo.Engine.Glob.Matching.{glob_items, glob_match-Matches}
use sqlgo.Engine.Like.{sql_like_match}
use sqlgo.Engine.Pattern.{Matches}
use sqlgo.Engine.Like.Matching.{items, sql_like_match-Matches}

abbrev pager : ℕ → Pager
pager count = record {
  header = record {
    magic = 83 ∷ 81 ∷ 76 ∷ 71 ∷ 79 ∷ 0 ∷ 0 ∷ 0 ∷ [];
    version = 3;
    page_bytes = 4096;
    page_count = count;
    free_list = 0xffff_ffff;
    root_page = 0xffff_ffff;
    schema_page = 1;
  };
  cache = record { cap = 4; order = []; hits = 0; misses = 0 };
  wal_buf = [];
  free_pages = [];
  disk = record {
    page = λ k. none;
    read_fails = λ k. false;
    write_fails = λ k. false;
    sync_fails = false;
  };
}

abbrev name : Bytes
name = 97 ∷ []

abbrev begun : Session
begun = (exec begin_ (new_session (pager 2))).1

-- BEGIN, a statement that allocates a page, SAVEPOINT a.
abbrev reached : Session
reached = (exec (savepoint_ name) (record begun { pager = pager 3 })).1

run : Runs (new_session (pager 2)) reached
run = then_command (then_statement (then_command done begin_) (pager 3)) (savepoint_ name)

Runs-no_panic_example :
    (¬ ((exec (rollback_ name) reached).0 ≡ err nil_transaction)) × IsConsistent reached
Runs-no_panic_example = Runs-no_panic (pager 2) reached (rollback_ name) run

Runs-rollback_pager_example : (exec (rollback_ []) reached).1.pager ≡ reached.pager
Runs-rollback_pager_example = Runs-rollback_pager (pager 2) reached [] run

-- 'a\%%'
abbrev pattern_ : List ℕ
pattern_ = 97 ∷ 92 ∷ 37 ∷ 37 ∷ []

-- 'a%bc'
abbrev subject : List ℕ
subject = 97 ∷ 37 ∷ 98 ∷ 99 ∷ []

sql_like_match-Matches_example :
    sql_like_match 92 pattern_ subject ≡ true ↔ Matches (items 92 pattern_) subject
sql_like_match-Matches_example = sql_like_match-Matches 92 pattern_ subject

-- '[a-c]*'
abbrev class_pattern : List ℕ
class_pattern = 91 ∷ 97 ∷ 45 ∷ 99 ∷ 93 ∷ 42 ∷ []

-- 'bx'
abbrev class_subject : List ℕ
class_subject = 98 ∷ 120 ∷ []

glob_match-Matches_example :
    glob_match class_subject class_pattern ≡ true
    ↔ Matches (glob_items (length class_pattern) class_pattern) class_subject
glob_match-Matches_example = glob_match-Matches class_pattern class_subject
