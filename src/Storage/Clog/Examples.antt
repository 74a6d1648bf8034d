-- ===== src/Storage/Clog/Examples.antt =====
-- A commit bit on a new database.
use ferrite.Storage.Clog.{mark_committed}
use ferrite.Storage.Clog.Marking.{Marks, mark_committed-Marks}
use ferrite.Storage.Transactions.Commit.{initial, start, Reach-IsSound}

mark_committed-Marks_example : Marks initial.pager (mark_committed initial.pager 70000) 70000
mark_committed-Marks_example =
    mark_committed-Marks initial.pager 70000 (Reach-IsSound initial start).pages
