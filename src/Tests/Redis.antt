-- ===== src/Tests/Redis.antt =====
-- Tests of the redis backend of src/db.rs and of the write mode of src/bin/yourfs_tool.rs.
use yourfs.Base.{◌<◌, true, false, List, [], ◌∷◌, ◌++◌, some, length, ◌⊎◌, ◌≡◌, refl, arith, inr}
use yourfs.Base.Text.{Text, codes, is_ascii_alphanumeric, is_whitespace}
use yourfs.Base.Outcome.{Outcome, ok}
use yourfs.Scan.Walk.{leaf, dir, Entries, done, entry, scan_to_file}
use yourfs.Scan.Walk.Rows.{rows, AllNames}
use yourfs.Load.{load, load_lines, lines_from, load_line, strip_cr}
use yourfs.Scan.Row.{parse_row, columns, scan_row, step}
use yourfs.Load.RoundTrip.{IsName}
use yourfs.Db.Unsigned.{parse_unsigned, without_plus, parse_digits}
use yourfs.Db.Keys.{Failure, check_ident, is_prefix, dir_key, hash_key}
use yourfs.Db.Retry.{State}
use yourfs.Db.Redis.{Write, zadd, hset, pattern, check_table}
use yourfs.Db.Redis.Laws.{touched}
use yourfs.Db.Redis.Contents.{Holds, prefix_of, finish-Holds}
use yourfs.Db.Redis.Reader.Probe.{Verdict, check_table-Verdict}
use yourfs.Db.Redis.Writer.{
  RedisWriter, insert, writes, create, finish, sent, drop_from, found, advance,
}
use yourfs.Db.Redis.Writer.Drop.{Dropped, create-Dropped}
use yourfs.Tool.{Exit, loaded, failed, committed, write_mode}
use yourfs.Tool.WriteMode.{push_all, batch_mode, write_mode-load}
use yourfs.Tool.Publish.{
  Session, session, Ends, write_mode-Published, redis_writer, kept_row, redis_writer-IsPush,
}
use yourfs.Tool.Served.{Serves, scan-resolve}
use yourfs.Tests.Store.{store, reply, contents, found_keys, init}
use yourfs.Tests.Store.Laws.{store-IsRedis, store-IsUp}

-- A server with an older build of the table `data` and another table.
abbrev pub before : List Write
before =
    zadd (codes "data|d|/") (codes "old")
    ∷ hset (codes "data|h|/") (codes "old") (codes "/old")
    ∷ zadd (codes "other|d|/") (codes "x")
    ∷ []

abbrev pub writer : RedisWriter
writer = record { conn = 0; table = []; batch = [] }

abbrev pub tree : Entries
tree = entry (some (codes "a")) (dir (entry (some (codes "b")) leaf done)) done

abbrev state : State (List Write)
state = record { pool = record { idle = []; created = 0 }; world = before }

pub one_round : contents.left before 0 < 1
unfolding contents
one_round = omega arith

pub names : AllNames IsName tree
unfolding AllNames
names = ground arith

data_ident : check_ident (codes "data") ≡ true
unfolding check_ident is_ascii_alphanumeric
data_ident = refl

-- A writer with the rows of the tree, and an empty server after its transaction.
abbrev filled : RedisWriter
filled = record { conn = 0; table = codes "data"; batch = rows [] tree }

abbrev pub after : List Write
after = (finish store filled []).2

empty : (k : Text) → is_prefix (prefix_of (codes "data")) k ≡ true → contents.has [] k ≡ false
unfolding contents touched
empty k h = refl

finished : (finish store filled []).0 ≡ ok tt
unfolding finish sent store reply rows
finished = refl

pub held : Holds contents (codes "data") (rows [] tree) after
held = (finish-Holds contents store filled [] store-IsRedis empty finished).0

abbrev pub after_state : State (List Write)
after_state = record { pool = record { idle = 0 ∷ []; created = 1 }; world = after }

create-Dropped_example :
    (t : Outcome Failure (Unit {0}) × RedisWriter × List Write) × (create store 1
        (codes "data")
        writer
        before
      ≡ some t)
    × (t.0 ≡ ok tt
        → (check_ident (codes "data") ≡ true)
          × (t.1 ≡ record writer { table = codes "data" })
          × Dropped contents (codes "data" ++ b'|' ∷ []) before t.2)
create-Dropped_example =
    create-Dropped store contents 1 (codes "data") writer before store-IsRedis one_round

write_mode-Published_example :
    (x : Exit × Session (List Write)) × (write_mode
        (redis_writer store 1)
        (codes "data")
        (codes "/  a  /a\n")
        (record { writer = writer; outside = before })
      ≡ some x)
    × Ends store contents store-IsRedis 1 (codes "data") (load (codes "/  a  /a\n")) before x
write_mode-Published_example =
    write_mode-Published store contents store-IsRedis 1 (codes "data") (codes "/  a  /a\n") writer
      before refl one_round

scan-resolve_example :
    (file : Text) × (scan_to_file (codes "/srv") (dir tree) ≡ some file)
    × ((x : Exit × Session (List Write)) × (write_mode
            (redis_writer store 1)
            (codes "data")
            file
            (record { writer = writer; outside = before })
          ≡ some x)
        × ((x.0 ≡ failed)
            ⊎ ((x.0 ≡ loaded (length (rows [] tree)) 0)
                × Serves store contents store-IsRedis 1 10
                    (codes "data")
                    store-IsUp
                    tree
                    x.1.outside)))
scan-resolve_example =
    scan-resolve store contents store-IsRedis 1 10 (codes "data") store-IsUp (codes "/srv") tree
      writer before names refl one_round

abbrev blank : Session (List Write)
blank = record { writer = writer; outside = [] }

abbrev opened : Session (List Write)
opened = record { writer = record writer { table = codes "data" }; outside = [] }

opens : (redis_writer store 1).create (codes "data") blank ≡ some (ok tt, opened)
unfolding redis_writer session create check_ident is_ascii_alphanumeric drop_from found advance
    store reply found_keys init pattern parse_unsigned without_plus parse_digits
opens = refl

write_mode-load_run :
    write_mode (redis_writer store 1) (codes "data") (codes "/  a  /a\n") blank
    ≡ some (
        batch_mode
          (redis_writer store 1)
          kept_row
          (redis_writer-IsPush store 1)
          (codes "data")
          (codes "/  a  /a\n")
          (ok tt, opened))
write_mode-load_run =
    write_mode-load (redis_writer store 1) kept_row (redis_writer-IsPush store 1) (codes "data")
      (codes "/  a  /a\n") blank (ok tt, opened) opens

-- A run that ends well.
loads_one :
    (s : Session (List Write)) × (write_mode
        (redis_writer store 1)
        (codes "data")
        (codes "/  a  /a\n")
        blank
      ≡ some (loaded 1 0, s))
    × (s.outside
        ≡ zadd (codes "data|d|/") (codes "a")
          ∷ hset (codes "data|h|/") (codes "a") (codes "/a")
          ∷ [])
unfolding committed redis_writer session finish sent push_all load load_lines lines_from load_line
    parse_row columns scan_row strip_cr step is_whitespace insert store reply writes dir_key
    hash_key
loads_one = (_, write_mode-load_run, refl)

check_table-Verdict_example :
    Verdict 10 store contents store-IsRedis store-IsUp
      (codes "data")
      data_ident
      before
      (check_table 10 store 1 (codes "data") state)
check_table-Verdict_example =
    check_table-Verdict 10 store contents store-IsRedis store-IsUp (codes "data") data_ident 1 state
      one_round (inr (omega arith))
