-- ===== src/Tests/Replay.antt =====
-- The theorems on the replay script, at a database with one unresolved dead letter.
use streamgive_backend.Prelude.{◌≡◌, List}
use streamgive_backend.Db.{DeadLetter}
use streamgive_backend.Scripts.Replay.{replay_dead_letters}
use streamgive_backend.Scripts.Replay.Dates.{replay_dead_letters-same_streams}
use streamgive_backend.Indexer.Dispatch.{dispatch_event, watched_contract_ids}
use streamgive_backend.Tests.Fixtures.{sdk, quiet_env, world, contracts}

abbrev order : List DeadLetter → List DeadLetter
order rows = rows

replay_dead_letters-same_streams_example :
    (replay_dead_letters quiet_env sdk
      (dispatch_event quiet_env contracts sdk)
      (watched_contract_ids contracts)
      order
      world).1.database.streams
    ≡ world.database.streams
replay_dead_letters-same_streams_example =
    replay_dead_letters-same_streams quiet_env contracts sdk order world
