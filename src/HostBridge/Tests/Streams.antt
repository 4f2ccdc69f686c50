-- ===== src/HostBridge/Tests/Streams.antt =====
-- Streams of frames of the tests.
use noqeri_registry.Prelude.{
  ◌≡◌, ◌≤◌, ◌+◌, refl, true, false, List, [], ◌∷◌, ◌++◌, none, some, arith, length, All, lookup,
  if◌then◌else◌,
}
use noqeri_registry.Prelude.Text.{Bytes, codes, split, str_eq}
use noqeri_registry.Prelude.Number.{pos}
use noqeri_registry.HostBridge.Error.{code}
use noqeri_registry.HostBridge.Message.{no_message}
use noqeri_registry.HostBridge.Db.Sql.{Target}
use noqeri_registry.HostBridge.Db.Host.{new_db_host}
use noqeri_registry.HostBridge.Db.Release.{Covers}
use noqeri_registry.HostBridge.Engine.Defs.{
  new_engine, dispatch, dispatch_with, dispatch_op, read_op,
}
use noqeri_registry.HostBridge.Serve.{
  Input, Process, drop_cr, scan_lines, read_frames, answer_frame, serve_frames, serve, exit_of,
  host_main, frame_too_large_or_input_failed,
}
use noqeri_registry.HostBridge.Serve.Frames.{
  IsFrame, IsRead, join_lines, read_frames-join_lines, read_frames_bounded,
}
use noqeri_registry.HostBridge.Serve.Answers.{Ends, serve-Ends}
use noqeri_registry.HostBridge.Serve.Shutdown.{Ending, host_main-Ending}
use noqeri_registry.HostBridge.Tests.Fixtures.{env, variable, web, sql, hmac}

-- Frames are names of operations, and replies are written as their bodies or errors.
unfoldable process : Process
unfolding env web sql hmac codes str_eq
process = record {
  env = env;
  sql = sql;
  hmac = hmac;
  web = λ n. web;
  now = λ n. 1700000100;
  walk = λ n. codes "stripe" ∷ [];
  decode = λ frame.
      if str_eq frame (codes "ping")
      then some (record no_message { version = pos 1; op = frame })
      else none;
  encode = λ r. some (r.body ++ r.error);
  takes = λ written line. true;
}

abbrev frames : List Bytes
frames = codes "ping" ∷ codes "{" ∷ codes "ping" ∷ []

abbrev input : Input
input = record { bytes = join_lines frames; fails = false }

streams : Unit {0}
unfolding process codes str_eq split drop_cr scan_lines read_frames join_lines answer_frame
    serve_frames serve exit_of host_main new_engine new_db_host dispatch dispatch_with dispatch_op
    read_op code variable lookup
streams = tt

-- The frame in the middle is refused, and the one behind it is served.
answered :
    (serve process input new_engine).written
    ≡ codes "pong" ∷ codes "invalid_request" ∷ codes "pong" ∷ []
unfolding streams
answered = refl

serve-Ends_example :
    Ends process
      (read_frames input).0
      []
      (if (read_frames input).1 then some frame_too_large_or_input_failed else none)
      (serve process input new_engine)
serve-Ends_example = serve-Ends process input new_engine

ping-IsFrame : IsFrame (codes "ping")
unfolding codes
ping-IsFrame = record {
  one_line = (refl, (refl, (refl, (refl, tt))));
  short = omega arith;
  no_return = refl;
}

brace-IsFrame : IsFrame (codes "{")
unfolding codes
brace-IsFrame = record { one_line = (refl, tt); short = omega arith; no_return = refl }

fits : All IsFrame frames
fits = (ping-IsFrame, (brace-IsFrame, (ping-IsFrame, tt)))

read_frames-join_lines_example : read_frames input ≡ (frames, false)
read_frames-join_lines_example = read_frames-join_lines frames false fits

read_frames_bounded_example :
    All IsRead (read_frames input).0 × (length (read_frames input).0 ≤ length input.bytes + 1)
read_frames_bounded_example = read_frames_bounded input

nothing_open : Covers [] (serve process input new_engine).engine.db
unfolding streams
nothing_open k found = absurd (found refl)

host_main-Ending_example :
    Ending process (Target.tx 3) (serve process input new_engine) (host_main process [] input)
unfolding streams
host_main-Ending_example =
    host_main-Ending process (Target.tx 3) [] input (omega arith) nothing_open
