-- ===== src/HostBridge/Serve.antt =====
-- Engine.Serve of internal/hostbridge/host.go, with the bufio.Scanner that it reads frames by, and
-- the main function of cmd/noqeri-host. The JSON reader and writer and the two ends of the pipe are
-- arguments.
pub mod Frames
pub mod Answers
pub mod Actions
pub mod Shutdown
use noqeri_registry.Prelude.{
  ℕ, ◌+◌, ◌*◌, ◌^◌, Bool, true, false, List, [], ◌∷◌, ◌++◌, Option, none, some, length, leb, ◌==◌,
  if◌then◌else◌,
}
use noqeri_registry.Prelude.Text.{Bytes, split}
use noqeri_registry.HostBridge.Error.{invalid_request}
use noqeri_registry.HostBridge.Message.{Message, Reply, refusal}
use noqeri_registry.HostBridge.Db.Sql.{Sql}
use noqeri_registry.HostBridge.Db.Host.{close_all}
use noqeri_registry.HostBridge.Http.Execute.{Web}
use noqeri_registry.HostBridge.Engine.Defs.{Outside, Engine, new_engine, dispatch}

abbrev pub max_frame : ℕ
max_frame = 2 * 2 ^ 20

-- What the reader gives before it ends, or before it fails.
pub record Input : Type 0 where
  pub bytes : Bytes
  pub fails : Bool

-- `dropCR`
unfoldable pub drop_cr : Bytes → Bytes
drop_cr [] = []
drop_cr (c ∷ []) = if c == 13 then [] else c ∷ []
drop_cr (c ∷ d ∷ s) = c ∷ drop_cr (d ∷ s)

-- The tokens of `bufio.ScanLines`, and whether `in.Err()` is an error. The buffer has max_frame
-- bytes, and a line with no end in a full buffer is too long; what stands behind the last line feed
-- is a token if it is not empty.
unfoldable pub scan_lines : List Bytes → Bool → List Bytes × Bool
scan_lines [] fails = ([], fails)
scan_lines (line ∷ []) fails = elim line [
  | [] ↦ ([], fails)
  | c ∷ s ↦ if leb max_frame (length (c ∷ s)) then ([], true) else (drop_cr (c ∷ s) ∷ [], fails)
]
scan_lines (line ∷ next ∷ rest) fails =
    let (frames, broken) = scan_lines (next ∷ rest) fails in
    if leb max_frame (length line) then ([], true) else (drop_cr line ∷ frames, broken)

unfoldable pub read_frames : Input → List Bytes × Bool
unfolding scan_lines
read_frames input = scan_lines (split input.bytes 10) input.fails

-- The process around the engine: its environment, what each request meets when it is dispatched,
-- the JSON reader (`none` for its errors) and writer, and whether the pipe takes a line behind the
-- lines before it.
pub record Process : Type 0 where
  pub env : Bytes → Bytes
  pub sql : Sql
  pub hmac : Bytes → Bytes → Bytes
  pub web : ℕ → Web
  pub now : ℕ → ℕ
  pub walk : ℕ → List Bytes
  pub decode : Bytes → Option Message
  pub encode : Reply → Option Bytes
  pub takes : List Bytes → Bytes → Bool

-- The errors that Serve returns.
pub data ServeError : Type 0 where
  response_encoding_failed write_failed frame_too_large_or_input_failed : ServeError

pub record Served : Type 0 where
  pub error : Option ServeError
  pub written : List Bytes
  pub engine : Engine

-- How the process ends.
pub record Exit : Type 0 where
  pub status : ℕ
  pub written : List Bytes
  pub engine : Engine

-- The main function of cmd/noqeri-host behind Serve, with the keys of the handle table in the
-- order in which CloseAll meets them. os.Exit does not run the deferred Close.
unfoldable pub exit_of : List ℕ → Served → Exit
exit_of keys s = elim s.error [
  | some e ↦ record { status = 1; written = s.written; engine = s.engine }
  | none ↦ record {
    status = 0;
    written = s.written;
    engine = record s.engine { db = close_all keys s.engine.db };
  }
]

module _ (p : Process) where
  abbrev pub outside : ℕ → Outside
  outside n = record {
    env = p.env;
    web = p.web n;
    sql = p.sql;
    hmac = p.hmac;
    now = p.now n;
    walk = p.walk n;
  }

  -- The reply to one frame, the n-th one.
  unfoldable pub answer_frame : ℕ → Bytes → Engine → Reply × Engine
  answer_frame n frame e = elim (p.decode frame) [
    | none ↦ (refusal [] invalid_request, e)
    | some m ↦ dispatch (outside n) m e
  ]

  -- The loop over the frames.
  unfoldable pub serve_frames : ℕ → List Bytes → List Bytes → Engine → Served
  serve_frames n [] written e = record { error = none; written = written; engine = e }
  serve_frames n (frame ∷ frames) written e =
      let (reply, e') = answer_frame n frame e in
      elim (p.encode reply) [
        | none ↦ record { error = some response_encoding_failed; written = written; engine = e' }
        | some line ↦ elim (p.takes written line) [
          | false ↦ record { error = some write_failed; written = written; engine = e' }
          | true ↦ serve_frames (n + 1) frames (written ++ line ∷ []) e'
        ]
      ]

  abbrev end_of : Bool → Served → Served
  end_of broken s = elim s.error [
    | some e ↦ s
    | none ↦ if broken then record s { error = some frame_too_large_or_input_failed } else s
  ]

  unfoldable pub serve : Input → Engine → Served
  unfolding read_frames
  serve input e =
      let (frames, broken) = read_frames input in end_of broken (serve_frames 0 frames [] e)

  unfoldable pub host_main : List ℕ → Input → Exit
  unfolding exit_of
  host_main keys input = exit_of keys (serve input new_engine)
