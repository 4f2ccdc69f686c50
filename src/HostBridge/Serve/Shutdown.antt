-- ===== src/HostBridge/Serve/Shutdown.antt =====
-- The whole life of the host process: what its databases handed out when it ends.
use noqeri_registry.Prelude.{
  ℕ, suc, Bool, ◌+◌, ◌^◌, ◌<◌, ◌≤◌, ◌≡◌, ◌≢◌, refl, sym, ap, ◌∙◌, subst, Bool-cases, Option-cases,
  inl, inr, arith, List, [], ◌∷◌, ◌++◌, none, some, length, length-append,
}
use noqeri_registry.Prelude.Text.{Bytes}
use noqeri_registry.HostBridge.Db.Sql.{Sql, Target}
use noqeri_registry.HostBridge.Db.Host.{State, Env, new_db_host, close_all}
use noqeri_registry.HostBridge.Db.Run.{Action, run}
use noqeri_registry.HostBridge.Db.Ledger.{times_given, times_returned}
use noqeri_registry.HostBridge.Db.Release.{Covers, run-close_all}
use noqeri_registry.HostBridge.Engine.Defs.{Engine, new_engine}
use noqeri_registry.HostBridge.Serve.{
  Input, Process, Served, Exit, read_frames, outside, answer_frame, serve_frames, serve, end_of,
  host_main, exit_of, ServeError,
}
use noqeri_registry.HostBridge.Serve.Frames.{read_frames_bounded}
use noqeri_registry.HostBridge.Serve.Actions.{dispatch-run}

run-append :
    (sql : Sql) (env : Env) (first later : List Action) (st : State)
    → run sql env (first ++ later) st ≡ run sql env later (run sql env first st)
unfolding run
run-append sql env [] later st = refl
run-append sql env (a ∷ first) later st = run-append sql env first later _

exit_of-failed :
    (keys : List ℕ) (s : Served) (e : ServeError)
    → s.error ≡ some e
    → exit_of keys s ≡ record { status = 1; written = s.written; engine = s.engine }
unfolding exit_of
exit_of-failed keys s e h = rw h refl

exit_of-done :
    (keys : List ℕ) (s : Served)
    → s.error ≡ none
    → exit_of keys s ≡ record {
      status = 0;
      written = s.written;
      engine = record s.engine { db = close_all keys s.engine.db };
    }
unfolding exit_of
exit_of-done keys s h = rw h refl

module _ (p : Process) where
  -- A history of at most so many calls.
  abbrev IsHistory : ℕ → State → State → Type 0
  IsHistory n st st' =
      (actions : List Action) × (length actions ≤ n) × (st' ≡ run p.sql p.env actions st)

  answer_frame-IsHistory :
      (n : ℕ) (frame : Bytes) (e : Engine) → IsHistory 1 e.db (answer_frame p n frame e).1.db
  unfolding answer_frame run
  answer_frame-IsHistory n frame e = elim (Option-cases (p.decode frame)) [
    | inl bad ↦ rw (bad, answer_frame) ([], omega arith, refl)
    | inr (m, read) ↦ rw (read, answer_frame) (dispatch-run (outside p n) m e)
  ]

  IsHistory-step :
      (n : ℕ) (st next last : State)
      → IsHistory 1 st next
      → IsHistory n next last
      → IsHistory (suc n) st last
  IsHistory-step n st next last (first, few, e) (later, short, k) = (
    first ++ later,
    omega (arith, length-append first later, few, short),
    k ∙ ap (run p.sql p.env later) e ∙ sym (run-append p.sql p.env first later st),
  )

  IsHistory-more : (n : ℕ) (st next : State) → IsHistory 1 st next → IsHistory (suc n) st next
  IsHistory-more n st next (first, few, e) = (first, omega (arith, few), e)

  serve_frames-IsHistory :
      (frames written : List Bytes) (n : ℕ) (e : Engine)
      → IsHistory (length frames) e.db (serve_frames p n frames written e).engine.db
  unfolding serve_frames run
  serve_frames-IsHistory [] written n e = ([], omega arith, refl)
  serve_frames-IsHistory (frame ∷ frames) written n e =
      let step = answer_frame-IsHistory n frame e in
      let e' = (answer_frame p n frame e).1 in
      let only = IsHistory-more (length frames) e.db e'.db step in
      elim (Option-cases (p.encode (answer_frame p n frame e).0)) [
        | inl bad ↦ rw (bad, serve_frames) only
        | inr (line, encoded) ↦ elim (Bool-cases (p.takes written line)) [
          | inr refused ↦ rw (encoded, serve_frames, refused) only
          | inl taken ↦
              rw (encoded, serve_frames, taken)
                (IsHistory-step (length frames) e.db e'.db _ step
                  (serve_frames-IsHistory frames (written ++ line ∷ []) (n + 1) e'))
        ]
      ]

  end_of-engine : (broken : Bool) (s : Served) → (end_of p broken s).engine ≡ s.engine
  end_of-engine broken s = elim (Option-cases s.error) [
    | inr (e, h) ↦ rw h refl
    | inl h ↦ elim (Bool-cases broken) [ inl b ↦ rw (h, b) refl | inr b ↦ rw (h, b) refl ]
  ]

  serve-IsHistory :
      (input : Input) (e : Engine)
      → IsHistory (length (read_frames input).0) e.db (serve p input e).engine.db
  unfolding serve
  serve-IsHistory input e =
      rw (end_of-engine (read_frames input).1 (serve_frames p 0 (read_frames input).0 [] e))
        (serve_frames-IsHistory (read_frames input).0 [] 0 e)

  -- How the process may end: with everything given back, or by os.Exit with nothing closed.
  pub data Ending (r : Target) (s : Served) (x : Exit) : Type 0 where
    clean :
        s.error ≡ none
        → x.status ≡ 0
        → x.engine.db.handles ≡ []
        → times_given r x.engine.db.log ≡ times_returned r x.engine.db.log
        → Ending r s x
    broken_off : s.error ≢ none → x.status ≡ 1 → x.engine ≡ s.engine → Ending r s x

-- When the host process ends with status 0, on any input of fewer than 2 ^ 64 - 3 bytes, no handle is left and each
-- pool and each transaction that the databases handed out for its requests was given back as often;
-- when Serve returns an error it ends with status 1, and closes nothing.
pub host_main-Ending :
    (p : Process) (r : Target) (keys : List ℕ) (input : Input)
    → length input.bytes + 3 < 2 ^ 64
    → Covers keys (serve p input new_engine).engine.db
    → Ending p r (serve p input new_engine) (host_main p keys input)
unfolding host_main new_engine
host_main-Ending p r keys input short all =
    let s = serve p input new_engine in
    let (actions, few, e) = serve-IsHistory p input new_engine in
    let frames = (read_frames_bounded input).1 in
    let covered : Covers keys (run p.sql p.env actions new_db_host) = subst (Covers keys) e all in
    let done =
      run-close_all p.sql p.env r actions keys (omega (arith, few, frames, short)) covered in
    elim (Option-cases s.error) [
      | inr (bad, h) ↦
          subst (Ending p r s) (sym (exit_of-failed keys s bad h))
            (broken_off (λ k. cc (h, k)) refl refl)
      | inl fine ↦ subst (Ending p r s) (sym (exit_of-done keys s fine)) (
          clean fine refl (ap (λ (st : State). (close_all keys st).handles) e ∙ done.0) (
            subst
              (λ (st : State).
                times_given r (close_all keys st).log ≡ times_returned r (close_all keys st).log)
              (sym e) done.1))
    ]
