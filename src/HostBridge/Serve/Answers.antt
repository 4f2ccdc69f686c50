-- ===== src/HostBridge/Serve/Answers.antt =====
-- What the peer of Engine.Serve gets for its frames.
use mathlib.Core.List.{append-nil, append_assoc}
use noqeri_registry.Prelude.{
  ℕ, ◌+◌, ◌≡◌, refl, sym, ap, ◌∙◌, Bool, true, false, Bool-cases, Option-cases, inl, inr, List, [],
  ◌∷◌, ◌++◌, Option, none, some, if◌then◌else◌,
}
use noqeri_registry.Prelude.Text.{Bytes}
use noqeri_registry.HostBridge.Error.{invalid_request}
use noqeri_registry.HostBridge.Message.{Reply, refusal}
use noqeri_registry.HostBridge.Engine.Defs.{Engine}
use noqeri_registry.HostBridge.Engine.Replies.{IsReply, refusal-IsReply, dispatch-IsReply}
use noqeri_registry.HostBridge.Serve.{
  Input, Process, Served, ServeError, response_encoding_failed, write_failed,
  frame_too_large_or_input_failed, read_frames, outside, answer_frame, serve_frames, serve, end_of,
}

module _ (p : Process) where
  -- The id that a frame is to be answered under.
  abbrev pub id_of : Bytes → Bytes
  id_of frame = elim (p.decode frame) [ none ↦ [] | some m ↦ m.id ]

  -- A line that answers a frame: one reply, encoded, in the form of all replies and under the
  -- request's id; a frame that cannot be read is refused as such.
  pub record IsAnswer (frame line : Bytes) : Type 0 where
    pub reply : Reply
    pub encoded : p.encode reply ≡ some line
    pub form : IsReply (id_of frame) reply
    pub malformed : p.decode frame ≡ none → reply ≡ refusal [] invalid_request

  -- One line for each frame, in their order.
  abbrev pub Answers : List Bytes → List Bytes → Type 0
  Answers [] [] = Unit
  Answers [] (_ ∷ _) = ⊥
  Answers (_ ∷ _) [] = ⊥
  Answers (frame ∷ frames) (line ∷ lines) = IsAnswer frame line × Answers frames lines

  -- How the loop ends, with the lines that it wrote behind earlier ones: it answered each frame, or
  -- the frames up to one whose reply could not be encoded or whose line the pipe did not take.
  pub data Ends (frames before : List Bytes) (final : Option ServeError) (s : Served) : Type 0 where
    completed :
        (lines : List Bytes)
        → s.written ≡ before ++ lines
        → Answers frames lines
        → s.error ≡ final
        → Ends frames before final s
    not_encoded :
        (served left lines : List Bytes) (frame : Bytes) (reply : Reply)
        → frames ≡ served ++ frame ∷ left
        → s.written ≡ before ++ lines
        → Answers served lines
        → p.encode reply ≡ none
        → s.error ≡ some response_encoding_failed
        → Ends frames before final s
    not_taken :
        (served left lines : List Bytes) (frame line : Bytes)
        → frames ≡ served ++ frame ∷ left
        → s.written ≡ before ++ lines
        → Answers served lines
        → IsAnswer frame line
        → p.takes s.written line ≡ false
        → s.error ≡ some write_failed
        → Ends frames before final s

  answer_frame-IsReply :
      (n : ℕ) (frame : Bytes) (e : Engine) → IsReply (id_of frame) (answer_frame p n frame e).0
  unfolding answer_frame
  answer_frame-IsReply n frame e = elim (Option-cases (p.decode frame)) [
    | inl bad ↦ rw (bad, answer_frame, id_of) (refusal-IsReply [] invalid_request)
    | inr (m, read) ↦ rw (read, answer_frame, id_of) (dispatch-IsReply (outside p n) m e)
  ]

  answer_frame-IsAnswer :
      (n : ℕ) (frame line : Bytes) (e : Engine)
      → p.encode (answer_frame p n frame e).0 ≡ some line
      → IsAnswer frame line
  unfolding answer_frame
  answer_frame-IsAnswer n frame line e h = record {
    reply = (answer_frame p n frame e).0;
    encoded = h;
    form = answer_frame-IsReply n frame e;
    malformed = λ bad. rw (bad, answer_frame) refl;
  }

  Ends-cons :
      (frame line : Bytes) (frames before : List Bytes) (s : Served)
      → IsAnswer frame line
      → Ends frames (before ++ line ∷ []) none s
      → Ends (frame ∷ frames) before none s
  Ends-cons frame line frames before s a (completed lines w h e) =
      completed (line ∷ lines) (w ∙ append_assoc before (line ∷ []) lines) (a, h) e
  Ends-cons frame line frames before s a (not_encoded served left lines f r split w h bad e) =
      not_encoded (frame ∷ served) left (line ∷ lines) f r (ap (◌∷◌ frame) split)
        (w ∙ append_assoc before (line ∷ []) lines) (a, h) bad e
  Ends-cons frame line frames before s a (not_taken served left lines f l split w h b bad e) =
      not_taken (frame ∷ served) left (line ∷ lines) f l (ap (◌∷◌ frame) split)
        (w ∙ append_assoc before (line ∷ []) lines) (a, h) b bad e

  serve_frames-Ends :
      (frames before : List Bytes) (n : ℕ) (e : Engine)
      → Ends frames before none (serve_frames p n frames before e)
  unfolding serve_frames
  serve_frames-Ends [] before n e = completed [] (sym (append-nil before)) tt refl
  serve_frames-Ends (frame ∷ frames) before n e =
      let (reply, e') = answer_frame p n frame e in
      elim (Option-cases (p.encode reply)) [
        | inl bad ↦
            rw (bad, serve_frames)
              (not_encoded [] frames [] frame reply refl (sym (append-nil before)) tt bad refl)
        | inr (line, encoded) ↦
            let a = answer_frame-IsAnswer n frame line e encoded in
            elim (Bool-cases (p.takes before line)) [
              | inl taken ↦
                  rw (encoded, serve_frames, taken)
                    (Ends-cons frame line frames before _ a
                      (serve_frames-Ends frames (before ++ line ∷ []) (n + 1) e'))
              | inr refused ↦
                  rw (encoded, serve_frames, refused)
                    (not_taken [] frames [] frame line refl (sym (append-nil before)) tt a refused
                      refl)
            ]
      ]

  end_of-Ends :
      (frames : List Bytes) (broken : Bool) (s : Served)
      → Ends frames [] none s
      → Ends frames []
          (if broken then some frame_too_large_or_input_failed else none)
          (end_of p broken s)
  end_of-Ends frames true s (completed lines w h e) = rw e (completed lines w h refl)
  end_of-Ends frames false s (completed lines w h e) = rw e (completed lines w h refl)
  end_of-Ends frames broken s (not_encoded served left lines f r split w h bad e) =
      rw e (not_encoded served left lines f r split w h bad refl)
  end_of-Ends frames broken s (not_taken served left lines f l split w h b bad e) =
      rw e (not_taken served left lines f l split w h b bad refl)

-- Serve answers each frame with one line, in the order of the frames: one reply under the id of the
-- request, a frame that cannot be read being refused, and the frames behind it served. It stops
-- before the last frame only at a reply that cannot be encoded or a line that the pipe does not
-- take, and after it reports an error exactly if the scanner does.
pub serve-Ends :
    (p : Process) (input : Input) (e : Engine)
    → Ends p
        (read_frames input).0
        []
        (if (read_frames input).1 then some frame_too_large_or_input_failed else none)
        (serve p input e)
unfolding serve
serve-Ends p input e =
    end_of-Ends p (read_frames input).0 (read_frames input).1 _
      (serve_frames-Ends p (read_frames input).0 [] 0 e)
