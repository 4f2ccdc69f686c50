-- ===== src/HostBridge/Serve/Frames.antt =====
-- The frames that Engine.Serve reads.
use noqeri_registry.Prelude.{
  ℕ, ◌+◌, ◌<◌, ◌≤◌, ◌≡◌, refl, ap, ◌∙◌, Bool, false, Bool-cases, inl, inr, arith, List, [], ◌∷◌,
  ◌++◌, length, All, ◌==◌, leb,
}
use noqeri_registry.Prelude.Text.{Bytes, split}
use noqeri_registry.Prelude.Cutting.{Lacks, split-append}
use noqeri_registry.HostBridge.Serve.{max_frame, Input, drop_cr, scan_lines, read_frames}

abbrev NoReturn : Bytes → Type 0
NoReturn [] = Unit
NoReturn (c ∷ []) = (c == 13) ≡ false
NoReturn (c ∷ d ∷ s) = NoReturn (d ∷ s)

-- A text of one line, with no carriage return at its end, that fits into the buffer with its line
-- feed.
pub record IsFrame (s : Bytes) : Type 0 where
  pub one_line : Lacks 10 s
  pub short : length s < max_frame
  pub no_return : NoReturn s

-- What a peer writes: each frame with a line feed behind it.
unfoldable pub join_lines : List Bytes → Bytes
join_lines [] = []
join_lines (s ∷ rest) = s ++ 10 ∷ join_lines rest

drop_cr-NoReturn : (s : Bytes) → NoReturn s → drop_cr s ≡ s
unfolding drop_cr
drop_cr-NoReturn [] h = refl
drop_cr-NoReturn (c ∷ []) h = rw h refl
drop_cr-NoReturn (c ∷ d ∷ s) h = ap (◌∷◌ c) (drop_cr-NoReturn (d ∷ s) h)

split-cons :
    (s : Bytes) (sep : ℕ) → (part : Bytes) × (parts : List Bytes) × (split s sep ≡ part ∷ parts)
unfolding split
split-cons [] sep = ([], [], refl)
split-cons (c ∷ s) sep =
    let (part, parts, e) = split-cons s sep in
    elim (Bool-cases (c == sep)) [
      | inl here ↦ ([], split s sep, rw here refl)
      | inr there ↦ (c ∷ part, parts, rw (there, e) refl)
    ]

scan_lines-cons :
    (line : Bytes) (next : Bytes) (rest : List Bytes) (fails : Bool)
    → length line < max_frame
    → scan_lines (line ∷ next ∷ rest) fails
      ≡ (drop_cr line ∷ (scan_lines (next ∷ rest) fails).0, (scan_lines (next ∷ rest) fails).1)
unfolding scan_lines
scan_lines-cons line next rest fails h =
    let fits : leb max_frame (length line) ≡ false = ground (arith, h) in rw fits refl

-- What a peer writes as frames is read as these frames, in their order.
pub read_frames-join_lines :
    (frames : List Bytes) (fails : Bool)
    → All IsFrame frames
    → read_frames (record { bytes = join_lines frames; fails = fails }) ≡ (frames, fails)
unfolding read_frames join_lines split
read_frames-join_lines [] fails h = refl
read_frames-join_lines (s ∷ frames) fails h =
    let (part, parts, e) = split-cons (join_lines frames) 10 in
    let rest = read_frames-join_lines frames fails h.1 in
    let lines : split (s ++ 10 ∷ join_lines frames) 10 ≡ s ∷ part ∷ parts =
      split-append 10 s (join_lines frames) h.0.one_line ∙ ap (◌∷◌ s) e in
    let rest' : scan_lines (part ∷ parts) fails ≡ (frames, fails) = rw e at rest in
    rw
      (lines, scan_lines-cons s part parts fails h.0.short, rest', drop_cr-NoReturn s h.0.no_return)
      refl

drop_cr-All : (P : ℕ → Type 0) (s : Bytes) → All P s → All P (drop_cr s)
unfolding drop_cr
drop_cr-All P [] h = tt
drop_cr-All P (c ∷ []) h = elim (Bool-cases (c == 13)) [ inl e ↦ rw e tt | inr e ↦ rw e h ]
drop_cr-All P (c ∷ d ∷ s) h = (h.0, drop_cr-All P (d ∷ s) h.1)

length-drop_cr : (s : Bytes) → length (drop_cr s) ≤ length s
unfolding drop_cr
length-drop_cr [] = omega arith
length-drop_cr (c ∷ []) = ground arith
length-drop_cr (c ∷ d ∷ s) = omega (arith, length-drop_cr (d ∷ s))

split-All-Lacks : (s : Bytes) (sep : ℕ) → All (Lacks sep) (split s sep)
unfolding split
split-All-Lacks [] sep = (tt, tt)
split-All-Lacks (c ∷ s) sep =
    let (part, parts, e) = split-cons s sep in
    let rest : All (Lacks sep) (part ∷ parts) = rw e at (split-All-Lacks s sep) in
    elim (Bool-cases (c == sep)) [
      | inl here ↦ rw here (tt, split-All-Lacks s sep)
      | inr there ↦ rw (there, e) ((there, rest.0), rest.1)
    ]

-- A frame that is handed to the JSON reader.
abbrev pub IsRead : Bytes → Type 0
IsRead s = (length s < max_frame) × Lacks 10 s

drop_cr-IsRead : (s : Bytes) → length s < max_frame → Lacks 10 s → IsRead (drop_cr s)
drop_cr-IsRead s h k = (omega (arith, length-drop_cr s), drop_cr-All _ s k)

scan_lines-IsRead :
    (lines : List Bytes) (fails : Bool)
    → All (Lacks 10) lines
    → All IsRead (scan_lines lines fails).0
unfolding scan_lines
scan_lines-IsRead [] fails h = tt
scan_lines-IsRead ([] ∷ []) fails h = tt
scan_lines-IsRead ((c ∷ s) ∷ []) fails h = elim (Bool-cases (leb max_frame (length (c ∷ s)))) [
  | inl long ↦ rw long tt
  | inr fits ↦ rw fits (drop_cr-IsRead (c ∷ s) (ground (arith, fits)) h.0, tt)
]
scan_lines-IsRead (line ∷ next ∷ rest) fails h = elim (Bool-cases (leb max_frame (length line))) [
  | inl long ↦ rw long tt
  | inr fits ↦
      rw fits
        (drop_cr-IsRead line (ground (arith, fits)) h.0, scan_lines-IsRead (next ∷ rest) fails h.1)
]

pub length-scan_lines :
    (lines : List Bytes) (fails : Bool) → length (scan_lines lines fails).0 ≤ length lines
unfolding scan_lines
length-scan_lines [] fails = omega arith
length-scan_lines ([] ∷ []) fails = omega arith
length-scan_lines ((c ∷ s) ∷ []) fails = ground arith
length-scan_lines (line ∷ next ∷ rest) fails = ground (arith, length-scan_lines (next ∷ rest) fails)

length-split : (s : Bytes) (sep : ℕ) → length (split s sep) ≤ length s + 1
unfolding split
length-split [] sep = omega arith
length-split (c ∷ s) sep =
    let (part, parts, e) = split-cons s sep in
    let rest = length-split s sep in
    let count : length (split s sep) ≡ length parts + 1 = rw e (omega arith) in
    elim (Bool-cases (c == sep)) [
      | inl here ↦ rw here (omega (arith, rest))
      | inr there ↦ rw (there, e) (omega (arith, rest, count))
    ]

-- Each frame that is handed to the JSON reader is one line below the size of the buffer, and there
-- are at most as many as the input has bytes, and one more.
pub read_frames_bounded :
    (input : Input)
    → All IsRead (read_frames input).0 × (length (read_frames input).0 ≤ length input.bytes + 1)
unfolding read_frames
read_frames_bounded input = (
  scan_lines-IsRead (split input.bytes 10) input.fails (split-All-Lacks input.bytes 10),
  omega (arith, length-scan_lines (split input.bytes 10) input.fails, length-split input.bytes 10),
)
