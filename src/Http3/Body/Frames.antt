-- ===== src/Http3/Body/Frames.antt =====
-- The chunks and the frames that src/client/http3/body.rs cuts a buffer into.
use pvcli.Prelude.{
  ℕ, zero, suc, ◌≤◌, ◌<◌, ◌≡◌, refl, ap, ◌∙◌, Bool, true, false, List, [], ◌∷◌, ◌++◌, Bytes, length,
  length-drop, take, drop, take-append-drop, arith,
}
use pvcli.Http3.Body.{Frame, chunks, chunks_or_fin}

abbrev pub joined : List Bytes → Bytes
joined [] = []
joined (c ∷ cs) = c ++ joined cs

abbrev pub bytes_of : List Frame → Bytes
bytes_of [] = []
bytes_of (f ∷ fs) = f.bytes ++ bytes_of fs

pub chunks-joined :
    (fuel n : ℕ) (b : Bytes) → 0 < n → length b ≤ fuel → joined (chunks fuel n b) ≡ b
unfolding chunks
chunks-joined zero n [] pos le = refl
chunks-joined zero n (x ∷ b) pos le = absurd (omega arith)
chunks-joined (suc fuel) n [] pos le = refl
chunks-joined (suc fuel) n (x ∷ b) pos le =
    ap (λ l. take n (x ∷ b) ++ l)
      (chunks-joined fuel n (drop n (x ∷ b)) pos (omega (arith, length-drop n (x ∷ b))))
    ∙ take-append-drop n (x ∷ b)

pub chunks_or_fin-joined :
    (max_buf_size : ℕ) (buf : Bytes) (fin : Bool)
    → 0 < max_buf_size
    → joined (chunks_or_fin max_buf_size buf fin) ≡ buf
chunks_or_fin-joined max_buf_size [] true pos = refl
chunks_or_fin-joined max_buf_size [] false pos = chunks-joined 0 max_buf_size [] pos (omega arith)
chunks_or_fin-joined max_buf_size (x ∷ b) fin pos =
    chunks-joined (length (x ∷ b)) max_buf_size (x ∷ b) pos (omega arith)

-- No frame carries `fin`.
abbrev pub NoFin : List Frame → Type 0
NoFin [] = Unit {0}
NoFin (f ∷ fs) = (f.fin ≡ false) × NoFin fs

-- There is a last frame, and it alone carries `fin`.
abbrev pub OnlyLastFin : List Frame → Type 0
OnlyLastFin [] = ⊥
OnlyLastFin (f ∷ []) = f.fin ≡ true
OnlyLastFin (f ∷ (g ∷ fs)) = (f.fin ≡ false) × OnlyLastFin (g ∷ fs)

pub behind-OnlyLastFin :
    (f : Frame) (fs : List Frame) → f.fin ≡ false → OnlyLastFin fs → OnlyLastFin (f ∷ fs)
behind-OnlyLastFin f [] e h = absurd h
behind-OnlyLastFin f (g ∷ fs) e h = (e, h)
