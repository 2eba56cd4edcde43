-- ===== src/Http3/Body/Shutdown.antt =====
-- `poll_shutdown` of `H3Body` (src/client/http3/body.rs) comes to an end.
use pvcli.Prelude.{ℕ, zero, suc, ◌<◌, ◌≡◌, refl, true, false, List, [], ◌∷◌, ◌++◌, replicate, arith}
use pvcli.Http3.Body.{
  Frame, Reserve, granted, not_yet, H3Body, Answer, ready, error, pending, write_loop, poll_write,
  poll_shutdown,
}

abbrev pub again :
    (H3Body → Answer (Unit {0}) × H3Body) → Answer (Unit {0}) × H3Body → Answer (Unit {0}) × H3Body
again p (ready u, s) = (ready u, s)
again p (error e, s) = (error e, s)
again p (pending, s) = p s

-- The executor polls until the answer is not `Pending`. No function of the source.
unfoldable pub shut_down : (fuel max_buf_size : ℕ) → H3Body → Answer (Unit {0}) × H3Body
unfolding poll_shutdown
shut_down zero max_buf_size s = (pending, s)
shut_down (suc fuel) max_buf_size s =
    again (shut_down fuel max_buf_size) (poll_shutdown max_buf_size s)

abbrev pub fin_frame : Frame
fin_frame = record { bytes = []; fin = true }

-- The body with `fin` queued, and the channel behind it.
abbrev pub ended : H3Body → List Reserve → H3Body
ended s rest = record s { outbound = rest; sent = s.sent ++ (fin_frame ∷ []); wrote_fin = true }

granted_now :
    (max_buf_size : ℕ) (rest : List Reserve) (s : H3Body)
    → s.wrote_fin ≡ false
    → s.outbound ≡ granted ∷ rest
    → poll_shutdown max_buf_size s ≡ (ready tt, ended s rest)
unfolding poll_shutdown poll_write write_loop
granted_now max_buf_size rest s w e = rw (w, e) refl

not_yet_now :
    (max_buf_size : ℕ) (rest : List Reserve) (s : H3Body)
    → s.wrote_fin ≡ false
    → s.outbound ≡ not_yet ∷ rest
    → poll_shutdown max_buf_size s ≡ (pending, record s { outbound = rest })
unfolding poll_shutdown poll_write write_loop
not_yet_now max_buf_size rest s w e = rw (w, e) refl

-- Let the channel of a body whose `fin` is not written be `Pending` any number of times and then
-- grant a slot. Then polling `poll_shutdown` comes to its end once the slot is granted; it has queued
-- exactly one frame, empty and with `fin`; and a further poll is `Ready` and queues nothing.
pub shut_down-ended :
    (k fuel max_buf_size : ℕ) (rest : List Reserve) (s : H3Body)
    → s.wrote_fin ≡ false
    → s.outbound ≡ replicate k not_yet ++ (granted ∷ rest)
    → k < fuel
    → (shut_down fuel max_buf_size s ≡ (ready tt, ended s rest))
      × (poll_shutdown max_buf_size (ended s rest) ≡ (ready tt, ended s rest))
unfolding shut_down poll_shutdown
shut_down-ended k zero max_buf_size rest s w e lt = absurd (omega arith)
shut_down-ended zero (suc fuel) max_buf_size rest s w e lt =
    (rw (granted_now max_buf_size rest s w e) refl, refl)
shut_down-ended (suc k) (suc fuel) max_buf_size rest s w e lt =
    let (later, last) =
      shut_down-ended k fuel max_buf_size rest
        (record s { outbound = replicate k not_yet ++ (granted ∷ rest) }) w refl (omega arith) in
    (rw (not_yet_now max_buf_size (replicate k not_yet ++ (granted ∷ rest)) s w e) later, refl)
