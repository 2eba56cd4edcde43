-- ===== src/Http3/SendBody.antt =====
-- `send_hyper_body` of src/client/http3/body.rs: it copies a hyper body to the QUIC driver.
use pvcli.Prelude.{
  ℕ, zero, suc, ◌<◌, ◌≡◌, refl, sym, ap, ◌∙◌, Bool, true, false, Option, none, some, List, [], ◌∷◌,
  ◌++◌, append_assoc, append-nil, Bytes, length, arith,
}
use pvcli.Http3.Body.{chunks, Frame}
use pvcli.Http3.Body.Frames.{joined, chunks-joined}

pub data OutboundFrame : Type 0 where
  body : Frame → OutboundFrame
  peer_stream_error : OutboundFrame

-- The channel: the frames that it took, and how many more it takes before its receiver is gone.
pub record FrameSender : Type 0 where
  pub sent : List OutboundFrame
  pub left : ℕ

abbrev push : OutboundFrame → ℕ → List OutboundFrame → Bool × FrameSender
push frame zero sent = (false, record { sent = sent; left = zero })
push frame (suc left) sent = (true, record { sent = sent ++ (frame ∷ []); left = left })

-- `frame_sender.send(frame).await.ok()`.
unfoldable send : OutboundFrame → FrameSender → Bool × FrameSender
send frame s = push frame s.left s.sent

-- `?` on what was sent.
abbrev and_then : Bool × FrameSender → (FrameSender → Bool × FrameSender) → Bool × FrameSender
and_then (true, s) f = f s
and_then (false, s) f = (false, s)

unfoldable send_chunks : List Bytes → FrameSender → Bool × FrameSender
unfolding send
send_chunks [] s = (true, s)
send_chunks (sub_chunk ∷ rest) s =
    and_then (send (body (record { bytes = sub_chunk; fin = false })) s) (send_chunks rest)

module _ (max_buf_size : ℕ) where
  -- The body is the list of what it yields, with none for an error; `true` is `Some(())`.
  unfoldable send_hyper_body : List (Option Bytes) → FrameSender → Bool × FrameSender
  unfolding send send_chunks chunks
  send_hyper_body [] s = send (body (record { bytes = []; fin = true })) s
  send_hyper_body (some chunk ∷ rest) s =
      and_then (send_chunks (chunks (length chunk) max_buf_size chunk) s) (send_hyper_body rest)
  send_hyper_body (none ∷ rest) s = and_then (send peer_stream_error s) λ s'. (false, s')

-- The frames of a body: not the last, and then the last, which is empty.
abbrev not_last : List Bytes → List OutboundFrame
not_last [] = []
not_last (b ∷ bs) = body (record { bytes = b; fin = false }) ∷ not_last bs

abbrev last : OutboundFrame
last = body (record { bytes = []; fin = true })

-- `s'` is `s` with `frames` sent.
abbrev Sent : List OutboundFrame → FrameSender → Bool × FrameSender → Type 0
Sent frames s (true, s') = s'.sent ≡ s.sent ++ frames
Sent frames s (false, s') = Unit {0}

push-Sent :
    (frame : OutboundFrame) (left : ℕ) (sent : List OutboundFrame)
    → Sent (frame ∷ []) (record { sent = sent; left = left }) (push frame left sent)
push-Sent frame zero sent = tt
push-Sent frame (suc left) sent = refl

send-Sent : (frame : OutboundFrame) (s : FrameSender) → Sent (frame ∷ []) s (send frame s)
unfolding send
send-Sent frame s = push-Sent frame s.left s.sent

-- What is sent in two steps.
and_then-Sent :
    (f g : List OutboundFrame) (s : FrameSender) (r : Bool × FrameSender)
    (next : FrameSender → Bool × FrameSender)
    → Sent f s r
    → ((s' : FrameSender) → Sent g s' (next s'))
    → Sent (f ++ g) s (and_then r next)
and_then-Sent f g s (false, s') next a b = tt
and_then-Sent f g s (true, s') next a b = further (next s') (b s')
  where
    further : (r : Bool × FrameSender) → Sent g s' r → Sent (f ++ g) s r
    further (false, t) c = tt
    further (true, t) c = c ∙ ap (λ l. l ++ g) a ∙ append_assoc s.sent f g

send_chunks-Sent : (cs : List Bytes) (s : FrameSender) → Sent (not_last cs) s (send_chunks cs s)
unfolding send_chunks
send_chunks-Sent [] s = sym (append-nil s.sent)
send_chunks-Sent (c ∷ cs) s =
    and_then-Sent (body (record { bytes = c; fin = false }) ∷ []) (not_last cs) s _ (send_chunks cs)
      (send-Sent _ s) (send_chunks-Sent cs)

-- `bs` with no error among them.
abbrev no_error : List Bytes → List (Option Bytes)
no_error [] = []
no_error (b ∷ bs) = some b ∷ no_error bs

-- The whole of the body is sent, cut anew, and behind it the last frame.
abbrev Copied : List (Option Bytes) → FrameSender → Bool × FrameSender → Type 0
Copied bodies s (true, s') =
    (bs cs : List Bytes) × (bodies ≡ no_error bs)
    × (joined cs ≡ joined bs)
    × (s'.sent ≡ s.sent ++ (not_last cs ++ (last ∷ [])))
Copied bodies s (false, s') = Unit {0}

last-Copied : (s : FrameSender) (r : Bool × FrameSender) → Sent (last ∷ []) s r → Copied [] s r
last-Copied s (false, s') a = tt
last-Copied s (true, s') a = ([], [], refl, refl, a)

error-Copied :
    (rest : List (Option Bytes)) (s : FrameSender) (r : Bool × FrameSender)
    → Copied (none ∷ rest) s (and_then r λ s'. (false, s'))
error-Copied rest s (false, s') = tt
error-Copied rest s (true, s') = tt

not_last-append : (cs ds : List Bytes) → not_last (cs ++ ds) ≡ not_last cs ++ not_last ds
not_last-append [] ds = refl
not_last-append (c ∷ cs) ds =
    ap (λ l. body (record { bytes = c; fin = false }) ∷ l) (not_last-append cs ds)

joined-append : (cs ds : List Bytes) → joined (cs ++ ds) ≡ joined cs ++ joined ds
joined-append [] ds = refl
joined-append (c ∷ cs) ds =
    ap (λ l. c ++ l) (joined-append cs ds) ∙ sym (append_assoc c (joined cs) (joined ds))

-- In front of what follows, the chunks `cs` of `chunk`.
chunk-Copied :
    (chunk : Bytes) (cs : List Bytes) (rest : List (Option Bytes)) (s : FrameSender)
    (r : Bool × FrameSender) (next : FrameSender → Bool × FrameSender)
    → joined cs ≡ chunk
    → Sent (not_last cs) s r
    → ((s' : FrameSender) → Copied rest s' (next s'))
    → Copied (some chunk ∷ rest) s (and_then r next)
chunk-Copied chunk cs rest s (false, s') next e a k = tt
chunk-Copied chunk cs rest s (true, s') next e a k = further (next s') (k s')
  where
    further : (r : Bool × FrameSender) → Copied rest s' r → Copied (some chunk ∷ rest) s r
    further (false, t) c = tt
    further (true, t) (bs, ds, all, same, sent) = (
      chunk ∷ bs,
      cs ++ ds,
      ap (λ l. some chunk ∷ l) all,
      joined-append cs ds ∙ ap (λ l. l ++ joined ds) e ∙ ap (λ l. chunk ++ l) same,
      sent
          ∙ ap (λ l. l ++ (not_last ds ++ (last ∷ []))) a
          ∙ append_assoc s.sent (not_last cs) (not_last ds ++ (last ∷ []))
          ∙ ap (λ l. s.sent ++ l)
              (sym (append_assoc (not_last cs) (not_last ds) (last ∷ []))
                ∙ ap (λ l. l ++ (last ∷ [])) (sym (not_last-append cs ds))),
    )

-- Where `send_hyper_body` answers `Some(())`, the body had no error, and all of its bytes were sent
-- in order, in frames without fin, and behind them one empty frame with fin.
send_hyper_body-Copied :
    (max_buf_size : ℕ) (bodies : List (Option Bytes)) (s : FrameSender)
    → 0 < max_buf_size
    → Copied bodies s (send_hyper_body max_buf_size bodies s)
unfolding send_hyper_body
send_hyper_body-Copied max_buf_size [] s pos = last-Copied s _ (send-Sent last s)
send_hyper_body-Copied max_buf_size (none ∷ rest) s pos =
    error-Copied rest s (send peer_stream_error s)
send_hyper_body-Copied max_buf_size (some chunk ∷ rest) s pos =
    chunk-Copied chunk (chunks (length chunk) max_buf_size chunk) rest s _
      (send_hyper_body max_buf_size rest)
      (chunks-joined (length chunk) max_buf_size chunk pos (omega arith)) (send_chunks-Sent _ s)
      (λ s'. send_hyper_body-Copied max_buf_size rest s' pos)
