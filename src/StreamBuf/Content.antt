-- ===== src/StreamBuf/Content.antt =====
-- What a StreamBuf has still to deliver, and which poll functions lose nothing of it.
use pvcli.Prelude.{ℕ, ◌≡◌, refl, sym, ap, ◌∙◌, List, [], ◌∷◌, ◌++◌}
use pvcli.Prelude.{Bytes, is_empty, take, drop, take-append-drop, append_assoc}
use pvcli.Prelude.{Option, none, some, if◌then◌else◌}
use pvcli.Poll.{Polled, ready, fail, pending}
use pvcli.StreamBuf.{Event, not_ready, item, broken, StreamBuf}

-- The bytes of all chunks that the stream will yield.
abbrev pub stream_bytes : List Event → Bytes
stream_bytes [] = []
stream_bytes (not_ready ∷ rest) = stream_bytes rest
stream_bytes (item b ∷ rest) = b ++ stream_bytes rest
stream_bytes (broken e ∷ rest) = stream_bytes rest

-- The buffered bytes and those to come.
abbrev pub content : StreamBuf → Bytes
content s = s.buf ++ stream_bytes s.stream

-- The object still holds the bytes `bs` under the size limit `max`.
abbrev pub Holds : Bytes → ℕ → StreamBuf → Type 0
Holds bs max s = (content s ≡ bs) × (s.max_buf_size ≡ max)

-- What was handed out, followed by what is left, is `bs`; on an error or `Pending` all is left.
abbrev pub Kept : {A : Type 0} → (A → Bytes) → Bytes → ℕ → Polled StreamBuf A → Type 0
Kept out bs max (ready a s) = (out a ++ content s ≡ bs) × (s.max_buf_size ≡ max)
Kept out bs max (fail e s) = Holds bs max s
Kept out bs max (pending s) = Holds bs max s

abbrev pub whole : Bytes → Bytes
whole b = b

abbrev pub nothing : {A : Type 0} → A → Bytes
nothing a = []

abbrev pub yielded : Option Bytes → Bytes
yielded none = []
yielded (some b) = b

-- `append` is concatenation also where it moves the chunk into an empty buffer.
pub append-buf : (b more : Bytes) → (if is_empty b then more else b ++ more) ≡ b ++ more
append-buf [] more = refl
append-buf (x ∷ b) more = refl

pub split-content : (n : ℕ) (b t : Bytes) → take n b ++ (drop n b ++ t) ≡ b ++ t
split-content n b t =
    sym (append_assoc (take n b) (drop n b) t) ∙ ap (λ u. u ++ t) (take-append-drop n b)
