-- ===== src/StreamBuf/Served.antt =====
-- What the methods of crates/stream-buf/src/lib.rs answer on a clean stream, however the bytes are
-- cut into chunks: the answers of a cursor over the one byte string.
use pvcli.Prelude.{ℕ, length}
use pvcli.Prelude.{Bytes}
use pvcli.StreamBuf.{StreamBuf, poll_read_exact, read_exact, read_to_end, has_more_data}
use pvcli.StreamBuf.Flat
use pvcli.StreamBuf.Refine.{Represents, PolledAs, EndsAs}
use pvcli.StreamBuf.Awaited.{
  poll_read_exact-PollImplements, read_exact-Implements, read_to_end-Implements,
  has_more_data-Implements,
}

-- Let `s` stand for the bytes `bs`: its stream is clean and `bs` fits under the size limit. Then a
-- poll of `poll_read_exact` hands out the first `len` bytes of `bs` and leaves the others, or
-- fails with `UnexpectedEof` where `bs` is shorter, or is `Pending` with `s` standing for `bs`
-- still and an entry of the stream used up.
pub poll_read_exact_lem :
    (len : ℕ) (s : StreamBuf) (bs : Bytes)
    → Represents s bs
    → PolledAs (Flat.read_exact len bs) bs (length s.stream) (poll_read_exact len s)
poll_read_exact_lem len s bs r = poll_read_exact-PollImplements len s bs r

-- Let `s` stand for the bytes `bs`. Then `read_exact` ends, with the first `len` bytes of `bs` and
-- the others left, or with `UnexpectedEof` where `bs` is shorter.
pub read_exact_lem :
    (len : ℕ) (s : StreamBuf) (bs : Bytes)
    → Represents s bs
    → EndsAs (Flat.read_exact len bs) (read_exact len s)
read_exact_lem len s bs r = read_exact-Implements len s bs r

-- Let `s` stand for the bytes `bs`. Then `read_to_end` ends, with `bs`, and nothing is left.
pub read_to_end_lem :
    (s : StreamBuf) (bs : Bytes) → Represents s bs → EndsAs (Flat.read_to_end bs) (read_to_end s)
read_to_end_lem s bs r = read_to_end-Implements s bs r

-- Let `s` stand for the bytes `bs`. Then `has_more_data` ends and tells whether `bs` has a byte,
-- and `s` stands for `bs` still.
pub has_more_data_lem :
    (s : StreamBuf) (bs : Bytes)
    → Represents s bs
    → EndsAs (Flat.has_more_data bs) (has_more_data s)
has_more_data_lem s bs r = has_more_data-Implements s bs r
