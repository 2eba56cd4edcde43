-- ===== src/StreamOctets/Served.antt =====
-- What the readers of crates/stream-octets/src/lib.rs answer on a clean stream.
use pvcli.Prelude.{ℕ, Bytes, length}
use pvcli.Octets.{Octets, OctetsLaws}
use pvcli.StreamBuf.{StreamBuf}
use pvcli.StreamBuf.Refine.{Represents, PolledAs, EndsAs}
use pvcli.StreamOctets.{poll_decode_varint_usize, read_with_varint_length}
use pvcli.StreamOctets.Flat
use pvcli.StreamOctets.Refine.{
  poll_decode_varint_usize-PollImplements, read_with_varint_length-Implements,
}

module _ (o : Octets) (laws : OctetsLaws o) (usize_max : ℕ) where
  -- Let `s` stand for the bytes `bs`. Then a poll of `poll_decode_varint_usize` reads the
  -- variable-length integer in front of `bs` and leaves the bytes behind it, or fails with
  -- `UnexpectedEof` where `bs` has not all of it and with `InvalidData` where it is no `usize`, or
  -- is `Pending` with `s` standing for `bs` still and an entry of the stream used up.
  pub poll_decode_varint_usize_lem :
      (s : StreamBuf) (bs : Bytes)
      → Represents s bs
      → PolledAs
          (Flat.decode_varint_usize o usize_max bs)
          bs
          (length s.stream)
          (poll_decode_varint_usize o usize_max s)
  poll_decode_varint_usize_lem s bs r =
      poll_decode_varint_usize-PollImplements o laws usize_max s bs r

  -- Let `s` stand for the bytes `bs`. Then `read_with_varint_length` ends, with the bytes that the
  -- length in front of `bs` counts and with those behind them left, or with the error of the
  -- flat reader.
  pub read_with_varint_length_lem :
      (s : StreamBuf) (bs : Bytes)
      → Represents s bs
      → EndsAs (Flat.read_with_varint_length o usize_max bs) (read_with_varint_length o usize_max s)
  read_with_varint_length_lem s bs r = read_with_varint_length-Implements o laws usize_max s bs r
