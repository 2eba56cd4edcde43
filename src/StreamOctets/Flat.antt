-- ===== src/StreamOctets/Flat.antt =====
-- The specification of the integer readers: the same reads off the flat cursor.
use pvcli.Prelude.{ℕ, Option, none, some, Bytes, leb, drop, if◌then◌else◌}
use pvcli.Octets.{Octets}
use pvcli.Poll.{io, unexpected_eof, invalid_data}
use pvcli.StreamBuf.Flat
use pvcli.StreamBuf.Flat.{Flat, Reply, got, refused}

abbrev pub from_read : Bytes → Option (ℕ × ℕ) → Reply ℕ
from_read bs none = refused (io unexpected_eof)
from_read bs (some (value, n)) = got value (drop n bs)

-- One read by a function of the crate `octets`.
unfoldable pub with_octets : (Bytes → Option (ℕ × ℕ)) → Flat ℕ
with_octets get bs = from_read bs (get bs)

unfoldable pub to_usize : ℕ → ℕ → Flat ℕ
to_usize usize_max v = if leb v usize_max then Flat.pure v else Flat.throw (io invalid_data)

module _ (o : Octets) where
  unfoldable pub decode_varint_usize : ℕ → Flat ℕ
  decode_varint_usize usize_max = Flat.◌>>=◌ (with_octets o.get_varint) (to_usize usize_max)

  unfoldable pub read_with_varint_length : ℕ → Flat Bytes
  read_with_varint_length usize_max = Flat.◌>>=◌ (decode_varint_usize usize_max) Flat.read_exact
