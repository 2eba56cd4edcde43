-- ===== src/OhttpHpke/Decapsulated/Reads.antt =====
-- What the reads of crates/ohttp-hpke/src/decapsulated.rs give on a length and on a chunk that are
-- there whole or not.
use pvcli.Prelude.{
  ℕ, ◌+◌, ◌≤◌, ◌<◌, ◌≡◌, refl, ap, Option, none, some, [], ◌++◌, Bytes, length, length-append,
  append_assoc, append-nil, lt→leb, arith,
}
use pvcli.Octets.{Octets, OctetsLaws, max_varint}
use pvcli.Poll.{io, unexpected_eof, Polled, ready, fail, pending}
use pvcli.StreamBuf.{StreamBuf}
use pvcli.StreamBuf.Flat as FlatBuf
use pvcli.StreamBuf.Flat.{Reply, got, refused}
use pvcli.StreamBuf.Refine.{PolledAs}
use pvcli.StreamOctets.Flat.{with_octets, decode_varint_usize}
use pvcli.HyperBinary.RoundTrip.Reads.{exact_front}
use pvcli.OhttpHpke.Decapsulated.{}
use pvcli.OhttpHpke.Decapsulated.Frames.{}

pub weaker :
    {A : Type 0} (r : Reply A) (bs : Bytes) (m n : ℕ) (q : Polled StreamBuf A)
    → m ≤ n
    → PolledAs r bs m q
    → PolledAs r bs n q
weaker r bs m n (ready a s) le (rest, e, h, k) = (rest, e, h, omega arith)
weaker r bs m n (fail e s) le h = h
weaker r bs m n (pending s) le (h, lt) = (h, omega arith)

pub exact_pair :
    (a b rest : Bytes)
    → FlatBuf.read_exact (length a + length b) (a ++ (b ++ rest)) ≡ got (a ++ b) rest
exact_pair a b rest = rw (append_assoc a b rest, length-append a b) at (exact_front (a ++ b) rest)

pub exact_short :
    (n : ℕ) (bs : Bytes) → length bs < n → FlatBuf.read_exact n bs ≡ refused (io unexpected_eof)
unfolding FlatBuf.read_exact
exact_short n bs lt = rw (lt→leb n (length bs) lt) refl

module _ (o : Octets) (laws : OctetsLaws o) (usize_max : ℕ) where
  open laws use {varint_bytes}

  pub no_varint :
      (r : Option (ℕ × ℕ))
      → o.get_varint [] ≡ r
      → decode_varint_usize o usize_max [] ≡ refused (io unexpected_eof)
  unfolding decode_varint_usize with_octets
  no_varint none e = rw e refl
  no_varint (some (v, n)) e =
      absurd
        (omega (arith, laws.varint_reader.within [] v n e, laws.varint_reader.progress [] v n e))

  -- A length that is not there whole.
  pub half_varint :
      (n : ℕ) (front back : Bytes) (r : Option (ℕ × ℕ))
      → n < max_varint
      → varint_bytes n ≡ front ++ back
      → 0 < length back
      → o.get_varint front ≡ r
      → decode_varint_usize o usize_max front ≡ refused (io unexpected_eof)
  unfolding decode_varint_usize with_octets
  half_varint n front back none lt e pos none_read = rw none_read refl
  half_varint n front back (some (v, k)) lt e pos read =
      let all : o.get_varint (varint_bytes n) ≡ some (n, o.varint_len n) =
        rw append-nil at (laws.get_varint_lem n [] lt) in
      let again : o.get_varint (varint_bytes n) ≡ some (v, k) =
        rw e (laws.varint_reader.stable front back v k read) in
      let size : o.varint_len n ≡ k = cc in
      absurd (
        omega (
          arith,
          laws.varint_reader.within front v k read,
          laws.length_varint n lt,
          ap length e,
          length-append front back,
          size,
        ))
