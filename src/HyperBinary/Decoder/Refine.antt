-- ===== src/HyperBinary/Decoder/Refine.antt =====
-- The decoder on a StreamBuf implements the decoder on the flat byte string.
use pvcli.Prelude.{ℕ, zero, suc, refl, ap, Bool, true, false, Option, none, some, [], length}
use pvcli.Prelude.{if◌then◌else◌}
use pvcli.Octets.{Octets, OctetsLaws}
use pvcli.Http.{Http, HeaderMap}
use pvcli.Poll.{io, invalid_data}
use pvcli.Poll.Async
use pvcli.Poll.Async.{Async}
use pvcli.StreamBuf.{StreamBuf, read_exact}
use pvcli.StreamBuf.Content.{content}
use pvcli.StreamBuf.Awaited.{read_exact-Implements, has_more_data-Implements}
use pvcli.StreamBuf.Flat as FlatBuf
use pvcli.StreamBuf.Flat.{Flat}
use pvcli.StreamBuf.Refine.{Implements, >>=-Implements, pure-Implements, throw-Implements}
use pvcli.StreamOctets.Refine.{decode_varint_usize-Implements, read_with_varint_length-Implements}
use pvcli.HyperBinary.Decoder
use pvcli.HyperBinary.Decoder.{optional_authority, status_of}
use pvcli.HyperBinary.Decoder.Flat as FlatDecoder
use pvcli.HyperBinary.Decoder.Fields.{Lines, lines, invalid, stuck}

pub or_invalid-Implements :
    {A : Type 0} (a : Option A) → Implements (Decoder.or_invalid a) (FlatDecoder.or_invalid a)
or_invalid-Implements (some a) = pure-Implements a
or_invalid-Implements none = throw-Implements (io invalid_data)

from_lines-Implements : (l : Lines) → Implements (Decoder.from_lines l) (FlatDecoder.from_lines l)
from_lines-Implements (lines h) = pure-Implements h
from_lines-Implements invalid = throw-Implements (io invalid_data)
from_lines-Implements stuck = λ s bs r. refl

pub if-Implements :
    {A : Type 0} (b : Bool) (m n : Async StreamBuf A) (f g : Flat A)
    → Implements m f
    → Implements n g
    → Implements (if b then m else n) (if b then f else g)
if-Implements true m n f g h k = h
if-Implements false m n f g h k = k

-- A loop whose fuel is taken from the content.
pub fuel-Implements :
    {A : Type 0} (m : ℕ → Async StreamBuf A) (f : ℕ → Flat A)
    → ((n : ℕ) → Implements (m n) (f n))
    → Implements (λ s. m (suc (length (content s))) s) (λ bs. f (suc (length bs)) bs)
fuel-Implements m f h s bs r = rw (ap length r.bytes) (h (suc (length bs)) s bs r)

module _ (o : Octets) (laws : OctetsLaws o) (h : Http) (usize_max : ℕ) where
  counted-Implements :
      Implements (Decoder.read_counted o h usize_max) (FlatDecoder.read_counted o h usize_max)
  counted-Implements = read_with_varint_length-Implements o laws usize_max

  pub known_length_section-Implements :
      Implements
        (Decoder.decode_known_length_field_section o h usize_max)
        (FlatDecoder.decode_known_length_field_section o h usize_max)
  unfolding Decoder.decode_known_length_field_section FlatDecoder.decode_known_length_field_section
  known_length_section-Implements = >>=-Implements _ _ _ _ has_more_data-Implements λ more.
      if-Implements more _ _ _ _
        (>>=-Implements _ _ _ _ counted-Implements λ buf. from_lines-Implements _)
        (pure-Implements [])

  indeterminate_round-Implements :
      (len : ℕ) (k : HeaderMap → Async StreamBuf HeaderMap) (g : HeaderMap → Flat HeaderMap)
      (headers : HeaderMap)
      → ((m : HeaderMap) → Implements (k m) (g m))
      → Implements
          (Async.◌>>=◌ (read_exact (suc len)) λ raw_name.
            Async.◌>>=◌ (Decoder.or_invalid (h.header_name raw_name)) λ name.
              Async.◌>>=◌ (Decoder.read_counted o h usize_max) λ raw_value.
                Async.◌>>=◌
                  (Decoder.or_invalid (h.header_value raw_value))
                  λ value. k (h.append headers name value))
          (FlatBuf.◌>>=◌ (FlatBuf.read_exact (suc len)) λ raw_name.
            FlatBuf.◌>>=◌ (FlatDecoder.or_invalid (h.header_name raw_name)) λ name.
              FlatBuf.◌>>=◌ (FlatDecoder.read_counted o h usize_max) λ raw_value.
                FlatBuf.◌>>=◌
                  (FlatDecoder.or_invalid (h.header_value raw_value))
                  λ value. g (h.append headers name value))
  indeterminate_round-Implements len k g headers imp =
      >>=-Implements _ _ _ _ (read_exact-Implements (suc len)) λ raw_name.
        >>=-Implements _ _ _ _ (or_invalid-Implements (h.header_name raw_name)) λ name.
          >>=-Implements _ _ _ _ counted-Implements λ raw_value.
            >>=-Implements _ _ _ _ (or_invalid-Implements (h.header_value raw_value))
              λ value. imp (h.append headers name value)

  indeterminate_loop-Implements :
      (fuel : ℕ) (headers : HeaderMap)
      → Implements
          (Decoder.indeterminate_length_loop o h usize_max fuel headers)
          (FlatDecoder.indeterminate_length_loop o h usize_max fuel headers)
  unfolding Decoder.indeterminate_length_loop FlatDecoder.indeterminate_length_loop
  indeterminate_loop-Implements zero headers = λ s bs r. refl
  indeterminate_loop-Implements (suc fuel) headers =
      >>=-Implements _ _ _ _ has_more_data-Implements (elim [
        | false ↦ pure-Implements headers
        | true ↦ >>=-Implements _ _ _ _ (decode_varint_usize-Implements o laws usize_max) (elim [
          | zero ↦ pure-Implements headers
          | suc len ↦
              indeterminate_round-Implements len _ _ headers (indeterminate_loop-Implements fuel)
        ])
      ])

  pub indeterminate_section-Implements :
      Implements
        (Decoder.decode_indeterminate_length_field_section o h usize_max)
        (FlatDecoder.decode_indeterminate_length_field_section o h usize_max)
  unfolding Decoder.decode_indeterminate_length_field_section
      FlatDecoder.decode_indeterminate_length_field_section
  indeterminate_section-Implements = fuel-Implements _ _ (λ n. indeterminate_loop-Implements n [])

  pub request_control-Implements :
      Implements
        (Decoder.decode_request_control_data o h usize_max)
        (FlatDecoder.decode_request_control_data o h usize_max)
  unfolding Decoder.decode_request_control_data FlatDecoder.decode_request_control_data
  request_control-Implements = >>=-Implements _ _ _ _ counted-Implements λ raw_method.
      >>=-Implements _ _ _ _ (or_invalid-Implements (h.method raw_method)) λ method.
        >>=-Implements _ _ _ _ counted-Implements λ raw_scheme.
          >>=-Implements _ _ _ _ (or_invalid-Implements (h.scheme raw_scheme)) λ scheme.
            >>=-Implements _ _ _ _ counted-Implements λ raw_authority.
              >>=-Implements _ _ _ _ (or_invalid-Implements (optional_authority h raw_authority))
                λ authority. >>=-Implements _ _ _ _ counted-Implements λ raw_path.
                  >>=-Implements _ _ _ _ (or_invalid-Implements (h.path_and_query raw_path))
                    λ path. pure-Implements _

  status-Implements :
      Implements (Decoder.decode_status o h usize_max) (FlatDecoder.decode_status o h usize_max)
  unfolding Decoder.decode_status FlatDecoder.decode_status
  status-Implements =
      >>=-Implements _ _ _ _ (decode_varint_usize-Implements o laws usize_max)
        λ v. or_invalid-Implements (status_of h v)

  skip_round-Implements :
      (informational : Bool) (status : ℕ) (k : ℕ → Async StreamBuf ℕ) (g : ℕ → Flat ℕ)
      → ((next : ℕ) → Implements (k next) (g next))
      → Implements
          (elim informational [
            | false ↦ Async.pure status
            | true ↦
                Async.◌>>=◌
                  (Decoder.decode_known_length_field_section o h usize_max)
                  λ skipped. Async.◌>>=◌ (Decoder.decode_status o h usize_max) k
          ])
          (elim informational [
            | false ↦ FlatBuf.pure status
            | true ↦
                FlatBuf.◌>>=◌
                  (FlatDecoder.decode_known_length_field_section o h usize_max)
                  λ skipped. FlatBuf.◌>>=◌ (FlatDecoder.decode_status o h usize_max) g
          ])
  skip_round-Implements false status k g imp = pure-Implements status
  skip_round-Implements true status k g imp =
      >>=-Implements _ _ _ _ known_length_section-Implements
        λ skipped. >>=-Implements _ _ _ _ status-Implements imp

  skip-Implements :
      (fuel status : ℕ)
      → Implements
          (Decoder.skip_informational o h usize_max fuel status)
          (FlatDecoder.skip_informational o h usize_max fuel status)
  unfolding Decoder.skip_informational FlatDecoder.skip_informational
  skip-Implements zero status = λ s bs r. refl
  skip-Implements (suc fuel) status =
      skip_round-Implements (h.is_informational status) status _ _ (skip-Implements fuel)

  pub response_control-Implements :
      Implements
        (Decoder.decode_response_control_data o h usize_max)
        (FlatDecoder.decode_response_control_data o h usize_max)
  unfolding Decoder.decode_response_control_data FlatDecoder.decode_response_control_data
  response_control-Implements =
      >>=-Implements _ _ _ _ status-Implements
        λ status. fuel-Implements _ _ (λ n. skip-Implements n status)
