-- ===== src/HyperBinary/Decoder/Served.antt =====
-- What the decoders of crates/hyper-binary/src/decoder/mod.rs answer on a clean stream.
use pvcli.Prelude.{ℕ, Bytes}
use pvcli.Octets.{Octets, OctetsLaws}
use pvcli.Http.{Http}
use pvcli.StreamBuf.{StreamBuf}
use pvcli.StreamBuf.Refine.{Represents, EndsAs}
use pvcli.HyperBinary.Decoder
use pvcli.HyperBinary.Decoder.Flat as FlatDecoder
use pvcli.HyperBinary.Decoder.Implements.{decode_request-Implements, decode_response-Implements}

module _ (o : Octets) (laws : OctetsLaws o) (h : Http) (usize_max : ℕ) where
  -- Let `s` stand for the bytes `bs`: its stream is clean and `bs` fits under the size limit. Then
  -- `decode_request` ends as the flat decoder does on `bs`: with the same request and the same
  -- bytes left, or with the same error. So neither the cut into chunks nor a `Pending` shows.
  pub decode_request_lem :
      (s : StreamBuf) (bs : Bytes)
      → Represents s bs
      → EndsAs
          (FlatDecoder.decode_request o h usize_max bs)
          (Decoder.decode_request o h usize_max s)
  decode_request_lem s bs r = decode_request-Implements o laws h usize_max s bs r

  -- Let `s` stand for the bytes `bs`. Then `decode_response` ends as the flat decoder does on
  -- `bs`: with the same response and the same bytes left, or with the same error.
  pub decode_response_lem :
      (s : StreamBuf) (bs : Bytes)
      → Represents s bs
      → EndsAs
          (FlatDecoder.decode_response o h usize_max bs)
          (Decoder.decode_response o h usize_max s)
  decode_response_lem s bs r = decode_response-Implements o laws h usize_max s bs r
