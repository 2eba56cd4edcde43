-- ===== src/HyperBinary/Decoder/Implements.antt =====
-- `decode_request` and `decode_response` implement the decoders on the flat byte string.
use pvcli.Prelude.{ℕ, ◌==◌}
use pvcli.Octets.{Octets, OctetsLaws}
use pvcli.Http.{Http}
use pvcli.Poll.{io, invalid_data}
use pvcli.StreamBuf.Awaited.{has_more_data-Implements}
use pvcli.StreamBuf.Refine.{Implements, >>=-Implements, pure-Implements, throw-Implements}
use pvcli.StreamOctets.Refine.{decode_varint_u64-Implements}
use pvcli.HyperBinary.Decoder
use pvcli.HyperBinary.Decoder.Flat as FlatDecoder
use pvcli.HyperBinary.Decoder.Refine.{
  or_invalid-Implements, if-Implements, known_length_section-Implements,
}
use pvcli.HyperBinary.Decoder.Refine.{
  indeterminate_section-Implements, request_control-Implements, response_control-Implements,
}

module _ (o : Octets) (laws : OctetsLaws o) (h : Http) (usize_max : ℕ) where
  known_length_body-Implements :
      Implements
        (Decoder.known_length_body o h usize_max)
        (FlatDecoder.known_length_body o h usize_max)
  unfolding Decoder.known_length_body FlatDecoder.known_length_body
  known_length_body-Implements = >>=-Implements _ _ _ _ has_more_data-Implements λ more.
      >>=-Implements _ _ _ _
        (if-Implements more _ _ _ _ (decode_varint_u64-Implements o laws) (pure-Implements 0))
        λ n. pure-Implements _

  known_length_request-Implements :
      Implements
        (Decoder.decode_known_length_request o h usize_max)
        (FlatDecoder.decode_known_length_request o h usize_max)
  unfolding Decoder.decode_known_length_request FlatDecoder.decode_known_length_request
  known_length_request-Implements =
      >>=-Implements _ _ _ _ (request_control-Implements o laws h usize_max) λ control.
        >>=-Implements _ _ _ _ (known_length_section-Implements o laws h usize_max) λ headers.
          >>=-Implements _ _ _ _ known_length_body-Implements λ body. or_invalid-Implements _

  indeterminate_length_request-Implements :
      Implements
        (Decoder.decode_indeterminate_length_request o h usize_max)
        (FlatDecoder.decode_indeterminate_length_request o h usize_max)
  unfolding Decoder.decode_indeterminate_length_request
      FlatDecoder.decode_indeterminate_length_request
  indeterminate_length_request-Implements =
      >>=-Implements _ _ _ _ (request_control-Implements o laws h usize_max) λ control.
        >>=-Implements _ _ _ _ (indeterminate_section-Implements o laws h usize_max)
          λ headers. or_invalid-Implements _

  known_length_response-Implements :
      Implements
        (Decoder.decode_known_length_response o h usize_max)
        (FlatDecoder.decode_known_length_response o h usize_max)
  unfolding Decoder.decode_known_length_response FlatDecoder.decode_known_length_response
  known_length_response-Implements =
      >>=-Implements _ _ _ _ (response_control-Implements o laws h usize_max) λ status.
        >>=-Implements _ _ _ _ (known_length_section-Implements o laws h usize_max)
          λ headers. >>=-Implements _ _ _ _ known_length_body-Implements λ body. pure-Implements _

  indeterminate_length_response-Implements :
      Implements
        (Decoder.decode_indeterminate_length_response o h usize_max)
        (FlatDecoder.decode_indeterminate_length_response o h usize_max)
  unfolding Decoder.decode_indeterminate_length_response
      FlatDecoder.decode_indeterminate_length_response
  indeterminate_length_response-Implements =
      >>=-Implements _ _ _ _ (response_control-Implements o laws h usize_max) λ status.
        >>=-Implements _ _ _ _ (indeterminate_section-Implements o laws h usize_max)
          λ headers. pure-Implements _

  -- On every clean stream under its size limit, `decode_request` gives what the flat decoder
  -- gives on the concatenated chunks: the same request with the same bytes left, or the same
  -- error. So neither the cut into chunks nor a `Pending` shows in the result.
  pub decode_request-Implements :
      Implements (Decoder.decode_request o h usize_max) (FlatDecoder.decode_request o h usize_max)
  unfolding Decoder.decode_request FlatDecoder.decode_request
  decode_request-Implements =
      >>=-Implements _ _ _ _ (decode_varint_u64-Implements o laws) λ framing.
        if-Implements (framing == 0) _ _ _ _ known_length_request-Implements (
          if-Implements (framing == 2) _ _ _ _ indeterminate_length_request-Implements
            (throw-Implements (io invalid_data)))

  -- The same of `decode_response`.
  pub decode_response-Implements :
      Implements (Decoder.decode_response o h usize_max) (FlatDecoder.decode_response o h usize_max)
  unfolding Decoder.decode_response FlatDecoder.decode_response
  decode_response-Implements =
      >>=-Implements _ _ _ _ (decode_varint_u64-Implements o laws) λ framing.
        if-Implements (framing == 1) _ _ _ _ known_length_response-Implements (
          if-Implements (framing == 3) _ _ _ _ indeterminate_length_response-Implements
            (throw-Implements (io invalid_data)))
